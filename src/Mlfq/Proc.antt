-- ===== src/Mlfq/Proc.antt =====
-- Project01-MLFQ/proc.h: `enum procstate` and `struct proc`, and the process table `ptable.proc`.
-- A process pointer is the index of its slot in the table. The trap frame, the saved context and
-- the debugging name are left out: nothing modelled here reads them.
use hyu_ele3021_operating_sy.Prelude.{
  ℕ, ℤ, Bool, true, false, ◌==◌, Option, none, some, List, get_or, set, pos, replicate,
}
use hyu_ele3021_operating_sy.Mlfq.Queue.{Index}

pub data ProcState : Type 0 where
  unused embryo sleeping runnable running zombie : ProcState

abbrev pub is_unused : ProcState → Bool
is_unused unused = true
is_unused _ = false

abbrev pub is_sleeping : ProcState → Bool
is_sleeping sleeping = true
is_sleeping _ = false

abbrev pub is_runnable : ProcState → Bool
is_runnable runnable = true
is_runnable _ = false

abbrev pub is_running : ProcState → Bool
is_running running = true
is_running _ = false

abbrev pub is_zombie : ProcState → Bool
is_zombie zombie = true
is_zombie _ = false

-- What `void *chan` points at: nothing, a slot of the process table, or another kernel object.
pub data Chan : Type 0 where
  null : Chan
  slot : ℕ → Chan
  object : ℕ → Chan

abbrev pub chan_eq : Chan → Chan → Bool
chan_eq null null = true
chan_eq (slot i) (slot j) = i == j
chan_eq (object i) (object j) = i == j
chan_eq _ _ = false

-- A process pointer as a channel; `none` is the null pointer.
abbrev pub chan_of : Option ℕ → Chan
chan_of none = null
chan_of (some i) = slot i

abbrev pub ptr_eq : Option ℕ → Option ℕ → Bool
ptr_eq none none = true
ptr_eq (some i) (some j) = i == j
ptr_eq _ _ = false

-- Addresses (`pgdir`, `kstack`, files, inodes) are numbers, with 0 for the null pointer.
pub record Proc : Type 0 where
  pub sz : ℕ
  pub pgdir : ℕ
  pub kstack : ℕ
  pub state : ProcState
  pub pid : ℕ
  pub parent : Option ℕ
  pub chan : Chan
  pub killed : Bool
  pub ofile : List ℕ
  pub cwd : ℕ
  pub priority : ℕ
  pub qlv : ℤ
  pub consumed_tq : ℕ

abbrev nofile : ℕ
nofile = 16

-- A slot of the zeroed table.
abbrev pub blank : Proc
blank = record {
  sz = 0;
  pgdir = 0;
  kstack = 0;
  state = unused;
  pid = 0;
  parent = none;
  chan = null;
  killed = false;
  ofile = replicate nofile 0;
  cwd = 0;
  priority = 0;
  qlv = pos 0;
  consumed_tq = 0;
}

-- `ptable.proc[i]`. A read outside the table, -1 included, gives a blank slot, and a write there
-- changes nothing.
abbrev pub proc_at : List Proc → Index → Proc
proc_at ps none = blank
proc_at ps (some i) = get_or ps i blank

abbrev pub put_at : List Proc → Index → Proc → List Proc
put_at ps none p = ps
put_at ps (some i) p = set ps i p
