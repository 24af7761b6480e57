-- ===== src/Threads/Table.antt =====
-- Project02-Thread/proc.h: `struct proc` and `struct pthread_t`, and the tables `ptable.proc` and
-- `pthread_table.pthread` of proc.c. A pointer into a table is the index of its slot. Of the trap
-- frame only `eip` and `esp` are kept, with the thread whose kernel stack holds it; the saved
-- context and the debugging name are left out.
use hyu_ele3021_operating_sy.Prelude.{
  ℕ, Bool, true, false, Option, none, some, List, get_or, set, replicate,
}
use hyu_ele3021_operating_sy.Mlfq.Proc.{Chan, null}

-- `NTHRD` and `MAINTH` of param.h
abbrev pub nthrd : ℕ
nthrd = 256

abbrev pub main_th : ℕ
main_th = 1

pub data ThState : Type 0 where
  unused embryo sleeping runnable running zombie th_zombie : ThState

abbrev pub is_unused : ThState → Bool
is_unused unused = true
is_unused _ = false

abbrev pub is_sleeping : ThState → Bool
is_sleeping sleeping = true
is_sleeping _ = false

abbrev pub is_runnable : ThState → Bool
is_runnable runnable = true
is_runnable _ = false

abbrev pub is_running : ThState → Bool
is_running running = true
is_running _ = false

abbrev pub is_zombie : ThState → Bool
is_zombie zombie = true
is_zombie _ = false

abbrev pub is_th_zombie : ThState → Bool
is_th_zombie th_zombie = true
is_th_zombie _ = false

pub record Thread : Type 0 where
  pub th_sz : ℕ
  pub pid : ℕ
  pub kstack : ℕ
  pub state : ThState
  pub chan : Chan
  pub ptable_idx : ℕ
  pub thread_id : ℕ
  pub joiner_pthread : Option ℕ
  pub retval : ℕ
  pub eip : ℕ
  pub esp : ℕ

pub record Proc : Type 0 where
  pub pgdir : ℕ
  pub parent_proc : Option ℕ
  pub parent_pthread : Option ℕ
  pub cwd : ℕ
  pub ofile : List ℕ
  pub memlimit : ℕ
  pub thread_assign : ℕ
  pub stacksz : ℕ
  pub freed_sz : List ℕ
  pub front : ℕ
  pub back : ℕ
  pub freed : ℕ
  pub pid : ℕ
  pub sz : ℕ
  pub main_thread_idx : ℕ
  pub th_sz : ℕ
  pub kstack : ℕ
  pub state : ThState
  pub chan : Chan
  pub killed : Bool
  pub thread_id : ℕ
  pub joiner_pthread : Option ℕ
  pub thread_idx : ℕ

-- Slots of the zeroed tables.
abbrev pub blank_thread : Thread
blank_thread = record {
  th_sz = 0;
  pid = 0;
  kstack = 0;
  state = unused;
  chan = null;
  ptable_idx = 0;
  thread_id = 0;
  joiner_pthread = none;
  retval = 0;
  eip = 0;
  esp = 0;
}

abbrev pub blank_proc : Proc
blank_proc = record {
  pgdir = 0;
  parent_proc = none;
  parent_pthread = none;
  cwd = 0;
  ofile = replicate 16 0;
  memlimit = 0;
  thread_assign = 0;
  stacksz = 0;
  freed_sz = replicate nthrd 0;
  front = 0;
  back = 0;
  freed = 0;
  pid = 0;
  sz = 0;
  main_thread_idx = 0;
  th_sz = 0;
  kstack = 0;
  state = unused;
  chan = null;
  killed = false;
  thread_id = 0;
  joiner_pthread = none;
  thread_idx = 0;
}

pub record Sys (W : Type 0) : Type 0 where
  pub procs : List Proc
  pub threads : List Thread
  pub initproc : Option ℕ
  pub nextpid : ℕ
  pub world : W

module _ {W : Type 0} where
  abbrev pub proc : Sys W → ℕ → Proc
  proc s i = get_or s.procs i blank_proc

  abbrev pub with_proc : Sys W → ℕ → Proc → Sys W
  with_proc s i p = record s { procs = set s.procs i p }

  abbrev pub thread : Sys W → ℕ → Thread
  thread s j = get_or s.threads j blank_thread

  abbrev pub with_thread : Sys W → ℕ → Thread → Sys W
  with_thread s j t = record s { threads = set s.threads j t }

-- `th->joiner_pthread->thread_id`; through a null pointer it reads as the zeroed slot.
abbrev pub id_of : List Thread → Option ℕ → ℕ
id_of ths none = 0
id_of ths (some j) = (get_or ths j blank_thread).thread_id
