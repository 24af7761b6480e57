-- ===== src/Fs/Calls.antt =====
-- Project03-FileSystem/file.h, proc.h and kalloc.c: the state that the system calls on files work on.
-- The modules below it model file.c, sysfile.c, the files of pipe.c, and the arguments of syscall.c.
pub mod Args
pub mod Table
pub mod Descriptors
pub mod Naming
pub mod Create
pub mod Opening
pub mod Dispatch
pub mod Finish
pub mod Balance
use hyu_ele3021_operating_sy.Prelude.{
  ℕ, Bool, false, Option, none, some, List, [], ◌∷◌, replicate, ℤ, minus_one,
}
use hyu_ele3021_operating_sy.Io.Pipe.{Pipe}
use hyu_ele3021_operating_sy.Fs.Blocks.{Superblock}
use hyu_ele3021_operating_sy.Fs.Names.{Files}
use hyu_ele3021_operating_sy.Fs.Run.{Run, ok, sleeps, panics, overruns, unfinished, Cmd, pure}
use hyu_ele3021_operating_sy.Fs.Handles.{Task}

pub data Kind : Type 0 where
  fd_none : Kind
  fd_pipe : Kind
  fd_inode : Kind

-- `struct file`; `pipe` and `ip` are the places of a pipe and of an inode.
pub record OpenFile : Type 0 where
  pub kind : Kind
  pub ref : ℕ
  pub readable : Bool
  pub writable : Bool
  pub pipe : ℕ
  pub ip : ℕ
  pub off : ℕ

abbrev pub blank_file : OpenFile
blank_file = record {
  kind = fd_none;
  ref = 0;
  readable = false;
  writable = false;
  pipe = 0;
  ip = 0;
  off = 0;
}

-- The memory of the process: its bytes, its size, and its stack pointer at the call.
pub record User : Type 0 where
  pub mem : ℕ → ℕ
  pub sz : ℕ
  pub esp : ℕ

-- A pipe that has been freed is `none`; `free_pages` is the free list with the bytes of its pages.
pub record System : Type 0 where
  pub sb : Superblock
  pub files : Files
  pub ftable : List OpenFile
  pub pipes : List (Option Pipe)
  pub free_pages : List (List ℕ)
  pub pid : ℕ
  pub killed : Bool
  pub cwd : ℕ
  pub ofile : List (Option ℕ)
  pub user : User

abbrev pub task : System → Task
task s = record { sb = s.sb; pid = s.pid; cwd = s.cwd; killed = s.killed }

unfoldable pub with_files : {A : Type 0} → System → Run Files A → Run System A
with_files s (ok a f) = ok a (record s { files = f })
with_files s sleeps = sleeps
with_files s panics = panics
with_files s overruns = overruns
with_files s unfinished = unfinished

-- A command on the inodes and blocks, for the process that makes the call.
unfoldable pub on_files : {A : Type 0} → (Task → Cmd Files A) → Cmd System A
unfolding with_files
on_files m s = with_files s (m (task s) s.files)

-- `return -1` where there is no value.
unfoldable pub or_fail : {S A : Type 0} → Option A → (A → Cmd S ℤ) → Cmd S ℤ
or_fail none next = pure minus_one
or_fail (some a) next = next a

-- The page that `kalloc` takes, and the free list after `kfree`.
unfoldable pub kalloc : List (List ℕ) → Option (List ℕ × List (List ℕ))
kalloc [] = none
kalloc (page ∷ pages) = some (page, pages)

unfoldable pub kfree : List (List ℕ) → List (List ℕ)
kfree pages = replicate 4096 1 ∷ pages
