-- ===== src/Mlfq/State.antt =====
-- Project01-MLFQ/proc.c: the globals of the scheduler, and `enQ`, `deQ` and `pickProc` on them.
-- `ptable.lock` is held over each function below from its `acquire` to its `release`, so such a
-- stretch is one step on the state. `world` is the rest of the kernel (memory, files, inodes).
use hyu_ele3021_operating_sy.Prelude.{
  ℕ, Bool, false, Option, none, some, List, replicate, get_or, set,
}
use hyu_ele3021_operating_sy.Mlfq.Queue.{Fq, Index, nproc, empty_fq, push_back, pop_front}
use hyu_ele3021_operating_sy.Mlfq.Proc.{Proc, blank, proc_at, put_at}
use hyu_ele3021_operating_sy.Mlfq.Pick.{pick_queue}

pub record Sys (W : Type 0) : Type 0 where
  pub procs : List Proc
  pub mlfq : List Fq
  pub initproc : Option ℕ
  pub nextpid : ℕ
  pub global_ticks : ℕ
  pub scheduler_dictator : Index
  pub is_dictated : Bool
  pub world : W

-- The state that the kernel starts in.
abbrev pub boot : {W : Type 0} → W → Sys W
boot w = record {
  procs = replicate nproc blank;
  mlfq = replicate 3 empty_fq;
  initproc = none;
  nextpid = 1;
  global_ticks = 0;
  scheduler_dictator = none;
  is_dictated = false;
  world = w;
}

module _ {W : Type 0} where
  -- `mlfq[lv]`
  abbrev pub queue : Sys W → ℕ → Fq
  queue s lv = get_or s.mlfq lv empty_fq

  abbrev pub with_queue : Sys W → ℕ → Fq → Sys W
  with_queue s lv q = record s { mlfq = set s.mlfq lv q }

  -- `ptable.proc[i]`
  abbrev pub proc : Sys W → ℕ → Proc
  proc s i = proc_at s.procs (some i)

  abbrev pub with_proc : Sys W → Index → Proc → Sys W
  with_proc s i p = record s { procs = put_at s.procs i p }

  unfoldable pub en_q : ℕ → Index → Sys W → Sys W
  en_q lv idx s = with_queue s lv (push_back (queue s lv) idx)

  unfoldable pub de_q : ℕ → Sys W → Index × Sys W
  de_q lv s = let (idx, q) = pop_front (queue s lv) in (idx, with_queue s lv q)

  unfoldable pub pick_proc : ℕ → Sys W → Index × Sys W
  pick_proc lv s = let (idx, q) = pick_queue lv s.procs (queue s lv) in (idx, with_queue s lv q)
