-- ===== src/Mlfq/Control.antt =====
-- Project01-MLFQ/proc.c: `getLevel`, `setPriority`, `schedulerLock` and `schedulerUnlock`. What
-- they print is left out.
use hyu_ele3021_operating_sy.Prelude.{
  ℕ, zero, suc, ◌+◌, ℤ, pos, negsuc, Bool, true, false, not, ◌||◌, Option, none, some, List, ltb,
  ◌==◌, if◌then◌else◌,
}
use hyu_ele3021_operating_sy.Mlfq.Queue.{Fq, Index, push_back, pop_front}
use hyu_ele3021_operating_sy.Mlfq.Proc.{Proc, proc_at, ptr_eq}
use hyu_ele3021_operating_sy.Mlfq.State.{Sys, queue, with_queue, proc, with_proc}
use hyu_ele3021_operating_sy.Mlfq.Boost.{reset, put_in_front}
use hyu_ele3021_operating_sy.Mlfq.Sleep.{is_pid}

-- `PASSWORD` of defs.h
abbrev password_value : ℕ
password_value = 2018008240

abbrev pub is_password : ℤ → Bool
is_password (pos n) = n == password_value
is_password (negsuc n) = false

-- The inner loop of `setPriority`: turn the queue until the entry just put back has the pid.
unfoldable pub find_pid : ℕ → ℤ → List Proc → Fq → Option Index × Fq
find_pid zero pid ps q = (none, q)
find_pid (suc n) pid ps q =
    let (idx, q') = pop_front q in
    if is_pid pid (proc_at ps idx).pid
    then (some idx, push_back q' idx)
    else find_pid n pid ps (push_back q' idx)

-- A call that ends the process says so: `exit` follows.
pub data Verdict (W : Type 0) : Type 0 where
  stays : Sys W → Verdict W
  exits : Sys W → Verdict W

module _ {W : Type 0} where
  unfoldable get_level : ℕ → Sys W → ℤ
  get_level cur s = (proc s cur).qlv

  unfoldable pub find_levels : ℕ → ℕ → ℤ → Sys W → Option Index × Sys W
  unfolding find_pid
  find_levels zero lv pid s = (none, s)
  find_levels (suc n) lv pid s =
      let (found, q) = find_pid (queue s lv).size pid s.procs (queue s lv) in
      elim found [
        | some idx ↦ (some idx, with_queue s lv q)
        | none ↦ find_levels n (lv + 1) pid (with_queue s lv q)
      ]

  -- After the search: a priority out of range and a missing process change nothing.
  unfoldable pub assign : ℤ → Option Index → Sys W → Sys W
  assign (negsuc n) found s = s
  assign (pos k) none s = s
  assign (pos k) (some idx) s =
      if ltb 4 k then s else with_proc s idx (record (proc_at s.procs idx) { priority = k })

  unfoldable pub set_priority : ℤ → ℤ → Sys W → Sys W
  unfolding find_levels assign
  set_priority pid priority s = let (found, s') = find_levels 3 0 pid s in assign priority found s'

  unfoldable pub scheduler_lock : ℤ → ℕ → Sys W → Verdict W
  scheduler_lock password cur s =
      if s.is_dictated
      then exits (record s { scheduler_dictator = none; is_dictated = false })
      else (if not (is_password password)
          then exits s
          else stays
              (record (with_proc s (some cur)
                (record (proc s cur) { consumed_tq = 0; qlv = negsuc 0 })) {
                  global_ticks = 0;
                  scheduler_dictator = some cur;
                  is_dictated = true;
                }))

  unfoldable pub scheduler_unlock : ℤ → ℕ → Sys W → Verdict W
  unfolding put_in_front
  scheduler_unlock password cur s =
      if not (is_password password)
      then exits s
      else (if not s.is_dictated || not (ptr_eq (some cur) s.scheduler_dictator)
          then stays s
          else stays
              (record (put_in_front 0 (some cur) (with_proc s (some cur) (reset (proc s cur)))) {
                scheduler_dictator = none;
                is_dictated = false;
              }))
