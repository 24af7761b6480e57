-- ===== src/Mlfq/Boost.antt =====
-- Project01-MLFQ/proc.c: `priorityBoost`, and the move of a process to the front of L0 that it
-- shares with `schedulerUnlock`.
use hyu_ele3021_operating_sy.Prelude.{ℕ, zero, suc, ◌+◌, false, none, pos, if◌then◌else◌}
use hyu_ele3021_operating_sy.Mlfq.Queue.{Index}
use hyu_ele3021_operating_sy.Mlfq.Proc.{Proc, proc_at}
use hyu_ele3021_operating_sy.Mlfq.State.{Sys, queue, with_proc, en_q, de_q}

-- What becomes of a process in L0: the top level, the default priority and a new quantum.
abbrev pub reset : Proc → Proc
reset p = record p { priority = 3; qlv = pos 0; consumed_tq = 0 }

module _ {W : Type 0} where
  -- for (i = 0; i < n; i++) enQ(lv, deQ(lv));
  unfoldable pub rotate : ℕ → ℕ → Sys W → Sys W
  rotate zero lv s = s
  rotate (suc n) lv s = let (idx, s') = de_q lv s in rotate n lv (en_q lv idx s')

  -- `enQ` at the back, then the `sz` entries that were there before go behind it.
  unfoldable pub put_in_front : ℕ → Index → Sys W → Sys W
  unfolding rotate
  put_in_front lv idx s = let sz = (queue s lv).size in rotate sz lv (en_q lv idx s)

  -- The inner loop of the boost on level `lv`.
  unfoldable pub boost_level : ℕ → ℕ → Sys W → Sys W
  boost_level zero lv s = s
  boost_level (suc n) lv s =
      let (idx, s') = de_q lv s in
      boost_level n lv (en_q 0 idx (with_proc s' idx (reset (proc_at s'.procs idx))))

  unfoldable pub boost_levels : ℕ → ℕ → Sys W → Sys W
  unfolding boost_level
  boost_levels zero lv s = s
  boost_levels (suc n) lv s = boost_levels n (lv + 1) (boost_level (queue s lv).size lv s)

  -- A dictator loses the lock and goes to the front of L0.
  unfoldable pub depose : Sys W → Sys W
  unfolding put_in_front
  depose s =
      if s.is_dictated
      then record (put_in_front 0 s.scheduler_dictator s) {
        is_dictated = false;
        scheduler_dictator = none;
      }
      else s

  unfoldable pub priority_boost : Sys W → Sys W
  unfolding depose boost_levels
  priority_boost s = boost_levels 3 0 (depose s)
