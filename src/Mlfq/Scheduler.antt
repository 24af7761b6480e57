-- ===== src/Mlfq/Scheduler.antt =====
-- Project01-MLFQ/proc.c: one round of the `for (;;)` of `scheduler`, before and after the `swtch`
-- to the chosen process, and the timer's `global_ticks++` of trap.c.
use hyu_ele3021_operating_sy.Prelude.{
  ℕ, zero, suc, ◌+◌, ◌-◌, ◌*◌, ◌%◌, ◌^◌, Bool, Option, none, some, pos, ltb, leb, ◌==◌,
  if◌then◌else◌,
}
use hyu_ele3021_operating_sy.Mlfq.Queue.{Index}
use hyu_ele3021_operating_sy.Mlfq.Proc.{Proc, running, is_zombie, proc_at}
use hyu_ele3021_operating_sy.Mlfq.State.{Sys, with_proc, en_q, pick_proc}
use hyu_ele3021_operating_sy.Mlfq.Boost.{priority_boost}

-- A choice of the scheduler: the level and the process.
pub record Choice : Type 0 where
  pub lv : ℕ
  pub proc_idx : Index

-- The new level after a full quantum, `lv + 1 < 2 ? lv + 1 : 2`.
abbrev pub next_level : ℕ → ℕ
next_level lv = if ltb (lv + 1) 2 then lv + 1 else 2

-- `p->priority - 1 >= 0 ? p->priority - 1 : 0`
abbrev pub raise : ℕ → ℕ
raise n = if leb 1 n then n - 1 else 0

-- The quantum `lv * 2 + 4` of a level is used up.
abbrev pub used_up : ℕ → Proc → Bool
used_up lv p = leb (lv * 2 + 4) p.consumed_tq

-- `p->consumed_tq++` on a `uint`
abbrev pub charge : Proc → Proc
charge p = record p { consumed_tq = (p.consumed_tq + 1) % 2 ^ 32 }

-- The process after a full quantum on level `lv`.
abbrev pub demote : ℕ → Proc → Proc
demote lv p = record p {
  priority = if lv == 2 then raise p.priority else p.priority;
  qlv = pos (next_level lv);
  consumed_tq = 0;
}

module _ {W : Type 0} where
  -- for (lv = 0; lv < 3; lv++): the first level with a RUNNABLE process.
  unfoldable pub pick_levels : ℕ → ℕ → Sys W → Option Choice × Sys W
  pick_levels zero lv s = (none, s)
  pick_levels (suc n) lv s =
      let (idx, s') = pick_proc lv s in
      elim idx [
        | some i ↦ (some (record { lv = lv; proc_idx = some i }), s')
        | none ↦ pick_levels n (lv + 1) s'
      ]

  unfoldable pub choose : Sys W → Option Choice × Sys W
  choose s =
      if s.is_dictated
      then (some (record { lv = 0; proc_idx = s.scheduler_dictator }), s)
      else pick_levels 3 0 s

  -- The choice is marked RUNNING; without one the round ends.
  unfoldable pub start : Option Choice → Sys W → Option Choice × Sys W
  start none s = (none, s)
  start (some c) s =
      (some c, with_proc s c.proc_idx (record (proc_at s.procs c.proc_idx) { state = running }))

  -- The round up to `swtch`.
  unfoldable pub dispatch : Sys W → Option Choice × Sys W
  unfolding choose start
  dispatch s = let (c, s') = choose s in start c s'

  -- The feedback to a process that came back while nobody dictates.
  unfoldable pub requeue : ℕ → Index → Sys W → Sys W
  requeue lv idx s =
      let p = proc_at s.procs idx in
      let lv' = (if used_up lv p then next_level lv else lv) in
      let s' = (if used_up lv p then with_proc s idx (demote lv p) else s) in
      if is_zombie (proc_at s'.procs idx).state then s' else en_q lv' idx s'

  unfoldable pub boost_if_due : Sys W → Sys W
  boost_if_due s =
      if leb 100 s.global_ticks then priority_boost (record s { global_ticks = 0 }) else s

  -- The round after `swtch` has come back.
  unfoldable pub feedback : Choice → Sys W → Sys W
  unfolding requeue boost_if_due
  feedback c s =
      let s' = with_proc s c.proc_idx (charge (proc_at s.procs c.proc_idx)) in
      boost_if_due (if s'.is_dictated then s' else requeue c.lv c.proc_idx s')

  -- `global_ticks++` of the timer interrupt, on a `uint`
  unfoldable pub timer_tick : Sys W → Sys W
  timer_tick s = record s { global_ticks = (s.global_ticks + 1) % 2 ^ 32 }
