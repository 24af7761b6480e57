-- ===== src/Mlfq/Machine/Reached.antt =====
-- What the scheduler's loop promises in every configuration that it reaches from boot without a
-- `schedulerUnlock` that takes effect.
use hyu_ele3021_operating_sy.Prelude.{ℕ, ◌≤◌, ◌<◌, ◌≡◌, true, some, List, [], ◌∷◌, arith}
use hyu_ele3021_operating_sy.Mlfq.Queue.{Index, nproc}
use hyu_ele3021_operating_sy.Mlfq.Proc.{ProcState}
use hyu_ele3021_operating_sy.Mlfq.Kernel.{Kernel}
use hyu_ele3021_operating_sy.Mlfq.State.{Sys, proc, queue}
use hyu_ele3021_operating_sy.Mlfq.Count.{total}
use hyu_ele3021_operating_sy.Mlfq.Invariant.{Inv, can_wait, has_room, hit_self}
use hyu_ele3021_operating_sy.Mlfq.Invariant.Dispatch.{free, ruled}
use hyu_ele3021_operating_sy.Mlfq.Machine.{Config, rests, came_back, CalmReach}
use hyu_ele3021_operating_sy.Mlfq.Machine.Safety.{
  Sound, at_rest, running, returned, CalmReach-Sound,
}

-- The state of a configuration.
abbrev state_of : {W : Type 0} → Config W → Sys W
state_of (rests s) = s
state_of (Config.runs lv j s) = s
state_of (came_back lv j s) = s

module _ {W : Type 0} where
  -- The processes of a sound configuration that stand in no queue.
  Sound-Inv : (c : Config W) → Sound c → (held : List Index) × Inv held (state_of c)
  Sound-Inv _ (at_rest s (free e v)) = ([], v)
  Sound-Inv _ (at_rest s (ruled j e d w v)) = (some j ∷ [], v)
  Sound-Inv _ (running lv j s h r) = (some j ∷ [], r.inv)
  Sound-Inv _ (returned lv j s h r) = (some j ∷ [], r.inv)

module _ (k : Kernel) where
  open k use {World}

  -- In every configuration that the loop reaches from boot without a `schedulerUnlock` that takes
  -- effect, no process stands twice in the three queues, every queued process sleeps or is
  -- RUNNABLE, and no queue holds more than `NPROC` entries.
  pub reached_once :
      (w : World) (c : Config World)
      → CalmReach k w c
      → ((i : ℕ) → total i (state_of c).mlfq ≤ 1)
        × ((i : ℕ) → 0 < total i (state_of c).mlfq → can_wait (proc (state_of c) i).state ≡ true)
        × ((lv : ℕ) → lv < 3 → (queue (state_of c) lv).size ≤ nproc)
  reached_once w c r =
      let (held, v) = Sound-Inv c (CalmReach-Sound k w c r) in
      (
        (λ i. omega (arith, v.once i)),
        v.live,
        (λ lv h. omega (arith, has_room held (state_of c) lv v h)),
      )

  -- Whenever the loop runs a process and was reached from boot without a `schedulerUnlock` that
  -- takes effect, that process is in state RUNNING and stands in no queue, and if somebody dictates
  -- it is that process.
  pub reached_alone :
      (w : World) (lv j : ℕ) (s : Sys World)
      → CalmReach k w (Config.runs lv j s)
      → ((proc s j).state ≡ ProcState.running)
        × (total j s.mlfq ≡ 0)
        × (s.is_dictated ≡ true → s.scheduler_dictator ≡ some j)
  reached_alone w lv j s r = step (CalmReach-Sound k w _ r)
    where
      step :
          Sound (Config.runs lv j s)
          → ((proc s j).state ≡ ProcState.running)
            × (total j s.mlfq ≡ 0)
            × (s.is_dictated ≡ true → s.scheduler_dictator ≡ some j)
      step (running _ _ _ h x) = (x.state, omega (arith, x.inv.once j, hit_self j), x.rule)
