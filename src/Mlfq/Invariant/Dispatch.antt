-- ===== src/Mlfq/Invariant/Dispatch.antt =====
-- The phases of the scheduler's loop, and the choice of a process.
use hyu_ele3021_operating_sy.Prelude.{
  ℕ, zero, suc, ◌+◌, ◌<◌, ◌≡◌, refl, sym, ap, ◌∙◌, ◌⊎◌, inl, inr, true, false, Option, none, some,
  [], ◌∷◌, arith, if◌then◌else◌, Option-cases,
}
use mathlib.Core.Bool.{false≢true}
use hyu_ele3021_operating_sy.Mlfq.Proc.{Proc, proc_at, running, is_zombie}
use hyu_ele3021_operating_sy.Mlfq.State.{Sys, proc, with_proc, pick_proc}
use hyu_ele3021_operating_sy.Mlfq.Scheduler.{
  Choice, choose, pick_levels, start, dispatch, used_up, next_level,
}
use hyu_ele3021_operating_sy.Mlfq.Invariant.{Inv, with_held-Inv, proc-with_proc_self, can_wait}
use hyu_ele3021_operating_sy.Mlfq.Invariant.Pick.{
  Levels, nothing, taken, pick_levels-Levels, pick_levels-none, pick_levels-some, pick_levels_zero,
}

-- Between two rounds a dictator is the one process outside the queues that may be run.
pub data AtRest {W : Type 0} (s : Sys W) : Type 0 where
  free : s.is_dictated ≡ false → Inv [] s → AtRest s
  ruled :
      (j : ℕ)
      → s.is_dictated ≡ true
      → s.scheduler_dictator ≡ some j
      → can_wait (proc s j).state ≡ true
      → Inv (some j ∷ []) s
      → AtRest s

-- While a process runs, only that process can be the dictator.
pub record Running {W : Type 0} (cur : ℕ) (s : Sys W) : Type 0 where
  pub inv : Inv (some cur ∷ []) s
  pub state : (proc s cur).state ≡ running
  pub rule : s.is_dictated ≡ true → s.scheduler_dictator ≡ some cur

-- When it has come back it sleeps, is RUNNABLE, or is a zombie that no longer dictates.
pub record Returned {W : Type 0} (cur : ℕ) (s : Sys W) : Type 0 where
  pub inv : Inv (some cur ∷ []) s
  pub state :
      (can_wait (proc s cur).state ≡ true)
      ⊎ ((is_zombie (proc s cur).state ≡ true) × (s.is_dictated ≡ false))
  pub rule : s.is_dictated ≡ true → s.scheduler_dictator ≡ some cur

pub data Dispatched {W : Type 0} (r : Option Choice × Sys W) : Type 0 where
  idle : r.0 ≡ none → AtRest r.1 → Dispatched r
  runs :
      (lv j : ℕ)
      → r.0 ≡ some (record { lv = lv; proc_idx = some j })
      → lv < 3
      → Running j r.1
      → Dispatched r

-- The queue of the feedback.
abbrev pub next_queue : ℕ → Proc → ℕ
next_queue lv p = if used_up lv p then next_level lv else lv

pub next_queue-lt : (lv : ℕ) (p : Proc) → lv < 3 → next_queue lv p < 3
next_queue-lt lv p h = ground arith

module _ {W : Type 0} where
  start-Running :
      (j : ℕ) (s : Sys W)
      → Inv (some j ∷ []) s
      → (s.is_dictated ≡ true → s.scheduler_dictator ≡ some j)
      → Running j (with_proc s (some j) (record (proc s j) { state = running }))
  start-Running j s v h = record {
    inv = with_held-Inv [] s j (record (proc s j) { state = running }) v (v.ranks j);
    state =
        ap (λ (p : Proc). p.state)
          (proc-with_proc_self (some j ∷ []) s j (record (proc s j) { state = running }) v v.out.0);
    rule = h;
  }

  dictated-pick_proc : (lv : ℕ) (s : Sys W) → (pick_proc lv s).1.is_dictated ≡ s.is_dictated
  unfolding pick_proc
  dictated-pick_proc lv s = refl

  dictated-pick_levels : (n lv : ℕ) (s : Sys W) → (pick_levels n lv s).1.is_dictated ≡ s.is_dictated
  dictated-pick_levels zero lv s = rw (pick_levels_zero lv s)
  dictated-pick_levels (suc n) lv s = elim (Option-cases (pick_proc lv s).0) [
    | inl e ↦
        rw (pick_levels-none n lv s e)
          (dictated-pick_levels n (lv + 1) (pick_proc lv s).1 ∙ dictated-pick_proc lv s)
    | inr (j, e) ↦ rw (pick_levels-some n lv j s e) (dictated-pick_proc lv s)
  ]

  choose_free : (s : Sys W) → s.is_dictated ≡ false → choose s ≡ pick_levels 3 0 s
  unfolding choose
  choose_free s e = rw e

  choose_ruled :
      (s : Sys W)
      → s.is_dictated ≡ true
      → choose s ≡ (some (record { lv = 0; proc_idx = s.scheduler_dictator }), s)
  unfolding choose
  choose_ruled s e = rw e

  dispatch-none : (s t : Sys W) → choose s ≡ (none, t) → dispatch s ≡ (none, t)
  unfolding dispatch
  dispatch-none s t e = ap (λ (r : Option Choice × Sys W). start r.0 r.1) e

  dispatch-some :
      (s t : Sys W) (c : Choice)
      → choose s ≡ (some c, t)
      → dispatch s
        ≡ (some c, with_proc t c.proc_idx (record (proc_at t.procs c.proc_idx) { state = running }))
  unfolding dispatch
  dispatch-some s t c e = ap (λ (r : Option Choice × Sys W). start r.0 r.1) e

  -- From a state at rest, a round of the scheduler either picks nothing and leaves the state at
  -- rest, or picks a slot of a level below 3 and leaves a state in which that slot's process is
  -- RUNNING and stands in no queue, and nobody else dictates.
  pub dispatch-Dispatched : (s : Sys W) → AtRest s → Dispatched (dispatch s)
  dispatch-Dispatched s (free e v) = step (pick_levels-Levels [] 3 0 s refl v)
    where
      flag : (pick_levels 3 0 s).1.is_dictated ≡ false
      flag = dictated-pick_levels 3 0 s ∙ e

      step : Levels [] 0 s (pick_levels 3 0 s) → Dispatched (dispatch s)
      step (nothing z quiet keep ps w) =
          rw (dispatch-none s _ (choose_free s e ∙ ap (λ c. (c, (pick_levels 3 0 s).1)) z))
            (idle refl (free flag w))
      step (taken l j z h quiet next keep ps w) =
          rw (dispatch-some s _ _ (choose_free s e ∙ ap (λ c. (c, (pick_levels 3 0 s).1)) z)) (
            runs l j refl h
              (start-Running j (pick_levels 3 0 s).1 w (λ t. absurd (false≢true (sym flag ∙ t)))))
  dispatch-Dispatched s (ruled j e d w v) =
      rw
        (dispatch-some s s _
          (choose_ruled s e ∙ ap (λ i. (some (record { lv = 0; proc_idx = i }), s)) d))
        (runs 0 j refl (omega arith) (start-Running j s v (λ _. d)))
