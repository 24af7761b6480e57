-- ===== src/Mlfq/Machine/Safety.antt =====
-- What every step of the scheduler's loop keeps, and the one step that does not.
use hyu_ele3021_operating_sy.Prelude.{
  ap, if_true, if_false, ℕ, zero, ◌<◌, ◌≡◌, refl, sym, subst, ◌∙◌, inl, inr, Bool, true, false, not,
  ◌||◌, none, some, [], ◌∷◌, ◌==◌, Bool-cases, ℤ, pos,
}
use mathlib.Core.Bool.{false≢true}
use hyu_ele3021_operating_sy.Mlfq.Machine.{CalmStep, Step, calm, unlocks}
use hyu_ele3021_operating_sy.Mlfq.Queue.{nproc}
use hyu_ele3021_operating_sy.Mlfq.Proc.{Proc, null, ptr_eq}
use hyu_ele3021_operating_sy.Mlfq.Kernel.{Kernel}
use hyu_ele3021_operating_sy.Mlfq.State.{Sys, proc, boot}
use hyu_ele3021_operating_sy.Mlfq.Scheduler.{dispatch, timer_tick}
use hyu_ele3021_operating_sy.Mlfq.Sleep.{Outcome, away, sleep_end}
use hyu_ele3021_operating_sy.Mlfq.Control.{
  stays, exits, is_password, scheduler_lock, scheduler_unlock,
}
use hyu_ele3021_operating_sy.Mlfq.Life.{reaped, refused, waits, wait_turn, growproc, resize}
use hyu_ele3021_operating_sy.Mlfq.Invariant.{Inv-same}
use hyu_ele3021_operating_sy.Mlfq.Invariant.Dispatch.{
  AtRest, Running, Returned, Dispatched, idle, runs, dispatch-Dispatched,
}
use hyu_ele3021_operating_sy.Mlfq.Invariant.Feedback.{feedback-AtRest}
use hyu_ele3021_operating_sy.Mlfq.Invariant.Gentle.{
  Gentle, Gentle-refl, Gentle-same, Gentle-Running, Gentle-AtRest, with_proc-Gentle, wakeup1-Gentle,
  kill-Gentle,
}
use hyu_ele3021_operating_sy.Mlfq.Invariant.Switch.{
  Switches, yield-Switches, sleep-Switches, exit-Switches,
}
use hyu_ele3021_operating_sy.Mlfq.Invariant.Life.{fork-Running, reap-Gentle}
use hyu_ele3021_operating_sy.Mlfq.Invariant.Wait.{
  Scanned, one, childless, stopped, sleeps, wait_turn-Scanned,
}
use hyu_ele3021_operating_sy.Mlfq.Invariant.Control.{set_priority-Running, scheduler_lock-Running}
use hyu_ele3021_operating_sy.Mlfq.Invariant.Unlock.{unlock_queues_running}
use hyu_ele3021_operating_sy.Mlfq.Invariant.Init.{boot-Inv, userinit-AtRest}
use hyu_ele3021_operating_sy.Mlfq.Machine.{Config, rests, came_back, chosen, CalmReach}

-- The invariant of each phase.
pub data Sound {W : Type 0} : Config W → Type 0 where
  at_rest : (s : Sys W) → AtRest s → Sound (rests s)
  running : (lv j : ℕ) (s : Sys W) → lv < 3 → Running j s → Sound (Config.runs lv j s)
  returned : (lv j : ℕ) (s : Sys W) → lv < 3 → Returned j s → Sound (came_back lv j s)

module _ {W : Type 0} where
  timer_tick-Gentle : (s : Sys W) → Gentle s (timer_tick s)
  timer_tick-Gentle s =
      unfold timer_tick in Gentle-same (timer_tick s) (Gentle-refl s) refl refl refl refl

  sleep_end-Gentle : (j : ℕ) (s : Sys W) → Gentle s (sleep_end j s)
  unfolding sleep_end
  sleep_end-Gentle j s =
      with_proc-Gentle s j (record (proc s j) { chan = null })
        (record { waits = λ h. h; runs = λ h. h; rank = λ h. h })

  Dispatched-Running :
      (lv j : ℕ) (s t : Sys W)
      → Dispatched (dispatch s)
      → dispatch s ≡ (some (chosen lv j), t)
      → (lv < 3) × Running j t
  Dispatched-Running lv j s t d e = step (subst Dispatched e d)
    where
      step : Dispatched (some (chosen lv j), t) → (lv < 3) × Running j t
      step (idle z r) = absurd (differ z)
        where
          differ : some (chosen lv j) ≡ none → ⊥
          differ q = cc
      step (runs l i z h r) =
          (subst (λ n. n < 3) (sym (level z)) h, subst (λ n. Running n t) (sym (slot z)) r)
        where
          level : some (chosen lv j) ≡ some (chosen l i) → lv ≡ l
          level q = cc

          slot : some (chosen lv j) ≡ some (chosen l i) → j ≡ i
          slot q = cc

  stalled-AtRest : (s t : Sys W) → Dispatched (dispatch s) → dispatch s ≡ (none, t) → AtRest t
  stalled-AtRest s t d e = step (subst Dispatched e d)
    where
      step : Dispatched (none, t) → AtRest t
      step (idle z r) = r
      step (runs l i z h r) = absurd (differ z)
        where
          differ : none ≡ some (chosen l i) → ⊥
          differ q = cc

  pub switched :
      (cur : ℕ) (o : Outcome W) (t : Sys W) → Switches cur o → o ≡ away t → Returned cur t
  switched cur o t (u, e, r) f = subst (Returned cur) (same (sym e ∙ f)) r
    where
      same : {a b : Sys W} → away a ≡ away b → a ≡ b
      same q = cc

  lock_refused-Running :
      (password : ℤ) (cur : ℕ) (s t : Sys W)
      → Running cur s
      → scheduler_lock password cur s ≡ exits t
      → Running cur t
  unfolding scheduler_lock
  lock_refused-Running password cur s t r e = elim (Bool-cases s.is_dictated) [
    | inl d ↦ subst (Running cur) (inside (sym (if_true _ _ d) ∙ e)) (record {
      inv = Inv-same (some cur ∷ []) s lost r.inv refl refl;
      state = r.state;
      rule = λ f. absurd (false≢true f);
    })
    | inr d ↦ elim (Bool-cases (not (is_password password))) [
      | inl w ↦ subst (Running cur) (inside (sym (if_false _ _ d ∙ if_true _ _ w) ∙ e)) r
      | inr w ↦ absurd (differ (sym (if_false _ _ d ∙ if_false _ _ w) ∙ e))
    ]
  ]
    where
      lost : Sys W
      lost = record s { scheduler_dictator = none; is_dictated = false }

      inside : {a b : Sys W} → exits a ≡ exits b → a ≡ b
      inside z = cc

      differ : {a b : Sys W} → stays a ≡ exits b → ⊥
      differ z = cc

  -- `schedulerUnlock` that goes on to `exit`, or that finds nobody in charge, changes nothing.
  unlock_refused-same :
      (password : ℤ) (cur : ℕ) (s t : Sys W) → scheduler_unlock password cur s ≡ exits t → s ≡ t
  unfolding scheduler_unlock
  unlock_refused-same password cur s t e = elim (Bool-cases (not (is_password password))) [
    | inl w ↦ inside (sym (if_true _ _ w) ∙ e)
    | inr w ↦
        elim (Bool-cases (not s.is_dictated || not (ptr_eq (some cur) s.scheduler_dictator))) [
          | inl d ↦ absurd (differ (sym (if_false _ _ w ∙ if_true _ _ d) ∙ e))
          | inr d ↦ absurd (differ (sym (if_false _ _ w ∙ if_false _ _ d) ∙ e))
        ]
  ]
    where
      inside : {a b : Sys W} → exits a ≡ exits b → a ≡ b
      inside z = cc

      differ : {a b : Sys W} → stays a ≡ exits b → ⊥
      differ z = cc

  unlock_void-same :
      (password : ℤ) (cur : ℕ) (s t : Sys W)
      → s.is_dictated ≡ false
      → scheduler_unlock password cur s ≡ stays t
      → s ≡ t
  unfolding scheduler_unlock
  unlock_void-same password cur s t d e = elim (Bool-cases (not (is_password password))) [
    | inl w ↦ absurd (differ (sym (if_true _ _ w) ∙ e))
    | inr w ↦ inside (sym (if_false _ _ w ∙ if_true _ _ nobody) ∙ e)
  ]
    where
      nobody : (not s.is_dictated || not (ptr_eq (some cur) s.scheduler_dictator)) ≡ true
      nobody = rw d refl

      inside : {a b : Sys W} → stays a ≡ stays b → a ≡ b
      inside z = cc

      differ : {a b : Sys W} → exits a ≡ stays b → ⊥
      differ z = cc

module _ {W : Type 0} where
  right_password :
      (password : ℤ) (cur : ℕ) (s t : Sys W)
      → scheduler_unlock password cur s ≡ stays t
      → is_password password ≡ true
  unfolding scheduler_unlock
  right_password password cur s t e = elim (Bool-cases (is_password password)) [
    | inl w ↦ w
    | inr w ↦ absurd (differ (sym (if_true _ _ (ap not w)) ∙ e))
  ]
    where
      differ : {a b : Sys W} → exits a ≡ stays b → ⊥
      differ z = cc

  breaks :
      (password : ℤ) (lv cur : ℕ) (s t : Sys W)
      → Running cur s
      → s.is_dictated ≡ true
      → scheduler_unlock password cur s ≡ stays t
      → ¬ Sound (Config.runs lv cur t)
  breaks password lv cur s t r d e (running _ _ _ h x) =
      let (u, f, a, b, c, z) =
        unlock_queues_running password cur s r d (right_password password cur s t e) in
      z (subst (Running cur) (same (sym e ∙ f)) x)
    where
      same : {a b : Sys W} → stays a ≡ stays b → a ≡ b
      same q = cc

module _ (k : Kernel) where
  open k use {World}

  growproc-Gentle : (n : ℤ) (cur : ℕ) (s : Sys World) → Gentle s (growproc k n cur s).1
  unfolding growproc
  growproc-Gentle n cur s = elim (Bool-cases (elim n [ pos zero ↦ false | _ ↦ r.0 == 0 ])) [
    | inl e ↦
        subst (λ (x : Bool × Sys World). Gentle s x.1) (sym (if_true _ _ e))
          (Gentle-same _ (Gentle-refl s) refl refl refl refl)
    | inr e ↦
        subst (λ (x : Bool × Sys World). Gentle s x.1) (sym (if_false _ _ e))
          (Gentle-same _
            (with_proc-Gentle s cur p (record { waits = λ h. h; runs = λ h. h; rank = λ h. h }))
            refl refl refl refl)
  ]
    where
      r : ℕ × World
      r = resize k n (proc s cur) s.world

      p : Proc
      p = record (proc s cur) { sz = r.0 }

  waited-Gentle : (cur pid : ℕ) (s t : Sys World) → wait_turn k cur s ≡ reaped pid t → Gentle s t
  waited-Gentle cur pid s t e = step (wait_turn-Scanned k cur s)
    where
      inside : {a b : ℕ} {u v : Sys World} → reaped a u ≡ reaped b v → u ≡ v
      inside q = cc

      refused_differs : {u v : Sys World} → refused u ≡ reaped pid v → ⊥
      refused_differs q = cc

      waits_differs : {u v : Sys World} → waits u ≡ reaped pid v → ⊥
      waits_differs q = cc

      step : Scanned k 0 nproc cur false s (wait_turn k cur s) → Gentle s t
      step (one j a b z f q) = subst (Gentle s) (inside (sym q ∙ e)) (reap-Gentle k j s z.1)
      step (childless x f q) = absurd (refused_differs (sym q ∙ e))
      step (stopped f d q) = absurd (refused_differs (sym q ∙ e))
      step (sleeps f x d q) = absurd (waits_differs (sym q ∙ e))

  -- A step of the loop other than a `schedulerUnlock` that takes effect keeps the invariants.
  pub CalmStep-Sound : (c d : Config World) → Sound c → CalmStep k c d → Sound d
  CalmStep-Sound _ _ (at_rest s r) (CalmStep.dispatches lv j _ t e) =
      let x = Dispatched-Running lv j s t (dispatch-Dispatched s r) e in running lv j t x.0 x.1
  CalmStep-Sound _ _ (at_rest s r) (CalmStep.stalls _ t e) =
      at_rest t (stalled-AtRest s t (dispatch-Dispatched s r) e)
  CalmStep-Sound _ _ (at_rest s r) (CalmStep.rest_wakes c _) =
      at_rest _ (Gentle-AtRest (wakeup1-Gentle c s) r)
  CalmStep-Sound _ _ (at_rest s r) (CalmStep.rest_ticks _) =
      at_rest _ (Gentle-AtRest (timer_tick-Gentle s) r)
  CalmStep-Sound _ _ (running lv j s h r) (CalmStep.forks _ _ _) =
      running lv j _ h (fork-Running k j s r)
  CalmStep-Sound _ _ (running lv j s h r) (CalmStep.wakes c _ _ _) =
      running lv j _ h (Gentle-Running j (wakeup1-Gentle c s) r)
  CalmStep-Sound _ _ (running lv j s h r) (CalmStep.kills pid _ _ _) =
      running lv j _ h (Gentle-Running j (kill-Gentle pid s) r)
  CalmStep-Sound _ _ (running lv j s h r) (CalmStep.ticks _ _ _) =
      running lv j _ h (Gentle-Running j (timer_tick-Gentle s) r)
  CalmStep-Sound _ _ (running lv j s h r) (CalmStep.waits _ _ pid _ t e) =
      running lv j t h (Gentle-Running j (waited-Gentle j pid s t e) r)
  CalmStep-Sound _ _ (running lv j s h r) (CalmStep.grows n _ _ _) =
      running lv j _ h (Gentle-Running j (growproc-Gentle n j s) r)
  CalmStep-Sound _ _ (running lv j s h r) (CalmStep.ranks pid priority _ _ _) =
      running lv j _ h (set_priority-Running pid priority j s r)
  CalmStep-Sound _ _ (running lv j s h r) (CalmStep.locks password _ _ _ t e) =
      running lv j t h (scheduler_lock-Running password j s t r e)
  CalmStep-Sound _ _ (running lv j s h r) (CalmStep.lock_refused password _ _ _ t e) =
      running lv j t h (lock_refused-Running password j s t r e)
  CalmStep-Sound _ _ (running lv j s h r) (CalmStep.unlock_refused password _ _ _ t e) =
      running lv j t h (subst (Running j) (unlock_refused-same password j s t e) r)
  CalmStep-Sound _ _ (running lv j s h r) (CalmStep.unlock_void password _ _ _ t d e) =
      running lv j t h (subst (Running j) (unlock_void-same password j s t d e) r)
  CalmStep-Sound _ _ (running lv j s h r) (CalmStep.wakes_up _ _ _) =
      running lv j _ h (Gentle-Running j (sleep_end-Gentle j s) r)
  CalmStep-Sound _ _ (running lv j s h r) (CalmStep.yields _ _ _ t e) =
      returned lv j t h (switched j _ t (yield-Switches j s r) e)
  CalmStep-Sound _ _ (running lv j s h r) (CalmStep.sleeps c _ _ _ t e) =
      returned lv j t h (switched j _ t (sleep-Switches c j s r) e)
  CalmStep-Sound _ _ (running lv j s h r) (CalmStep.exits_now _ _ _ t e) =
      let (u, f, x, y, z) = exit-Switches j s r in returned lv j t h (switched j _ t (u, f, x) e)
  CalmStep-Sound _ _ (returned lv j s h r) (CalmStep.feeds _ _ _) =
      at_rest _ (feedback-AtRest lv j s h r)

  pub CalmReach-Sound : (w : World) (c : Config World) → CalmReach k w c → Sound c
  CalmReach-Sound w _ (CalmReach.starts s e) =
      at_rest s (userinit-AtRest k (boot w) s refl (boot-Inv w) e)
  CalmReach-Sound w _ (CalmReach.goes {c} {d} r st) = CalmStep-Sound c d (CalmReach-Sound w c r) st

  -- `d` is sound, or the step from `c` to `d` is a `schedulerUnlock` that takes effect, and `d` is not.
  pub data Kept (c d : Config World) : Type 0 where
    kept : Sound d → Kept c d
    unlocked :
        (password : ℤ) (lv j : ℕ) (s t : Sys World)
        → c ≡ Config.runs lv j s
        → d ≡ Config.runs lv j t
        → s.is_dictated ≡ true
        → scheduler_unlock password j s ≡ stays t
        → ¬ Sound d
        → Kept c d

  -- A step of the loop from a configuration in which the invariant of its phase holds leads to a
  -- configuration in which the invariant of that phase holds, except for a `schedulerUnlock` of the
  -- running process that takes effect, after which the invariant of a running process never holds.
  pub Step-Sound : (c d : Config World) → Sound c → Step k c d → Kept c d
  Step-Sound c d x (calm st) = kept (CalmStep-Sound c d x st)
  Step-Sound _ _ (running lv j s h r) (unlocks password _ _ _ t d e) =
      unlocked password lv j s t refl refl d e (breaks password lv j s t r d e)
