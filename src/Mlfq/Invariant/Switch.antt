-- ===== src/Mlfq/Invariant/Switch.antt =====
-- `yield`, `sleep` and `exit` of the running process lead to the scheduler.
use hyu_ele3021_operating_sy.Prelude.{
  if_true, if_false, ℕ, ◌≤◌, ◌≡◌, refl, sym, ap, subst, ◌∙◌, inl, inr, ◌⊎◌, Bool, true, false, none,
  some, [], ◌∷◌, arith, ==_self, Bool-cases,
}
use mathlib.Core.Bool.{false≢true}
use hyu_ele3021_operating_sy.Mlfq.Queue.{nproc}
use hyu_ele3021_operating_sy.Mlfq.Proc.{
  Proc, ProcState, runnable, is_running, Chan, chan_of, ptr_eq, is_zombie, sleeping, zombie,
}
use hyu_ele3021_operating_sy.Mlfq.State.{Sys, proc, with_proc}
use hyu_ele3021_operating_sy.Mlfq.Sleep.{Outcome, away, sched, yield_cpu, sleep_on, wakeup1}
use hyu_ele3021_operating_sy.Mlfq.Life.{adopt, step_down, exit_locked}
use hyu_ele3021_operating_sy.Mlfq.Invariant.{
  Inv, Inv-same, can_wait, max_priority, with_held-Inv, proc-with_proc_self,
}
use hyu_ele3021_operating_sy.Mlfq.Invariant.Dispatch.{Running, Returned}
use hyu_ele3021_operating_sy.Mlfq.Invariant.Gentle.{
  Gentle-trans, Gentle-Running, wakeup1-Gentle, adopt-Gentle,
}

module _ {W : Type 0} where
  -- The kernel path ends in the scheduler, with the process in a state fit for the feedback.
  abbrev pub Switches : ℕ → Outcome W → Type 0
  Switches cur o = (t : Sys W) × (o ≡ away t) × Returned cur t

  sched-away : (cur : ℕ) (s : Sys W) → is_running (proc s cur).state ≡ false → sched cur s ≡ away s
  unfolding sched
  sched-away cur s e = rw e

  -- The running process changes its own slot and switches.
  leave :
      (cur : ℕ) (s : Sys W) (p : Proc)
      → Running cur s
      → can_wait p.state ≡ true
      → p.priority ≤ max_priority
      → Switches cur (sched cur (with_proc s (some cur) p))
  leave cur s p r w h =
      let t = with_proc s (some cur) p in
      let at : proc t cur ≡ p = proc-with_proc_self (some cur ∷ []) s cur p r.inv r.inv.out.0 in
      (
        t,
        sched-away cur t (rw at (not_running p.state w)),
        record { inv = with_held-Inv [] s cur p r.inv h; state = inl (rw at w); rule = r.rule },
      )
    where
      not_running : (x : ProcState) → can_wait x ≡ true → is_running x ≡ false
      not_running x e = ground arith

  -- `yield` of the running process always ends in the scheduler and never in the panic of `sched`,
  -- in a state fit for the rest of the scheduler's round.
  pub yield-Switches : (cur : ℕ) (s : Sys W) → Running cur s → Switches cur (yield_cpu cur s)
  unfolding yield_cpu
  yield-Switches cur s r =
      leave cur s (record (proc s cur) { state = runnable }) r refl (r.inv.ranks cur)

  -- `sleep` of the running process on any channel always ends in the scheduler and never in the
  -- panic of `sched`, in a state fit for the rest of the scheduler's round.
  pub sleep-Switches :
      (c : Chan) (cur : ℕ) (s : Sys W) → Running cur s → Switches cur (sleep_on c cur s)
  unfolding sleep_on
  sleep-Switches c cur s r =
      leave cur s (record (proc s cur) { chan = c; state = sleeping }) r refl (r.inv.ranks cur)

  -- A dictator that has become a zombie steps down.
  pub step_down-Returned :
      (cur : ℕ) (s : Sys W)
      → Inv (some cur ∷ []) s
      → is_zombie (proc s cur).state ≡ true
      → (s.is_dictated ≡ true → s.scheduler_dictator ≡ some cur)
      → Returned cur (step_down cur s)
  unfolding step_down
  step_down-Returned cur s v z rule = elim (Bool-cases (ptr_eq s.scheduler_dictator (some cur))) [
    | inl e ↦ subst (Returned cur) (sym (if_true t s e)) (record {
      inv = Inv-same (some cur ∷ []) s t v refl refl;
      state = inr (z, refl);
      rule = λ f. absurd (false≢true f);
    })
    | inr e ↦
        subst (Returned cur) (sym (if_false t s e))
          (record { inv = v; state = inr (z, not_ruled e); rule = rule })
  ]
    where
      t : Sys W
      t = record s { is_dictated = false; scheduler_dictator = none }

      not_ruled : ptr_eq s.scheduler_dictator (some cur) ≡ false → s.is_dictated ≡ false
      not_ruled e = elim (Bool-cases s.is_dictated) [
        | inl d ↦ absurd (false≢true (sym e ∙ ap (λ i. ptr_eq i (some cur)) (rule d) ∙ ==_self cur))
        | inr d ↦ d
      ]

  pub procs-step_down : (cur : ℕ) (s : Sys W) → (step_down cur s).procs ≡ s.procs
  unfolding step_down
  procs-step_down cur s = ground arith

  -- The locked part of `exit` of the running process always ends in the scheduler and never in the
  -- panic of `sched`, with the process outside the queues as a ZOMBIE and nobody dictating.
  pub exit-Switches :
      (cur : ℕ) (s : Sys W)
      → Running cur s
      → (t : Sys W) × (exit_locked cur s ≡ away t)
        × Returned cur t
        × ((proc t cur).state ≡ zombie)
        × (t.is_dictated ≡ false)
  unfolding exit_locked
  exit-Switches cur s r =
      let c = chan_of (proc s cur).parent in
      let s1 = adopt nproc 0 cur (wakeup1 c s) in
      let g = Gentle-trans (wakeup1-Gentle c s) (adopt-Gentle nproc 0 cur (wakeup1 c s)) in
      let r1 = Gentle-Running cur g r in
      let p = record (proc s1 cur) { state = zombie } in
      let s2 = with_proc s1 (some cur) p in
      let at : proc s2 cur ≡ p = proc-with_proc_self (some cur ∷ []) s1 cur p r1.inv r1.inv.out.0 in
      let v = with_held-Inv [] s1 cur p r1.inv (r1.inv.ranks cur) in
      let s3 = step_down cur s2 in
      let dead : (proc s3 cur).state ≡ zombie = rw (procs-step_down cur s2, at) refl in
      let back = step_down-Returned cur s2 v (rw at refl) r1.rule in
      (
        s3,
        sched-away cur s3 (rw (procs-step_down cur s2, at) refl),
        back,
        dead,
        deposed (proc s3 cur).state s3.is_dictated dead back.state,
      )
    where
      deposed :
          (x : ProcState) (b : Bool)
          → x ≡ zombie
          → (can_wait x ≡ true) ⊎ ((is_zombie x ≡ true) × (b ≡ false))
          → b ≡ false
      deposed x b e (inr (z, f)) = f
      deposed x b e (inl w) = absurd (false≢true (sym (ap can_wait e) ∙ w))
