-- ===== src/Mlfq/Invariant/Feedback.antt =====
-- The round of the scheduler after `swtch` has come back: the feedback and the boost.
use hyu_ele3021_operating_sy.Prelude.{
  if_true, if_false, ℕ, zero, suc, ◌+◌, ◌<◌, ◌≡◌, refl, sym, ap, ◌∙◌, ◌⊎◌, inl, inr, Bool, true,
  false, some, [], ◌∷◌, arith, leb, if◌then◌else◌, Bool-cases,
}
use mathlib.Core.Bool.{false≢true}
use hyu_ele3021_operating_sy.Mlfq.Queue.{Index}
use hyu_ele3021_operating_sy.Mlfq.Proc.{Proc, ProcState, is_zombie}
use hyu_ele3021_operating_sy.Mlfq.State.{Sys, proc, with_proc, queue, en_q, de_q}
use hyu_ele3021_operating_sy.Mlfq.Boost.{boost_level, boost_levels, depose, priority_boost}
use hyu_ele3021_operating_sy.Mlfq.Scheduler.{
  requeue, boost_if_due, feedback, used_up, demote, charge,
}
use hyu_ele3021_operating_sy.Mlfq.Invariant.{
  Inv, Inv-same, en_q-Inv, with_held-Inv, drop-Inv, proc-with_proc_self, can_wait,
}
use hyu_ele3021_operating_sy.Mlfq.Invariant.Boost.{
  priority_boost_free, depose_free, depose_held, priority_boost_dictated,
}
use hyu_ele3021_operating_sy.Mlfq.Invariant.Dispatch.{
  AtRest, free, ruled, Returned, next_queue, next_queue-lt,
}

module _ {W : Type 0} where
  dictated-en_q : (lv : ℕ) (x : Index) (s : Sys W) → (en_q lv x s).is_dictated ≡ s.is_dictated
  unfolding en_q
  dictated-en_q lv x s = refl

  dictated-boost_level : (n lv : ℕ) (s : Sys W) → (boost_level n lv s).is_dictated ≡ s.is_dictated
  unfolding boost_level de_q en_q
  dictated-boost_level zero lv s = refl
  dictated-boost_level (suc n) lv s = dictated-boost_level n lv _

  dictated-boost_levels : (n lv : ℕ) (s : Sys W) → (boost_levels n lv s).is_dictated ≡ s.is_dictated
  unfolding boost_levels
  dictated-boost_levels zero lv s = refl
  dictated-boost_levels (suc n) lv s =
      dictated-boost_levels n (lv + 1) (boost_level (queue s lv).size lv s)
      ∙ dictated-boost_level (queue s lv).size lv s

  -- The boost ends every dictatorship.
  dictated-priority_boost : (s : Sys W) → (priority_boost s).is_dictated ≡ false
  unfolding priority_boost
  dictated-priority_boost s = dictated-boost_levels 3 0 (depose s) ∙ ended s.is_dictated refl
    where
      ended : (b : Bool) → s.is_dictated ≡ b → (depose s).is_dictated ≡ false
      ended true e = ap (λ (t : Sys W). t.is_dictated) (depose_held s e)
      ended false e = ap (λ (t : Sys W). t.is_dictated) (depose_free s e) ∙ e

  pub boost_early : (s : Sys W) → leb 100 s.global_ticks ≡ false → boost_if_due s ≡ s
  boost_early s e = unfold boost_if_due in rw e

  boost_if_due-AtRest : (s : Sys W) → AtRest s → AtRest (boost_if_due s)
  boost_if_due-AtRest s r = elim (Bool-cases (leb 100 s.global_ticks)) [
    | inl due ↦ rw (boost_due s due) (boosted r)
    | inr early ↦ rw (boost_early s early) r
  ]
    where
      boost_due :
          (s : Sys W)
          → leb 100 s.global_ticks ≡ true
          → boost_if_due s ≡ priority_boost (record s { global_ticks = 0 })
      boost_due s e = unfold boost_if_due in rw e

      boosted : AtRest s → AtRest (priority_boost (record s { global_ticks = 0 }))
      boosted (free e v) =
          let t = record s { global_ticks = 0 } in
          free (dictated-priority_boost t)
            (priority_boost_free [] t (Inv-same [] s t v refl refl) e).kept
      boosted (ruled j e d w v) =
          let t = record s { global_ticks = 0 } in
          free (dictated-priority_boost t)
            (priority_boost_dictated [] j t (Inv-same (some j ∷ []) s t v refl refl) e d w).kept

  -- A process with a full quantum is demoted.
  abbrev pub aged : ℕ → ℕ → Sys W → Sys W
  aged lv j s = if used_up lv (proc s j) then with_proc s (some j) (demote lv (proc s j)) else s

  pub requeue_dead :
      (lv j : ℕ) (s : Sys W)
      → is_zombie (proc (aged lv j s) j).state ≡ true
      → requeue lv (some j) s ≡ aged lv j s
  unfolding requeue
  requeue_dead lv j s e = rw e

  pub requeue_live :
      (lv j : ℕ) (s : Sys W)
      → is_zombie (proc (aged lv j s) j).state ≡ false
      → requeue lv (some j) s ≡ en_q (next_queue lv (proc s j)) (some j) (aged lv j s)
  unfolding requeue
  requeue_live lv j s e = rw e

  pub aged-Inv :
      (lv j : ℕ) (s : Sys W)
      → Inv (some j ∷ []) s
      → Inv (some j ∷ []) (aged lv j s)
        × ((proc (aged lv j s) j).state ≡ (proc s j).state)
        × ((aged lv j s).is_dictated ≡ s.is_dictated)
  aged-Inv lv j s v = elim (Bool-cases (used_up lv (proc s j))) [
    | inl e ↦ rw e (
      with_held-Inv [] s j (demote lv (proc s j)) v (ground (arith, v.ranks j)),
      ap (λ (p : Proc). p.state)
          (proc-with_proc_self (some j ∷ []) s j (demote lv (proc s j)) v v.out.0),
      refl,
    )
    | inr e ↦ rw e (v, refl, refl)
  ]

  -- Both ways out of the feedback put the process where it belongs.
  requeue-AtRest :
      (lv j : ℕ) (s : Sys W)
      → lv < 3
      → Inv (some j ∷ []) s
      → s.is_dictated ≡ false
      → (can_wait (proc s j).state ≡ true) ⊎ (is_zombie (proc s j).state ≡ true)
      → AtRest (requeue lv (some j) s)
  requeue-AtRest lv j s h v e (inr dead) =
      let a = aged-Inv lv j s v in
      rw (requeue_dead lv j s (rw a.1 dead))
        (free (a.2 ∙ e) (drop-Inv [] (some j) (aged lv j s) a.0))
  requeue-AtRest lv j s h v e (inl w) =
      let a = aged-Inv lv j s v in
      let w' : can_wait (proc (aged lv j s) j).state ≡ true = rw a.1 w in
      let q = next_queue lv (proc s j) in
      rw (requeue_live lv j s (not_zombie (proc (aged lv j s) j).state w')) (
        free (dictated-en_q q (some j) (aged lv j s) ∙ a.2 ∙ e)
          (en_q-Inv [] j (aged lv j s) q a.0 (next_queue-lt lv (proc s j) h) w'))
    where
      not_zombie : (x : ProcState) → can_wait x ≡ true → is_zombie x ≡ false
      not_zombie x z = ground arith

  feedback_ruled :
      (lv j : ℕ) (s : Sys W)
      → s.is_dictated ≡ true
      → feedback (record { lv = lv; proc_idx = some j }) s
        ≡ boost_if_due (with_proc s (some j) (charge (proc s j)))
  unfolding feedback
  feedback_ruled lv j s e = ap boost_if_due (if_true _ _ e)

  pub feedback_free :
      (lv j : ℕ) (s : Sys W)
      → s.is_dictated ≡ false
      → feedback (record { lv = lv; proc_idx = some j }) s
        ≡ boost_if_due (requeue lv (some j) (with_proc s (some j) (charge (proc s j))))
  unfolding feedback
  feedback_free lv j s e = ap boost_if_due (if_false _ _ e)

  -- When the process of a level below 3 has come back to the scheduler, asleep, RUNNABLE or as a
  -- zombie that does not dictate, the rest of the round (the quantum, the demotion, the return to a
  -- queue, the boost) leaves the scheduler at rest.
  pub feedback-AtRest :
      (lv j : ℕ) (s : Sys W)
      → lv < 3
      → Returned j s
      → AtRest (feedback (record { lv = lv; proc_idx = some j }) s)
  feedback-AtRest lv j s h r =
      let p = charge (proc s j) in
      let t = with_proc s (some j) p in
      let v = with_held-Inv [] s j p r.inv (r.inv.ranks j) in
      let same : (proc t j).state ≡ (proc s j).state =
        ap (λ (q : Proc). q.state) (proc-with_proc_self (some j ∷ []) s j p r.inv r.inv.out.0) in
      elim (Bool-cases s.is_dictated) [
        | inl e ↦
            rw (feedback_ruled lv j s e)
              (boost_if_due-AtRest t (ruled j e (r.rule e) (rw same (waits e)) v))
        | inr e ↦ rw (feedback_free lv j s e) (
            boost_if_due-AtRest (requeue lv (some j) t)
              (requeue-AtRest lv j t h v e (rw same ends)))
      ]
    where
      waits : s.is_dictated ≡ true → can_wait (proc s j).state ≡ true
      waits e = elim r.state [ inl w ↦ w | inr (_, f) ↦ absurd (false≢true (sym f ∙ e)) ]

      ends : (can_wait (proc s j).state ≡ true) ⊎ (is_zombie (proc s j).state ≡ true)
      ends = elim r.state [ inl w ↦ inl w | inr (z, _) ↦ inr z ]
