-- ===== src/Mlfq/Invariant/Quantum.antt =====
-- What the round after `swtch` does to the quantum, the rank and the queue of the process that ran.
use hyu_ele3021_operating_sy.Prelude.{
  if_true, if_false, ℕ, ◌+◌, ◌-◌, ◌*◌, ◌%◌, ◌^◌, ◌≤◌, ◌<◌, min, ◌≡◌, ◌≢◌, refl, sym, ap, subst, ◌∙◌,
  inl, inr, true, false, some, [], ◌∷◌, ◌++◌, arith, leb, ltb, ◌==◌, if◌then◌else◌, Bool-cases, pos,
}
use hyu_ele3021_operating_sy.Mlfq.Queue.Refine.{contents}
use hyu_ele3021_operating_sy.Mlfq.Proc.{Proc, ProcState, is_zombie}
use hyu_ele3021_operating_sy.Mlfq.State.{Sys, proc, with_proc, queue, en_q}
use hyu_ele3021_operating_sy.Mlfq.Scheduler.{
  requeue, feedback, used_up, demote, charge, next_level, raise,
}
use hyu_ele3021_operating_sy.Mlfq.Invariant.{
  Inv, with_held-Inv, proc-with_proc_self, proc-with_proc_ne, can_wait,
}
use hyu_ele3021_operating_sy.Mlfq.Invariant.Moves.{contents-en_q, procs-en_q}
use hyu_ele3021_operating_sy.Mlfq.Invariant.Dispatch.{AtRest, Returned, next_queue, next_queue-lt}
use hyu_ele3021_operating_sy.Mlfq.Invariant.Feedback.{
  boost_early, aged, requeue_dead, requeue_live, aged-Inv, feedback_free, feedback-AtRest,
}

-- The quantum that the process has used, the round included.
abbrev pub count : Proc → ℕ
count p = (p.consumed_tq + 1) % 2 ^ 32

-- The level to which it returns.
abbrev pub level : ℕ → ℕ → ℕ
level lv c = if ltb c (lv * 2 + 4) then lv else min (lv + 1) 2

next_queue-level : (lv c : ℕ) (p : Proc) → lv < 3 → p.consumed_tq ≡ c → next_queue lv p ≡ level lv c
next_queue-level lv c p h e = ground (arith, h, e)

module _ {W : Type 0} where
  -- The process in slot `j`, which ran on level `lv`, after the round.
  pub record Charged (lv j : ℕ) (s t : Sys W) : Type 0 where
    pub rest : AtRest t
    pub keeps :
        count (proc s j) < lv * 2 + 4
        → proc t j ≡ record (proc s j) { consumed_tq = count (proc s j) }
    pub demotes :
        lv * 2 + 4 ≤ count (proc s j)
        → proc t j ≡ record (proc s j) {
          priority = if lv == 2 then (proc s j).priority - 1 else (proc s j).priority;
          qlv = pos (min (lv + 1) 2);
          consumed_tq = 0;
        }
    pub others : (i : ℕ) → j ≢ i → proc t i ≡ proc s i
    pub queued :
        can_wait (proc s j).state ≡ true
        → contents (queue t (level lv (count (proc s j))))
          ≡ contents (queue s (level lv (count (proc s j)))) ++ (some j ∷ [])

  record Aged (lv j : ℕ) (s t : Sys W) : Type 0 where
    pub self : proc t j ≡ (if used_up lv (proc s j) then demote lv (proc s j) else proc s j)
    pub others : (i : ℕ) → j ≢ i → proc t i ≡ proc s i
    pub queues : t.mlfq ≡ s.mlfq
    pub ticks : t.global_ticks ≡ s.global_ticks

  aged-Aged : (lv j : ℕ) (s : Sys W) → Inv (some j ∷ []) s → Aged lv j s (aged lv j s)
  aged-Aged lv j s v = elim (Bool-cases (used_up lv (proc s j))) [
    | inl e ↦ subst (Aged lv j s) (sym (if_true _ _ e)) (record {
      self =
          proc-with_proc_self (some j ∷ []) s j (demote lv (proc s j)) v v.out.0
          ∙ sym (if_true _ _ e);
      others = λ i n. proc-with_proc_ne s j i (demote lv (proc s j)) n;
      queues = refl;
      ticks = refl;
    })
    | inr e ↦
        subst (Aged lv j s) (sym (if_false _ _ e)) (record {
          self = sym (if_false _ _ e);
          others = λ i n. refl;
          queues = refl;
          ticks = refl;
        })
  ]

  procs-requeue : (lv j : ℕ) (s : Sys W) → (requeue lv (some j) s).procs ≡ (aged lv j s).procs
  procs-requeue lv j s = elim (Bool-cases (is_zombie (proc (aged lv j s) j).state)) [
    | inl e ↦ ap (λ (t : Sys W). t.procs) (requeue_dead lv j s e)
    | inr e ↦
        ap (λ (t : Sys W). t.procs) (requeue_live lv j s e)
        ∙ procs-en_q (next_queue lv (proc s j)) (some j) (aged lv j s)
  ]

  ticks-en_q : (lv j : ℕ) (s : Sys W) → (en_q lv (some j) s).global_ticks ≡ s.global_ticks
  unfolding en_q
  ticks-en_q lv j s = refl

  ticks-requeue :
      (lv j : ℕ) (s : Sys W) → (requeue lv (some j) s).global_ticks ≡ (aged lv j s).global_ticks
  ticks-requeue lv j s = elim (Bool-cases (is_zombie (proc (aged lv j s) j).state)) [
    | inl e ↦ ap (λ (t : Sys W). t.global_ticks) (requeue_dead lv j s e)
    | inr e ↦
        ap (λ (t : Sys W). t.global_ticks) (requeue_live lv j s e)
        ∙ ticks-en_q (next_queue lv (proc s j)) j (aged lv j s)
  ]

  contents-requeue :
      (lv j : ℕ) (s : Sys W)
      → lv < 3
      → Inv (some j ∷ []) s
      → can_wait (proc s j).state ≡ true
      → contents (queue (requeue lv (some j) s) (next_queue lv (proc s j)))
        ≡ contents (queue s (next_queue lv (proc s j))) ++ (some j ∷ [])
  contents-requeue lv j s h v w =
      let a = aged-Inv lv j s v in
      let q = next_queue lv (proc s j) in
      ap (λ (t : Sys W). contents (queue t q))
        (requeue_live lv j s (not_zombie (proc (aged lv j s) j).state (rw a.1 w)))
      ∙ contents-en_q [] (some j) (aged lv j s) q a.0 (next_queue-lt lv (proc s j) h)
      ∙ ap (λ qs. contents (queue (record s { mlfq = qs }) q) ++ (some j ∷ []))
          (aged-Aged lv j s v).queues
    where
      not_zombie : (x : ProcState) → can_wait x ≡ true → is_zombie x ≡ false
      not_zombie x z = ground arith

  -- If nobody dictates and the boost is not due when the process of a level below 3 has come back
  -- to the scheduler under the invariant of that phase (it stands in no queue, and sleeps, is
  -- RUNNABLE or is a zombie), the rest of the round leaves the scheduler at rest and the other
  -- processes as they were. It counts one more tick of the quantum; if that does not fill the
  -- quantum of `2 * lv + 4` ticks, the process is otherwise as it was, and else its count is 0, its
  -- level is the next one down to 2, and on level 2 its priority number is one less, down to 0. A
  -- process that sleeps or is RUNNABLE goes to the end of the queue of that level.
  pub feedback-Charged :
      (lv j : ℕ) (s : Sys W)
      → lv < 3
      → Returned j s
      → s.is_dictated ≡ false
      → s.global_ticks < 100
      → Charged lv j s (feedback (record { lv = lv; proc_idx = some j }) s)
  feedback-Charged lv j s h r e early =
      let v = with_held-Inv [] s j p r.inv (r.inv.ranks j) in
      let a = aged-Aged lv j t v in
      let not_due : leb 100 (requeue lv (some j) t).global_ticks ≡ false =
        young (ticks-requeue lv j t ∙ a.ticks) in
      let run = feedback_free lv j s e ∙ boost_early (requeue lv (some j) t) not_due in
      let self : proc t j ≡ p = proc-with_proc_self (some j ∷ []) s j p r.inv r.inv.out.0 in
      let after : (i : ℕ)
          → proc (feedback (record { lv = lv; proc_idx = some j }) s) i ≡ proc (aged lv j t) i =
        λ i.
          ap (λ (u : Sys W). proc u i) run
          ∙ ap (λ ps. proc (record t { procs = ps }) i) (procs-requeue lv j t) in
      let final : proc (aged lv j t) j ≡ (if used_up lv p then demote lv p else p) =
        a.self ∙ ap (λ q. if used_up lv q then demote lv q else q) self in
      let at : next_queue lv (proc t j) ≡ level lv (count (proc s j)) =
        next_queue-level lv (count (proc s j)) (proc t j) h
          (ap (λ (q : Proc). q.consumed_tq) self) in
      record {
        rest = feedback-AtRest lv j s h r;
        keeps = λ l. after j ∙ final ∙ if_false _ _ (not_full l);
        demotes = λ l. after j ∙ final ∙ if_true _ _ (full l) ∙ demoted;
        others = λ i n. after i ∙ a.others i n ∙ proc-with_proc_ne s j i p n;
        queued = λ w.
            ap (λ (u : Sys W). contents (queue u (level lv (count (proc s j))))) run
            ∙ subst
                (λ q.
                  contents (queue (requeue lv (some j) t) q)
                  ≡ contents (queue s q) ++ (some j ∷ []))
                at (contents-requeue lv j t h v (ap (λ (q : Proc). can_wait q.state) self ∙ w));
      }
    where
      p : Proc
      p = charge (proc s j)

      t : Sys W
      t = with_proc s (some j) p

      young : {n : ℕ} → n ≡ s.global_ticks → leb 100 n ≡ false
      young q = ground (arith, q, early)

      not_full : count (proc s j) < lv * 2 + 4 → used_up lv p ≡ false
      not_full l = ground (arith, l)

      full : lv * 2 + 4 ≤ count (proc s j) → used_up lv p ≡ true
      full l = ground (arith, l)

      demoted : demote lv p ≡ record (proc s j) {
        priority = if lv == 2 then (proc s j).priority - 1 else (proc s j).priority;
        qlv = pos (min (lv + 1) 2);
        consumed_tq = 0;
      }
      demoted = rw (raised (proc s j).priority, next lv h) refl
        where
          raised : (n : ℕ) → raise n ≡ n - 1
          raised n = ground arith

          next : (n : ℕ) → n < 3 → next_level n ≡ min (n + 1) 2
          next n l = ground (arith, l)
