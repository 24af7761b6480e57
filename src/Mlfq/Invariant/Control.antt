-- ===== src/Mlfq/Invariant/Control.antt =====
-- `setPriority` and `schedulerLock` in the running process: what changes and what does not.
use hyu_ele3021_operating_sy.Prelude.{
  if_true, if_false, ℕ, ◌<◌, ◌≡◌, refl, sym, ap, subst, ◌∙◌, inl, inr, true, not, Option, none,
  some, List, [], ◌∷◌, arith, ltb, Bool-cases, ℤ, pos, negsuc,
}
use hyu_ele3021_operating_sy.Mlfq.Queue.{Index}
use hyu_ele3021_operating_sy.Mlfq.Queue.Refine.{contents}
use hyu_ele3021_operating_sy.Mlfq.Proc.{Proc}
use hyu_ele3021_operating_sy.Mlfq.State.{Sys, proc, with_proc, queue}
use hyu_ele3021_operating_sy.Mlfq.Control.{
  find_levels, assign, set_priority, scheduler_lock, stays, exits, is_password,
}
use hyu_ele3021_operating_sy.Mlfq.Invariant.{Inv, Inv-same, with_held-Inv, proc-with_proc_self}
use hyu_ele3021_operating_sy.Mlfq.Invariant.Dispatch.{Running}
use hyu_ele3021_operating_sy.Mlfq.Invariant.Gentle.{
  Gentle, Gentle-refl, Gentle-Running, with_proc-Gentle,
}
use hyu_ele3021_operating_sy.Mlfq.Invariant.Search.{Absent}
use hyu_ele3021_operating_sy.Mlfq.Invariant.Sought.{
  Absent-hit, Sought, find_levels-Sought, nowhere, somewhere,
}

module _ {W : Type 0} where
  set_priority_eq :
      (pid priority : ℤ) (s : Sys W)
      → set_priority pid priority s ≡ (let r = find_levels 3 0 pid s in assign priority r.0 r.1)
  unfolding set_priority
  set_priority_eq pid priority s = refl

  assign-none : (priority : ℤ) (s : Sys W) → assign priority none s ≡ s
  unfolding assign
  assign-none (pos n) s = refl
  assign-none (negsuc n) s = refl

  -- While the invariant holds, `setPriority` for a pid that no queued process has leaves the
  -- process table alone, and the entries of every queue in their order.
  pub set_priority-Absent :
      (held : List Index) (pid priority : ℤ) (s : Sys W)
      → Inv held s
      → ((k : ℕ) → k < 3 → Absent pid s.procs (contents (queue s k)))
      → ((set_priority pid priority s).procs ≡ s.procs)
        × ((k : ℕ) → contents (queue (set_priority pid priority s) k) ≡ contents (queue s k))
  set_priority-Absent held pid priority s v a = step (find_levels-Sought held pid 3 0 s refl v)
    where
      t : Sys W
      t = set_priority pid priority s

      r : Option Index × Sys W
      r = find_levels 3 0 pid s

      step :
          Sought held pid 0 s r
          → (t.procs ≡ s.procs) × ((k : ℕ) → contents (queue t k) ≡ contents (queue s k))
      step (nowhere e f keep p d1 d2 w) =
          rw (set_priority_eq pid priority s, e, assign-none priority r.1) (p, keep)
      step (somewhere l b x c e h i split g o p d1 d2 w) =
          absurd (Absent-hit pid s.procs b x c (rw split at (a l h)) i)

  -- The priority of one process changes, within its range.
  assign-Gentle :
      (priority : ℤ) (found : Option Index) (s : Sys W) → Gentle s (assign priority found s)
  unfolding assign
  assign-Gentle (negsuc n) found s = Gentle-refl s
  assign-Gentle (pos k) none s = Gentle-refl s
  assign-Gentle (pos k) (some none) s = elim (Bool-cases (ltb 4 k)) [
    | inl e ↦ rw e (Gentle-refl s)
    | inr e ↦ rw e (Gentle-refl s)
  ]
  assign-Gentle (pos k) (some (some j)) s = elim (Bool-cases (ltb 4 k)) [
    | inl e ↦ rw e (Gentle-refl s)
    | inr e ↦ rw e (
        with_proc-Gentle s j (record (proc s j) { priority = k })
          (record { waits = λ h. h; runs = λ h. h; rank = λ h. ground arith }))
  ]

  -- `setPriority` with any arguments keeps the invariant of the running process.
  pub set_priority-Running :
      (pid priority : ℤ) (cur : ℕ) (s : Sys W)
      → Running cur s
      → Running cur (set_priority pid priority s)
  set_priority-Running pid priority cur s r = rw (set_priority_eq pid priority s) (
      Gentle-Running cur
        (assign-Gentle priority (find_levels 3 0 pid s).0 (find_levels 3 0 pid s).1)
        (searched (find_levels-Sought (some cur ∷ []) pid 3 0 s refl r.inv)))
    where
      searched :
          Sought (some cur ∷ []) pid 0 s (find_levels 3 0 pid s)
          → Running cur (find_levels 3 0 pid s).1
      searched (nowhere e f keep p d1 d2 v) = record {
        inv = v;
        state = rw p r.state;
        rule = λ d. d2 ∙ r.rule (sym d1 ∙ d);
      }
      searched (somewhere l b x c e h i split g o p d1 d2 v) = record {
        inv = v;
        state = rw p r.state;
        rule = λ d. d2 ∙ r.rule (sym d1 ∙ d);
      }

  -- A call of `schedulerLock` by the running process that returns to it keeps the invariant of the
  -- running process.
  pub scheduler_lock-Running :
      (password : ℤ) (cur : ℕ) (s t : Sys W)
      → Running cur s
      → scheduler_lock password cur s ≡ stays t
      → Running cur t
  unfolding scheduler_lock
  scheduler_lock-Running password cur s t r e = elim (Bool-cases s.is_dictated) [
    | inl d ↦ absurd (differ (sym (if_true _ _ d) ∙ e))
    | inr d ↦ elim (Bool-cases (not (is_password password))) [
      | inl w ↦ absurd (differ (sym (if_false _ _ d ∙ if_true _ _ w) ∙ e))
      | inr w ↦ subst (Running cur) (inside (sym (if_false _ _ d ∙ if_false _ _ w) ∙ e)) (record {
        inv = Inv-same (some cur ∷ []) u u' v refl refl;
        state =
            ap (λ (q : Proc). q.state)
              (proc-with_proc_self (some cur ∷ []) s cur p r.inv r.inv.out.0)
            ∙ r.state;
        rule = λ _. refl;
      })
    ]
  ]
    where
      p : Proc
      p = record (proc s cur) { consumed_tq = 0; qlv = negsuc 0 }

      u : Sys W
      u = with_proc s (some cur) p

      u' : Sys W
      u' = record u { global_ticks = 0; scheduler_dictator = some cur; is_dictated = true }

      v : Inv (some cur ∷ []) u
      v = with_held-Inv [] s cur p r.inv (r.inv.ranks cur)

      differ : {a b : Sys W} → exits a ≡ stays b → ⊥
      differ z = cc

      inside : {a b : Sys W} → stays a ≡ stays b → a ≡ b
      inside z = cc
