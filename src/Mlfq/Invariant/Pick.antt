-- ===== src/Mlfq/Invariant/Pick.antt =====
-- The choice of the scheduler: which process it takes, and that the invariant goes on to hold.
use hyu_ele3021_operating_sy.Prelude.{
  ℕ, zero, suc, ◌+◌, ◌≤◌, ◌<◌, ◌≡◌, refl, sym, ap, ◌∙◌, ◌≢◌, inl, inr, Option, none, some, List, [],
  ◌∷◌, append-nil, arith, ◌==◌, Bool-cases, length, get_or-set_self, get_or-set_ne,
}
use mathlib.Core.Path.{subst₂}
use hyu_ele3021_operating_sy.Mlfq.Queue.{Fq, Index, nproc, empty_fq}
use hyu_ele3021_operating_sy.Mlfq.Queue.Refine.{contents}
use hyu_ele3021_operating_sy.Mlfq.State.{Sys, with_queue, queue, pick_proc}
use hyu_ele3021_operating_sy.Mlfq.Pick.{pick_queue}
use hyu_ele3021_operating_sy.Mlfq.Pick.First.{Idle}
use hyu_ele3021_operating_sy.Mlfq.Pick.Lowest.{Ranked}
use hyu_ele3021_operating_sy.Mlfq.Pick.Result.{Next, Picks, pick_queue-Picks}
use hyu_ele3021_operating_sy.Mlfq.Scheduler.{Choice, pick_levels}
use hyu_ele3021_operating_sy.Mlfq.Count.{AllFine-get, IsSlot, Inside, Inside-split}
use hyu_ele3021_operating_sy.Mlfq.Invariant.{Inv, turn-Inv, take-Inv}

module _ {W : Type 0} where
  pub queue-with_queue_self :
      (s : Sys W) (lv : ℕ) (q : Fq) → lv < length s.mlfq → queue (with_queue s lv q) lv ≡ q
  queue-with_queue_self s lv q h = get_or-set_self s.mlfq lv q empty_fq h

  pub queue-with_queue_ne :
      (s : Sys W) (lv k : ℕ) (q : Fq) → lv ≢ k → queue (with_queue s lv q) k ≡ queue s k
  queue-with_queue_ne s lv k q h = get_or-set_ne s.mlfq lv k q empty_fq h

  Inv-Ranked : (held : List Index) (s : Sys W) (xs : List Index) → Inv held s → Ranked s.procs xs
  Inv-Ranked held s [] v = tt
  Inv-Ranked held s (none ∷ xs) v = (omega arith, Inv-Ranked held s xs v)
  Inv-Ranked held s (some i ∷ xs) v = (omega (arith, v.ranks i), Inv-Ranked held s xs v)

  -- The level has nothing to run, and keeps its entries; or it gives up the entry to run next.
  pub data Pick (held : List Index) (lv : ℕ) (s : Sys W) (r : Index × Sys W) : Type 0 where
    nothing :
        r.0 ≡ none
        → Idle s.procs (contents (queue s lv))
        → ((k : ℕ) → contents (queue r.1 k) ≡ contents (queue s k))
        → r.1.procs ≡ s.procs
        → Inv held r.1
        → Pick held lv s r
    taken :
        (j : ℕ)
        → r.0 ≡ some j
        → Next lv s.procs (contents (queue s lv)) (some j, queue r.1 lv)
        → ((k : ℕ) → lv ≢ k → queue r.1 k ≡ queue s k)
        → r.1.procs ≡ s.procs
        → Inv (some j ∷ held) r.1
        → Pick held lv s r

  same_contents :
      (s : Sys W) (lv : ℕ) (q : Fq)
      → lv < length s.mlfq
      → contents q ≡ contents (queue s lv)
      → (k : ℕ) → contents (queue (with_queue s lv q) k) ≡ contents (queue s k)
  same_contents s lv q h e k = elim (Bool-cases (lv == k)) [
    | inl t ↦
        let t' : lv ≡ k = ground arith in
        rw (← t') (ap contents (queue-with_queue_self s lv q h) ∙ e)
    | inr t ↦ ap contents (queue-with_queue_ne s lv k q (λ z. ground arith))
  ]

  Pick-result :
      (held : List Index) (lv : ℕ) (s : Sys W) (r : Index × Fq)
      → Inv held s
      → lv < 3
      → Picks lv s.procs (contents (queue s lv)) r
      → Pick held lv s (r.0, with_queue s lv r.1)
  Pick-result held lv s r v h (ring, inl (idle, e, same)) =
      nothing e idle (same_contents s lv r.1 (omega (arith, v.levels)) same) refl (
        turn-Inv held s lv r.1 [] (contents (queue s lv)) v h ring refl
          (same ∙ sym (append-nil (contents (queue s lv)))))
  Pick-result held lv s (none, q) v h (ring, inr n) = absurd (slot.1.0)
    where
      slot : Inside nproc n.before × (IsSlot nproc none × Inside nproc n.after)
      slot =
          Inside-split nproc n.before (none ∷ n.after)
            (rw n.split at (AllFine-get s.mlfq lv (omega (arith, v.levels)) v.rings).1)
  Pick-result held lv s (some j, q) v h (ring, inr n) =
      taken j refl (rw (queue-with_queue_self s lv q (omega (arith, v.levels))) n)
        (λ k. queue-with_queue_ne s lv k q) refl
        (take-Inv held s lv q n.before (some j) n.after v h ring n.split n.left)

  pick_proc-Pick :
      (held : List Index) (lv : ℕ) (s : Sys W)
      → Inv held s
      → lv < 3
      → Pick held lv s (pick_proc lv s)
  unfolding pick_proc
  pick_proc-Pick held lv s v h =
      let fine = AllFine-get s.mlfq lv (omega (arith, v.levels)) v.rings in
      Pick-result held lv s (pick_queue lv s.procs (queue s lv)) v h
        (pick_queue-Picks lv s.procs (queue s lv) fine.0 (Inv-Ranked held s _ v))

  -- What the loop over the levels from `lv` on yields.
  pub data Levels (held : List Index) (lv : ℕ) (s : Sys W) (r : Option Choice × Sys W)
      : Type 0 where
    nothing :
        r.0 ≡ none
        → ((k : ℕ) → lv ≤ k → k < 3 → Idle s.procs (contents (queue s k)))
        → ((k : ℕ) → contents (queue r.1 k) ≡ contents (queue s k))
        → r.1.procs ≡ s.procs
        → Inv held r.1
        → Levels held lv s r
    taken :
        (l j : ℕ)
        → r.0 ≡ some (record { lv = l; proc_idx = some j })
        → l < 3
        → ((k : ℕ) → lv ≤ k → k < l → Idle s.procs (contents (queue s k)))
        → Next l s.procs (contents (queue s l)) (some j, queue r.1 l)
        → ((k : ℕ) → l ≢ k → contents (queue r.1 k) ≡ contents (queue s k))
        → r.1.procs ≡ s.procs
        → Inv (some j ∷ held) r.1
        → Levels held lv s r

  -- A level with nothing to run in front of the others.
  Levels-skip :
      (held : List Index) (lv : ℕ) (s t : Sys W) (r : Option Choice × Sys W)
      → Idle s.procs (contents (queue s lv))
      → ((k : ℕ) → contents (queue t k) ≡ contents (queue s k))
      → t.procs ≡ s.procs
      → Levels held (lv + 1) t r
      → Levels held lv s r
  Levels-skip held lv s t r idle same ps (nothing e quiet keep rp v) =
      nothing e
        (λ k a b. elim (Bool-cases (lv == k)) [
          | inl x ↦ let x' : lv ≡ k = ground arith in rw (← x') idle
          | inr x ↦ subst₂ Idle ps (same k) (quiet k (ground arith) b)
        ])
        (λ k. keep k ∙ same k) (rp ∙ ps) v
  Levels-skip held lv s t r idle same ps (taken l j e h quiet next keep rp v) =
      taken l j e h
        (λ k a b. elim (Bool-cases (lv == k)) [
          | inl x ↦ let x' : lv ≡ k = ground arith in rw (← x') idle
          | inr x ↦ subst₂ Idle ps (same k) (quiet k (ground arith) b)
        ])
        (subst₂ (λ p xs. Next l p xs (some j, queue r.1 l)) ps (same l) next)
        (λ k a. keep k a ∙ same k) (rp ∙ ps) v

  pub pick_levels-none :
      (n lv : ℕ) (s : Sys W)
      → (pick_proc lv s).0 ≡ none
      → pick_levels (suc n) lv s ≡ pick_levels n (lv + 1) (pick_proc lv s).1
  unfolding pick_levels
  pick_levels-none n lv s e = rw (e, pick_levels)

  pub pick_levels-some :
      (n lv j : ℕ) (s : Sys W)
      → (pick_proc lv s).0 ≡ some j
      → pick_levels (suc n) lv s
        ≡ (some (record { lv = lv; proc_idx = some j }), (pick_proc lv s).1)
  unfolding pick_levels
  pick_levels-some n lv j s e = rw (e, pick_levels)

  pub pick_levels_zero : (lv : ℕ) (s : Sys W) → pick_levels 0 lv s ≡ (none, s)
  unfolding pick_levels
  pick_levels_zero lv s = refl

  -- While the invariant holds, the search of the levels from `lv` on picks, on the first level that
  -- has a RUNNABLE process, the process that is next there, leaves the entries of every other level
  -- and the process table alone, and takes the process out of its queue; if no level has one, it
  -- picks nothing and every queue keeps its entries in their order.
  pub pick_levels-Levels :
      (held : List Index) (n lv : ℕ) (s : Sys W)
      → n + lv ≡ 3
      → Inv held s
      → Levels held lv s (pick_levels n lv s)
  pick_levels-Levels held zero lv s e v =
      rw (pick_levels_zero lv s) (nothing refl (λ k a b. absurd (omega arith)) (λ k. refl) refl v)
  pick_levels-Levels held (suc n) lv s e v =
      step (pick_proc-Pick held lv s v (omega arith))
        (λ w. pick_levels-Levels held n (lv + 1) (pick_proc lv s).1 (omega arith) w)
    where
      step :
          Pick held lv s (pick_proc lv s)
          → (Inv held (pick_proc lv s).1
              → Levels held (lv + 1) (pick_proc lv s).1 (pick_levels n (lv + 1) (pick_proc lv s).1))
          → Levels held lv s (pick_levels (suc n) lv s)
      step (nothing z idle same ps w) rest =
          rw (pick_levels-none n lv s z) (Levels-skip held lv s _ _ idle same ps (rest w))
      step (taken j z next keep ps w) rest = rw (pick_levels-some n lv j s z) (
          taken lv j refl (omega arith) (λ k a b. absurd (omega arith)) next
            (λ k a. ap contents (keep k a)) ps w)
