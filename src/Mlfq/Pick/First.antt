-- ===== src/Mlfq/Pick/First.antt =====
-- `pickProc` on L0 and L1, against the queue's contents.
use hyu_ele3021_operating_sy.Prelude.{
  ℕ, suc, ◌<◌, ◌≡◌, refl, sym, ap, ◌∙◌, ◌⊎◌, inl, inr, true, false, none, List, [], ◌∷◌, ◌++◌,
  append-nil, append_assoc, arith, length, Bool-cases,
}
use hyu_ele3021_operating_sy.Mlfq.Queue.{Fq, Index, nproc, push_back, pop_front}
use hyu_ele3021_operating_sy.Mlfq.Queue.Refine.{
  contents, IsRing, length-contents, push_back-IsRing, contents-push_back, pop_front-IsRing,
  pop_front_cons,
}
use hyu_ele3021_operating_sy.Mlfq.Proc.{Proc, proc_at, is_runnable}
use hyu_ele3021_operating_sy.Mlfq.Pick.{pick_first}

-- No entry of the list is RUNNABLE.
abbrev pub Idle : List Proc → List Index → Type 0
Idle ps [] = Unit {0}
Idle ps (x ∷ xs) = (is_runnable (proc_at ps x).state ≡ false) × Idle ps xs

Idle-append :
    (ps : List Proc) (xs : List Index) (y : Index)
    → Idle ps xs
    → is_runnable (proc_at ps y).state ≡ false
    → Idle ps (xs ++ (y ∷ []))
Idle-append ps [] y h e = (e, tt)
Idle-append ps (x ∷ xs) y h e = (h.0, Idle-append ps xs y h.1 e)

-- One `deQ`: the queue keeps its shape and has room again.
pub popped :
    (q : Fq) (x : Index) (xs : List Index)
    → IsRing q
    → contents q ≡ x ∷ xs
    → let q' = (pop_front q).1 in
      ((pop_front q).0 ≡ x) × (contents q' ≡ xs) × IsRing q' × (q'.size < nproc)
popped q x xs v e =
    let p = pop_front_cons q x xs e in
    (
      p.0,
      p.1,
      pop_front-IsRing q v,
      omega (
        arith,
        length-contents q,
        length-contents (pop_front q).1,
        ap length e,
        ap length p.1,
        v.size_in,
      ),
    )

-- One `deQ` followed by an `enQ`.
pub turned :
    (q : Fq) (x y : Index) (xs : List Index)
    → IsRing q
    → contents q ≡ x ∷ xs
    → let q' = push_back (pop_front q).1 y in IsRing q' × (contents q' ≡ xs ++ (y ∷ []))
turned q x y xs v e =
    let p = popped q x xs v e in
    (
      push_back-IsRing (pop_front q).1 y p.2 p.3,
      contents-push_back (pop_front q).1 y p.2 p.3 ∙ ap (λ l. l ++ (y ∷ [])) p.1,
    )

-- What a search over `rest` yields when the entries `skipped` have gone to the back already.
pub record Hit (ps : List Proc) (rest skipped : List Index) (r : Index × Fq) : Type 0 where
  pub before : List Index
  pub after : List Index
  pub split : rest ≡ before ++ (r.0 ∷ after)
  pub passed : Idle ps before
  pub ready : is_runnable (proc_at ps r.0).state ≡ true
  pub left : contents r.1 ≡ after ++ (skipped ++ before)

abbrev pub Search : List Proc → List Index → List Index → Index × Fq → Type 0
Search ps rest skipped r =
    IsRing r.1
    × ((Idle ps rest × (r.0 ≡ none) × (contents r.1 ≡ skipped ++ rest)) ⊎ Hit ps rest skipped r)

-- A search that passes over one more entry.
Search-skip :
    (ps : List Proc) (x : Index) (rest skipped : List Index) (r : Index × Fq)
    → is_runnable (proc_at ps x).state ≡ false
    → Search ps rest (skipped ++ (x ∷ [])) r
    → Search ps (x ∷ rest) skipped r
Search-skip ps x rest skipped r miss (v, inl (idle, e, left)) =
    (v, inl ((miss, idle), e, left ∙ append_assoc skipped (x ∷ []) rest))
Search-skip ps x rest skipped r miss (v, inr h) = (
  v,
  inr (record {
    before = x ∷ h.before;
    after = h.after;
    split = ap (◌∷◌ x) h.split;
    passed = (miss, h.passed);
    ready = h.ready;
    left = h.left ∙ ap (◌++◌ h.after) (append_assoc skipped (x ∷ []) h.before);
  }),
)

pick_first_zero : (ps : List Proc) (q : Fq) → pick_first 0 ps q ≡ (none, q)
unfolding pick_first
pick_first_zero ps q = refl

pick_first_hit :
    (ps : List Proc) (n : ℕ) (q : Fq)
    → is_runnable (proc_at ps (pop_front q).0).state ≡ true
    → pick_first (suc n) ps q ≡ pop_front q
unfolding pick_first
pick_first_hit ps n q e = rw e

pick_first_miss :
    (ps : List Proc) (n : ℕ) (q : Fq)
    → is_runnable (proc_at ps (pop_front q).0).state ≡ false
    → pick_first (suc n) ps q ≡ pick_first n ps (push_back (pop_front q).1 (pop_front q).0)
unfolding pick_first
pick_first_miss ps n q e = rw e

-- The next entry is either taken or passed over.
pub pick_first-Search :
    (ps : List Proc) (rest skipped : List Index) (q : Fq)
    → IsRing q
    → contents q ≡ rest ++ skipped
    → Search ps rest skipped (pick_first (length rest) ps q)
pick_first-Search ps [] skipped q v e =
    rw (pick_first_zero ps q) (v, inl (tt, refl, e ∙ sym (append-nil skipped)))
pick_first-Search ps (x ∷ rest) skipped q v e =
    let p = popped q x (rest ++ skipped) v e in
    let x' = (pop_front q).0 in
    let t = turned q x x' (rest ++ skipped) v e in
    elim (Bool-cases (is_runnable (proc_at ps x').state)) [
      | inl hit ↦ rw (pick_first_hit ps (length rest) q hit) (
        p.2,
        inr (record {
          before = [];
          after = rest;
          split = ap (λ y. y ∷ rest) (sym p.0);
          passed = tt;
          ready = hit;
          left = p.1 ∙ ap (◌++◌ rest) (sym (append-nil skipped));
        }),
      )
      | inr miss ↦
          rw (pick_first_miss ps (length rest) q miss, p.0)
            (Search-skip ps x rest skipped _ (rw p.0 at miss) (
              pick_first-Search ps rest (skipped ++ (x ∷ [])) (push_back (pop_front q).1 x)
                (rw p.0 at t.0) ((rw p.0 at t.1) ∙ append_assoc rest skipped (x ∷ []))))
    ]
