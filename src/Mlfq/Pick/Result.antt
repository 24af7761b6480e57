-- ===== src/Mlfq/Pick/Result.antt =====
-- `pickProc` on any level: what it takes and what it leaves.
use hyu_ele3021_operating_sy.Prelude.{
  ℕ, ◌+◌, ◌≡◌, refl, sym, ◌≢◌, ◌⊎◌, inl, inr, true, none, List, [], ◌∷◌, ◌++◌, append-nil, arith,
  ◌==◌, Bool-cases, length,
}
use hyu_ele3021_operating_sy.Mlfq.Queue.{Fq, Index, is_empty}
use hyu_ele3021_operating_sy.Mlfq.Queue.Refine.{contents, IsRing, length-contents}
use hyu_ele3021_operating_sy.Mlfq.Proc.{Proc, proc_at, is_runnable}
use hyu_ele3021_operating_sy.Mlfq.Pick.{pick_queue, pick_first, pick_best}
use hyu_ele3021_operating_sy.Mlfq.Pick.First.{Idle, Hit, pick_first-Search}
use hyu_ele3021_operating_sy.Mlfq.Pick.Scan.{AtLeast}
use hyu_ele3021_operating_sy.Mlfq.Pick.Lowest.{Lowest, Ranked, pick_best-Lowest}

-- The entry `r.0` of `xs` is the one that level `lv` is to run next: RUNNABLE, and before it stand
-- entries that are not RUNNABLE (L0, L1), or none of at least its priority (L2).
pub record Next (lv : ℕ) (ps : List Proc) (xs : List Index) (r : Index × Fq) : Type 0 where
  pub before : List Index
  pub after : List Index
  pub split : xs ≡ before ++ (r.0 ∷ after)
  pub ready : is_runnable (proc_at ps r.0).state ≡ true
  pub passed : lv ≢ 2 → Idle ps before
  pub first : lv ≡ 2 → AtLeast ps ((proc_at ps r.0).priority + 1) before
  pub least : lv ≡ 2 → AtLeast ps (proc_at ps r.0).priority after
  pub left : contents r.1 ≡ after ++ before

abbrev pub Picks : ℕ → List Proc → List Index → Index × Fq → Type 0
Picks lv ps xs r =
    IsRing r.1 × ((Idle ps xs × (r.0 ≡ none) × (contents r.1 ≡ xs)) ⊎ Next lv ps xs r)

first-Picks :
    (lv : ℕ) (ps : List Proc) (q : Fq)
    → lv ≢ 2
    → IsRing q
    → Picks lv ps (contents q) (pick_first q.size ps q)
first-Picks lv ps q h v = result (rw (length-contents q) at s)
  where
    s :
        let r = pick_first (length (contents q)) ps q in
        IsRing r.1
        × ((Idle ps (contents q) × (r.0 ≡ none) × (contents r.1 ≡ contents q))
            ⊎ Hit ps (contents q) [] r)
    s = pick_first-Search ps (contents q) [] q v (sym (append-nil (contents q)))

    result :
        IsRing (pick_first q.size ps q).1
          × ((Idle ps (contents q)
                × ((pick_first q.size ps q).0 ≡ none)
                × (contents (pick_first q.size ps q).1 ≡ contents q))
              ⊎ Hit ps (contents q) [] (pick_first q.size ps q))
        → Picks lv ps (contents q) (pick_first q.size ps q)
    result (w, inl x) = (w, inl x)
    result (w, inr t) = (
      w,
      inr (record {
        before = t.before;
        after = t.after;
        split = t.split;
        ready = t.ready;
        passed = λ _. t.passed;
        first = λ e. absurd (h e);
        least = λ e. absurd (h e);
        left = t.left;
      }),
    )

best-Picks :
    (ps : List Proc) (q : Fq)
    → IsRing q
    → Ranked ps (contents q)
    → Picks 2 ps (contents q) (pick_best ps q)
best-Picks ps q v k = result (pick_best-Lowest ps q v k)
  where
    result :
        IsRing (pick_best ps q).1
          × ((Idle ps (contents q)
                × ((pick_best ps q).0 ≡ none)
                × (contents (pick_best ps q).1 ≡ contents q))
              ⊎ Lowest ps (contents q) (pick_best ps q))
        → Picks 2 ps (contents q) (pick_best ps q)
    result (w, inl x) = (w, inl x)
    result (w, inr t) = (
      w,
      inr (record {
        before = t.before;
        after = t.after;
        split = t.split;
        ready = t.ready;
        passed = λ h. absurd (h refl);
        first = λ _. t.first;
        least = λ _. t.least;
        left = t.left;
      }),
    )

Idle-nil : (ps : List Proc) (xs : List Index) → length xs ≡ 0 → Idle ps xs
Idle-nil ps [] h = tt
Idle-nil ps (x ∷ xs) h = absurd (omega arith)

-- On a well-formed queue whose priorities are below `USELESS`, `pickProc` picks nothing and keeps
-- the entries in order if none is RUNNABLE; otherwise it takes out a RUNNABLE entry, the first one
-- on L0 and L1 and on L2 the first of those with the least priority number, and the entries behind
-- it come before those that stood in front of it.
pub pick_queue-Picks :
    (lv : ℕ) (ps : List Proc) (q : Fq)
    → IsRing q
    → Ranked ps (contents q)
    → Picks lv ps (contents q) (pick_queue lv ps q)
unfolding pick_queue
pick_queue-Picks lv ps q v k = elim (Bool-cases (is_empty q)) [
  | inl e ↦ rw e (
    v,
    inl (
      Idle-nil ps (contents q) (unfold is_empty in ground (arith, length-contents q)),
      refl,
      refl,
    ),
  )
  | inr e ↦ elim (Bool-cases (lv == 2)) [
    | inl two ↦ let e2 : lv ≡ 2 = ground arith in rw (e, two, e2) (best-Picks ps q v k)
    | inr other ↦ rw (e, other) (first-Picks lv ps q (λ z. ground arith) v)
  ]
]
