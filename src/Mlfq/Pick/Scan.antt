-- ===== src/Mlfq/Pick/Scan.antt =====
-- The first loop of `pickProc` on L2, against the queue's contents.
use hyu_ele3021_operating_sy.Prelude.{
  ℕ, suc, ◌+◌, ◌≤◌, ◌<◌, ◌≡◌, refl, sym, ap, ◌∙◌, ◌⊎◌, inl, inr, true, List, [], ◌∷◌, ◌++◌,
  append-nil, append_assoc, arith, length, Bool-cases, ltb,
}
use hyu_ele3021_operating_sy.Mlfq.Queue.{Fq, Index, push_back, pop_front}
use hyu_ele3021_operating_sy.Mlfq.Queue.Refine.{contents, IsRing}
use hyu_ele3021_operating_sy.Mlfq.Proc.{Proc, proc_at, is_runnable}
use hyu_ele3021_operating_sy.Mlfq.Pick.{Best, better, pick_scan}
use hyu_ele3021_operating_sy.Mlfq.Pick.First.{popped, turned}

-- Each RUNNABLE entry of the list has a `priority` of at least `k`.
abbrev pub AtLeast : List Proc → ℕ → List Index → Type 0
AtLeast ps k [] = Unit {0}
AtLeast ps k (x ∷ xs) =
    (is_runnable (proc_at ps x).state ≡ true → k ≤ (proc_at ps x).priority) × AtLeast ps k xs

-- The scan over the entries themselves.
pub scan_of : List Proc → ℕ → Best → List Index → Best
scan_of ps i b [] = b
scan_of ps i b (x ∷ xs) = scan_of ps (i + 1) (better (proc_at ps x) i b) xs

pick_scan-suc :
    (ps : List Proc) (n i : ℕ) (b : Best) (x : Index) (q : Fq)
    → (pop_front q).0 ≡ x
    → pick_scan (suc n) i ps b q
      ≡ pick_scan n (i + 1) ps (better (proc_at ps x) i b) (push_back (pop_front q).1 x)
unfolding pick_scan
pick_scan-suc ps n i b x q e =
    ap (λ y. pick_scan n (i + 1) ps (better (proc_at ps y) i b) (push_back (pop_front q).1 y)) e

pick_scan_zero : (ps : List Proc) (i : ℕ) (b : Best) (q : Fq) → pick_scan 0 i ps b q ≡ (b, q)
unfolding pick_scan
pick_scan_zero ps i b q = refl

pub pick_scan_lem :
    (ps : List Proc) (i : ℕ) (b : Best) (rest skipped : List Index) (q : Fq)
    → IsRing q
    → contents q ≡ rest ++ skipped
    → let r = pick_scan (length rest) i ps b q in
      (r.0 ≡ scan_of ps i b rest) × IsRing r.1 × (contents r.1 ≡ skipped ++ rest)
unfolding scan_of
pick_scan_lem ps i b [] skipped q v e =
    rw (pick_scan_zero ps i b q) (refl, v, e ∙ sym (append-nil skipped))
pick_scan_lem ps i b (x ∷ rest) skipped q v e =
    let p = popped q x (rest ++ skipped) v e in
    let t = turned q x x (rest ++ skipped) v e in
    let ih =
      pick_scan_lem ps (i + 1) (better (proc_at ps x) i b) rest (skipped ++ (x ∷ []))
        (push_back (pop_front q).1 x) t.0 (t.1 ∙ append_assoc rest skipped (x ∷ [])) in
    rw (pick_scan-suc ps (length rest) i b x q p.0)
      (ih.0, ih.1, ih.2 ∙ append_assoc skipped (x ∷ []) rest)

-- What the scan finds: the entry after `before`, if it beats the best so far.
pub record Chosen (ps : List Proc) (i : ℕ) (b c : Best) (xs : List Index) : Type 0 where
  pub before : List Index
  pub entry : Index
  pub after : List Index
  pub split : xs ≡ before ++ (entry ∷ after)
  pub ready : is_runnable (proc_at ps entry).state ≡ true
  pub value : (proc_at ps entry).priority ≡ c.proc_priority
  pub beats : c.proc_priority < b.proc_priority
  pub place : c.mlfq_idx ≡ i + length before
  pub earlier : AtLeast ps (c.proc_priority + 1) before
  pub later : AtLeast ps c.proc_priority after

abbrev pub Scan : List Proc → ℕ → Best → Best → List Index → Type 0
Scan ps i b c xs = ((c ≡ b) × AtLeast ps b.proc_priority xs) ⊎ Chosen ps i b c xs

Chosen-cons :
    (ps : List Proc) (i : ℕ) (b b' c : Best) (x : Index) (xs : List Index)
    → b'.proc_priority ≤ b.proc_priority
    → (is_runnable (proc_at ps x).state ≡ true → b'.proc_priority ≤ (proc_at ps x).priority)
    → Chosen ps (i + 1) b' c xs
    → Chosen ps i b c (x ∷ xs)
Chosen-cons ps i b b' c x xs h r s = record {
  before = x ∷ s.before;
  entry = s.entry;
  after = s.after;
  split = ap (◌∷◌ x) s.split;
  ready = s.ready;
  value = s.value;
  beats = omega (arith, s.beats);
  place = omega (arith, s.place);
  earlier = ((λ t. omega (arith, r t, s.beats)), s.earlier);
  later = s.later;
}

Scan-keep :
    (ps : List Proc) (i : ℕ) (b c : Best) (x : Index) (xs : List Index)
    → (is_runnable (proc_at ps x).state ≡ true → b.proc_priority ≤ (proc_at ps x).priority)
    → Scan ps (i + 1) b c xs
    → Scan ps i b c (x ∷ xs)
Scan-keep ps i b c x xs h (inl (e, a)) = inl (e, (h, a))
Scan-keep ps i b c x xs h (inr s) = inr (Chosen-cons ps i b b c x xs (omega arith) h s)

abbrev here : Proc → ℕ → Best
here p i = record { proc_priority = p.priority; mlfq_idx = i }

Scan-new :
    (ps : List Proc) (i : ℕ) (b c : Best) (x : Index) (xs : List Index)
    → is_runnable (proc_at ps x).state ≡ true
    → (proc_at ps x).priority < b.proc_priority
    → Scan ps (i + 1) (here (proc_at ps x) i) c xs
    → Scan ps i b c (x ∷ xs)
Scan-new ps i b c x xs r h (inl (e, a)) = inr (record {
  before = [];
  entry = x;
  after = xs;
  split = refl;
  ready = r;
  value = ap (λ (d : Best). d.proc_priority) (sym e);
  beats = omega (arith, ap (λ (d : Best). d.proc_priority) e);
  place = omega (arith, ap (λ (d : Best). d.mlfq_idx) e);
  earlier = tt;
  later = rw e a;
})
Scan-new ps i b c x xs r h (inr s) =
    inr (Chosen-cons ps i b (here (proc_at ps x) i) c x xs (omega arith) (λ t. omega arith) s)

better_cases :
    (p : Proc) (i : ℕ) (b : Best)
    → ((better p i b ≡ b) × (is_runnable p.state ≡ true → b.proc_priority ≤ p.priority))
      ⊎ ((better p i b ≡ here p i) × (is_runnable p.state ≡ true) × (p.priority < b.proc_priority))
unfolding better
better_cases p i b = elim (Bool-cases (is_runnable p.state)) [
  | inr idle ↦ inl (rw idle, λ t. cc)
  | inl r ↦ elim (Bool-cases (ltb p.priority b.proc_priority)) [
    | inl less ↦ inr (rw (r, less), r, ground arith)
    | inr more ↦ inl (rw (r, more), λ t. ground arith)
  ]
]

pub scan_of-Scan :
    (ps : List Proc) (i : ℕ) (b : Best) (xs : List Index) → Scan ps i b (scan_of ps i b xs) xs
unfolding scan_of
scan_of-Scan ps i b [] = inl (refl, tt)
scan_of-Scan ps i b (x ∷ xs) = elim (better_cases (proc_at ps x) i b) [
  | inl (e, h) ↦ rw e (Scan-keep ps i b _ x xs h (scan_of-Scan ps (i + 1) b xs))
  | inr (e, r, h) ↦
      rw e (Scan-new ps i b _ x xs r h (scan_of-Scan ps (i + 1) (here (proc_at ps x) i) xs))
]
