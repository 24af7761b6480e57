-- ===== src/Mlfq/Pick/Lowest.antt =====
-- `pickProc` on L2, against the queue's contents: the RUNNABLE entry with the lowest `priority`
-- number, the oldest of those.
use hyu_ele3021_operating_sy.Prelude.{
  ◌+◌, ◌≤◌, ◌<◌, ◌≡◌, refl, sym, ap, ap₂, ◌∙◌, ◌⊎◌, inl, inr, Bool, true, false, none, List, [],
  ◌∷◌, ◌++◌, append-nil, append_assoc, arith, length, ◌==◌,
}
use hyu_ele3021_operating_sy.Mlfq.Queue.{Fq, Index, nproc, push_back, pop_front}
use hyu_ele3021_operating_sy.Mlfq.Queue.Refine.{
  contents, IsRing, length-contents, push_back-IsRing, contents-push_back,
}
use hyu_ele3021_operating_sy.Mlfq.Proc.{Proc, proc_at, is_runnable}
use hyu_ele3021_operating_sy.Mlfq.Pick.{Best, pick_scan, pick_turn, pick_best, useless}
use hyu_ele3021_operating_sy.Mlfq.Pick.First.{Idle, popped}
use hyu_ele3021_operating_sy.Mlfq.Pick.Scan.{AtLeast, pick_scan_lem, Scan, scan_of-Scan}

popped_at :
    (q : Fq) (pre : List Index) (y : Index) (post : List Index)
    → IsRing q
    → contents q ≡ pre ++ (y ∷ post)
    → let r = pop_front q in
      (r.0 ∷ contents r.1 ≡ pre ++ (y ∷ post)) × IsRing r.1 × (r.1.size < nproc)
popped_at q [] y post v e = let p = popped q y post v e in (ap₂ ◌∷◌ p.0 p.1, p.2, p.3)
popped_at q (x ∷ pre) y post v e =
    let p = popped q x (pre ++ (y ∷ post)) v e in (ap₂ ◌∷◌ p.0 p.1, p.2, p.3)

-- Putting back the entries before the chosen one leaves them behind the rest.
pick_turn_lem :
    (pre : List Index) (y : Index) (post : List Index) (idx : Index) (q : Fq)
    → IsRing q
    → q.size < nproc
    → idx ∷ contents q ≡ pre ++ (y ∷ post)
    → let r = pick_turn (length pre) idx q in (r.0 ≡ y) × IsRing r.1 × (contents r.1 ≡ post ++ pre)
unfolding pick_turn
pick_turn_lem [] y post idx q v room e =
    let e' : contents q ≡ post = cc in (cc, v, e' ∙ sym (append-nil post))
pick_turn_lem (x ∷ pre) y post idx q v room e =
    let rest : contents q ≡ pre ++ (y ∷ post) = cc in
    let first : idx ≡ x = cc in
    let p = popped_at (push_back q idx) pre y (post ++ (idx ∷ [])) (push_back-IsRing q idx v room) (
      contents-push_back q idx v room
      ∙ ap (λ l. l ++ (idx ∷ [])) rest
      ∙ append_assoc pre (y ∷ post) (idx ∷ [])) in
    let ih =
      pick_turn_lem pre y (post ++ (idx ∷ [])) (pop_front (push_back q idx)).0
        (pop_front (push_back q idx)).1 p.1 p.2 p.0 in
    (ih.0, ih.1, ih.2 ∙ append_assoc post (idx ∷ []) pre ∙ ap (λ z. post ++ (z ∷ pre)) first)

-- Each entry has a `priority` that the scan can beat.
abbrev pub Ranked : List Proc → List Index → Type 0
Ranked ps [] = Unit {0}
Ranked ps (x ∷ xs) = ((proc_at ps x).priority < useless) × Ranked ps xs

Ranked-Idle : (ps : List Proc) (xs : List Index) → Ranked ps xs → AtLeast ps useless xs → Idle ps xs
Ranked-Idle ps [] r a = tt
Ranked-Idle ps (x ∷ xs) r a =
    (rest (is_runnable (proc_at ps x).state) a.0, Ranked-Idle ps xs r.1 a.1)
  where
    rest : (b : Bool) → (b ≡ true → useless ≤ (proc_at ps x).priority) → b ≡ false
    rest false h = refl
    rest true h = absurd (omega (arith, h refl, r.0))

Ranked-at :
    (ps : List Proc) (pre : List Index) (y : Index) (post : List Index)
    → Ranked ps (pre ++ (y ∷ post))
    → (proc_at ps y).priority < useless
Ranked-at ps [] y post r = r.0
Ranked-at ps (x ∷ pre) y post r = Ranked-at ps pre y post r.1

-- The oldest of the RUNNABLE entries with the lowest `priority`, and the queue without it.
pub record Lowest (ps : List Proc) (xs : List Index) (r : Index × Fq) : Type 0 where
  pub before : List Index
  pub after : List Index
  pub split : xs ≡ before ++ (r.0 ∷ after)
  pub ready : is_runnable (proc_at ps r.0).state ≡ true
  pub first : AtLeast ps ((proc_at ps r.0).priority + 1) before
  pub least : AtLeast ps (proc_at ps r.0).priority after
  pub left : contents r.1 ≡ after ++ before

abbrev start : Best
start = record { proc_priority = useless; mlfq_idx = 0 }

pick_best-none :
    (ps : List Proc) (q : Fq) (c : Best) (q' : Fq)
    → pick_scan q.size 0 ps start q ≡ (c, q')
    → c.proc_priority ≡ useless
    → pick_best ps q ≡ (none, q')
unfolding pick_best
pick_best-none ps q c q' e h =
    let t : (c.proc_priority == useless) ≡ true = ground arith in rw (e, t)

pick_best_some :
    (ps : List Proc) (q : Fq) (c : Best) (q' : Fq)
    → pick_scan q.size 0 ps start q ≡ (c, q')
    → c.proc_priority < useless
    → pick_best ps q ≡ pick_turn c.mlfq_idx (pop_front q').0 (pop_front q').1
unfolding pick_best
pick_best_some ps q c q' e h =
    let t : (c.proc_priority == useless) ≡ false = ground arith in rw (e, t)

abbrev PicksLowest : List Proc → List Index → Index × Fq → Type 0
PicksLowest ps xs r =
    IsRing r.1 × ((Idle ps xs × (r.0 ≡ none) × (contents r.1 ≡ xs)) ⊎ Lowest ps xs r)

finish :
    (ps : List Proc) (q : Fq) (c : Best) (q' : Fq)
    → pick_scan q.size 0 ps start q ≡ (c, q')
    → IsRing q'
    → contents q' ≡ contents q
    → Ranked ps (contents q)
    → Scan ps 0 start c (contents q)
    → PicksLowest ps (contents q) (pick_best ps q)
finish ps q c q' e v k r (inl (same, a)) =
    rw (pick_best-none ps q c q' e (ap (λ (d : Best). d.proc_priority) same))
      (v, inl (Ranked-Idle ps (contents q) r a, refl, k))
finish ps q c q' e v k r (inr s) =
    let p = popped_at q' s.before s.entry s.after v (k ∙ s.split) in
    let t = pick_turn_lem s.before s.entry s.after (pop_front q').0 (pop_front q').1 p.1 p.2 p.0 in
    let place : c.mlfq_idx ≡ length s.before = omega (arith, s.place) in
    rw (pick_best_some ps q c q' e s.beats, place)
      (
        t.1,
        inr (record {
          before = s.before;
          after = s.after;
          split = rw t.0 s.split;
          ready = rw t.0 s.ready;
          first = rw (t.0, s.value) s.earlier;
          least = rw (t.0, s.value) s.later;
          left = t.2;
        }),
      )

-- `pickProc` on L2 takes the oldest RUNNABLE entry of the lowest `priority` number and keeps the
-- order of the others, up to rotation; it returns -1, and leaves the queue as it was, only if
-- no entry is RUNNABLE.
pub pick_best-Lowest :
    (ps : List Proc) (q : Fq)
    → IsRing q
    → Ranked ps (contents q)
    → PicksLowest ps (contents q) (pick_best ps q)
pick_best-Lowest ps q v k =
    let s = pick_scan_lem ps 0 start (contents q) [] q v (sym (append-nil (contents q))) in
    let s' = rw (length-contents q) at s in
    let found = scan_of-Scan ps 0 start (contents q) in
    finish ps q _ _ refl s'.1 s'.2 k (rw (← s'.0) at found)
