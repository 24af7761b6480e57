-- ===== src/Mlfq/Invariant/Search.antt =====
-- The search of `setPriority`: each level is turned up to the process sought.
use hyu_ele3021_operating_sy.Prelude.{
  if_true, if_false, ℕ, suc, ◌≡◌, refl, sym, ap, ◌∙◌, inl, inr, true, false, Option, none, some,
  List, [], ◌∷◌, ◌++◌, append-nil, append_assoc, Bool-cases, length, ℤ,
}
use hyu_ele3021_operating_sy.Mlfq.Queue.{Fq, Index, push_back, pop_front}
use hyu_ele3021_operating_sy.Mlfq.Queue.Refine.{contents, IsRing}
use hyu_ele3021_operating_sy.Mlfq.Proc.{Proc, proc_at}
use hyu_ele3021_operating_sy.Mlfq.Sleep.{is_pid}
use hyu_ele3021_operating_sy.Mlfq.Pick.First.{popped, turned}
use hyu_ele3021_operating_sy.Mlfq.Control.{find_pid}

-- No entry of the list has the pid.
abbrev pub Absent : ℤ → List Proc → List Index → Type 0
Absent pid ps [] = Unit {0}
Absent pid ps (x ∷ xs) = (is_pid pid (proc_at ps x).pid ≡ false) × Absent pid ps xs

-- What the search over `rest` yields when `skipped` has gone to the back already: the queue ends
-- with the entry found.
pub data Found (pid : ℤ) (ps : List Proc) (rest skipped : List Index) (r : Option Index × Fq)
    : Type 0 where
  missing :
      r.0 ≡ none
      → Absent pid ps rest
      → contents r.1 ≡ skipped ++ rest
      → IsRing r.1
      → Found pid ps rest skipped r
  present :
      (before : List Index) (x : Index) (after : List Index)
      → r.0 ≡ some x
      → rest ≡ before ++ (x ∷ after)
      → Absent pid ps before
      → is_pid pid (proc_at ps x).pid ≡ true
      → contents r.1 ≡ after ++ (skipped ++ (before ++ (x ∷ [])))
      → IsRing r.1
      → Found pid ps rest skipped r

find_pid_zero : (pid : ℤ) (ps : List Proc) (q : Fq) → find_pid 0 pid ps q ≡ (none, q)
unfolding find_pid
find_pid_zero pid ps q = refl

find_pid_hit :
    (n : ℕ) (pid : ℤ) (ps : List Proc) (q : Fq) (x : Index)
    → (pop_front q).0 ≡ x
    → is_pid pid (proc_at ps x).pid ≡ true
    → find_pid (suc n) pid ps q ≡ (some x, push_back (pop_front q).1 x)
unfolding find_pid
find_pid_hit n pid ps q x e h =
    if_true _ _ (ap (λ y. is_pid pid (proc_at ps y).pid) e ∙ h)
    ∙ ap (λ y. (some y, push_back (pop_front q).1 y)) e

find_pid_miss :
    (n : ℕ) (pid : ℤ) (ps : List Proc) (q : Fq) (x : Index)
    → (pop_front q).0 ≡ x
    → is_pid pid (proc_at ps x).pid ≡ false
    → find_pid (suc n) pid ps q ≡ find_pid n pid ps (push_back (pop_front q).1 x)
unfolding find_pid
find_pid_miss n pid ps q x e h =
    if_false _ _ (ap (λ y. is_pid pid (proc_at ps y).pid) e ∙ h)
    ∙ ap (λ y. find_pid n pid ps (push_back (pop_front q).1 y)) e

Found-skip :
    (pid : ℤ) (ps : List Proc) (x : Index) (rest skipped : List Index) (r : Option Index × Fq)
    → is_pid pid (proc_at ps x).pid ≡ false
    → Found pid ps rest (skipped ++ (x ∷ [])) r
    → Found pid ps (x ∷ rest) skipped r
Found-skip pid ps x rest skipped r h (missing e a c v) =
    missing e (h, a) (c ∙ append_assoc skipped (x ∷ []) rest) v
Found-skip pid ps x rest skipped r h (present b y a e s ab y_is c v) =
    present (x ∷ b) y a e (ap (◌∷◌ x) s) (h, ab) y_is
      (c ∙ ap (◌++◌ a) (append_assoc skipped (x ∷ []) (b ++ (y ∷ [])))) v

pub find_pid-Found :
    (pid : ℤ) (ps : List Proc) (rest skipped : List Index) (q : Fq)
    → IsRing q
    → contents q ≡ rest ++ skipped
    → Found pid ps rest skipped (find_pid (length rest) pid ps q)
find_pid-Found pid ps [] skipped q v e =
    rw (find_pid_zero pid ps q) (missing refl tt (e ∙ sym (append-nil skipped)) v)
find_pid-Found pid ps (x ∷ rest) skipped q v e =
    let p = popped q x (rest ++ skipped) v e in
    let t = turned q x x (rest ++ skipped) v e in
    let c = t.1 ∙ append_assoc rest skipped (x ∷ []) in
    elim (Bool-cases (is_pid pid (proc_at ps x).pid)) [
      | inl h ↦
          rw (find_pid_hit (length rest) pid ps q x p.0 h) (present [] x rest refl refl tt h c t.0)
      | inr h ↦ rw (find_pid_miss (length rest) pid ps q x p.0 h) (
          Found-skip pid ps x rest skipped _ h
            (find_pid-Found pid ps rest (skipped ++ (x ∷ [])) _ t.0 c))
    ]
