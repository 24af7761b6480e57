-- ===== src/Io/Strings/Copies.antt =====
-- What the string functions do to the text of a string, its bytes before the first 0.
use hyu_ele3021_operating_sy.Prelude.{
  if_true, if_false, ℕ, zero, suc, ◌+◌, ◌-◌, ◌≤◌, ◌<◌, ◌≡◌, refl, sym, ap, ap₂, ◌∙◌, ◌↔◌, inl, inr,
  true, false, not, ◌&&◌, List, [], ◌∷◌, arith, leb, ◌==◌, if◌then◌else◌, ==_iff, Bool-cases,
  length, take, length-replicate, ℤ, pos, negsuc,
}
use mathlib.Core.Bool.{false≢true}
use hyu_ele3021_operating_sy.Io.Strings.{
  head_or, rest_of, byte_diff, strncmp, strncpy, safe_loop, safestrcpy, strlen,
}

abbrev pub text : List ℕ → List ℕ
text [] = []
text (c ∷ cs) = if c == 0 then [] else c ∷ text cs

-- The first bytes of the text of `t`, from its first byte and the rest.
abbrev cut : ℕ → List ℕ → List ℕ
cut n t = take n (text t)

cut_nul : (n : ℕ) (t : List ℕ) → (head_or t == 0) ≡ true → cut n t ≡ []
cut_nul n [] e = take_nil n
  where
    none_left : List ℕ
    none_left = []

    take_nil : (n : ℕ) → take n none_left ≡ none_left
    take_nil zero = refl
    take_nil (suc n) = refl
cut_nul zero (c ∷ cs) e = refl
cut_nul (suc n) (c ∷ cs) e = rw e refl

cut_more :
    (n : ℕ) (t : List ℕ) → (head_or t == 0) ≡ false → cut (suc n) t ≡ head_or t ∷ cut n (rest_of t)
cut_more n [] e = absurd (false≢true (sym e))
cut_more n (c ∷ cs) e = rw e refl

-- `strncpy` writes `n` bytes, and their text is the beginning of the text of `t`.
pub strncpy-text :
    (t : List ℕ) (n : ℕ) → (text (strncpy t n) ≡ take n (text t)) × (length (strncpy t n) ≡ n)
unfolding strncpy
strncpy-text t zero = (refl, refl)
strncpy-text t (suc n) =
    let (a, b) = strncpy-text (rest_of t) n in
    elim (Bool-cases (head_or t == 0)) [
      | inl e ↦ rw e (sym (cut_nul (suc n) t e), ap suc (length-replicate n 0))
      | inr e ↦ rw e (rw e (ap (◌∷◌ (head_or t)) a) ∙ sym (cut_more n t e), ap suc b)
    ]

safe_loop-text :
    (t : List ℕ) (n : ℕ)
    → (text (safe_loop t n) ≡ take n (text t))
      × (strlen (safe_loop t n) < length (safe_loop t n))
      × (length (safe_loop t n) ≤ n + 1)
unfolding safe_loop strlen
safe_loop-text t zero = (refl, omega arith, omega arith)
safe_loop-text t (suc n) =
    let (a, b, c) = safe_loop-text (rest_of t) n in
    elim (Bool-cases (head_or t == 0)) [
      | inl e ↦ rw e (sym (cut_nul (suc n) t e), omega arith, omega arith)
      | inr e ↦ rw e (
        rw e (ap (◌∷◌ (head_or t)) a) ∙ sym (cut_more n t e),
        rw e (omega (arith, b)),
        omega (arith, c),
      )
    ]

-- `safestrcpy` writes at most its size, ends the text within it, and copies what fits.
pub safestrcpy-text :
    (t : List ℕ) (n : ℕ)
    → (text (safestrcpy t (suc n)) ≡ take n (text t))
      × (strlen (safestrcpy t (suc n)) < length (safestrcpy t (suc n)))
      × (length (safestrcpy t (suc n)) ≤ suc n)
unfolding safestrcpy
safestrcpy-text t n = let (a, b, c) = safe_loop-text t n in (a, b, omega (arith, c))

byte_diff_zero : (a b : ℕ) → (byte_diff a b ≡ pos 0) ↔ (a ≡ b)
byte_diff_zero a b = elim (Bool-cases (leb b a)) [
  | inl e ↦ rw e ((λ h. omega (arith, low h, leb_true e)), (λ h. ap pos (omega (arith, h))))
  | inr e ↦ rw e ((λ h. absurd (omega (arith, ap value h))), (λ h. absurd (ground (arith, e, h))))
]
  where
    leb_true : leb b a ≡ true → b ≤ a
    leb_true e = ground arith

    value : ℤ → ℕ
    value (pos n) = n
    value (negsuc n) = 1

    low : pos (a - b) ≡ pos 0 → a - b ≡ 0
    low h = ap value h

head_or-cut : (n : ℕ) (t : List ℕ) → head_or (cut (suc n) t) ≡ head_or t
head_or-cut n t = elim (Bool-cases (head_or t == 0)) [
  | inl e ↦ ap head_or (cut_nul (suc n) t e) ∙ sym ((==_iff (head_or t) 0).0 e)
  | inr e ↦ ap head_or (cut_more n t e)
]

-- `strncmp` returns 0 just when the first `n` bytes of the texts of its two strings, up to their
-- first 0, are equal.
pub strncmp_zero :
    (p q : List ℕ) (n : ℕ) → (strncmp p q n ≡ pos 0) ↔ (take n (text p) ≡ take n (text q))
unfolding strncmp
strncmp_zero p q zero = ((λ h. refl), (λ h. refl))
strncmp_zero p q (suc n) =
    let ih = strncmp_zero (rest_of p) (rest_of q) n in
    elim (Bool-cases (not (head_or p == 0) && head_or p == head_or q)) [
      | inl e ↦
          let (x, y) = goes_on (head_or p) (head_or q) e in
          let c = cut_more n p x in
          let d = cut_more n q (ap (λ b. b == 0) (sym y) ∙ x) in
          let r = if_true _ _ e in
          (
            (λ h. c ∙ ap₂ ◌∷◌ y (ih.0 (sym r ∙ h)) ∙ sym d),
            (λ h. r ∙ ih.1 (ap rest_of (sym c ∙ h ∙ d))),
          )
      | inr e ↦
          let d = byte_diff_zero (head_or p) (head_or q) in
          let r = if_false _ _ e in
          (
            (λ h.
                let same = d.0 (sym r ∙ h) in
                let x = nul (head_or p) (head_or q) e same in
                cut_nul (suc n) p x ∙ sym (cut_nul (suc n) q (ap (λ b. b == 0) (sym same) ∙ x))),
            (λ h. r ∙ d.1 (sym (head_or-cut n p) ∙ ap head_or h ∙ head_or-cut n q)),
          )
    ]
  where
    goes_on : (a b : ℕ) → (not (a == 0) && a == b) ≡ true → ((a == 0) ≡ false) × (a ≡ b)
    goes_on a b e = (ground (arith, e), ground (arith, e))

    nul : (a b : ℕ) → (not (a == 0) && a == b) ≡ false → a ≡ b → (a == 0) ≡ true
    nul a b e h = ground (arith, e, h)
