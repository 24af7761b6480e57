-- ===== src/Fs/Path/Elements.antt =====
-- `skipelem` takes the first name off a path, so that the loop of `namex` ends.
use hyu_ele3021_operating_sy.Prelude.{
  if_true, if_false, ℕ, ◌<◌, ◌≤◌, take, leb, ◌≡◌, refl, sym, ap, subst, ◌∙◌, ◌≢◌, ◌⊎◌, inl, inr,
  true, false, Option, none, some, List, [], ◌∷◌, ◌++◌, arith, ◌==◌, ==_iff, Bool-cases, length,
  length-append,
}
use mathlib.Core.Bool.{false≢true}
use hyu_ele3021_operating_sy.Fs.Path.{
  slash, skip_slashes, is_end, take_elem, name_of, at_nul, skipelem,
}

-- A path without slashes in front.
abbrev pub NoSlash : List ℕ → Type 0
NoSlash [] = Unit {0}
NoSlash (c ∷ cs) = c ≢ slash

-- A name: no slash and no 0.
abbrev pub IsElem : List ℕ → Type 0
IsElem [] = Unit {0}
IsElem (c ∷ cs) = (is_end c ≡ false) × IsElem cs

abbrev pub Slashes : List ℕ → Type 0
Slashes [] = Unit {0}
Slashes (c ∷ cs) = (c ≡ slash) × Slashes cs

skip_slashes-split :
    (p : List ℕ) → (s : List ℕ) × (p ≡ s ++ skip_slashes p) × Slashes s × NoSlash (skip_slashes p)
unfolding skip_slashes
skip_slashes-split [] = ([], refl, tt, tt)
skip_slashes-split (c ∷ cs) =
    let (s, q, a, b) = skip_slashes-split cs in
    elim (Bool-cases (c == slash)) [
      | inl e ↦ rw e (c ∷ s, ap (◌∷◌ c) q, ((==_iff c slash).0 e, a), b)
      | inr e ↦ rw e ([], refl, tt, (λ h. ground (arith, e, h)))
    ]

take_elem-split :
    (p : List ℕ)
    → (p ≡ (take_elem p).0 ++ (take_elem p).1)
      × IsElem (take_elem p).0
      × ((at_nul (take_elem p).1 ≡ true) ⊎ ¬ NoSlash (take_elem p).1)
unfolding take_elem
take_elem-split [] = (refl, tt, inl refl)
take_elem-split (c ∷ cs) =
    let (q, a, b) = take_elem-split cs in
    elim (Bool-cases (is_end c)) [
      | inr e ↦ rw e (ap (◌∷◌ c) q, (e, a), b)
      | inl e ↦ rw e (
        refl,
        tt,
        elim (Bool-cases (c == 0)) [ inl z ↦ inl z | inr z ↦ inr (λ h. h (is_slash c e z)) ],
      )
    ]
  where
    is_slash : (c : ℕ) → is_end c ≡ true → (c == 0) ≡ false → c ≡ slash
    is_slash c e z = ground (arith, e, z)

take_elem-first : (p : List ℕ) → NoSlash p → at_nul p ≡ false → 0 < length (take_elem p).0
unfolding take_elem
take_elem-first [] h z = absurd (false≢true (sym z))
take_elem-first (c ∷ cs) h z = let e : is_end c ≡ false = ground (arith, h, z) in rw e (omega arith)

-- A path is slashes, its first name, and the rest behind slashes.
pub data Split (path : List ℕ) : Option (List ℕ × List ℕ) → Type 0 where
  over : (s p : List ℕ) → path ≡ s ++ p → Slashes s → at_nul p ≡ true → Split path none
  name :
      (s e t rest : List ℕ)
      → path ≡ s ++ (e ++ (t ++ rest))
      → Slashes s
      → IsElem e
      → Slashes t
      → NoSlash rest
      → length rest < length path
      → (nm : List ℕ)
      → ((14 ≤ length e) × (nm ≡ take 14 e)) ⊎ ((length e < 14) × (nm ≡ e ++ (0 ∷ [])))
      → Split path (some (nm, rest))

named :
    (e : List ℕ)
    → ((14 ≤ length e) × (name_of e ≡ take 14 e)) ⊎ ((length e < 14) × (name_of e ≡ e ++ (0 ∷ [])))
named e = elim (Bool-cases (leb 14 (length e))) [
  | inl h ↦ inl (ground (arith, h), if_true _ _ h)
  | inr h ↦ inr (ground (arith, h), if_false _ _ h)
]

pub skipelem-Split : (path : List ℕ) → Split path (skipelem path)
unfolding skipelem
skipelem-Split path =
    let p = skip_slashes path in
    let (s, q, a, b) = skip_slashes-split path in
    let (q', e, f) = take_elem-split p in
    let rest = (take_elem p).1 in
    let (t, q'', c, d) = skip_slashes-split rest in
    elim (Bool-cases (at_nul p)) [
      | inl z ↦ subst (Split path) (sym (if_true _ _ z)) (over s p q a z)
      | inr z ↦
          let w = q ∙ ap (λ x. s ++ x) (q' ∙ ap (λ x. (take_elem p).0 ++ x) q'') in
          let r = skip_slashes rest in
          subst (Split path) (sym (if_false _ _ z)) (
            name s (take_elem p).0 t (skip_slashes rest) w a e c d
              (omega (
                arith,
                ap length w,
                length-append s ((take_elem p).0 ++ (t ++ r)),
                length-append (take_elem p).0 (t ++ r),
                length-append t r,
                take_elem-first p b z,
              ))
              (name_of (take_elem p).0) (named (take_elem p).0))
    ]
