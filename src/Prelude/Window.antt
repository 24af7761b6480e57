-- ===== src/Prelude/Window.antt =====
-- The entries of a circular buffer, and remainders of sums that go round at most once.
use Prim.Native.Nat.{ℕ, zero, suc, ◌+◌, ◌-◌, ◌%◌, ◌≤◌, ◌<◌}
use mathlib.Core.Path.{◌≡◌, refl, ap, ap₂, ◌∙◌}
use mathlib.Core.Logic.{◌⊎◌, inl, inr}
use mathlib.Core.List.{List, [], ◌∷◌, ◌++◌}
use native.Mathlib.Omega.{arith}
use native.Mathlib.Nat.{mod-eq_of_lt, mod-eq-sub-mod}
use hyu_ele3021_operating_sy.Prelude.Tests.{ltb, Bool-cases}
use hyu_ele3021_operating_sy.Prelude.Lists.{length, get_or, set, get_or-set_self, get_or-set_ne}

-- A remainder of less than twice the modulus.
pub mod_cases : (m a : ℕ) → a < m + m → ((a % m ≡ a) × (a < m)) ⊎ ((a % m + m ≡ a) × (m ≤ a))
mod_cases m a h = elim (Bool-cases (ltb a m)) [
  | inl e ↦ let k : a < m = ground arith in inl (mod-eq_of_lt k, k)
  | inr e ↦
      let k : m ≤ a = ground arith in
      let low : a - m < m = omega (arith, h, k) in
      let r : a % m ≡ a - m = mod-eq-sub-mod k ∙ mod-eq_of_lt low in inr (omega (arith, r, k), k)
]

module _ {ℓ} {A : Type ℓ} where
  -- The `n` entries from position `h` on, going round at `m`.
  abbrev pub ring : ℕ → A → List A → ℕ → ℕ → List A
  ring m d buf h zero = []
  ring m d buf h (suc n) = get_or buf h d ∷ ring m d buf ((h + 1) % m) n

  pub length-ring : (m : ℕ) (d : A) (buf : List A) (h n : ℕ) → length (ring m d buf h n) ≡ n
  length-ring m d buf h zero = refl
  length-ring m d buf h (suc n) = ap suc (length-ring m d buf ((h + 1) % m) n)

  -- Writing just past the entries extends them.
  pub ring-set :
      (m : ℕ) (d : A) (buf : List A) (x : A) (n h i : ℕ)
      → length buf ≡ m
      → h < m
      → n < m
      → i ≡ (h + n) % m
      → ring m d (set buf i x) h (suc n) ≡ ring m d buf h n ++ (x ∷ [])
  ring-set m d buf x zero h i hs hh hn e =
      let e' : i ≡ h = ground (arith, mod_cases m (h + 0) (omega arith)) in
      rw e' (ap (λ y. y ∷ []) (get_or-set_self buf h x d (omega arith)))
  ring-set m d buf x (suc n) h i hs hh hn e =
      let a = mod_cases m (h + suc n) (omega arith) in
      let b = mod_cases m (h + 1) (omega arith) in
      let low : (h + 1) % m < m = ground (arith, b) in
      let c = mod_cases m ((h + 1) % m + n) (omega (arith, low)) in
      ap₂ ◌∷◌ (get_or-set_ne buf i h x d (λ q. ground (arith, a, q)))
        (ring-set m d buf x n ((h + 1) % m) i hs low (omega arith) (ground (arith, a, b, c)))

  -- A write past the entries leaves them alone.
  pub ring-set_past :
      (m : ℕ) (d : A) (buf : List A) (x : A) (n o h i : ℕ)
      → h < m
      → n ≤ o
      → o < m
      → i ≡ (h + o) % m
      → ring m d (set buf i x) h n ≡ ring m d buf h n
  ring-set_past m d buf x zero o h i hh k hn e = refl
  ring-set_past m d buf x (suc n) zero h i hh k hn e = absurd (omega (arith, k))
  ring-set_past m d buf x (suc n) (suc o) h i hh k hn e =
      let a = mod_cases m (h + suc o) (omega arith) in
      let b = mod_cases m (h + 1) (omega arith) in
      let low : (h + 1) % m < m = ground (arith, b) in
      let c = mod_cases m ((h + 1) % m + o) (omega (arith, low)) in
      ap₂ ◌∷◌ (get_or-set_ne buf i h x d (λ q. ground (arith, a, q))) (
        ring-set_past m d buf x n o ((h + 1) % m) i low (omega arith) (omega arith)
          (ground (arith, a, b, c)))
