-- ===== src/Prelude/Ranges.antt =====
-- Statements on every number of a range, and on the tests of a scan.
use Prim.Native.Nat.{ℕ, ◌+◌, ◌≤◌, ◌<◌}
use mathlib.Core.Path.{◌≡◌, subst}
use mathlib.Core.Logic.{inl, inr}
use mathlib.Core.Bool.{Bool, true, false, ◌&&◌, ◌||◌}
use native.Mathlib.Omega.{arith}
use hyu_ele3021_operating_sy.Prelude.Tests.{◌==◌, Bool-cases}

-- Every number from `i` on is `i` or a later one.
pub from_next :
    {P : ℕ → Type 0} (i e : ℕ)
    → P i
    → ((l : ℕ) → i + 1 ≤ l → l < e → P l)
    → (l : ℕ) → i ≤ l
    → l < e
    → P l
from_next {P} i e h f l a b = elim (Bool-cases (i == l)) [
  | inl t ↦ let t' : i ≡ l = ground arith in subst P t' h
  | inr t ↦ f l (ground arith) b
]

pub or_false : (a b : Bool) → (a || b) ≡ false → (a ≡ false) × (b ≡ false)
or_false a b h = ground arith

pub and_true : (a b : Bool) → (a && b) ≡ true → (a ≡ true) × (b ≡ true)
and_true a b h = ground arith

pub and_false : (a b : Bool) → (a && b) ≡ false → ¬ ((a ≡ true) × (b ≡ true))
and_false a b h k = ground arith
