-- ===== src/Mlfq/Count/Occurs.antt =====
-- How often a slot of the process table stands in a list of queue entries. Distinct slots fill at
-- most as many places as there are slots.
use hyu_ele3021_operating_sy.Prelude.{
  ℕ, zero, suc, ◌+◌, ◌≤◌, ◌<◌, ◌≡◌, refl, none, some, List, [], ◌∷◌, ◌++◌, arith, length,
  if◌then◌else◌,
}
use hyu_ele3021_operating_sy.Mlfq.Queue.{Index}
use hyu_ele3021_operating_sy.Mlfq.Proc.{ptr_eq}

-- 1 if the index is that slot.
abbrev pub hit : ℕ → Index → ℕ
hit i x = if ptr_eq x (some i) then 1 else 0

abbrev pub occurs : ℕ → List Index → ℕ
occurs i [] = 0
occurs i (x ∷ xs) = hit i x + occurs i xs

-- Every entry is a slot below `n`; in particular none is -1.
abbrev pub IsSlot : ℕ → Index → Type 0
IsSlot n none = ⊥
IsSlot n (some i) = i < n

abbrev pub Inside : ℕ → List Index → Type 0
Inside n [] = Unit {0}
Inside n (x ∷ xs) = IsSlot n x × Inside n xs

pub occurs-append : (i : ℕ) (xs ys : List Index) → occurs i (xs ++ ys) ≡ occurs i xs + occurs i ys
occurs-append i [] ys = omega arith
occurs-append i (x ∷ xs) ys = omega (arith, occurs-append i xs ys)

pub Inside-append : (n : ℕ) (xs ys : List Index) → Inside n xs → Inside n ys → Inside n (xs ++ ys)
Inside-append n [] ys h k = k
Inside-append n (x ∷ xs) ys h k = (h.0, Inside-append n xs ys h.1 k)

pub Inside-split : (n : ℕ) (xs ys : List Index) → Inside n (xs ++ ys) → Inside n xs × Inside n ys
Inside-split n [] ys h = (tt, h)
Inside-split n (x ∷ xs) ys h = let r = Inside-split n xs ys h.1 in ((h.0, r.0), r.1)

-- The sum of the occurrences of the slots below `n`.
sum_below : ℕ → List Index → ℕ
sum_below zero xs = 0
sum_below (suc n) xs = occurs n xs + sum_below n xs

sum_below-nil : (n : ℕ) → sum_below n [] ≡ 0
unfolding sum_below
sum_below-nil zero = refl
sum_below-nil (suc n) = omega (arith, sum_below-nil n)

-- An entry adds one to the sum if it is below the bound.
sum_below-above : (n i : ℕ) (xs : List Index) → n ≤ i → sum_below n (some i ∷ xs) ≡ sum_below n xs
unfolding sum_below
sum_below-above zero i xs h = refl
sum_below-above (suc n) i xs h = ground (arith, sum_below-above n i xs)

sum_below-cons :
    (n i : ℕ) (xs : List Index) → i < n → sum_below n (some i ∷ xs) ≡ suc (sum_below n xs)
unfolding sum_below
sum_below-cons zero i xs h = elim h [ ]
sum_below-cons (suc n) i xs h = ground (arith, sum_below-above n i xs, sum_below-cons n i xs)

length-sum_below : (n : ℕ) (xs : List Index) → Inside n xs → length xs ≡ sum_below n xs
length-sum_below n [] h = omega (arith, sum_below-nil n)
length-sum_below n (none ∷ xs) h = absurd h.0
length-sum_below n (some i ∷ xs) h =
    omega (arith, length-sum_below n xs h.1, sum_below-cons n i xs h.0)

sum_below-le : (n : ℕ) (xs : List Index) → ((i : ℕ) → occurs i xs ≤ 1) → sum_below n xs ≤ n
unfolding sum_below
sum_below-le zero xs h = omega arith
sum_below-le (suc n) xs h = omega (arith, h n, sum_below-le n xs h)

-- The pigeonhole principle.
pub length-le_of_once :
    (n : ℕ) (xs : List Index) → Inside n xs → ((i : ℕ) → occurs i xs ≤ 1) → length xs ≤ n
length-le_of_once n xs h once = omega (arith, length-sum_below n xs h, sum_below-le n xs once)
