-- ===== src/Io/Strings.antt =====
-- Project01-MLFQ/string.c: `memcmp`, `strncmp`, `strncpy`, `safestrcpy` and `strlen`. A pointer is
-- the list of the bytes from it on, where a byte past its end reads as 0; bytes are below 256.
pub mod Copies
use hyu_ele3021_operating_sy.Prelude.{
  ℕ, zero, suc, ◌+◌, ◌-◌, not, ◌&&◌, List, [], ◌∷◌, leb, ◌==◌, if◌then◌else◌, replicate, ℤ, pos,
  negsuc,
}

abbrev pub head_or : List ℕ → ℕ
head_or [] = 0
head_or (c ∷ cs) = c

abbrev pub rest_of : List ℕ → List ℕ
rest_of [] = []
rest_of (c ∷ cs) = cs

-- The difference of two bytes, as an `int`.
abbrev pub byte_diff : ℕ → ℕ → ℤ
byte_diff a b = if leb b a then pos (a - b) else negsuc (b - a - 1)

unfoldable pub strncmp : List ℕ → List ℕ → ℕ → ℤ
strncmp p q zero = pos 0
strncmp p q (suc n) =
    let rest = strncmp (rest_of p) (rest_of q) n in
    if not (head_or p == 0) && head_or p == head_or q
    then rest
    else byte_diff (head_or p) (head_or q)

unfoldable pub memcmp : List ℕ → List ℕ → ℕ → ℤ
memcmp p q zero = pos 0
memcmp p q (suc n) =
    let rest = memcmp (rest_of p) (rest_of q) n in
    if head_or p == head_or q then rest else byte_diff (head_or p) (head_or q)

-- The `n` bytes that `strncpy` writes.
unfoldable pub strncpy : List ℕ → ℕ → List ℕ
strncpy t zero = []
strncpy t (suc n) =
    let rest = strncpy (rest_of t) n in
    if head_or t == 0 then 0 ∷ replicate n 0 else head_or t ∷ rest

-- The bytes that `safestrcpy` writes: up to `n` from its loop, then a 0.
unfoldable pub safe_loop : List ℕ → ℕ → List ℕ
safe_loop t zero = 0 ∷ []
safe_loop t (suc n) =
    let rest = safe_loop (rest_of t) n in if head_or t == 0 then 0 ∷ (0 ∷ []) else head_or t ∷ rest

unfoldable pub safestrcpy : List ℕ → ℕ → List ℕ
unfolding safe_loop
safestrcpy t zero = []
safestrcpy t (suc n) = safe_loop t n

unfoldable pub strlen : List ℕ → ℕ
strlen [] = 0
strlen (c ∷ cs) = let rest = strlen cs in if c == 0 then 0 else rest + 1
