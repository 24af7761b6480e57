-- ===== src/Fs/Calls/Balance.antt =====
-- The references counted in the table of open files, and those that the descriptors hold: what the
-- operations of file.c and `fdalloc` do to the balance.
pub mod Steps
pub mod Kept
pub mod Opened
pub mod All
use hyu_ele3021_operating_sy.Prelude.{
  if_true, if_false, ℕ, zero, suc, ◌+◌, ◌-◌, ◌<◌, ◌≡◌, refl, sym, ap, subst, ◌∙◌, ◌≢◌, inl, inr,
  Bool, true, false, Option, none, some, List, [], ◌∷◌, arith, ◌==◌, if◌then◌else◌, ==_iff,
  Bool-cases, length, get_or, set, get_or-set_self, get_or-set_ne,
}
use hyu_ele3021_operating_sy.Fs.Run.{◌>>=◌, ◌>>◌}
use hyu_ele3021_operating_sy.Fs.Calls.{OpenFile, blank_file, System}
use hyu_ele3021_operating_sy.Fs.Calls.Table.{open_file, set_file, find_file}
use hyu_ele3021_operating_sy.Fs.Calls.Descriptors.{nofile, slot_at, find_fd}

-- One at `i`, none elsewhere.
abbrev pub one : ℕ → ℕ → ℕ
one i j = if j == i then 1 else 0

abbrev pub plus : (ℕ → ℕ) → ℕ → ℕ → ℕ
plus p i j = p j + one i j

-- How many descriptors have the file in slot `i`.
unfoldable pub uses : ℕ → List (Option ℕ) → ℕ
uses i [] = 0
uses i (none ∷ fds) = uses i fds
uses i (some j ∷ fds) = one j i + uses i fds

abbrev pub ref_of : System → ℕ → ℕ
ref_of s i = (open_file s i).ref

-- Every file counts the descriptors that have it and `p` references more, less `q`.
pub record Balanced (p q : ℕ → ℕ) (s : System) : Type 0 where
  pub level : (i : ℕ) → ref_of s i + q i ≡ uses i s.ofile + p i
  pub slots : length s.ofile ≡ nofile

-- After `filealloc`, and after `fdalloc` for the file in slot `i`.
abbrev pub FileTaken : (ℕ → ℕ) → (ℕ → ℕ) → Option ℕ → System → Type 0
FileTaken p q none = Balanced p q
FileTaken p q (some i) = Balanced (plus p i) q

-- Without a descriptor the state is as it was; `R` is what was known of it.
abbrev pub FdTaken : (ℕ → ℕ) → (ℕ → ℕ) → (System → Type 0) → ℕ → Option ℕ → System → Type 0
FdTaken p q R i none s = Balanced p q s × R s
FdTaken p q R i (some fd) s = Balanced p (plus q i) s × (slot_at s.ofile fd ≡ some i)

pub uses-set-some :
    (fds : List (Option ℕ)) (fd i j : ℕ)
    → fd < length fds
    → slot_at fds fd ≡ none
    → uses j (set fds fd (some i)) ≡ uses j fds + one i j
unfolding uses
uses-set-some [] fd i j h e = absurd (omega (arith, h))
uses-set-some (none ∷ fds) zero i j h e = omega arith
uses-set-some (some k ∷ fds) zero i j h e = absurd cc
uses-set-some (none ∷ fds) (suc fd) i j h e = uses-set-some fds fd i j (omega (arith, h)) e
uses-set-some (some k ∷ fds) (suc fd) i j h e =
    omega (arith, uses-set-some fds fd i j (omega (arith, h)) e)

pub uses-set-none :
    (fds : List (Option ℕ)) (fd i j : ℕ)
    → slot_at fds fd ≡ some i
    → uses j (set fds fd none) + one i j ≡ uses j fds
unfolding uses
uses-set-none [] fd i j e = absurd cc
uses-set-none (none ∷ fds) zero i j e = absurd cc
uses-set-none (some k ∷ fds) zero i j e =
    let same : k ≡ i = inside e in ap (λ n. uses j fds + one n j) (sym same) ∙ omega arith
  where
    inside : {a b : ℕ} → some a ≡ some b → a ≡ b
    inside h = cc
uses-set-none (none ∷ fds) (suc fd) i j e = uses-set-none fds fd i j e
uses-set-none (some k ∷ fds) (suc fd) i j e = omega (arith, uses-set-none fds fd i j e)

pub find_fd-unused :
    (fds : List (Option ℕ)) (r fd c : ℕ)
    → find_fd fds r fd ≡ some c
    → (slot_at fds c ≡ none) × (c < fd + r)
unfolding find_fd
find_fd-unused fds zero fd c h = absurd cc
find_fd-unused fds (suc r) fd c h = go (slot_at fds fd) refl (find_fd-unused fds r (fd + 1) c) h
  where
    inside : {a b : ℕ} → some a ≡ some b → a ≡ b
    inside h = cc

    go :
        (o : Option ℕ)
        → slot_at fds fd ≡ o
        → (find_fd fds r (fd + 1) ≡ some c → (slot_at fds c ≡ none) × (c < fd + 1 + r))
        → elim o as (λ x. Option ℕ) [ none ↦ some fd | some i ↦ find_fd fds r (fd + 1) ] ≡ some c
        → (slot_at fds c ≡ none) × (c < fd + suc r)
    go none e rest h =
        let same : fd ≡ c = inside h in
        (subst (λ d. slot_at fds d ≡ none) same e, omega (arith, same))
    go (some i) e rest h = let (u, v) = rest h in (u, omega (arith, v))

-- A slot with references is one of the table.
pub in_table : (os : List OpenFile) (i : ℕ) → 0 < (get_or os i blank_file).ref → i < length os
in_table [] i h = absurd (omega (arith, h))
in_table (o ∷ os) zero h = omega arith
in_table (o ∷ os) (suc i) h = omega (arith, in_table os i h)

pub find_file-unused :
    (n : ℕ) (os : List OpenFile) (c : ℕ)
    → find_file n os ≡ some c
    → (i : ℕ) × (c ≡ n + i) × (i < length os) × ((get_or os i blank_file).ref ≡ 0)
unfolding find_file
find_file-unused n [] c h = absurd cc
find_file-unused n (o ∷ os) c h = elim (Bool-cases (o.ref == 0)) [
  | inl e ↦
      let same : n ≡ c = inside (sym (if_true _ _ e) ∙ h) in
      (0, omega (arith, same), omega arith, (==_iff o.ref 0).0 e)
  | inr e ↦
      let (i, u, v, w) = find_file-unused (n + 1) os c (sym (if_false _ _ e) ∙ h) in
      (suc i, omega (arith, u), omega (arith, v), w)
]
  where
    inside : {a b : ℕ} → some a ≡ some b → a ≡ b
    inside h = cc

apart : {a b : ℕ} → (a == b) ≡ false → b ≢ a
apart t = ground (arith, t)

-- The references after a change of one slot.
pub ref_set_self :
    (s : System) (i j : ℕ) (o : OpenFile)
    → i < length s.ftable
    → (j == i) ≡ true
    → ref_of (set_file i o s) j ≡ o.ref
ref_set_self s i j o h t =
    ap (ref_of (set_file i o s)) ((==_iff j i).0 t)
    ∙ ap (λ f. f.ref) (get_or-set_self s.ftable i o blank_file h)

pub ref_set_ne :
    (s : System) (i j : ℕ) (o : OpenFile)
    → (j == i) ≡ false
    → ref_of (set_file i o s) j ≡ ref_of s j
ref_set_ne s i j o t = ap (λ f. f.ref) (get_or-set_ne s.ftable i j o blank_file (apart t))
