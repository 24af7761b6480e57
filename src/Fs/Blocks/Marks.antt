-- ===== src/Fs/Blocks/Marks.antt =====
-- What `balloc` and `bfree` do to the free map and to the blocks.
use hyu_ele3021_operating_sy.Prelude.{
  if_true, if_false, ℕ, zero, suc, ◌+◌, ◌-◌, ◌/◌, ◌%◌, ◌^◌, ◌≤◌, ◌<◌, ◌≡◌, refl, sym, ap, subst,
  ◌∙◌, ◌≢◌, inl, inr, Bool, true, false, Option, none, some, arith, ◌==◌, if◌then◌else◌, ==_self,
  Bool-cases, length, get_or, replicate, get_or-set_self, set-get_or, set-set,
}
use native.Mathlib.Nat.{add-div_right, one-le-pow}
use hyu_ele3021_operating_sy.Fs.Buffer.{Block, bread, fill}
use hyu_ele3021_operating_sy.Fs.Journal.{Journal, log_write}
use hyu_ele3021_operating_sy.Fs.Blocks.{
  Superblock, bpb, nindirect, Kern, update, bzero, bblock, bit, set_bit, clear_bit, find_block,
  zero_block, claim, balloc,
}

inside : {a b : Kern} → some a ≡ some b → a ≡ b
inside h = cc

-- The blocks after an update.
pub store-update :
    (b : ℕ) (x : Block) (k k' : Kern) → update b x k ≡ some k' → k'.store ≡ fill b x k.store
unfolding update
store-update b x k k' h = go (log_write b k.log) h
  where
    go :
        (o : Option Journal)
        → elim o [ none ↦ none | some l ↦ some (record { store = fill b x k.store; log = l }) ]
          ≡ some k'
        → k'.store ≡ fill b x k.store
    go none h = absurd cc
    go (some l) h = ap (λ q. q.store) (sym (inside h))

pub bread-update :
    (b c : ℕ) (x : Block) (k k' : Kern)
    → update b x k ≡ some k'
    → bread c k'.store ≡ (if c == b then x else bread c k.store)
unfolding bread fill
bread-update b c x k k' h = elim (Bool-cases (c == b)) [
  | inl e ↦ rw (store-update b x k k' h, e) refl
  | inr e ↦ rw (store-update b x k k' h, e) refl
]

-- The mark that `balloc` looks at.
abbrev pub mark : Superblock → ℕ → Kern → Bool
mark sb b k = bit (b % bpb) (bread (bblock sb b) k.store)

find_block-first :
    (sb : Superblock) (n b : ℕ) (k : Kern) (c : ℕ)
    → find_block sb n b k ≡ some c
    → (b ≤ c) × (c < b + n) × (mark sb c k ≡ false) × ((d : ℕ) → b ≤ d → d < c → mark sb d k ≡ true)
unfolding find_block
find_block-first sb zero b k c h = absurd cc
find_block-first sb (suc n) b k c h = elim (Bool-cases (mark sb b k)) [
  | inl e ↦
      let (p, q, r, s) = find_block-first sb n (b + 1) k c (sym (if_true _ _ e) ∙ h) in
      (omega arith, omega arith, r, later b c e s)
  | inr e ↦
      let same = same_some (sym (if_false _ _ e) ∙ h) in
      (
        omega (arith, same),
        omega (arith, same),
        subst (λ d. mark sb d k ≡ false) same e,
        (λ d x y. absurd (omega (arith, x, y, same))),
      )
]
  where
    same_some : {a b : ℕ} → some a ≡ some b → a ≡ b
    same_some h = cc

    later :
        (b c : ℕ)
        → mark sb b k ≡ true
        → ((d : ℕ) → b + 1 ≤ d → d < c → mark sb d k ≡ true)
        → (d : ℕ) → b ≤ d
        → d < c
        → mark sb d k ≡ true
    later b c e s d x y = elim (Bool-cases (b == d)) [
      | inl t ↦ let t' : b ≡ d = ground arith in subst (λ d. mark sb d k ≡ true) t' e
      | inr t ↦ s d (ground arith) y
    ]

-- A bit that was clear is set.
bit-set_bit : (i : ℕ) (x : Block) → i / 32 < length x → bit i x ≡ false → bit i (set_bit i x) ≡ true
unfolding bit set_bit
bit-set_bit i x h e =
    let w = get_or x (i / 32) 0 in
    let p = 2 ^ (i % 32) in
    rw (get_or-set_self x (i / 32) (w + p) 0 h, add-div_right w (positive (i % 32))) (odd (w / p) e)
  where
    positive : (n : ℕ) → 0 < 2 ^ n
    positive n = one-le-pow n 2 (omega arith)

    odd : (q : ℕ) → (q % 2 == 1) ≡ false → ((q + 1) % 2 == 1) ≡ true
    odd q e = ground (arith, e)

clear_bit-set_bit : (i : ℕ) (x : Block) → i / 32 < length x → clear_bit i (set_bit i x) ≡ x
unfolding clear_bit set_bit
clear_bit-set_bit i x h =
    let w = get_or x (i / 32) 0 in
    let p = 2 ^ (i % 32) in
    let back : w + p - p ≡ w = omega arith in
    rw (get_or-set_self x (i / 32) (w + p) 0 h, back)
      (set-set x (i / 32) (w + p) w ∙ set-get_or x (i / 32) 0)

zero_block-some :
    (c : ℕ) (o : Option Kern) (b : ℕ) (k' : Kern)
    → zero_block c o ≡ some (b, k')
    → (k1 : Kern) × (o ≡ some k1) × (c ≡ b) × (bzero c k1 ≡ some k')
unfolding zero_block
zero_block-some c none b k' h = absurd cc
zero_block-some c (some k1) b k' h = let (x, y) = done (bzero c k1) h in (k1, refl, x, y)
  where
    pair : {r q : ℕ × Kern} → some r ≡ some q → r ≡ q
    pair h = cc

    done :
        (o : Option Kern)
        → elim o as (λ x. Option (ℕ × Kern)) [ none ↦ none | some k2 ↦ some (c, k2) ] ≡ some (b, k')
        → (c ≡ b) × (o ≡ some k')
    done none h = absurd cc
    done (some k2) h =
        (ap (λ (r : ℕ × Kern). r.0) (pair h), ap (λ (r : ℕ × Kern). some r.1) (pair h))

-- Blocks of the free map that a block may be in without being it.
pub record Allocated (sb : Superblock) (k : Kern) (b : ℕ) (k' : Kern) : Type 0 where
  pub on_disk : b < sb.size
  pub was_free : mark sb b k ≡ false
  pub first : (c : ℕ) → c < b → mark sb c k ≡ true
  pub is_marked : mark sb b k' ≡ true
  pub zeroed : bread b k'.store ≡ replicate nindirect 0
  pub map_block : bread (bblock sb b) k'.store ≡ set_bit (b % bpb) (bread (bblock sb b) k.store)
  pub others : (c : ℕ) → c ≢ b → c ≢ bblock sb b → bread c k'.store ≡ bread c k.store

module _ (sb : Superblock) (k k1 k' : Kern) (b : ℕ) where
  abbrev marked_map : Block
  marked_map = set_bit (b % bpb) (bread (bblock sb b) k.store)

  -- The two updates make the contract.
  both_updates :
      find_block sb sb.size 0 k ≡ some b
      → update (bblock sb b) marked_map k ≡ some k1
      → bzero b k1 ≡ some k'
      → b ≢ bblock sb b
      → length (bread (bblock sb b) k.store) ≡ 128
      → Allocated sb k b k'
  unfolding bzero
  both_updates e x z d n =
      let m = bblock sb b in
      let (_, low, r, s) = find_block-first sb sb.size 0 k b e in
      let zeros : Block = replicate nindirect 0 in
      let apart : (m == b) ≡ false = ground (arith, d) in
      let on_map : bread m k'.store ≡ marked_map =
        bread-update b m zeros k1 k' z
        ∙ if_false _ _ apart
        ∙ bread-update m m marked_map k k1 x
        ∙ if_true _ _ (==_self m) in
      record {
        on_disk = omega (arith, low);
        was_free = r;
        first = λ c h. s c (omega arith) h;
        is_marked =
            ap (bit (b % bpb)) on_map
            ∙ bit-set_bit (b % bpb) (bread m k.store) (omega (arith, n)) r;
        zeroed = bread-update b b zeros k1 k' z ∙ if_true _ _ (==_self b);
        map_block = on_map;
        others = λ c p q.
            bread-update b c zeros k1 k' z
            ∙ if_false _ _ (differ p)
            ∙ bread-update m c marked_map k k1 x
            ∙ if_false _ _ (differ q);
      }
    where
      differ : {c d : ℕ} → c ≢ d → (c == d) ≡ false
      differ h = ground (arith, h)

-- If `balloc` returns a block whose word of the free map lies in a block of 128 words and which is
-- not the block of its own mark, then it is the first block below the size of the disk whose mark
-- was clear; its mark is set, it holds zeros, and no other block changes but the one with the mark.
pub balloc-Allocated :
    (sb : Superblock) (k k' : Kern) (b : ℕ)
    → length (bread (bblock sb b) k.store) ≡ 128
    → b ≢ bblock sb b
    → balloc sb k ≡ some (b, k')
    → Allocated sb k b k'
unfolding balloc claim
balloc-Allocated sb k k' b n d h = go (find_block sb sb.size 0 k) refl h
  where
    go :
        (o : Option ℕ)
        → find_block sb sb.size 0 k ≡ o
        → claim sb k o ≡ some (b, k')
        → Allocated sb k b k'
    go none e h = absurd cc
    go (some c) e h =
        let (k1, x, y, z) =
          zero_block-some c
            (update (bblock sb c) (set_bit (c % bpb) (bread (bblock sb c) k.store)) k) b k' h in
        subst (λ a. Allocated sb k a k') y
          (both_updates sb k k1 k' c e x z (subst (λ a. a ≢ bblock sb a) (sym y) d)
            (subst (λ a. length (bread (bblock sb a) k.store) ≡ 128) (sym y) n))
