-- ===== src/Fs/Bmap/Tree.antt =====
-- Where the blocks of a file are: `route` and its inverse, and `bmap` on a file whose blocks are all
-- there.
use hyu_ele3021_operating_sy.Prelude.{
  if_false, ℕ, ◌+◌, ◌-◌, ◌*◌, ◌/◌, ◌%◌, ◌≤◌, ◌<◌, ◌≡◌, refl, subst, ◌≢◌, ◌⊎◌, inl, inr, false, none,
  some, List, [], ◌∷◌, arith, ltb, ◌==◌, Bool-cases, get_or,
}
use hyu_ele3021_operating_sy.Fs.Buffer.{bread}
use hyu_ele3021_operating_sy.Fs.Blocks.{Superblock, Kern}
use hyu_ele3021_operating_sy.Fs.Inode.{Meta}
use hyu_ele3021_operating_sy.Fs.Bmap.{inode_slot, block_slot, follow, route, bmap}

-- `MAXFILE` of fs.h
abbrev pub maxfile : ℕ
maxfile = 2113674

-- The blocks of a file in their order: the direct ones, then those behind each indirect block.
pub data Place : ℕ → ℕ → List ℕ → Type 0 where
  direct : {i : ℕ} → i < 10 → Place i i []
  single : {a : ℕ} → a < 128 → Place (10 + a) 10 (a ∷ [])
  double : {a b : ℕ} → a < 128 → b < 128 → Place (138 + a * 128 + b) 11 (a ∷ (b ∷ []))
  triple :
      {a b c : ℕ}
      → a < 128
      → b < 128
      → c < 128
      → Place (16522 + a * 16384 + b * 128 + c) 12 (a ∷ (b ∷ (c ∷ [])))

-- Every block number below the largest file size has a place in the inode, direct or behind one,
-- two or three levels of indirect blocks of 128 addresses, and the places of increasing numbers
-- follow each other in order; a number beyond has none.
pub route-Place :
    (bn : ℕ)
    → ((i : ℕ) × (js : List ℕ) × (route bn ≡ some (i, js)) × Place bn i js)
      ⊎ ((maxfile ≤ bn) × (route bn ≡ none))
unfolding route
route-Place bn =
    let bn1 = bn - 10 in
    let bn2 = bn1 - 128 in
    let bn3 = bn2 - 16384 in
    elim (Bool-cases (ltb bn 10)) [
      | inl e ↦ inl (bn, [], rw e refl, direct (ground arith))
      | inr e ↦ elim (Bool-cases (ltb bn1 128)) [
        | inl f ↦ inl (
          10,
          bn1 ∷ [],
          rw (e, f) refl,
          subst (λ n. Place n 10 (bn1 ∷ [])) (ground (arith, e)) (single (ground arith)),
        )
        | inr f ↦ elim (Bool-cases (ltb bn2 16384)) [
          | inl g ↦
              let js = bn2 / 128 ∷ (bn2 % 128 ∷ []) in
              inl (
                11,
                js,
                rw (e, f, g) refl,
                subst (λ n. Place n 11 js) (ground (arith, e, f))
                    (double (ground arith) (omega arith)),
              )
          | inr g ↦ elim (Bool-cases (ltb bn3 2097152)) [
            | inl h ↦
                let js = bn3 / 16384 ∷ (bn3 % 16384 / 128 ∷ (bn3 % 16384 % 128 ∷ [])) in
                inl (
                  12,
                  js,
                  rw (e, f, g, h) refl,
                  subst (λ n. Place n 12 js) (ground (arith, e, f, g))
                      (triple (ground arith) (omega arith) (omega arith)),
                )
            | inr h ↦ inr (ground (arith, e, f, g, h), rw (e, f, g, h) refl)
          ]
        ]
      ]
    ]

-- The address found by following `js` from block `b` on, where each is there.
pub data Chain (k : Kern) : ℕ → List ℕ → ℕ → Type 0 where
  end : {b : ℕ} → Chain k b [] b
  link :
      {b j c : ℕ} {js : List ℕ}
      → get_or (bread b k.store) j 0 ≢ 0
      → Chain k (get_or (bread b k.store) j 0) js c
      → Chain k b (j ∷ js) c

block_slot_found :
    (sb : Superblock) (j b : ℕ) (k : Kern)
    → get_or (bread b k.store) j 0 ≢ 0
    → block_slot sb j b k ≡ some (get_or (bread b k.store) j 0, k)
unfolding block_slot
block_slot_found sb j b k h =
    let e : (get_or (bread b k.store) j 0 == 0) ≡ false = ground (arith, h) in if_false _ _ e

follow_found :
    (sb : Superblock) (k : Kern) (js : List ℕ) (b c : ℕ)
    → Chain k b js c
    → follow sb js b k ≡ some (c, k)
unfolding follow
follow_found sb k [] b c end = refl
follow_found sb k (j ∷ js) b c (link h ch) =
    rw (block_slot_found sb j b k h, follow)
      (follow_found sb k js (get_or (bread b k.store) j 0) c ch)

inode_slot_found :
    (sb : Superblock) (i : ℕ) (m : Meta) (k : Kern)
    → get_or m.addrs i 0 ≢ 0
    → inode_slot sb i m k ≡ some (get_or m.addrs i 0, m, k)
unfolding inode_slot
inode_slot_found sb i m k h =
    let e : (get_or m.addrs i 0 == 0) ≡ false = ground (arith, h) in if_false _ _ e

-- Where every block of the way is there, `bmap` finds the last and changes nothing.
pub bmap_found :
    (sb : Superblock) (bn i c : ℕ) (js : List ℕ) (m : Meta) (k : Kern)
    → route bn ≡ some (i, js)
    → get_or m.addrs i 0 ≢ 0
    → Chain k (get_or m.addrs i 0) js c
    → bmap sb bn m k ≡ some (c, m, k)
unfolding bmap
bmap_found sb bn i c js m k r h ch =
    rw (r, inode_slot_found sb i m k h, follow_found sb k js (get_or m.addrs i 0) c ch, bmap) refl
