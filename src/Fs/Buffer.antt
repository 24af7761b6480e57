-- ===== src/Fs/Buffer.antt =====
-- Project03-FileSystem/bio.c: `bread` and `bwrite`, on the disk and on the blocks in the cache. The
-- choice of a buffer (`bget`, `brelse`) is left out: a block that is not cached reads as the disk's.
-- `power` counts the writes that still reach the disk before the machine stops.
use hyu_ele3021_operating_sy.Prelude.{
  ℕ, ◌-◌, ◌≡◌, ◌≢◌, ◌<◌, refl, inl, inr, false, Option, none, some, List, ◌==◌, if◌then◌else◌,
  ==_self, Bool-cases, arith,
}

-- The `BSIZE` bytes of a block as its words of type `uint`.
abbrev pub Block : Type 0
Block = List ℕ

pub record Store : Type 0 where
  pub disk : ℕ → Block
  pub cached : ℕ → Option Block
  pub power : ℕ

abbrev or_disk : Option Block → Block → Block
or_disk none x = x
or_disk (some y) x = y

-- The data of a block, as `bread` returns it.
unfoldable pub bread : ℕ → Store → Block
bread b s = or_disk (s.cached b) (s.disk b)

-- A change of the data of a block in the cache.
unfoldable pub fill : ℕ → Block → Store → Store
fill b x s = record s { cached = λ c. if c == b then some x else s.cached c }

unfoldable pub bwrite : ℕ → Store → Store
bwrite b s =
    if s.power == 0
    then s
    else record s { disk = λ c. if c == b then bread b s else s.disk c; power = s.power - 1 }

-- The machine starts again after a crash, with nothing cached.
unfoldable pub reboot : ℕ → Store → Store
reboot p s = record s { cached = λ c. none; power = p }

-- A block is changed in the cache and written.
unfoldable pub put : ℕ → Block → Store → Store
unfolding fill bwrite
put b x s = bwrite b (fill b x s)

pub bread-reboot : (p c : ℕ) (s : Store) → bread c (reboot p s) ≡ s.disk c
unfolding bread reboot
bread-reboot p c s = refl

pub power-put : (b : ℕ) (x : Block) (s : Store) → (put b x s).power ≡ s.power - 1
unfolding put bwrite fill
power-put b x s = elim (Bool-cases (s.power == 0)) [
  | inl e ↦ rw e (ground arith)
  | inr e ↦ rw e refl
]

pub bread-put_self : (b : ℕ) (x : Block) (s : Store) → bread b (put b x s) ≡ x
unfolding put bwrite fill bread
bread-put_self b x s = elim (Bool-cases (s.power == 0)) [
  | inl e ↦ rw (e, ==_self b) refl
  | inr e ↦ rw (e, ==_self b) refl
]

pub bread-put_ne : (b c : ℕ) (x : Block) (s : Store) → c ≢ b → bread c (put b x s) ≡ bread c s
unfolding put bwrite fill bread
bread-put_ne b c x s h =
    let k : (c == b) ≡ false = ground arith in
    elim (Bool-cases (s.power == 0)) [ inl e ↦ rw (e, k) refl | inr e ↦ rw (e, k) refl ]

pub disk-put_self : (b : ℕ) (x : Block) (s : Store) → 0 < s.power → (put b x s).disk b ≡ x
unfolding put bwrite fill bread
disk-put_self b x s h = let e : (s.power == 0) ≡ false = ground arith in rw (e, ==_self b) refl

pub disk-put_ne : (b c : ℕ) (x : Block) (s : Store) → c ≢ b → (put b x s).disk c ≡ s.disk c
unfolding put bwrite fill bread
disk-put_ne b c x s h =
    let k : (c == b) ≡ false = ground arith in
    elim (Bool-cases (s.power == 0)) [ inl e ↦ rw e refl | inr e ↦ rw (e, k) refl ]

-- Without power nothing reaches the disk.
pub disk-put_dead : (b c : ℕ) (x : Block) (s : Store) → s.power ≡ 0 → (put b x s).disk c ≡ s.disk c
unfolding put bwrite fill bread
disk-put_dead b c x s h = rw h refl
