-- ===== src/Fs/Cache.antt =====
-- Project03-FileSystem/bio.c: the list of buffers, most recently used first, with `bget` and
-- `brelse`. The data of the buffers is that of Fs/Buffer; the choice of `bget` follows its call of
-- `flush`, for which `wants_flush` is the test.
pub mod Choice
use hyu_ele3021_operating_sy.Prelude.{
  ℕ, zero, suc, ◌+◌, ◌-◌, Bool, false, not, ◌&&◌, Option, none, some, List, [], ◌∷◌, leb, ◌==◌,
  if◌then◌else◌, get_or, set,
}

-- `struct buf` of buf.h, by its index in `bcache.buf`; `locked` is the holder of the sleep-lock.
pub record Buf : Type 0 where
  pub slot : ℕ
  pub dev : ℕ
  pub blockno : ℕ
  pub is_valid : Bool
  pub dirty : Bool
  pub refcnt : ℕ
  pub locked : Option ℕ

abbrev pub blank_buf : Buf
blank_buf = record {
  slot = 0;
  dev = 0;
  blockno = 0;
  is_valid = false;
  dirty = false;
  refcnt = 0;
  locked = none;
}

-- The loop of `binit` over the buffers from slot `i` on, each put in front of the list.
unfoldable pub binit_loop : ℕ → ℕ → List Buf → List Buf
binit_loop zero i bs = bs
binit_loop (suc n) i bs = binit_loop n (i + 1) (record blank_buf { slot = i } ∷ bs)

unfoldable pub binit : ℕ → List Buf
unfolding binit_loop
binit nbuf = binit_loop nbuf 0 []

abbrev pub is_spare : Buf → Bool
is_spare b = b.refcnt == 0 && not b.dirty

unfoldable pub count_spare : List Buf → ℕ
count_spare [] = 0
count_spare (b ∷ bs) = let rest = count_spare bs in if is_spare b then rest + 1 else rest

-- Does `bget` call `flush`?
unfoldable pub wants_flush : Bool → List Buf → Bool
unfolding count_spare
wants_flush is_flush bs = not is_flush && leb (count_spare bs) 2

abbrev pub is_block : ℕ → ℕ → Buf → Bool
is_block dev blockno b = b.dev == dev && b.blockno == blockno

-- The first buffer of the block, from position `i` on.
unfoldable pub find_cached : ℕ → ℕ → ℕ → List Buf → Option ℕ
find_cached dev blockno i [] = none
find_cached dev blockno i (b ∷ bs) =
    let rest = find_cached dev blockno (i + 1) bs in if is_block dev blockno b then some i else rest

-- The last spare buffer.
unfoldable pub find_spare : ℕ → List Buf → Option ℕ
find_spare i [] = none
find_spare i (b ∷ bs) = elim (find_spare (i + 1) bs) [
  | some j ↦ some j
  | none ↦ if is_spare b then some i else none
]

abbrev pub buf : List Buf → ℕ → Buf
buf bs i = get_or bs i blank_buf

abbrev pub recycled : ℕ → ℕ → Buf → Buf
recycled dev blockno b = record b {
  dev = dev;
  blockno = blockno;
  is_valid = false;
  dirty = false;
  refcnt = 1;
}

-- `bget` from its search on, up to `acquiresleep`: the position of the buffer; `none` is a panic.
unfoldable pub bget : ℕ → ℕ → List Buf → Option (ℕ × List Buf)
bget dev blockno bs = elim (find_cached dev blockno 0 bs) [
  | some i ↦ some (i, set bs i (record (buf bs i) { refcnt = (buf bs i).refcnt + 1 }))
  | none ↦ elim (find_spare 0 bs) [
    | some i ↦ some (i, set bs i (recycled dev blockno (buf bs i)))
    | none ↦ none
  ]
]

-- Out of the list.
unfoldable pub unlink : ℕ → List Buf → List Buf
unlink i [] = []
unlink zero (b ∷ bs) = bs
unlink (suc i) (b ∷ bs) = b ∷ unlink i bs

abbrev pub holds_buf : ℕ → Buf → Bool
holds_buf pid b = elim b.locked [ none ↦ false | some q ↦ q == pid ]

-- `none` is a panic.
unfoldable pub brelse : ℕ → ℕ → List Buf → Option (List Buf)
unfolding unlink
brelse pid i bs =
    let b = record (buf bs i) { locked = none; refcnt = (buf bs i).refcnt - 1 } in
    if holds_buf pid (buf bs i)
    then some (if b.refcnt == 0 then b ∷ unlink i bs else set bs i b)
    else none
