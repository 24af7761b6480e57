-- ===== src/Fs/Blocks.antt =====
-- Project03-FileSystem/fs.c: `readsb`, `bzero`, `balloc` and `bfree`, with `struct superblock` of
-- fs.h. There is one device. A block is its 128 words; bit `i` of a block is bit `i % 32` of word
-- `i / 32`, which is bit `i % 8` of byte `i / 8`. `none` is a panic.
pub mod Marks
use hyu_ele3021_operating_sy.Prelude.{
  ℕ, zero, suc, ◌+◌, ◌-◌, ◌/◌, ◌%◌, ◌^◌, Bool, Option, none, some, ◌==◌, if◌then◌else◌, get_or, set,
  replicate,
}
use hyu_ele3021_operating_sy.Fs.Buffer.{Block, Store, bread, fill}
use hyu_ele3021_operating_sy.Fs.Journal.{Journal, log_write}

pub record Superblock : Type 0 where
  pub size : ℕ
  pub nblocks : ℕ
  pub ninodes : ℕ
  pub nlog : ℕ
  pub logstart : ℕ
  pub inodestart : ℕ
  pub bmapstart : ℕ

-- `BPB` and `NINDIRECT` of fs.h
abbrev pub bpb : ℕ
bpb = 4096

abbrev pub nindirect : ℕ
nindirect = 128

-- The blocks, and the log in memory.
pub record Kern : Type 0 where
  pub store : Store
  pub log : Journal

unfoldable pub readsb : Kern → Superblock
unfolding bread
readsb k =
    let x = bread 1 k.store in
    record {
      size = get_or x 0 0;
      nblocks = get_or x 1 0;
      ninodes = get_or x 2 0;
      nlog = get_or x 3 0;
      logstart = get_or x 4 0;
      inodestart = get_or x 5 0;
      bmapstart = get_or x 6 0;
    }

-- New data for a block that has been read, and `log_write`.
unfoldable pub update : ℕ → Block → Kern → Option Kern
unfolding log_write fill
update b x k = elim (log_write b k.log) [
  | none ↦ none
  | some l ↦ some (record { store = fill b x k.store; log = l })
]

unfoldable pub bzero : ℕ → Kern → Option Kern
unfolding update
bzero b k = update b (replicate nindirect 0) k

abbrev pub bblock : Superblock → ℕ → ℕ
bblock sb b = b / bpb + sb.bmapstart

-- Is bit `i` set?
unfoldable pub bit : ℕ → Block → Bool
bit i x = (get_or x (i / 32) 0 / 2 ^ (i % 32)) % 2 == 1

-- A bit that is not set becomes so, and back.
unfoldable pub set_bit : ℕ → Block → Block
set_bit i x = set x (i / 32) (get_or x (i / 32) 0 + 2 ^ (i % 32))

unfoldable pub clear_bit : ℕ → Block → Block
clear_bit i x = set x (i / 32) (get_or x (i / 32) 0 - 2 ^ (i % 32))

-- The two loops of `balloc` as one over `b + bi`, with `n` blocks to go from `b` on.
unfoldable pub find_block : Superblock → ℕ → ℕ → Kern → Option ℕ
unfolding bread bit
find_block sb zero b k = none
find_block sb (suc n) b k =
    let rest = find_block sb n (b + 1) k in
    if bit (b % bpb) (bread (bblock sb b) k.store) then rest else some b

-- `balloc` from the block found on: it is marked, then zeroed.
unfoldable pub zero_block : ℕ → Option Kern → Option (ℕ × Kern)
unfolding bzero
zero_block b none = none
zero_block b (some k) = elim (bzero b k) [ none ↦ none | some k' ↦ some (b, k') ]

unfoldable pub claim : Superblock → Kern → Option ℕ → Option (ℕ × Kern)
unfolding zero_block bread set_bit update
claim sb k none = none
claim sb k (some b) =
    zero_block b (update (bblock sb b) (set_bit (b % bpb) (bread (bblock sb b) k.store)) k)

unfoldable pub balloc : Superblock → Kern → Option (ℕ × Kern)
unfolding find_block claim
balloc sb k = claim sb k (find_block sb sb.size 0 k)

unfoldable pub bfree : Superblock → ℕ → Kern → Option Kern
unfolding bread bit clear_bit update
bfree sb b k =
    let x = bread (bblock sb b) k.store in
    if bit (b % bpb) x then update (bblock sb b) (clear_bit (b % bpb) x) k else none
