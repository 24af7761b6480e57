-- ===== src/Fs/Content.antt =====
-- Project03-FileSystem/fs.c: `readi` of a file that is neither a symbolic link nor a device, from
-- its test of the offset on.
pub mod Read
pub mod Ends
use hyu_ele3021_operating_sy.Prelude.{
  ℕ, zero, suc, ◌+◌, ◌-◌, ◌/◌, ◌%◌, ◌^◌, min, true, false, ◌||◌, none, some, List, [], ◌∷◌, ◌++◌,
  ltb, ◌==◌, if◌then◌else◌, take, drop,
}
use hyu_ele3021_operating_sy.Fs.Buffer.{Block, bread}
use hyu_ele3021_operating_sy.Fs.Blocks.{Superblock, Kern}
use hyu_ele3021_operating_sy.Fs.Inode.{Meta}
use hyu_ele3021_operating_sy.Fs.Bmap.{bmap}

-- `BSIZE` of fs.h
abbrev pub bsize : ℕ
bsize = 512

-- The bytes of a block, the low byte of a word first.
unfoldable pub bytes : Block → List ℕ
bytes [] = []
bytes (w ∷ ws) = w % 256 ∷ (w / 256 % 256 ∷ (w / 65536 % 256 ∷ (w / 16777216 % 256 ∷ bytes ws)))

-- The bytes that a round of the loop reads.
abbrev pub part : ℕ → ℕ → ℕ
part off n = min n (bsize - off % bsize)

-- The ends of a loop: its result, a panic, or rounds that are too few.
pub data Looped (A : Type 0) : Type 0 where
  ended : A → Looped A
  halted : Looped A
  out_of_rounds : Looped A

-- The loop for `n` bytes from `off` on, in at most `r` rounds; a panic is one of `bmap`.
unfoldable pub read_loop : Superblock → ℕ → ℕ → ℕ → Meta → Kern → Looped (List ℕ × Meta × Kern)
read_loop sb zero off n m k = elim (n == 0) [ true ↦ ended ([], m, k) | false ↦ out_of_rounds ]
read_loop sb (suc r) off n m k = elim (n == 0) [
  | true ↦ ended ([], m, k)
  | false ↦ elim (bmap sb (off / bsize) m k) [
    | none ↦ halted
    | some (b, m', k') ↦ elim (read_loop sb r (off + part off n) (n - part off n) m' k') [
      | halted ↦ halted
      | out_of_rounds ↦ out_of_rounds
      | ended (cs, m'', k'') ↦
          ended (take (part off n) (drop (off % bsize) (bytes (bread b k'.store))) ++ cs, m'', k'')
    ]
  ]
]

pub data Contents : Type 0 where
  got : List ℕ → Meta → Kern → Contents
  refused : Contents
  panic : Contents
  unfinished : Contents

-- Every round reads a byte at least, so `n` rounds are enough.
unfoldable pub readi : Superblock → ℕ → ℕ → Meta → Kern → Contents
unfolding read_loop
readi sb off n m k =
    let n' = (if ltb m.size (off + n) then m.size - off else n) in
    if ltb m.size off || ltb ((off + n) % 2 ^ 32) off
    then refused
    else (elim (read_loop sb n' off n' m k) [
      | halted ↦ panic
      | out_of_rounds ↦ unfinished
      | ended (cs, m', k') ↦ got cs m' k'
    ])
