-- ===== src/Fs/Write.antt =====
-- Project03-FileSystem/fs.c: `writei` of a file that is neither a symbolic link nor a device, from
-- its test of the offset on.
pub mod Bytes
pub mod Layout
pub mod Rounds
pub mod Loop
pub mod Back
pub mod Ends
use hyu_ele3021_operating_sy.Prelude.{
  ℕ, zero, suc, ◌+◌, ◌*◌, ◌/◌, ◌%◌, ◌^◌, true, false, ◌&&◌, ◌||◌, Option, none, some, List, [], ◌∷◌,
  ◌++◌, ltb, ◌==◌, if◌then◌else◌, length, take, drop,
}
use hyu_ele3021_operating_sy.Fs.Buffer.{Block, bread}
use hyu_ele3021_operating_sy.Fs.Blocks.{Superblock, Kern, update}
use hyu_ele3021_operating_sy.Fs.Inode.{Meta, Inode, iupdate}
use hyu_ele3021_operating_sy.Fs.Bmap.{bmap}
use hyu_ele3021_operating_sy.Fs.Content.{bsize, bytes, part, Looped, ended, halted, out_of_rounds}

-- `MAXFILE` of fs.h
abbrev pub max_file : ℕ
max_file = 2113674

-- The words of a block from its bytes, the low byte of a word first.
unfoldable pub words : List ℕ → Block
words (a ∷ (b ∷ (c ∷ (d ∷ cs)))) = (a + 256 * b + 65536 * c + 16777216 * d) ∷ words cs
words _ = []

-- The bytes `cs` from place `o` of `xs` on.
unfoldable pub splice : ℕ → List ℕ → List ℕ → List ℕ
splice o cs xs = take o xs ++ (cs ++ drop (o + length cs) xs)

-- A round: the first bytes of `cs` go to block `b` from byte `off % BSIZE` on.
unfoldable pub write_part : ℕ → ℕ → List ℕ → Kern → Option Kern
unfolding bread words splice bytes update
write_part b off cs k =
    let c = part off (length cs) in
    update b (words (splice (off % bsize) (take c cs) (bytes (bread b k.store)))) k

-- The loop for the bytes `cs` from `off` on, in at most `r` rounds; a panic is one of `bmap` or of
-- `log_write`.
unfoldable pub write_loop : Superblock → ℕ → ℕ → List ℕ → Meta → Kern → Looped (Meta × Kern)
write_loop sb zero off cs m k = if length cs == 0 then ended (m, k) else out_of_rounds
write_loop sb (suc r) off cs m k =
    let c = part off (length cs) in
    elim (length cs == 0) [
      | true ↦ ended (m, k)
      | false ↦ elim (bmap sb (off / bsize) m k) [
        | none ↦ halted
        | some (b, m', k') ↦ elim (write_part b off cs k') [
          | none ↦ halted
          | some k'' ↦ write_loop sb r (off + c) (drop c cs) m' k''
        ]
      ]
    ]

-- The ends of `writei`: the inode and the blocks afterwards, a refusal, a panic, or too few
-- rounds of its loop.
pub data Writing : Type 0 where
  written : Inode → Kern → Writing
  refused : Writing
  panic : Writing
  unfinished : Writing

-- The size grows where the bytes end behind it.
unfoldable pub grow : Superblock → ℕ → ℕ → Inode → Kern → Writing
unfolding iupdate
grow sb off n ip k =
    let ip' = record ip { meta = record (ip.meta) { size = off + n } } in
    if ltb 0 n && ltb ip.meta.size (off + n)
    then (elim (iupdate sb ip' k) [ none ↦ panic | some k' ↦ written ip' k' ])
    else written ip k

-- Every round writes a byte at least, so a round for each byte is enough.
unfoldable pub writei : Superblock → ℕ → List ℕ → Inode → Kern → Writing
unfolding write_loop grow
writei sb off cs ip k =
    let n = length cs in
    if ltb ip.meta.size off || ltb ((off + n) % 2 ^ 32) off || ltb (max_file * bsize) (off + n)
    then refused
    else (elim (write_loop sb n off cs ip.meta k) [
      | halted ↦ panic
      | out_of_rounds ↦ unfinished
      | ended (m, k') ↦ grow sb off n (record ip { meta = m }) k'
    ])
