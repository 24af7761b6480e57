-- ===== src/Fs/Bmap.antt =====
-- Project03-FileSystem/fs.c: `bmap`, `itrunc` and `iput`, with direct blocks and blocks behind one,
-- two and three levels of indirect blocks. `none` is a panic.
pub mod Tree
use hyu_ele3021_operating_sy.Prelude.{
  ℕ, zero, suc, ◌+◌, ◌-◌, ◌/◌, ◌%◌, true, false, ◌&&◌, Option, none, some, List, [], ◌∷◌, ltb, ◌==◌,
  if◌then◌else◌, get_or, set, take,
}
use hyu_ele3021_operating_sy.Fs.Buffer.{bread}
use hyu_ele3021_operating_sy.Fs.Blocks.{Superblock, Kern, update, nindirect, balloc, bfree}
use hyu_ele3021_operating_sy.Fs.Inode.{Meta, Inode, iupdate}

-- `NDIRECT`, `NDINDIRECT` and `NTINDIRECT` of fs.h
abbrev pub ndirect : ℕ
ndirect = 10

abbrev pub ndindirect : ℕ
ndindirect = 16384

abbrev pub ntindirect : ℕ
ntindirect = 2097152

-- An address of the inode; a block is allocated where there is none.
unfoldable pub inode_slot : Superblock → ℕ → Meta → Kern → Option (ℕ × Meta × Kern)
unfolding balloc
inode_slot sb i m k =
    let addr = get_or m.addrs i 0 in
    if addr == 0
    then (elim (balloc sb k) [
      | none ↦ none
      | some (b, k') ↦ some (b, record m { addrs = set m.addrs i b }, k')
    ])
    else some (addr, m, k)

-- Address `j` in the indirect block `b`, likewise.
unfoldable pub block_slot : Superblock → ℕ → ℕ → Kern → Option (ℕ × Kern)
unfolding balloc bread update
block_slot sb j b k =
    let addr = get_or (bread b k.store) j 0 in
    if addr == 0
    then (elim (balloc sb k) [
      | none ↦ none
      | some (c, k') ↦ elim (update b (set (bread b k'.store) j c) k') [
        | none ↦ none
        | some k'' ↦ some (c, k'')
      ]
    ])
    else some (addr, k)

-- The addresses `js` in blocks one behind the other, from block `b` on.
unfoldable pub follow : Superblock → List ℕ → ℕ → Kern → Option (ℕ × Kern)
follow sb [] b k = some (b, k)
follow sb (j ∷ js) b k = elim (block_slot sb j b k) [
  | none ↦ none
  | some (c, k') ↦ follow sb js c k'
]

-- Where block `bn` of a file is found: the address in the inode, and those in the indirect blocks.
unfoldable pub route : ℕ → Option (ℕ × List ℕ)
route bn =
    let bn1 = bn - ndirect in
    let bn2 = bn1 - nindirect in
    let bn3 = bn2 - ndindirect in
    if ltb bn ndirect
    then some (bn, [])
    else (if ltb bn1 nindirect
        then some (ndirect, bn1 ∷ [])
        else (if ltb bn2 ndindirect
            then some (ndirect + 1, bn2 / nindirect ∷ (bn2 % nindirect ∷ []))
            else (if ltb bn3 ntindirect
                then some (
                  ndirect + 2,
                  bn3 / ndindirect
                      ∷ (bn3 % ndindirect / nindirect ∷ (bn3 % ndindirect % nindirect ∷ [])),
                )
                else none)))

unfoldable pub bmap : Superblock → ℕ → Meta → Kern → Option (ℕ × Meta × Kern)
bmap sb bn m k = elim (route bn) [
  | none ↦ none
  | some (i, js) ↦ elim (inode_slot sb i m k) [
    | none ↦ none
    | some (b, m', k') ↦ elim (follow sb js b k') [
      | none ↦ none
      | some (c, k'') ↦ some (c, m', k'')
    ]
  ]
]

-- The loop of `itrunc` over the addresses in a block, each freed by `free` unless it is 0.
unfoldable pub free_each : (ℕ → Kern → Option Kern) → List ℕ → Kern → Option Kern
free_each free [] k = some k
free_each free (a ∷ addrs) k = elim (if a == 0 then some k else free a k) [
  | none ↦ none
  | some k' ↦ free_each free addrs k'
]

-- An address with `d` levels of indirect blocks: what its block holds is freed, then the block.
unfoldable pub free_tree : Superblock → ℕ → ℕ → Kern → Option Kern
unfolding free_each bread bfree
free_tree sb zero a k = bfree sb a k
free_tree sb (suc d) a k = elim (free_each (free_tree sb d) (take nindirect (bread a k.store)) k) [
  | none ↦ none
  | some k' ↦ bfree sb a k'
]

-- The parts of `itrunc`: the addresses of the inode from `i` on, `d` levels each.
unfoldable pub trunc_part : Superblock → ℕ → ℕ → ℕ → Meta → Kern → Option (Meta × Kern)
unfolding free_tree
trunc_part sb d zero i m k = some (m, k)
trunc_part sb d (suc n) i m k =
    let a = get_or m.addrs i 0 in
    elim (if a == 0 then some k else free_tree sb d a k) [
      | none ↦ none
      | some k' ↦ trunc_part sb d n (i + 1) (record m { addrs = set m.addrs i 0 }) k'
    ]

-- The addresses of an inode by parts: how many levels, how many addresses, the first one.
unfoldable pub trunc_parts : Superblock → List (ℕ × ℕ × ℕ) → Meta → Kern → Option (Meta × Kern)
unfolding trunc_part
trunc_parts sb [] m k = some (m, k)
trunc_parts sb ((d, n, i) ∷ ps) m k = elim (trunc_part sb d n i m k) [
  | none ↦ none
  | some (m', k') ↦ trunc_parts sb ps m' k'
]

unfoldable pub itrunc : Superblock → Inode → Kern → Option (Inode × Kern)
unfolding trunc_parts iupdate
itrunc sb ip k =
    elim (trunc_parts sb
      ((0, ndirect, 0) ∷ ((1, 1, ndirect) ∷ ((2, 1, ndirect + 1) ∷ ((3, 1, ndirect + 2) ∷ []))))
      ip.meta k) [
        | none ↦ none
        | some (m, k') ↦
            let ip' = record ip { meta = record m { size = 0 } } in
            elim (iupdate sb ip' k') [ none ↦ none | some k'' ↦ some (ip', k'') ]
      ]

-- `iput` with the lock free: the last reference to an inode without links frees it.
unfoldable pub iput : Superblock → Inode → Kern → Option (Inode × Kern)
unfolding itrunc iupdate
iput sb ip k = elim (ip.valid && (ip.meta.nlink == 0 && ip.ref == 1)) [
  | false ↦ some (record ip { ref = ip.ref - 1 }, k)
  | true ↦ elim (itrunc sb ip k) [
    | none ↦ none
    | some (ip', k') ↦
        let ip'' = record ip' { meta = record (ip'.meta) { type = 0 } } in
        elim (iupdate sb ip'' k') [
          | none ↦ none
          | some k'' ↦ some (record ip'' { valid = false; ref = ip''.ref - 1 }, k'')
        ]
  ]
]
