-- ===== src/Fs/Inode.antt =====
-- Project03-FileSystem/fs.c: the inodes in memory (`struct inode` of file.h, `icache`) and their
-- copies on the disk (`struct dinode` of fs.h): `iget`, `idup`, `ialloc`, `iupdate`, `ilock`, `iunlock`
-- and `stati`. A pointer into the cache is the index of its slot.
pub mod Copies
pub mod Cache
use hyu_ele3021_operating_sy.Prelude.{
  ℕ, zero, suc, ◌+◌, ◌-◌, ◌*◌, ◌/◌, ◌%◌, ◌^◌, Bool, true, false, not, ◌&&◌, ◌||◌, Option, none,
  some, List, [], ◌∷◌, ◌++◌, ltb, ◌==◌, if◌then◌else◌, length, get_or, set, take, drop, replicate,
}
use hyu_ele3021_operating_sy.Fs.Buffer.{Block, bread}
use hyu_ele3021_operating_sy.Fs.Blocks.{Superblock, Kern, update}

-- The fields that an inode has on the disk.
pub record Meta : Type 0 where
  pub type : ℕ
  pub major : ℕ
  pub minor : ℕ
  pub nlink : ℕ
  pub size : ℕ
  pub addrs : List ℕ

-- `locked` is the holder of the sleep-lock, by its pid.
pub record Inode : Type 0 where
  pub dev : ℕ
  pub inum : ℕ
  pub ref : ℕ
  pub locked : Option ℕ
  pub valid : Bool
  pub meta : Meta

abbrev pub blank_inode : Inode
blank_inode = record {
  dev = 0;
  inum = 0;
  ref = 0;
  locked = none;
  valid = false;
  meta = record { type = 0; major = 0; minor = 0; nlink = 0; size = 0; addrs = replicate 13 0 };
}

-- `IPB` and `IBLOCK` of fs.h
abbrev pub ipb : ℕ
ipb = 8

abbrev pub iblock : Superblock → ℕ → ℕ
iblock sb inum = inum / ipb + sb.inodestart

-- The 16 words of a `struct dinode`; its first two hold two shorts each.
abbrev pub to_words : Meta → List ℕ
to_words m = (m.type + m.major * 2 ^ 16) ∷ (m.minor + m.nlink * 2 ^ 16) ∷ m.size ∷ m.addrs

abbrev pub from_words : List ℕ → Meta
from_words ws = record {
  type = get_or ws 0 0 % 2 ^ 16;
  major = get_or ws 0 0 / 2 ^ 16;
  minor = get_or ws 1 0 % 2 ^ 16;
  nlink = get_or ws 1 0 / 2 ^ 16;
  size = get_or ws 2 0;
  addrs = drop 3 ws;
}

-- The words `ws` from position `o` of a block on.
unfoldable pub put_at : ℕ → List ℕ → Block → Block
put_at zero ws x = ws ++ drop (length ws) x
put_at (suc o) ws [] = []
put_at (suc o) ws (w ∷ x) = w ∷ put_at o ws x

abbrev pub dinode : ℕ → Block → Meta
dinode inum x = from_words (take 16 (drop (inum % ipb * 16) x))

unfoldable pub iupdate : Superblock → Inode → Kern → Option Kern
unfolding bread put_at update
iupdate sb ip k =
    let b = iblock sb ip.inum in
    update b (put_at (ip.inum % ipb * 16) (to_words ip.meta) (bread b k.store)) k

-- The search of `iget` from slot `i` on: the slot that has the inode, or else the first unused one.
pub data Sought : Type 0 where
  cached : ℕ → Sought
  empty : Option ℕ → Sought

abbrev pub is_inode : ℕ → ℕ → Inode → Bool
is_inode dev inum ip = ltb 0 ip.ref && (ip.dev == dev && ip.inum == inum)

-- The first unused slot is remembered.
abbrev pub remember : ℕ → Inode → Option ℕ → Option ℕ
remember i ip none = if ip.ref == 0 then some i else none
remember i ip (some j) = some j

unfoldable pub look : ℕ → ℕ → ℕ → Option ℕ → List Inode → Sought
look dev inum i e [] = empty e
look dev inum i e (ip ∷ ips) =
    let rest = look dev inum (i + 1) (remember i ip e) ips in
    if is_inode dev inum ip then cached i else rest

abbrev pub inode : List Inode → ℕ → Inode
inode ips i = get_or ips i blank_inode

-- `iget` once its search is over; `none` is the panic that no inodes are left.
unfoldable pub take_slot : ℕ → ℕ → List Inode → Sought → Option (ℕ × List Inode)
take_slot dev inum ips (cached i) =
    some (i, set ips i (record (inode ips i) { ref = (inode ips i).ref + 1 }))
take_slot dev inum ips (empty none) = none
take_slot dev inum ips (empty (some i)) =
    some (i, set ips i (record (inode ips i) { dev = dev; inum = inum; ref = 1; valid = false }))

unfoldable pub iget : ℕ → ℕ → List Inode → Option (ℕ × List Inode)
unfolding look take_slot
iget dev inum ips = take_slot dev inum ips (look dev inum 0 none ips)

unfoldable pub idup : ℕ → List Inode → List Inode
idup i ips = set ips i (record (inode ips i) { ref = (inode ips i).ref + 1 })

-- `ialloc` from inode number `inum` on, with `n` numbers to go; `none` is a panic.
unfoldable pub ialloc_loop :
    Superblock → ℕ → ℕ → ℕ → ℕ → List Inode → Kern → Option (ℕ × List Inode × Kern)
unfolding bread put_at update iget
ialloc_loop sb dev type zero inum ips k = none
ialloc_loop sb dev type (suc n) inum ips k =
    let rest = ialloc_loop sb dev type n (inum + 1) ips k in
    let b = iblock sb inum in
    let x = bread b k.store in
    if (dinode inum x).type == 0
    then (elim (update b (put_at (inum % ipb * 16) (type ∷ replicate 15 0) x) k) [
      | none ↦ none
      | some k' ↦ elim (iget dev inum ips) [ none ↦ none | some (i, ips') ↦ some (i, ips', k') ]
    ])
    else rest

unfoldable pub ialloc : Superblock → ℕ → ℕ → List Inode → Kern → Option (ℕ × List Inode × Kern)
unfolding ialloc_loop
ialloc sb dev type ips k = ialloc_loop sb dev type (sb.ninodes - 1) 1 ips k

-- The ends of `ilock`: the inode, a wait for its lock, or a panic.
pub data Locking : Type 0 where
  locks : Inode → Locking
  waits : Locking
  panic : Locking

unfoldable pub ilock : Superblock → ℕ → Inode → Kern → Locking
unfolding bread
ilock sb pid ip k =
    let m = dinode ip.inum (bread (iblock sb ip.inum) k.store) in
    let loaded = record ip { locked = some pid; meta = m; valid = true } in
    if ltb ip.ref 1 then panic else (elim ip.locked [
      | some _ ↦ waits
      | none ↦
          if ip.valid
          then locks (record ip { locked = some pid })
          else (if m.type == 0 then panic else locks loaded)
    ])

abbrev pub holds : ℕ → Inode → Bool
holds pid ip = elim ip.locked [ none ↦ false | some q ↦ q == pid ]

-- `none` is a panic.
unfoldable pub iunlock : ℕ → Inode → Option Inode
iunlock pid ip =
    if not (holds pid ip) || ltb ip.ref 1 then none else some (record ip { locked = none })

-- `struct stat` of stat.h
pub record Stat : Type 0 where
  pub type : ℕ
  pub dev : ℕ
  pub ino : ℕ
  pub nlink : ℕ
  pub size : ℕ

unfoldable pub stati : Inode → Stat
stati ip = record {
  type = ip.meta.type;
  dev = ip.dev;
  ino = ip.inum;
  nlink = ip.meta.nlink;
  size = ip.meta.size;
}
