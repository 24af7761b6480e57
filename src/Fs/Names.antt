-- ===== src/Fs/Names.antt =====
-- Project03-FileSystem/fs.c: `iunlockput`, `dirlookup` and `namex`, with `struct dirent` of fs.h, on
-- the inode cache and the blocks. `strncmp` is that of Io/Strings, which the kernels share.
pub mod Ends
use hyu_ele3021_operating_sy.Prelude.{
  ℕ, zero, suc, ◌+◌, ◌*◌, ◌/◌, Bool, true, false, not, ◌&&◌, Option, none, some, List, [], ltb,
  ◌==◌, if◌then◌else◌, length, get_or, set, drop, ℤ, pos,
}
use hyu_ele3021_operating_sy.Io.Strings.{strncmp}
use hyu_ele3021_operating_sy.Fs.Blocks.{Superblock, Kern}
use hyu_ele3021_operating_sy.Fs.Inode.{
  Inode, inode, iget, idup, Locking, locks, waits, panic, ilock, iunlock,
}
use hyu_ele3021_operating_sy.Fs.Bmap.{iput}
use hyu_ele3021_operating_sy.Fs.Content.{Contents, got, refused, panic, readi}
use hyu_ele3021_operating_sy.Fs.Path.{dirsiz, slash, at_nul, skipelem}

-- `T_DIR` of stat.h, `ROOTDEV` of param.h and `ROOTINO` of fs.h
abbrev pub t_dir : ℕ
t_dir = 1

abbrev pub root_dev : ℕ
root_dev = 1

abbrev pub root_ino : ℕ
root_ino = 1

-- The inode cache, and the blocks.
pub record Files : Type 0 where
  pub inodes : List Inode
  pub kern : Kern

abbrev pub file : Files → ℕ → Inode
file f i = inode f.inodes i

abbrev pub with_file : Files → ℕ → Inode → Kern → Files
with_file f i ip k = record { inodes = set f.inodes i ip; kern = k }

-- `none` is a panic.
unfoldable pub put_back : Superblock → ℕ → Files → Option Files
unfolding iput
put_back sb i f = elim (iput sb (file f i) f.kern) [
  | none ↦ none
  | some (ip, k) ↦ some (with_file f i ip k)
]

unfoldable pub unlock : ℕ → ℕ → Files → Option Files
unfolding iunlock
unlock pid i f = elim (iunlock pid (file f i)) [
  | none ↦ none
  | some ip ↦ some (with_file f i ip f.kern)
]

unfoldable pub iunlockput : Superblock → ℕ → ℕ → Files → Option Files
unfolding unlock put_back
iunlockput sb pid i f = elim (unlock pid i f) [ none ↦ none | some f' ↦ put_back sb i f' ]

-- `struct dirent`: the number of the inode and its name, in 16 bytes.
abbrev pub dirent_inum : List ℕ → ℕ
dirent_inum cs = get_or cs 0 0 + 256 * get_or cs 1 0

abbrev pub dirent_name : List ℕ → List ℕ
dirent_name cs = drop 2 cs

abbrev pub is_zero : ℤ → Bool
is_zero (pos zero) = true
is_zero _ = false

-- The ends of `dirlookup`: the slot of the inode and the offset of its entry, nothing, a
-- panic, or too few rounds.
pub data Lookup : Type 0 where
  found : ℕ → ℕ → Files → Lookup
  missing : Files → Lookup
  halts : Lookup
  runs_out : Lookup

-- The entry at offset `off` is that of the name.
unfoldable pub enter : ℕ → ℕ → ℕ → Files → Lookup
unfolding iget
enter d inum off f = elim (iget (file f d).dev inum f.inodes) [
  | none ↦ halts
  | some (i, ips) ↦ found i off (record f { inodes = ips })
]

-- The loop over the entries from `off` on, in at most `r` rounds.
unfoldable pub dirlookup_loop : Superblock → ℕ → List ℕ → ℕ → ℕ → Files → Lookup
unfolding readi strncmp enter
dirlookup_loop sb d name zero off f = if ltb off (file f d).meta.size then runs_out else missing f
dirlookup_loop sb d name (suc r) off f =
    let ip = file f d in
    elim (ltb off ip.meta.size) [
      | false ↦ missing f
      | true ↦ elim (readi sb off 16 ip.meta f.kern) [
        | refused ↦ halts
        | panic ↦ halts
        | Contents.unfinished ↦ runs_out
        | got cs m k ↦
            let f' = with_file f d (record ip { meta = m }) k in
            elim (length cs == 16) [
              | false ↦ halts
              | true ↦
                  elim (not (dirent_inum cs == 0)
                    && is_zero (strncmp name (dirent_name cs) dirsiz)) [
                      | true ↦ enter d (dirent_inum cs) off f'
                      | false ↦ dirlookup_loop sb d name r (off + 16) f'
                    ]
            ]
      ]
    ]

-- An entry takes 16 bytes, so the rounds are enough.
unfoldable pub dirlookup : Superblock → ℕ → List ℕ → Files → Lookup
unfolding dirlookup_loop
dirlookup sb d name f =
    let m = (file f d).meta in
    elim (m.type == t_dir) [ false ↦ halts | true ↦ dirlookup_loop sb d name (m.size / 16 + 1) 0 f ]

-- The ends of `namex`: the slot of an inode with the last name read, nothing, a wait for the lock of
-- an inode, a panic, or too few rounds.
pub data Walk : Type 0 where
  reached : ℕ → List ℕ → Files → Walk
  nowhere : Files → Walk
  sleeps : Walk
  dies : Walk
  unfinished : Walk

abbrev pub or_dies : Option Files → (Files → Walk) → Walk
or_dies none w = dies
or_dies (some f) w = w f

-- A round of `namex` from the result of `dirlookup` on; `next` is the rest of the loop.
unfoldable pub after_lookup : Superblock → ℕ → ℕ → (ℕ → Files → Walk) → Lookup → Walk
unfolding iunlockput
after_lookup sb pid i next halts = dies
after_lookup sb pid i next runs_out = unfinished
after_lookup sb pid i next (missing f) = or_dies (iunlockput sb pid i f) nowhere
after_lookup sb pid i next (found j off f) = or_dies (iunlockput sb pid i f) (next j)

-- A round from the result of `ilock` on, with the name and the rest of the path.
unfoldable pub after_lock :
    Superblock → ℕ → Bool → List ℕ → List ℕ → ℕ → (ℕ → Files → Walk) → Files → Locking → Walk
unfolding after_lookup dirlookup iunlockput unlock
after_lock sb pid parent name rest i next f waits = sleeps
after_lock sb pid parent name rest i next f panic = dies
after_lock sb pid parent name rest i next f (locks ip) =
    let f1 = with_file f i ip f.kern in
    if not (ip.meta.type == t_dir)
    then or_dies (iunlockput sb pid i f1) nowhere
    else (if parent && at_nul rest
        then or_dies (unlock pid i f1) (reached i name)
        else after_lookup sb pid i next (dirlookup sb i name f1))

-- A round from the result of `skipelem` on; `last` is the name read before.
unfoldable pub after_name :
    Superblock
    → ℕ
    → Bool
    → List ℕ
    → ℕ
    → (List ℕ → List ℕ → ℕ → Files → Walk)
    → Files
    → Option (List ℕ × List ℕ)
    → Walk
unfolding put_back after_lock ilock
after_name sb pid parent last i next f none =
    if parent then or_dies (put_back sb i f) nowhere else reached i last f
after_name sb pid parent last i next f (some (name, rest)) =
    after_lock sb pid parent name rest i (next rest name) f (ilock sb pid (file f i) f.kern)

-- The loop of `namex` at the inode in slot `i`, in at most `r` rounds.
unfoldable pub namex_loop : Superblock → ℕ → Bool → ℕ → List ℕ → List ℕ → ℕ → Files → Walk
unfolding after_name skipelem
namex_loop sb pid parent zero path last i f = unfinished
namex_loop sb pid parent (suc r) path last i f =
    after_name sb pid parent last i (namex_loop sb pid parent r) f (skipelem path)

-- `namex` of an absolute path, from the result of `iget` on.
unfoldable pub from_root : Superblock → ℕ → Bool → List ℕ → Files → Option (ℕ × List Inode) → Walk
unfolding namex_loop
from_root sb pid parent path f none = dies
from_root sb pid parent path f (some (i, ips)) =
    namex_loop sb pid parent (length path + 1) path [] i (record f { inodes = ips })

-- `namex` for a process with the directory in slot `cwd`. Every name takes a byte of the path at
-- least, so the rounds are enough.
unfoldable pub namex : Superblock → ℕ → ℕ → Bool → List ℕ → Files → Walk
unfolding from_root namex_loop iget idup
namex sb pid cwd parent path f =
    if get_or path 0 0 == slash
    then from_root sb pid parent path f (iget root_dev root_ino f.inodes)
    else namex_loop sb pid parent (length path + 1) path [] cwd
        (record f { inodes = idup cwd f.inodes })
