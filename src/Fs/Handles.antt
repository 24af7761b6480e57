-- ===== src/Fs/Handles.antt =====
-- Project03-FileSystem/fs.c and log.c: what the file system calls use of the inodes and the log, as
-- commands on `Files`. An inode is the index of its slot in the cache.
use hyu_ele3021_operating_sy.Prelude.{ℕ, Bool, true, false, Option, none, some, List}
use hyu_ele3021_operating_sy.Fs.Journal.{Journal, begin_op, end_op}
use hyu_ele3021_operating_sy.Fs.Blocks.{Superblock, Kern}
use hyu_ele3021_operating_sy.Fs.Inode.{
  Meta, Inode, ialloc, iupdate, Locking, locks, waits, panic, ilock,
}
use hyu_ele3021_operating_sy.Fs.Names.{
  Files, file, with_file, put_back, unlock, iunlockput, Lookup, found, missing, halts, runs_out,
  dirlookup, Walk, reached, nowhere, sleeps, dies, unfinished, namex,
}
use hyu_ele3021_operating_sy.Fs.Run.{Run, ok, sleeps, panics, overruns, unfinished, Cmd}

-- The process that makes the call: `cwd` is the slot of its directory. `sb` is the superblock that
-- `iinit` has read.
pub record Task : Type 0 where
  pub sb : Superblock
  pub pid : ℕ
  pub cwd : ℕ
  pub killed : Bool

abbrev pub or_panics : Option Files → Run Files (Unit {0})
or_panics none = panics
or_panics (some f) = ok tt f

unfoldable pub lock_end : ℕ → Files → Locking → Run Files (Unit {0})
lock_end i f (locks ip) = ok tt (with_file f i ip f.kern)
lock_end i f waits = sleeps
lock_end i f panic = panics

unfoldable pub lock : Task → ℕ → Cmd Files (Unit {0})
unfolding lock_end ilock
lock t i f = lock_end i f (ilock t.sb t.pid (file f i) f.kern)

unfoldable pub release : Task → ℕ → Cmd Files (Unit {0})
unfolding unlock
release t i f = or_panics (unlock t.pid i f)

unfoldable pub put_inode : Task → ℕ → Cmd Files (Unit {0})
unfolding put_back
put_inode t i f = or_panics (put_back t.sb i f)

unfoldable pub release_put : Task → ℕ → Cmd Files (Unit {0})
unfolding iunlockput
release_put t i f = or_panics (iunlockput t.sb t.pid i f)

-- A change of the fields of an inode in memory, and `iupdate`.
unfoldable pub edit : ℕ → (Meta → Meta) → Cmd Files (Unit {0})
edit i g f = ok tt (with_file f i (record (file f i) { meta = g (file f i).meta }) f.kern)

abbrev pub or_panics_blocks : Files → Option Kern → Run Files (Unit {0})
or_panics_blocks f none = panics
or_panics_blocks f (some k) = ok tt (record f { kern = k })

unfoldable pub save : Task → ℕ → Cmd Files (Unit {0})
unfolding iupdate
save t i f = or_panics_blocks f (iupdate t.sb (file f i) f.kern)

unfoldable pub walk_end : Walk → Run Files (Option (ℕ × List ℕ))
walk_end (reached i name f) = ok (some (i, name)) f
walk_end (nowhere f) = ok none f
walk_end sleeps = sleeps
walk_end dies = panics
walk_end unfinished = unfinished

unfoldable pub nameiparent : Task → List ℕ → Cmd Files (Option (ℕ × List ℕ))
unfolding walk_end namex
nameiparent t path f = walk_end (namex t.sb t.pid t.cwd true path f)

abbrev slot_of : Option (ℕ × List ℕ) → Option ℕ
slot_of none = none
slot_of (some (i, _)) = some i

unfoldable pub named : Run Files (Option (ℕ × List ℕ)) → Run Files (Option ℕ)
named (ok r f) = ok (slot_of r) f
named sleeps = sleeps
named panics = panics
named overruns = overruns
named unfinished = unfinished

unfoldable pub namei : Task → List ℕ → Cmd Files (Option ℕ)
unfolding named walk_end namex
namei t path f = named (walk_end (namex t.sb t.pid t.cwd false path f))

-- The slot of the inode and the offset of its entry.
unfoldable pub lookup_end : Lookup → Run Files (Option (ℕ × ℕ))
lookup_end (found i off f) = ok (some (i, off)) f
lookup_end (missing f) = ok none f
lookup_end halts = panics
lookup_end runs_out = unfinished

unfoldable pub search_dir : Task → ℕ → List ℕ → Cmd Files (Option (ℕ × ℕ))
unfolding lookup_end dirlookup
search_dir t d name f = lookup_end (dirlookup t.sb d name f)

abbrev pub alloc_end : Option (ℕ × List Inode × Kern) → Run Files ℕ
alloc_end none = panics
alloc_end (some (i, ips, k)) = ok i (record { inodes = ips; kern = k })

unfoldable pub alloc_inode : Task → ℕ → ℕ → Cmd Files ℕ
unfolding ialloc
alloc_inode t dev type f = alloc_end (ialloc t.sb dev type f.inodes f.kern)

-- `begin_op` while no commit runs; the call sleeps otherwise. Likewise `end_op`.
abbrev pub logged : Files → Option Journal → Run Files (Unit {0})
logged f none = sleeps
logged f (some l) = ok tt (record f { kern = record (f.kern) { log = l } })

unfoldable pub begin : Cmd Files (Unit {0})
unfolding begin_op
begin f = logged f (begin_op f.kern.log)

unfoldable pub finish : Cmd Files (Unit {0})
unfolding end_op
finish f = logged f (end_op f.kern.log)
