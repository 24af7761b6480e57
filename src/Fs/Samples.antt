-- ===== src/Fs/Samples.antt =====
-- Runs of the inodes and blocks of a small file system.
use hyu_ele3021_operating_sy.Prelude.{
  ℕ, zero, suc, ◌*◌, ◌≤◌, ◌<◌, ◌≡◌, refl, ◌⊎◌, true, false, none, some, List, [], ◌∷◌, arith, ◌==◌,
  if◌then◌else◌, length, replicate,
}
use mathlib.Core.Bool.{false≢true}
use hyu_ele3021_operating_sy.Fs.Buffer.{Block, bread, fill}
use hyu_ele3021_operating_sy.Fs.Journal.{log_write}
use hyu_ele3021_operating_sy.Fs.Blocks.{
  Superblock, Kern, update, bit, set_bit, find_block, zero_block, claim, bzero, balloc,
}
use hyu_ele3021_operating_sy.Fs.Blocks.Marks.{Allocated, balloc-Allocated}
use hyu_ele3021_operating_sy.Fs.Inode.{
  Meta, Inode, blank_inode, is_inode, look, take_slot, inode, iget, iupdate, put_at, locks, ilock,
}
use hyu_ele3021_operating_sy.Fs.Inode.Copies.{ilock-iupdate}
use hyu_ele3021_operating_sy.Fs.Inode.Cache.{Distinct, iget-Distinct}
use hyu_ele3021_operating_sy.Fs.Bmap.{route, bmap, inode_slot, follow}
use hyu_ele3021_operating_sy.Fs.Cache.{binit, bget}
use hyu_ele3021_operating_sy.Fs.Cache.Choice.{Got, bget-Got}
use hyu_ele3021_operating_sy.Fs.Names.{Files, namex}
use hyu_ele3021_operating_sy.Fs.Names.Ends.{Finishes, namex-Finishes}
use hyu_ele3021_operating_sy.Fs.Content.{readi, got}
use hyu_ele3021_operating_sy.Fs.Content.Read.{AreBytes, AllPlaced, readi-AreBytes}
use hyu_ele3021_operating_sy.Fs.Bmap.Tree.{Place, maxfile, route-Place}

route-Place_example :
    ((i : ℕ) × (js : List ℕ) × (route 16522 ≡ some (i, js)) × Place 16522 i js)
    ⊎ ((maxfile ≤ 16522) × (route 16522 ≡ none))
route-Place_example = route-Place 16522

-- Block 58 has the free map, in which blocks 0 to 63 are in use.
abbrev pub test_sb : Superblock
test_sb = record {
  size = 80;
  nblocks = 20;
  ninodes = 20;
  nlog = 30;
  logstart = 2;
  inodestart = 32;
  bmapstart = 58;
}

abbrev pub test_map : Block
test_map = 4294967295 ∷ (4294967295 ∷ replicate 126 0)

abbrev pub test_kern : Kern
test_kern = record {
  store = record {
    disk = λ b. if b == 58 then test_map else replicate 128 0;
    cached = λ b. none;
    power = 9;
  };
  log = record { start = 2; size = 30; outstanding = 1; committing = false; lh = [] };
}

abbrev after_balloc : Kern
after_balloc = record {
  store = fill 64 (replicate 128 0) (fill 58 (set_bit 64 test_map) test_kern.store);
  log = record { start = 2; size = 30; outstanding = 1; committing = false; lh = 58 ∷ (64 ∷ []) };
}

balloc_runs : balloc test_sb test_kern ≡ some (64, after_balloc)
unfolding balloc claim find_block zero_block bzero update log_write bread bit
balloc_runs = refl

map_size : length (bread 58 test_kern.store) ≡ 128
unfolding bread
map_size = refl

balloc-Allocated_example : Allocated test_sb test_kern 64 after_balloc
balloc-Allocated_example =
    balloc-Allocated test_sb test_kern after_balloc 64 map_size (omega arith) balloc_runs

abbrev pub test_meta : Meta
test_meta = record {
  type = 2;
  major = 0;
  minor = 0;
  nlink = 1;
  size = 700;
  addrs = 61 ∷ (62 ∷ replicate 11 0);
}

abbrev pub test_inode : Inode
test_inode = record { dev = 1; inum = 9; ref = 1; locked = some 4; valid = true; meta = test_meta }

-- The same inode in the cache, not read yet.
abbrev unread_inode : Inode
unread_inode = record blank_inode { dev = 1; inum = 9; ref = 1 }

abbrev after_iupdate : Kern
after_iupdate = record {
  store =
      fill 33 (put_at 16 (2 ∷ (65536 ∷ (700 ∷ (61 ∷ (62 ∷ replicate 11 0))))) (replicate 128 0))
        test_kern.store;
  log = record { start = 2; size = 30; outstanding = 1; committing = false; lh = 33 ∷ [] };
}

iupdate_runs : iupdate test_sb test_inode test_kern ≡ some after_iupdate
unfolding iupdate update log_write bread
iupdate_runs = refl

inode_block : length (bread 33 test_kern.store) ≡ 128
unfolding bread
inode_block = refl

ilock-iupdate_example :
    ilock test_sb 7 unread_inode after_iupdate
    ≡ locks (record unread_inode { locked = some 7; meta = test_meta; valid = true })
ilock-iupdate_example =
    ilock-iupdate test_sb 7 test_inode unread_inode test_kern after_iupdate
      (record { type_fits = omega arith; minor_fits = omega arith; all_addrs = refl })
      (λ e. omega (arith, e)) inode_block iupdate_runs refl (omega arith) refl refl

abbrev test_cache : List Inode
test_cache = unread_inode ∷ (blank_inode ∷ [])

test_cache-Distinct : Distinct test_cache
test_cache-Distinct zero zero dev inum h k = refl
test_cache-Distinct zero (suc zero) dev inum h k = absurd (false≢true k)
test_cache-Distinct zero (suc (suc j)) dev inum h k = absurd (false≢true k)
test_cache-Distinct (suc zero) j dev inum h k = absurd (false≢true h)
test_cache-Distinct (suc (suc i)) j dev inum h k = absurd (false≢true h)

abbrev after_iget : List Inode
after_iget = unread_inode ∷ (record blank_inode { dev = 1; inum = 5; ref = 1 } ∷ [])

iget_runs : iget 1 5 test_cache ≡ some (1, after_iget)
unfolding iget look take_slot
iget_runs = refl

iget-Distinct_example : Distinct after_iget × (is_inode 1 5 (inode after_iget 1) ≡ true)
iget-Distinct_example = iget-Distinct 1 5 1 test_cache after_iget test_cache-Distinct iget_runs

bget-Got_example : Got 1 33 (binit 30) (bget 1 33 (binit 30))
bget-Got_example = bget-Got 1 33 (binit 30)

-- The blocks of the inode above: 61 and 62.
abbrev pub test_place : ℕ → ℕ
test_place bn = if bn == 0 then 61 else 62

test_file-AllPlaced : AllPlaced test_sb test_meta test_kern test_place 700
unfolding bmap route inode_slot follow bread
test_file-AllPlaced = record { placed = placed; whole = whole }
  where
    placed :
        (bn : ℕ)
        → bn * 512 < 700
        → bmap test_sb bn test_meta test_kern ≡ some (test_place bn, test_meta, test_kern)
    placed zero h = refl
    placed (suc zero) h = refl
    placed (suc (suc n)) h = absurd (omega arith)

    whole : (bn : ℕ) → bn * 512 < 700 → length (bread (test_place bn) test_kern.store) ≡ 128
    whole zero h = refl
    whole (suc zero) h = refl
    whole (suc (suc n)) h = absurd (omega arith)

readi-AreBytes_example :
    (cs : List ℕ) × (readi test_sb 500 1000 test_meta test_kern ≡ got cs test_meta test_kern)
    × AreBytes test_sb test_meta test_kern test_place 500 200 cs
readi-AreBytes_example =
    readi-AreBytes test_sb test_meta test_kern test_place 500 1000 (omega arith) (omega arith)
      test_file-AllPlaced

abbrev pub test_files : Files
test_files = record { inodes = test_cache; kern = test_kern }

-- The path `/a/b`.
namex-Finishes_example :
    Finishes (namex test_sb 4 0 false (47 ∷ (97 ∷ (47 ∷ (98 ∷ [])))) test_files)
namex-Finishes_example = namex-Finishes test_sb 4 0 false (47 ∷ (97 ∷ (47 ∷ (98 ∷ [])))) test_files
