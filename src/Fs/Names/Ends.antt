-- ===== src/Fs/Names/Ends.antt =====
-- The loop of `namex` ends.
use hyu_ele3021_operating_sy.Prelude.{
  if_true, if_false, ℕ, zero, suc, ◌+◌, ◌<◌, ◌≡◌, refl, sym, subst, inl, inr, Bool, true, false,
  not, ◌&&◌, Option, none, some, List, [], arith, ◌==◌, Bool-cases, length, get_or,
}
use hyu_ele3021_operating_sy.Fs.Blocks.{Superblock}
use hyu_ele3021_operating_sy.Fs.Inode.{Inode, iget, idup, Locking, locks, waits, panic, ilock}
use hyu_ele3021_operating_sy.Fs.Path.{slash, at_nul, skipelem}
use hyu_ele3021_operating_sy.Fs.Path.Elements.{Split, over, name, skipelem-Split}
use hyu_ele3021_operating_sy.Fs.Entries.Searches.{IsOver, dirlookup-IsOver}
use mathlib.Core.Bool.{false≢true}
use hyu_ele3021_operating_sy.Fs.Names.{
  t_dir, root_dev, root_ino, Files, file, with_file, put_back, unlock, iunlockput, Lookup, found,
  missing, halts, runs_out, dirlookup, Walk, reached, nowhere, unfinished, or_dies, after_lookup,
  after_lock, after_name, namex_loop, from_root, namex,
}

abbrev pub is_finished : Walk → Bool
is_finished unfinished = false
is_finished _ = true

abbrev pub Finishes : Walk → Type 0
Finishes w = is_finished w ≡ true

or_dies-Finishes :
    (o : Option Files) (next : Files → Walk)
    → ((f : Files) → Finishes (next f))
    → Finishes (or_dies o next)
or_dies-Finishes none next h = refl
or_dies-Finishes (some f) next h = h f

module _ (sb : Superblock) (pid : ℕ) where
  after_lookup-Finishes :
      (i : ℕ) (next : ℕ → Files → Walk) (l : Lookup)
      → IsOver l
      → ((j : ℕ) (f : Files) → Finishes (next j f))
      → Finishes (after_lookup sb pid i next l)
  unfolding after_lookup
  after_lookup-Finishes i next halts z h = refl
  after_lookup-Finishes i next runs_out z h = absurd (false≢true z)
  after_lookup-Finishes i next (missing f) z h =
      or_dies-Finishes (iunlockput sb pid i f) nowhere (λ g. refl)
  after_lookup-Finishes i next (found j off f) z h =
      or_dies-Finishes (iunlockput sb pid i f) (next j) (h j)

  after_lock-Finishes :
      (parent : Bool) (elem rest : List ℕ) (i : ℕ) (next : ℕ → Files → Walk) (f : Files)
      (l : Locking)
      → ((j : ℕ) (g : Files) → Finishes (next j g))
      → Finishes (after_lock sb pid parent elem rest i next f l)
  unfolding after_lock
  after_lock-Finishes parent elem rest i next f waits h = refl
  after_lock-Finishes parent elem rest i next f panic h = refl
  after_lock-Finishes parent elem rest i next f (locks ip) h =
      let f1 = with_file f i ip f.kern in
      elim (Bool-cases (not (ip.meta.type == t_dir))) [
        | inl e ↦
            subst Finishes (sym (if_true _ _ e))
              (or_dies-Finishes (iunlockput sb pid i f1) nowhere (λ g. refl))
        | inr e ↦ subst Finishes (sym (if_false _ _ e)) (elim (Bool-cases (parent && at_nul rest)) [
          | inl d ↦
              subst Finishes (sym (if_true _ _ d))
                (or_dies-Finishes (unlock pid i f1) (reached i elem) (λ g. refl))
          | inr d ↦ subst Finishes (sym (if_false _ _ d)) (
              after_lookup-Finishes i next (dirlookup sb i elem f1) (dirlookup-IsOver sb i elem f1)
                h)
        ])
      ]

  after_name-Finishes :
      (parent : Bool) (path last : List ℕ) (i : ℕ) (next : List ℕ → List ℕ → ℕ → Files → Walk)
      (f : Files) (o : Option (List ℕ × List ℕ))
      → Split path o
      → ((rest elem : List ℕ) (j : ℕ) (g : Files)
          → length rest < length path
          → Finishes (next rest elem j g))
      → Finishes (after_name sb pid parent last i next f o)
  unfolding after_name
  after_name-Finishes true path last i next f _ (over s p q a z) h =
      or_dies-Finishes (put_back sb i f) nowhere (λ g. refl)
  after_name-Finishes false path last i next f _ (over s p q a z) h = refl
  after_name-Finishes parent path last i next f _ (name s e t rest q a b c d l nm z) h =
      after_lock-Finishes parent nm rest i (next rest nm) f (ilock sb pid (file f i) f.kern)
        (λ j g. h rest nm j g l)

  namex_loop-Finishes :
      (parent : Bool) (r : ℕ) (path last : List ℕ) (i : ℕ) (f : Files)
      → length path < r
      → Finishes (namex_loop sb pid parent r path last i f)
  unfolding namex_loop
  namex_loop-Finishes parent zero path last i f h = absurd (omega arith)
  namex_loop-Finishes parent (suc r) path last i f h =
      after_name-Finishes parent path last i (namex_loop sb pid parent r) f (skipelem path)
        (skipelem-Split path)
        (λ rest elem j g l. namex_loop-Finishes parent r rest elem j g (omega (arith, l, h)))

  from_root-Finishes :
      (parent : Bool) (path : List ℕ) (f : Files) (o : Option (ℕ × List Inode))
      → Finishes (from_root sb pid parent path f o)
  unfolding from_root
  from_root-Finishes parent path f none = refl
  from_root-Finishes parent path f (some (i, ips)) =
      namex_loop-Finishes parent (length path + 1) path [] i (record f { inodes = ips })
        (omega arith)

  -- Whatever the inodes and blocks hold, `namex` of a path never needs more rounds of its loop than
  -- one for each byte of the path and one more: it ends at an inode or without one, in a wait for
  -- the lock of an inode, or in a panic.
  pub namex-Finishes :
      (cwd : ℕ) (parent : Bool) (path : List ℕ) (f : Files)
      → Finishes (namex sb pid cwd parent path f)
  unfolding namex
  namex-Finishes cwd parent path f = elim (Bool-cases (get_or path 0 0 == slash)) [
    | inl e ↦
        subst Finishes (sym (if_true _ _ e))
          (from_root-Finishes parent path f (iget root_dev root_ino f.inodes))
    | inr e ↦ subst Finishes (sym (if_false _ _ e)) (
        namex_loop-Finishes parent (length path + 1) path [] cwd
          (record f { inodes = idup cwd f.inodes }) (omega arith))
  ]
