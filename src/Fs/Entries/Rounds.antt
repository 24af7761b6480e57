-- ===== src/Fs/Entries/Rounds.antt =====
-- The loops of `dirlink` and `isdirempty` have rounds enough.
use hyu_ele3021_operating_sy.Prelude.{
  if_true, if_false, ℕ, zero, suc, ◌+◌, ◌*◌, ◌/◌, ◌≤◌, ◌<◌, ◌≡◌, refl, sym, subst, Bool, true,
  false, not, Option, none, some, List, arith, ltb, ◌==◌, if◌then◌else◌, ltb→lt, ==_self, length,
}
use hyu_ele3021_operating_sy.Fs.Content.{Contents, got, refused, panic, unfinished, readi}
use hyu_ele3021_operating_sy.Fs.Content.Ends.{IsDone, readi-IsDone}
use mathlib.Core.Bool.{false≢true}
use hyu_ele3021_operating_sy.Fs.Entries.Searches.{IsOver, dirlookup-IsOver}
use hyu_ele3021_operating_sy.Fs.Names.{
  t_dir, dirent_inum, Files, file, with_file, Lookup, found, missing, halts, runs_out, dirlookup,
}
use hyu_ele3021_operating_sy.Fs.Run.{ok, Cmd, pure, stop, and_then, ◌>>=◌, ◌>>◌}
use hyu_ele3021_operating_sy.Fs.Run.Outcomes.{
  Outcome, returns, stops, Completes, IsTotal, outcome_then, then-IsTotal, outcome_weaker,
  pure-IsTotal,
}
use hyu_ele3021_operating_sy.Fs.Inode.{panic}
use hyu_ele3021_operating_sy.Fs.Write.{refused, panic}
use hyu_ele3021_operating_sy.Fs.Handles.{Task, put_inode, lookup_end, search_dir}
use hyu_ele3021_operating_sy.Fs.Links.{
  t_symlink, t_dev, target, resolve, go_back, Reply, reply, fails, to_driver, read_end, read_target,
  read_inode,
}
use hyu_ele3021_operating_sy.Fs.Entries.{
  whole_entry, read_entry, write_entry, free_entry, dirent, enter_name, dirlink, empty_loop,
  isdirempty,
}
use hyu_ele3021_operating_sy.Fs.Entries.Directories.{
  IsDir, IsDir-stored, LookupKeeps, dirlookup-Keeps,
}
use hyu_ele3021_operating_sy.Fs.Entries.Fields.{readi-Same}
use hyu_ele3021_operating_sy.Fs.Entries.Totals.{put_inode-IsTotal, write_entry-IsTotal}

module _ (t : Task) where
  -- Reading an entry of a directory leaves a directory of the same size.
  module _ (d sz : ℕ) where
    abbrev StaysDir : {A : Type 0} → A → Files → Type 0
    StaysDir _ f = IsDir d sz f

    no_link : (n : ℕ) → n ≡ t_dir → not (n == t_symlink) ≡ true
    no_link n h = ground (arith, h)

    no_device : (n : ℕ) → n ≡ t_dir → (n == t_dev) ≡ false
    no_device n h = ground (arith, h)

    resolve_dir : (r : ℕ) (f : Files) → IsDir d sz f → resolve t d (suc r) d f ≡ ok (target d) f
    unfolding resolve
    resolve_dir r f i = if_true _ _ (no_link (file f d).meta.type i.is_dir)

    go_back_same : go_back t d d ≡ pure tt
    unfolding go_back
    go_back_same = if_true _ _ (==_self d)

    back_same :
        {A : Type 0} (a : A) (f : Files)
        → IsDir d sz f
        → Outcome StaysDir ((go_back t d d >> pure a) f)
    back_same {A} a f i =
        subst
          (λ (m : Cmd Files (Unit {0})).
            Outcome StaysDir (and_then (m f) (λ _. pure {S = Files} {A = A} a)))
          (sym go_back_same) (returns i)

    read_end_dir :
        (off n : ℕ) (f : Files) (c : Contents)
        → readi t.sb off n (file f d).meta f.kern ≡ c
        → IsDir d sz f
        → Outcome StaysDir (read_end t d d f c)
    unfolding read_end
    read_end_dir off n f refused e i = back_same fails f i
    read_end_dir off n f panic e i = stops
    read_end_dir off n f unfinished e i =
        absurd (false≢true (subst IsDone e (readi-IsDone t.sb off n (file f d).meta f.kern)))
    read_end_dir off n f (got cs m k) e i =
        back_same (reply cs) (with_file f d (record (file f d) { meta = m }) k)
          (IsDir-stored d sz f m k i (readi-Same t.sb off n (file f d).meta f.kern cs m k e))

    read_inode_dir :
        (off n : ℕ) (f : Files) → IsDir d sz f → Outcome StaysDir (read_inode t d off n f)
    unfolding read_inode read_target
    read_inode_dir off n f i =
        subst (λ r. Outcome StaysDir (and_then r (read_target t d off n))) (sym (resolve_dir 9 f i))
          (subst (Outcome StaysDir) (sym (if_false _ _ (no_device (file f d).meta.type i.is_dir)))
            (read_end_dir off n f (readi t.sb off n (file f d).meta f.kern) refl i))

    whole_entry_dir :
        (r : Reply (List ℕ)) (f : Files) → IsDir d sz f → Outcome StaysDir (whole_entry r f)
    unfolding whole_entry
    whole_entry_dir (reply cs) f i = test (length cs == 16)
      where
        test : (c : Bool) → Outcome StaysDir ((if c then pure cs else stop) f)
        test true = returns i
        test false = stops
    whole_entry_dir fails f i = stops
    whole_entry_dir (to_driver j) f i = stops

    read_entry_dir : (off : ℕ) (f : Files) → IsDir d sz f → Outcome StaysDir (read_entry t d off f)
    unfolding read_entry
    read_entry_dir off f i = outcome_then whole_entry (read_inode_dir off 16 f i) whole_entry_dir

    -- Rounds enough from offset `off` on.
    abbrev Enough : ℕ → ℕ → Type 0
    Enough r off = (1 ≤ r) × (off < sz → sz + 16 ≤ off + 16 * r)

    less : (r off : ℕ) → Enough (suc r) off → off < sz → Enough r (off + 16)
    less r off (_, h) l = let k = h l in (omega (arith, k, l), λ m. omega (arith, k, m))

    entry_loop :
        {A : Type 0} (off : ℕ) (f : Files) (found_it : List ℕ → Bool) (end : A) (stop_at : A)
        (next : Cmd Files A)
        → IsDir d sz f
        → (off < sz → Completes (IsDir d sz) next StaysDir)
        → (c : Bool) → ltb off (file f d).meta.size ≡ c
        → Outcome StaysDir (
            if c
            then (read_entry t d off >>= λ cs. if found_it cs then pure stop_at else next) f
            else ok end f)
    entry_loop off f found_it end stop_at next i h false e = returns i
    entry_loop off f found_it end stop_at next i h true e =
        let low : off < sz = subst (λ n. off < n) i.has_size (ltb→lt off (file f d).meta.size e) in
        outcome_then (λ cs. if found_it cs then pure stop_at else next) (read_entry_dir off f i)
          (λ cs g j. test (found_it cs) g j (h low))
      where
        test :
            (c : Bool) (g : Files)
            → IsDir d sz g
            → Completes (IsDir d sz) next StaysDir
            → Outcome StaysDir ((if c then pure stop_at else next) g)
        test true g j n = returns j
        test false g j n = n g j

    free_entry-IsDir :
        (r off : ℕ) → Enough r off → Completes (IsDir d sz) (free_entry t d r off) StaysDir
    unfolding free_entry
    free_entry-IsDir zero off (h, _) f i = absurd (omega (arith, h))
    free_entry-IsDir (suc r) off h f i =
        entry_loop off f (λ cs. dirent_inum cs == 0) off off (free_entry t d r (off + 16)) i
          (λ l. free_entry-IsDir r (off + 16) (less r off h l)) (ltb off (file f d).meta.size) refl

    empty_loop-IsDir :
        (r off : ℕ) → Enough r off → Completes (IsDir d sz) (empty_loop t d r off) StaysDir
    unfolding empty_loop
    empty_loop-IsDir zero off (h, _) f i = absurd (omega (arith, h))
    empty_loop-IsDir (suc r) off h f i =
        entry_loop off f (λ cs. not (dirent_inum cs == 0)) true false (empty_loop t d r (off + 16))
          i (λ l. empty_loop-IsDir r (off + 16) (less r off h l)) (ltb off (file f d).meta.size)
          refl

  pub isdirempty_total :
      (d : ℕ) (f : Files)
      → (file f d).meta.type ≡ t_dir
      → Outcome (λ (a : Bool) (t : Files). Unit {0}) (isdirempty t d f)
  unfolding isdirempty
  isdirempty_total d f h =
      let sz = (file f d).meta.size in
      outcome_weaker
        (empty_loop-IsDir d sz (sz / 16 + 1) 32 (omega arith, λ l. omega (arith, l)) f
          (record { is_dir = h; has_size = refl }))
        (λ a g _. tt)

  enter_name_total :
      (d : ℕ) (name : List ℕ) (inum : ℕ) (o : Option (ℕ × ℕ)) (f : Files)
      → (o ≡ none → (file f d).meta.type ≡ t_dir)
      → Outcome (λ (a : Bool) (t : Files). Unit {0}) (enter_name t d name inum o f)
  unfolding enter_name
  enter_name_total d name inum (some (i, _)) f h =
      then-IsTotal (put_inode t i) (λ _. pure false) (put_inode-IsTotal t i)
        (λ _. pure-IsTotal false) f
  enter_name_total d name inum none f h =
      let sz = (file f d).meta.size in
      outcome_then (λ off. write_entry t d off (dirent inum name) >> pure true)
        (free_entry-IsDir d sz (sz / 16 + 2) 0 (omega arith, λ l. omega (arith, l)) f
          (record { is_dir = h refl; has_size = refl }))
        (λ off g _.
          then-IsTotal (write_entry t d off (dirent inum name)) (λ _. pure true)
            (write_entry-IsTotal t d off (dirent inum name)) (λ _. pure-IsTotal true) g)

  search_dir_total :
      (d : ℕ) (name : List ℕ) (f : Files)
      → Outcome
          (λ (o : Option (ℕ × ℕ)) (g : Files). o ≡ none → (file g d).meta.type ≡ t_dir)
          (search_dir t d name f)
  unfolding search_dir lookup_end
  search_dir_total d name f =
      go (dirlookup t.sb d name f) (dirlookup-Keeps t.sb d name f) (dirlookup-IsOver t.sb d name f)
    where
      go :
          (l : Lookup)
          → LookupKeeps t.sb d name l
          → IsOver l
          → Outcome
              (λ (o : Option (ℕ × ℕ)) (g : Files). o ≡ none → (file g d).meta.type ≡ t_dir)
              (lookup_end l)
      go (found i off g) h z = returns (λ e. absurd cc)
      go (missing g) h z = returns (λ e. h)
      go halts h z = stops
      go runs_out h z = absurd (false≢true z)

  pub search-IsTotal : (d : ℕ) (name : List ℕ) → IsTotal (search_dir t d name)
  search-IsTotal d name f = outcome_weaker (search_dir_total d name f) (λ o g _. tt)

  pub dirlink-IsTotal : (d : ℕ) (name : List ℕ) (inum : ℕ) → IsTotal (dirlink t d name inum)
  unfolding dirlink
  dirlink-IsTotal d name inum f =
      outcome_then (enter_name t d name inum) (search_dir_total d name f)
        (λ o g h. enter_name_total d name inum o g h)
