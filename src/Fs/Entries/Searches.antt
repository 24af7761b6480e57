-- ===== src/Fs/Entries/Searches.antt =====
-- `dirlookup` never runs out of rounds.
use hyu_ele3021_operating_sy.Prelude.{
  ℕ, zero, suc, ◌+◌, ◌*◌, ◌/◌, ◌≤◌, ◌<◌, ◌≡◌, refl, sym, subst, Bool, true, false, not, ◌&&◌,
  Option, none, some, List, arith, ltb, ◌==◌, ltb→lt, ==_iff, length,
}
use mathlib.Core.Bool.{false≢true}
use hyu_ele3021_operating_sy.Io.Strings.{strncmp}
use hyu_ele3021_operating_sy.Fs.Path.{dirsiz}
use hyu_ele3021_operating_sy.Fs.Blocks.{Superblock}
use hyu_ele3021_operating_sy.Fs.Inode.{Inode, iget}
use hyu_ele3021_operating_sy.Fs.Content.{Contents, got, refused, panic, unfinished, readi}
use hyu_ele3021_operating_sy.Fs.Content.Ends.{IsDone, readi-IsDone}
use hyu_ele3021_operating_sy.Fs.Names.{
  t_dir, dirent_inum, dirent_name, is_zero, Files, file, with_file, Lookup, found, halts, runs_out,
  enter, dirlookup_loop, dirlookup,
}
use hyu_ele3021_operating_sy.Fs.Entries.Fields.{readi-Same}
use hyu_ele3021_operating_sy.Fs.Entries.Directories.{IsDir, IsDir-stored}
use hyu_ele3021_operating_sy.Fs.Entries.Lookups.{
  Rest, matched, whole, entry, round, loop_round, loop_end,
}

abbrev is_over : Lookup → Bool
is_over runs_out = false
is_over _ = true

-- The lookup has not run out of rounds.
abbrev pub IsOver : Lookup → Type 0
IsOver l = is_over l ≡ true

module _ (sb : Superblock) (d sz : ℕ) (name : List ℕ) where
  enter-IsOver : (inum off : ℕ) (f : Files) → IsOver (enter d inum off f)
  unfolding enter
  enter-IsOver inum off f = go (iget (file f d).dev inum f.inodes)
    where
      go :
          (o : Option (ℕ × List Inode))
          → IsOver
              (elim o [ none ↦ halts | some (i, ips) ↦ found i off (record f { inodes = ips }) ])
      go none = refl
      go (some (i, ips)) = refl

  round-IsOver :
      (next : Rest sb d sz name) (off : ℕ) (f : Files)
      → IsDir d sz f
      → (off < sz → (g : Files) → IsDir d sz g → IsOver (next (off + 16) g))
      → (c : Bool) → ltb off (file f d).meta.size ≡ c
      → IsOver (round sb d sz name next off f c)
  round-IsOver next off f i h false e = refl
  round-IsOver next off f i h true e =
      read (readi sb off 16 (file f d).meta f.kern) refl
        (readi-IsDone sb off 16 (file f d).meta f.kern)
    where
      low : off < sz
      low = subst (λ n. off < n) i.has_size (ltb→lt off (file f d).meta.size e)

      by_name :
          (cs : List ℕ) (g : Files) (c : Bool)
          → IsDir d sz g
          → IsOver (matched sb d sz name next off cs g c)
      by_name cs g true j = enter-IsOver (dirent_inum cs) off g
      by_name cs g false j = h low g j

      by_length :
          (cs : List ℕ) (g : Files) (c : Bool)
          → IsDir d sz g
          → IsOver (whole sb d sz name next off cs g c)
      by_length cs g false j = refl
      by_length cs g true j =
          by_name cs g (not (dirent_inum cs == 0) && is_zero (strncmp name (dirent_name cs) dirsiz))
            j

      read :
          (c : Contents)
          → readi sb off 16 (file f d).meta f.kern ≡ c
          → IsDone c
          → IsOver (entry sb d sz name next off f c)
      read refused e z = refl
      read panic e z = refl
      read unfinished e z = absurd (false≢true z)
      read (got cs m k) e z =
          by_length cs (with_file f d (record (file f d) { meta = m }) k) (length cs == 16)
            (IsDir-stored d sz f m k i (readi-Same sb off 16 (file f d).meta f.kern cs m k e))

  -- With a round for each entry left, the loop does not run out of rounds.
  dirlookup_loop-IsOver :
      (r off : ℕ) (f : Files)
      → IsDir d sz f
      → sz ≤ off + 16 * r
      → IsOver (dirlookup_loop sb d name r off f)
  dirlookup_loop-IsOver zero off f i h =
      subst IsOver (sym (loop_end sb d sz name zero off f i (omega (arith, h)))) refl
  dirlookup_loop-IsOver (suc r) off f i h = subst IsOver (sym (loop_round sb d sz name r off f)) (
      round-IsOver (dirlookup_loop sb d name r) off f i
        (λ l g j. dirlookup_loop-IsOver r (off + 16) g j (omega (arith, h)))
        (ltb off (file f d).meta.size) refl)

module _ (sb : Superblock) (d : ℕ) (name : List ℕ) where
  -- `dirlookup` never runs out of rounds.
  pub dirlookup-IsOver : (f : Files) → IsOver (dirlookup sb d name f)
  unfolding dirlookup
  dirlookup-IsOver f = typed ((file f d).meta.type == t_dir) refl
    where
      typed :
          (c : Bool)
          → ((file f d).meta.type == t_dir) ≡ c
          → IsOver (elim c [
            | false ↦ halts
            | true ↦ dirlookup_loop sb d name ((file f d).meta.size / 16 + 1) 0 f
          ])
      typed false e = refl
      typed true e =
          dirlookup_loop-IsOver sb d (file f d).meta.size name ((file f d).meta.size / 16 + 1) 0 f
            (record { is_dir = (==_iff (file f d).meta.type t_dir).0 e; has_size = refl })
            (omega arith)
