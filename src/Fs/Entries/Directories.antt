-- ===== src/Fs/Entries/Directories.antt =====
-- A directory that is read or searched stays one.
use hyu_ele3021_operating_sy.Prelude.{
  ℕ, zero, suc, ◌+◌, ◌/◌, ◌<◌, ◌≡◌, refl, ap, ◌∙◌, Bool, true, false, not, ◌&&◌, Option, none, some,
  List, [], ◌∷◌, arith, ltb, if◌then◌else◌, ◌==◌, ==_iff, length, get_or-set_self,
}
use hyu_ele3021_operating_sy.Io.Strings.{strncmp}
use hyu_ele3021_operating_sy.Fs.Path.{dirsiz}
use hyu_ele3021_operating_sy.Fs.Blocks.{Superblock, Kern}
use hyu_ele3021_operating_sy.Fs.Inode.{Meta, Inode, blank_inode, inode, iget}
use hyu_ele3021_operating_sy.Fs.Content.{Contents, got, refused, panic, unfinished, readi}
use hyu_ele3021_operating_sy.Fs.Names.{
  t_dir, dirent_inum, dirent_name, is_zero, Files, file, with_file, Lookup, found, missing, halts,
  runs_out, enter, dirlookup_loop, dirlookup,
}
use hyu_ele3021_operating_sy.Fs.Entries.Fields.{Same, readi-Same}

-- The inode in slot `d` is a directory of `sz` bytes.
pub record IsDir (d sz : ℕ) (f : Files) : Type 0 where
  pub is_dir : (file f d).meta.type ≡ t_dir
  pub has_size : (file f d).meta.size ≡ sz

in_cache : (ips : List Inode) (d : ℕ) → (inode ips d).meta.type ≡ t_dir → d < length ips
in_cache [] d h = absurd (omega (arith, h))
in_cache (ip ∷ ips) zero h = omega arith
in_cache (ip ∷ ips) (suc d) h = omega (arith, in_cache ips d h)

-- A directory that is stored with the same type and size.
pub IsDir-stored :
    (d sz : ℕ) (f : Files) (m : Meta) (k : Kern)
    → IsDir d sz f
    → Same (file f d).meta m
    → IsDir d sz (with_file f d (record (file f d) { meta = m }) k)
IsDir-stored d sz f m k i s =
    let e =
      get_or-set_self f.inodes d (record (file f d) { meta = m }) blank_inode
        (in_cache f.inodes d i.is_dir) in
    record {
      is_dir = ap (λ ip. ip.meta.type) e ∙ s.type ∙ i.is_dir;
      has_size = ap (λ ip. ip.meta.size) e ∙ s.size ∙ i.has_size;
    }

-- Where `dirlookup` finds nothing, the directory still is one.
module _ (sb : Superblock) (d : ℕ) (name : List ℕ) where
  abbrev pub LookupKeeps : Lookup → Type 0
  LookupKeeps (found i off f) = Unit
  LookupKeeps (missing f) = (file f d).meta.type ≡ t_dir
  LookupKeeps halts = Unit
  LookupKeeps runs_out = Unit

  enter-Keeps : (inum off : ℕ) (f : Files) → LookupKeeps (enter d inum off f)
  unfolding enter
  enter-Keeps inum off f = go (iget (file f d).dev inum f.inodes)
    where
      go :
          (o : Option (ℕ × List Inode))
          → LookupKeeps
              (elim o [ none ↦ halts | some (i, ips) ↦ found i off (record f { inodes = ips }) ])
      go none = tt
      go (some (i, ips)) = tt

  dirlookup_loop-Keeps :
      (r off : ℕ) (f : Files)
      → (file f d).meta.type ≡ t_dir
      → LookupKeeps (dirlookup_loop sb d name r off f)
  unfolding dirlookup_loop
  dirlookup_loop-Keeps zero off f h = test (ltb off (file f d).meta.size)
    where
      test : (c : Bool) → LookupKeeps (if c then runs_out else missing f)
      test true = tt
      test false = h
  dirlookup_loop-Keeps (suc r) off f h =
      within (ltb off (file f d).meta.size) (dirlookup_loop-Keeps r)
    where
      Rest : Type 0
      Rest =
          (off : ℕ) (f : Files)
          → (file f d).meta.type ≡ t_dir
          → LookupKeeps (dirlookup_loop sb d name r off f)

      matched :
          (cs : List ℕ) (f' : Files) (c : Bool)
          → Rest
          → (file f' d).meta.type ≡ t_dir
          → LookupKeeps (elim c [
            | true ↦ enter d (dirent_inum cs) off f'
            | false ↦ dirlookup_loop sb d name r (off + 16) f'
          ])
      matched cs f' true rest g = enter-Keeps (dirent_inum cs) off f'
      matched cs f' false rest g = rest (off + 16) f' g

      whole :
          (cs : List ℕ) (f' : Files) (c : Bool)
          → Rest
          → (file f' d).meta.type ≡ t_dir
          → LookupKeeps (elim c [
            | false ↦ halts
            | true ↦
                elim (not (dirent_inum cs == 0) && is_zero (strncmp name (dirent_name cs) dirsiz)) [
                  | true ↦ enter d (dirent_inum cs) off f'
                  | false ↦ dirlookup_loop sb d name r (off + 16) f'
                ]
          ])
      whole cs f' false rest g = tt
      whole cs f' true rest g =
          matched cs f'
            (not (dirent_inum cs == 0) && is_zero (strncmp name (dirent_name cs) dirsiz)) rest g

      entry :
          (c : Contents)
          → readi sb off 16 (file f d).meta f.kern ≡ c
          → Rest
          → LookupKeeps (elim c [
            | refused ↦ halts
            | panic ↦ halts
            | unfinished ↦ runs_out
            | got cs m k ↦ elim (length cs == 16) [
              | false ↦ halts
              | true ↦
                  elim (not (dirent_inum cs == 0)
                    && is_zero (strncmp name (dirent_name cs) dirsiz)) [
                      | true ↦
                          enter d
                            (dirent_inum cs)
                            off
                            (with_file f d (record (file f d) { meta = m }) k)
                      | false ↦
                          dirlookup_loop sb d name r
                            (off + 16)
                            (with_file f d (record (file f d) { meta = m }) k)
                    ]
            ]
          ])
      entry refused e rest = tt
      entry panic e rest = tt
      entry unfinished e rest = tt
      entry (got cs m k) e rest =
          whole cs (with_file f d (record (file f d) { meta = m }) k) (length cs == 16) rest
            (IsDir-stored d (file f d).meta.size f m k (record { is_dir = h; has_size = refl })
              (readi-Same sb off 16 (file f d).meta f.kern cs m k e)).is_dir

      within :
          (c : Bool)
          → Rest
          → LookupKeeps (elim c [
            | false ↦ missing f
            | true ↦ elim (readi sb off 16 (file f d).meta f.kern) [
              | refused ↦ halts
              | panic ↦ halts
              | unfinished ↦ runs_out
              | got cs m k ↦ elim (length cs == 16) [
                | false ↦ halts
                | true ↦
                    elim (not (dirent_inum cs == 0)
                      && is_zero (strncmp name (dirent_name cs) dirsiz)) [
                        | true ↦
                            enter d
                              (dirent_inum cs)
                              off
                              (with_file f d (record (file f d) { meta = m }) k)
                        | false ↦
                            dirlookup_loop sb d name r
                              (off + 16)
                              (with_file f d (record (file f d) { meta = m }) k)
                      ]
              ]
            ]
          ])
      within false rest = h
      within true rest = entry (readi sb off 16 (file f d).meta f.kern) refl rest

  pub dirlookup-Keeps : (f : Files) → LookupKeeps (dirlookup sb d name f)
  unfolding dirlookup
  dirlookup-Keeps f = typed ((file f d).meta.type == t_dir) refl
    where
      typed :
          (c : Bool)
          → ((file f d).meta.type == t_dir) ≡ c
          → LookupKeeps (elim c [
            | false ↦ halts
            | true ↦ dirlookup_loop sb d name ((file f d).meta.size / 16 + 1) 0 f
          ])
      typed false e = tt
      typed true e =
          dirlookup_loop-Keeps ((file f d).meta.size / 16 + 1) 0 f
            ((==_iff (file f d).meta.type t_dir).0 e)
