-- ===== src/Fs/Entries/Lookups.antt =====
-- `dirlookup` has rounds enough: more of them change nothing.
use hyu_ele3021_operating_sy.Prelude.{
  if_false, ℕ, zero, suc, ◌+◌, ◌*◌, ◌≤◌, ◌<◌, ◌≡◌, refl, sym, ap, subst, ◌∙◌, Bool, true, false,
  not, ◌&&◌, List, arith, ltb, ◌==◌, ltb→lt, length,
}
use hyu_ele3021_operating_sy.Io.Strings.{strncmp}
use hyu_ele3021_operating_sy.Fs.Path.{dirsiz}
use hyu_ele3021_operating_sy.Fs.Blocks.{Superblock}
use hyu_ele3021_operating_sy.Fs.Content.{Contents, got, refused, panic, unfinished, readi}
use hyu_ele3021_operating_sy.Fs.Names.{
  dirent_inum, dirent_name, is_zero, Files, file, with_file, Lookup, missing, halts, runs_out,
  enter, dirlookup_loop,
}
use hyu_ele3021_operating_sy.Fs.Entries.Fields.{readi-Same}
use hyu_ele3021_operating_sy.Fs.Entries.Directories.{IsDir, IsDir-stored}

module _ (sb : Superblock) (d sz : ℕ) (name : List ℕ) where
  -- A round, with the rest of the loop.
  abbrev pub Rest : Type 0
  Rest = ℕ → Files → Lookup

  abbrev pub matched : Rest → ℕ → List ℕ → Files → Bool → Lookup
  matched next off cs f true = enter d (dirent_inum cs) off f
  matched next off cs f false = next (off + 16) f

  abbrev pub whole : Rest → ℕ → List ℕ → Files → Bool → Lookup
  whole next off cs f false = halts
  whole next off cs f true =
      matched next off cs f
        (not (dirent_inum cs == 0) && is_zero (strncmp name (dirent_name cs) dirsiz))

  abbrev pub entry : Rest → ℕ → Files → Contents → Lookup
  entry next off f refused = halts
  entry next off f panic = halts
  entry next off f unfinished = runs_out
  entry next off f (got cs m k) =
      whole next off cs (with_file f d (record (file f d) { meta = m }) k) (length cs == 16)

  abbrev pub round : Rest → ℕ → Files → Bool → Lookup
  round next off f false = missing f
  round next off f true = entry next off f (readi sb off 16 (file f d).meta f.kern)

  pub loop_round :
      (r off : ℕ) (f : Files)
      → dirlookup_loop sb d name (suc r) off f
        ≡ round (dirlookup_loop sb d name r) off f (ltb off (file f d).meta.size)
  unfolding dirlookup_loop
  loop_round r off f = at (ltb off (file f d).meta.size)
    where
      by_name :
          (cs : List ℕ) (g : Files) (c : Bool)
          → elim c as (λ x. Lookup) [
            | true ↦ enter d (dirent_inum cs) off g
            | false ↦ dirlookup_loop sb d name r (off + 16) g
          ]
            ≡ matched (dirlookup_loop sb d name r) off cs g c
      by_name cs g true = refl
      by_name cs g false = refl

      by_length :
          (cs : List ℕ) (g : Files) (c : Bool)
          → elim c as (λ x. Lookup) [
            | false ↦ halts
            | true ↦
                elim (not (dirent_inum cs == 0) && is_zero (strncmp name (dirent_name cs) dirsiz))
                  as (λ x. Lookup) [
                    | true ↦ enter d (dirent_inum cs) off g
                    | false ↦ dirlookup_loop sb d name r (off + 16) g
                  ]
          ]
            ≡ whole (dirlookup_loop sb d name r) off cs g c
      by_length cs g false = refl
      by_length cs g true =
          by_name cs g (not (dirent_inum cs == 0) && is_zero (strncmp name (dirent_name cs) dirsiz))

      by_read :
          (c : Contents)
          → elim c as (λ x. Lookup) [
            | refused ↦ halts
            | panic ↦ halts
            | unfinished ↦ runs_out
            | got cs m k ↦ elim (length cs == 16) as (λ x. Lookup) [
              | false ↦ halts
              | true ↦
                  elim (not (dirent_inum cs == 0) && is_zero (strncmp name (dirent_name cs) dirsiz))
                    as (λ x. Lookup) [
                      | true ↦
                          enter d
                            (dirent_inum cs)
                            off
                            (with_file f d (record (file f d) { meta = m }) k)
                      | false ↦
                          dirlookup_loop sb d name r
                            (off + 16)
                            (with_file f d (record (file f d) { meta = m }) k)
                    ]
            ]
          ]
            ≡ entry (dirlookup_loop sb d name r) off f c
      by_read refused = refl
      by_read panic = refl
      by_read unfinished = refl
      by_read (got cs m k) =
          by_length cs (with_file f d (record (file f d) { meta = m }) k) (length cs == 16)

      at :
          (c : Bool)
          → elim c as (λ x. Lookup) [
            | false ↦ missing f
            | true ↦ elim (readi sb off 16 (file f d).meta f.kern) as (λ x. Lookup) [
              | refused ↦ halts
              | panic ↦ halts
              | unfinished ↦ runs_out
              | got cs m k ↦ elim (length cs == 16) as (λ x. Lookup) [
                | false ↦ halts
                | true ↦
                    elim (not (dirent_inum cs == 0)
                        && is_zero (strncmp name (dirent_name cs) dirsiz))
                      as (λ x. Lookup) [
                        | true ↦
                            enter d
                              (dirent_inum cs)
                              off
                              (with_file f d (record (file f d) { meta = m }) k)
                        | false ↦
                            dirlookup_loop sb d name r
                              (off + 16)
                              (with_file f d (record (file f d) { meta = m }) k)
                      ]
              ]
            ]
          ]
            ≡ round (dirlookup_loop sb d name r) off f c
      at false = refl
      at true = by_read (readi sb off 16 (file f d).meta f.kern)

  -- Rounds that agree behind the entry at `off`.
  round_same :
      (next next' : Rest) (off : ℕ) (f : Files)
      → IsDir d sz f
      → (off < sz → (g : Files) → IsDir d sz g → next (off + 16) g ≡ next' (off + 16) g)
      → (c : Bool) → ltb off (file f d).meta.size ≡ c
      → round next off f c ≡ round next' off f c
  round_same next next' off f i h false e = refl
  round_same next next' off f i h true e = read (readi sb off 16 (file f d).meta f.kern) refl
    where
      low : off < sz
      low = subst (λ n. off < n) i.has_size (ltb→lt off (file f d).meta.size e)

      by_name :
          (cs : List ℕ) (g : Files) (c : Bool)
          → IsDir d sz g
          → matched next off cs g c ≡ matched next' off cs g c
      by_name cs g true j = refl
      by_name cs g false j = h low g j

      by_length :
          (cs : List ℕ) (g : Files) (c : Bool)
          → IsDir d sz g
          → whole next off cs g c ≡ whole next' off cs g c
      by_length cs g false j = refl
      by_length cs g true j =
          by_name cs g (not (dirent_inum cs == 0) && is_zero (strncmp name (dirent_name cs) dirsiz))
            j

      read :
          (c : Contents)
          → readi sb off 16 (file f d).meta f.kern ≡ c
          → entry next off f c ≡ entry next' off f c
      read refused e = refl
      read panic e = refl
      read unfinished e = refl
      read (got cs m k) e =
          by_length cs (with_file f d (record (file f d) { meta = m }) k) (length cs == 16)
            (IsDir-stored d sz f m k i (readi-Same sb off 16 (file f d).meta f.kern cs m k e))

  -- Without entries left there is nothing to find.
  pub loop_end :
      (r off : ℕ) (f : Files)
      → IsDir d sz f
      → sz ≤ off
      → dirlookup_loop sb d name r off f ≡ missing f
  unfolding dirlookup_loop
  loop_end zero off f i h = if_false _ _ (past (file f d).meta.size i.has_size)
    where
      past : (n : ℕ) → n ≡ sz → ltb off n ≡ false
      past n e = ground (arith, e, h)
  loop_end (suc r) off f i h =
      loop_round r off f
      ∙ ap (round (dirlookup_loop sb d name r) off f) (past (file f d).meta.size i.has_size)
    where
      past : (n : ℕ) → n ≡ sz → ltb off n ≡ false
      past n e = ground (arith, e, h)

  -- With a round for each entry left, more rounds change nothing.
  pub dirlookup_loop_rounds :
      (r r' off : ℕ) (f : Files)
      → IsDir d sz f
      → sz ≤ off + 16 * r
      → sz ≤ off + 16 * r'
      → dirlookup_loop sb d name r off f ≡ dirlookup_loop sb d name r' off f
  dirlookup_loop_rounds zero r' off f i h h' =
      loop_end zero off f i (omega (arith, h)) ∙ sym (loop_end r' off f i (omega (arith, h)))
  dirlookup_loop_rounds (suc r) zero off f i h h' =
      loop_end (suc r) off f i (omega (arith, h')) ∙ sym (loop_end zero off f i (omega (arith, h')))
  dirlookup_loop_rounds (suc r) (suc r') off f i h h' =
      loop_round r off f
      ∙ round_same (dirlookup_loop sb d name r) (dirlookup_loop sb d name r') off f i
          (λ l g j.
            dirlookup_loop_rounds r r' (off + 16) g j (omega (arith, h)) (omega (arith, h')))
          (ltb off (file f d).meta.size) refl
      ∙ sym (loop_round r' off f)
