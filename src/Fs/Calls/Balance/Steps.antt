-- ===== src/Fs/Calls/Balance/Steps.antt =====
-- What `filealloc`, `filedup`, `fileclose`, `fdalloc` and a command on the inodes do to the balance.
use hyu_ele3021_operating_sy.Prelude.{
  if_true, if_false, ℕ, ◌+◌, ◌-◌, ◌<◌, ◌≡◌, refl, sym, ap, ◌∙◌, ◌⊎◌, inl, inr, Bool, false, Option,
  none, some, arith, ltb, ◌==◌, if◌then◌else◌, ==_iff, Bool-cases, length, get_or, set, length-set,
  get_or-set_self, get_or-set_cases,
}
use hyu_ele3021_operating_sy.Fs.Names.{Files}
use hyu_ele3021_operating_sy.Fs.Run.{Run, ok, sleeps, panics, overruns, unfinished, Cmd, ◌>>◌}
use hyu_ele3021_operating_sy.Fs.Run.Ends.{
  Ends, returned, no_sleep, no_panic, no_overrun, no_rounds, pure-Ends,
}
use hyu_ele3021_operating_sy.Fs.Handles.{Task, put_inode, begin, finish}
use hyu_ele3021_operating_sy.Io.Pipe.{Pipe, pipeclose}
use hyu_ele3021_operating_sy.Fs.Calls.{
  Kind, fd_none, fd_pipe, fd_inode, OpenFile, blank_file, System, task, with_files, on_files, kfree,
}
use hyu_ele3021_operating_sy.Fs.Calls.Table.{
  open_file, set_file, find_file, take_file, filealloc, filedup, close_pipe, close_last, fileclose,
}
use hyu_ele3021_operating_sy.Fs.Calls.Descriptors.{
  nofile, slot_at, find_fd, set_fd, take_fd, fdalloc,
}
use hyu_ele3021_operating_sy.Fs.Calls.Balance.{
  plus, uses, ref_of, Balanced, FileTaken, FdTaken, uses-set-some, uses-set-none, find_fd-unused,
  in_table, find_file-unused, ref_set_self, ref_set_ne,
}

-- A change of a file that keeps its count.
pub count_kept :
    (i : ℕ) (o : OpenFile) (s : System)
    → o.ref ≡ ref_of s i
    → (j : ℕ) → ref_of (set_file i o s) j ≡ ref_of s j
count_kept i o s e j = each (get_or-set_cases s.ftable i j o blank_file)
  where
    each :
        ((i ≡ j) × (get_or (set s.ftable i o) j blank_file ≡ o))
          ⊎ (get_or (set s.ftable i o) j blank_file ≡ get_or s.ftable j blank_file)
        → ref_of (set_file i o s) j ≡ ref_of s j
    each (inl (n, f)) = ap (λ x. x.ref) f ∙ e ∙ ap (ref_of s) n
    each (inr f) = ap (λ x. x.ref) f

module _ (p q : ℕ → ℕ) where
  -- The balance looks at the counts and the descriptors alone.
  pub balanced_same :
      {s t : System}
      → ((i : ℕ) → ref_of t i ≡ ref_of s i)
      → t.ofile ≡ s.ofile
      → Balanced p q s
      → Balanced p q t
  balanced_same {s} {t} r o b = record {
    level = λ i. omega (arith, r i, b.level i, ap (uses i) o);
    slots = ap length o ∙ b.slots;
  }

  module _ (i : ℕ) (o : OpenFile) (s : System) (g : i < length s.ftable) where
    -- A reference more.
    raise : o.ref ≡ ref_of s i + 1 → Balanced p q s → Balanced (plus p i) q (set_file i o s)
    raise e b = record {
      level = λ j. elim (Bool-cases (j == i)) [
        | inl t ↦
            let r = ref_set_self s i j o g t in
            let l = ap (ref_of s) ((==_iff j i).0 t) in rw t (omega (arith, r, l, e, b.level j))
        | inr t ↦ rw t (omega (arith, ref_set_ne s i j o t, b.level j))
      ];
      slots = b.slots;
    }

    -- A reference less.
    lower : o.ref + 1 ≡ ref_of s i → Balanced (plus p i) q s → Balanced p q (set_file i o s)
    lower e b = record {
      level = λ j. elim (Bool-cases (j == i)) [
        | inl t ↦
            let r = ref_set_self s i j o g t in
            let l = ap (ref_of s) ((==_iff j i).0 t) in
            let here : ref_of s j + q j ≡ uses j s.ofile + (p j + 1) =
              b.level j ∙ ap (λ c. uses j s.ofile + (p j + (if c then 1 else 0))) t in
            omega (arith, r, l, e, here)
        | inr t ↦
            let here : ref_of s j + q j ≡ uses j s.ofile + (p j + 0) =
              b.level j ∙ ap (λ c. uses j s.ofile + (p j + (if c then 1 else 0))) t in
            omega (arith, ref_set_ne s i j o t, here)
      ];
      slots = b.slots;
    }

  positive : {n : ℕ} → ltb n 1 ≡ false → 0 < n
  positive e = ground (arith, e)

  pub filedup-Ends : (i : ℕ) → Ends (Balanced p q) (filedup i) (λ _. Balanced (plus p i) q)
  unfolding filedup
  filedup-Ends i s b a t h = elim (Bool-cases (ltb (ref_of s i) 1)) [
    | inl e ↦ no_panic (sym (if_true _ _ e) ∙ h)
    | inr e ↦
        let o = record (open_file s i) { ref = ref_of s i + 1 } in
        returned (λ _. Balanced (plus p i) q) tt a (set_file i o s) t
          (raise i o s (in_table s.ftable i (positive e)) refl b) (sym (if_false _ _ e) ∙ h)
  ]

  pub filealloc-Ends : Ends (Balanced p q) filealloc (FileTaken p q)
  unfolding filealloc take_file
  filealloc-Ends s b a t h = go (find_file 0 s.ftable) refl h
    where
      go : (o : Option ℕ) → find_file 0 s.ftable ≡ o → take_file s o ≡ ok a t → FileTaken p q a t
      go none e h = returned (FileTaken p q) none a s t b h
      go (some c) e h =
          let (i, u, v, w) = find_file-unused 0 s.ftable c e in
          let same : i ≡ c = omega (arith, u) in
          let free : ref_of s c ≡ 0 = ap (ref_of s) (sym same) ∙ w in
          let o = record (open_file s c) { ref = 1 } in
          returned (FileTaken p q) (some c) a (set_file c o s) t
            (raise c o s (omega (arith, v, same)) (omega (arith, free)) b) h

  pub fdalloc-Ends :
      (R : System → Type 0) (i : ℕ) → Ends (λ s. Balanced p q s × R s) (fdalloc i) (FdTaken p q R i)
  unfolding fdalloc take_fd
  fdalloc-Ends R i s (b, r) a t h = go (find_fd s.ofile nofile 0) refl h
    where
      go :
          (o : Option ℕ)
          → find_fd s.ofile nofile 0 ≡ o
          → take_fd i s o ≡ ok a t
          → FdTaken p q R i a t
      go none e h = returned (FdTaken p q R i) none a s t (b, r) h
      go (some fd) e h =
          let (u, v) = find_fd-unused s.ofile nofile 0 fd e in
          let low : fd < length s.ofile = omega (arith, v, b.slots) in
          returned (FdTaken p q R i) (some fd) a (set_fd fd (some i) s) t
            (
              record {
                level = λ j. omega (arith, uses-set-some s.ofile fd i j low u, b.level j);
                slots = length-set s.ofile fd (some i) ∙ b.slots;
              },
              get_or-set_self s.ofile fd (some i) none low,
            )
            h

  -- A descriptor is taken from a process: its reference is left.
  pub drop_fd :
      (fd i : ℕ) (s : System)
      → slot_at s.ofile fd ≡ some i
      → Balanced p q s
      → Balanced (plus p i) q (set_fd fd none s)
  drop_fd fd i s e b = record {
    level = λ j. omega (arith, uses-set-none s.ofile fd i j e, b.level j);
    slots = length-set s.ofile fd none ∙ b.slots;
  }

  -- A reference for a descriptor.
  pub settle : (i : ℕ) (s : System) → Balanced (plus p i) (plus q i) s → Balanced p q s
  settle i s b = record { level = λ j. omega (arith, b.level j); slots = b.slots }

  pub on_files-Ends :
      {A : Type 0} (m : Task → Cmd Files A) → Ends (Balanced p q) (on_files m) (λ _. Balanced p q)
  unfolding on_files with_files
  on_files-Ends {A} m s b a t h = go (m (task s) s.files) h
    where
      go : (r : Run Files A) → with_files s r ≡ ok a t → Balanced p q t
      go (ok c f) h =
          returned (λ _. Balanced p q) c a (record s { files = f }) t
            (balanced_same (λ i. refl) refl b) h
      go sleeps h = no_sleep h
      go panics h = no_panic h
      go overruns h = no_overrun h
      go unfinished h = no_rounds h

  close_pipe-Ends : (n : ℕ) (w : Bool) → Ends (Balanced p q) (close_pipe n w) (λ _. Balanced p q)
  unfolding close_pipe
  close_pipe-Ends n w s b a t h = go (get_or s.pipes n none) h
    where
      after :
          (o : Option Pipe)
          → elim o [
            | none ↦
                ok tt (record s { pipes = set s.pipes n none; free_pages = kfree s.free_pages })
            | some x ↦ ok tt (record s { pipes = set s.pipes n (some x) })
          ]
            ≡ ok a t
          → Balanced p q t
      after none h =
          returned (λ _. Balanced p q) tt a
            (record s { pipes = set s.pipes n none; free_pages = kfree s.free_pages }) t
            (balanced_same (λ i. refl) refl b) h
      after (some x) h =
          returned (λ _. Balanced p q) tt a (record s { pipes = set s.pipes n (some x) }) t
            (balanced_same (λ i. refl) refl b) h

      go :
          (o : Option Pipe)
          → elim o [
            | none ↦ panics
            | some x ↦ elim (pipeclose w x) [
              | none ↦
                  ok tt (record s { pipes = set s.pipes n none; free_pages = kfree s.free_pages })
              | some y ↦ ok tt (record s { pipes = set s.pipes n (some y) })
            ]
          ]
            ≡ ok a t
          → Balanced p q t
      go none h = no_panic h
      go (some x) h = after (pipeclose w x) h

  close_last-Ends :
      (o : OpenFile) (c : Kind) → Ends (Balanced p q) (close_last o c) (λ _. Balanced p q)
  unfolding close_last
  close_last-Ends o fd_none = pure-Ends (λ _. Balanced p q) tt (λ s b. b)
  close_last-Ends o fd_pipe = close_pipe-Ends o.pipe o.writable
  close_last-Ends o fd_inode = on_files-Ends (λ t. do begin; put_inode t o.ip; finish)

  pub fileclose-Ends : (i : ℕ) → Ends (Balanced (plus p i) q) (fileclose i) (λ _. Balanced p q)
  unfolding fileclose
  fileclose-Ends i s b a t h = elim (Bool-cases (ltb (ref_of s i) 1)) [
    | inl e ↦ no_panic (sym (if_true _ _ e) ∙ h)
    | inr e ↦
        let g = positive e in
        let there = in_table s.ftable i g in
        elim (Bool-cases (ltb 1 (ref_of s i))) [
          | inl f ↦
              let o = record (open_file s i) { ref = ref_of s i - 1 } in
              returned (λ _. Balanced p q) tt a (set_file i o s) t
                (lower i o s there (omega (arith, g)) b)
                (sym (if_true _ _ f) ∙ sym (if_false _ _ e) ∙ h)
          | inr f ↦
              let o = record (open_file s i) { ref = 0; kind = fd_none } in
              close_last-Ends (open_file s i) (open_file s i).kind (set_file i o s)
                (lower i o s there (last g f) b) a t
                (sym (if_false _ _ f) ∙ sym (if_false _ _ e) ∙ h)
        ]
  ]
    where
      last : {n : ℕ} → 0 < n → ltb 1 n ≡ false → 0 + 1 ≡ n
      last g f = ground (arith, g, f)

  pub same_count :
      (i : ℕ) (o : OpenFile) (s : System)
      → o.ref ≡ ref_of s i
      → Balanced p q s
      → Balanced p q (set_file i o s)
  same_count i o s e = balanced_same (count_kept i o s e) refl
