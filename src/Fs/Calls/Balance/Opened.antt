-- ===== src/Fs/Calls/Balance/Opened.antt =====
-- `pipe` and `open` keep the balance: a file that gets no descriptor is closed again.
use hyu_ele3021_operating_sy.Prelude.{
  ℕ, ◌≡◌, refl, sym, true, false, Option, none, some, List, [], ◌∷◌, ◌++◌, arith, length, set, pos,
  minus_one,
}
use hyu_ele3021_operating_sy.Io.Pipe.{pipe_init}
use hyu_ele3021_operating_sy.Fs.Run.{ok, pure, modify, ◌>>=◌, ◌>>◌}
use hyu_ele3021_operating_sy.Fs.Run.Ends.{Ends, returned, pure-Ends, bind-Ends}
use hyu_ele3021_operating_sy.Fs.Handles.{release, finish}
use hyu_ele3021_operating_sy.Fs.Calls.{System, on_files}
use hyu_ele3021_operating_sy.Fs.Calls.Args.{argint, argptr, poke}
use hyu_ele3021_operating_sy.Fs.Calls.Table.{open_file, set_file, filealloc, fileclose}
use hyu_ele3021_operating_sy.Fs.Calls.Descriptors.{slot_at, set_fd, fdalloc}
use hyu_ele3021_operating_sy.Fs.Calls.Balance.{plus, Balanced, FileTaken, FdTaken}
use hyu_ele3021_operating_sy.Fs.Calls.Balance.Steps.{
  balanced_same, filealloc-Ends, fdalloc-Ends, drop_fd, settle, on_files-Ends, fileclose-Ends,
  count_kept, same_count,
}
use hyu_ele3021_operating_sy.Fs.Calls.Balance.Kept.{Kept, modify-Kept, pure-Kept, bind-Kept}
use hyu_ele3021_operating_sy.Fs.Calls.{kalloc}
use hyu_ele3021_operating_sy.Fs.Calls.Descriptors.{
  close_both, pipe_file, int_bytes, join_files, second_file, first_file, pipealloc, give_second,
  give_first, give_fds, sys_pipe,
}
use hyu_ele3021_operating_sy.Fs.Handles.{release_put}
use hyu_ele3021_operating_sy.Fs.Calls.Args.{argstr}
use hyu_ele3021_operating_sy.Fs.Calls.Opening.{
  open_bad, opened, open_fd, open_slot, open_inode, find_inode, sys_open, set_cwd, find_dir,
  sys_chdir,
}

module _ (p q : ℕ → ℕ) where
  -- The references of two files are dropped.
  close_both-Ends :
      (i j : ℕ) → Ends (Balanced (plus (plus p i) j) q) (close_both i j) (λ _. Balanced p q)
  close_both-Ends i j s b =
      bind-Ends (λ _. Balanced (plus p j) q) (fileclose i) (λ _. fileclose j >> pure minus_one)
        (fileclose-Ends (plus p j) q i)
        (λ _.
          bind-Ends (λ _. Balanced p q) (fileclose j) (λ _. pure minus_one) (fileclose-Ends p q j)
            (λ _. pure-Kept p q minus_one))
        s (record { level = λ n. omega (arith, b.level n); slots = b.slots })

  -- After `pipealloc`.
  abbrev BothTaken : Option (ℕ × ℕ) → System → Type 0
  BothTaken none = Balanced p q
  BothTaken (some (i, j)) = Balanced (plus (plus p i) j) q

  -- The new pipe and its files, whose counts stay.
  joined :
      (i j n : ℕ) (page : List ℕ) (pages : List (List ℕ)) (s : System)
      → Balanced (plus (plus p i) j) q s
      → Balanced (plus (plus p i) j) q (record s {
        pipes = s.pipes ++ (some (pipe_init page) ∷ []);
        free_pages = pages;
        ftable =
            set
              (set s.ftable i (pipe_file n false (open_file s i)))
              j
              (pipe_file n true (open_file s j));
      })
  joined i j n page pages s b =
      let x = pipe_file n false (open_file s i) in
      let c = same_count (plus (plus p i) j) q i x s refl b in
      balanced_same (plus (plus p i) j) q (λ k. refl) refl
        (same_count (plus (plus p i) j) q j (pipe_file n true (open_file s j)) (set_file i x s)
          (sym (count_kept i x s refl j)) c)

  join_files-Ends :
      (i j : ℕ) (o : Option (List ℕ × List (List ℕ)))
      → Ends (Balanced (plus (plus p i) j) q) (join_files i j o) BothTaken
  unfolding join_files
  join_files-Ends i j none s b a t h =
      bind-Ends (λ _. Balanced (plus p j) q) (fileclose i) (λ _. fileclose j >> pure none)
        (fileclose-Ends (plus p j) q i)
        (λ _.
          bind-Ends (λ _. Balanced p q) (fileclose j) (λ _. pure none) (fileclose-Ends p q j)
            (λ _. pure-Ends BothTaken none (λ s b. b)))
        s (record { level = λ n. omega (arith, b.level n); slots = b.slots }) a t h
  join_files-Ends i j (some (page, pages)) s b a t h =
      returned BothTaken (some (i, j)) a
        (record s {
          pipes = s.pipes ++ (some (pipe_init page) ∷ []);
          free_pages = pages;
          ftable =
              set (set s.ftable i (pipe_file (length s.pipes) false (open_file s i))) j
                (pipe_file (length s.pipes) true (open_file s j));
        })
        t (joined i j (length s.pipes) page pages s b) h

  second_file-Ends :
      (i : ℕ) (o : Option ℕ) → Ends (FileTaken (plus p i) q o) (second_file i o) BothTaken
  unfolding second_file
  second_file-Ends i none s b =
      bind-Ends (λ _. Balanced p q) (fileclose i) (λ _. pure none) (fileclose-Ends p q i)
        (λ _. pure-Ends BothTaken none (λ s b. b)) s b
  second_file-Ends i (some j) s b = join_files-Ends i j (kalloc s.free_pages) s b

  first_file-Ends : (o : Option ℕ) → Ends (FileTaken p q o) (first_file o) BothTaken
  unfolding first_file
  first_file-Ends none s b = pure-Ends BothTaken none (λ s b. b) s b
  first_file-Ends (some i) s b =
      bind-Ends (FileTaken (plus p i) q) filealloc (second_file i) (filealloc-Ends (plus p i) q)
        (second_file-Ends i) s b

  pipealloc-Ends : Ends (Balanced p q) pipealloc BothTaken
  unfolding pipealloc
  pipealloc-Ends =
      bind-Ends (FileTaken p q) filealloc first_file (filealloc-Ends p q) first_file-Ends

  -- The descriptor `fd0` has the first file.
  abbrev HasFirst : ℕ → ℕ → System → Type 0
  HasFirst fd0 i s = slot_at s.ofile fd0 ≡ some i

  give_second-Ends :
      (x i j fd0 : ℕ) (o : Option ℕ)
      → Ends
          (FdTaken (plus (plus p i) j) (plus q i) (HasFirst fd0 i) j o)
          (give_second x i j fd0 o)
          (λ _. Balanced p q)
  unfolding give_second
  give_second-Ends x i j fd0 none s (b, e) a t h =
      close_both-Ends i j (set_fd fd0 none s)
        (settle (plus (plus p i) j) q i (set_fd fd0 none s)
          (drop_fd (plus (plus p i) j) (plus q i) fd0 i s e b))
        a t h
  give_second-Ends x i j fd0 (some fd1) s (b, e) a t h =
      returned (λ _. Balanced p q) (pos 0) a
        (record s { user = poke x (int_bytes fd0 ++ int_bytes fd1) s.user }) t
        (balanced_same p q (λ k. refl) refl (settle p q i s (settle (plus p i) (plus q i) j s b))) h

  give_first-Ends :
      (x i j : ℕ) (o : Option ℕ)
      → Ends
          (FdTaken (plus (plus p i) j) q (λ _. Unit {0}) i o)
          (give_first x i j o)
          (λ _. Balanced p q)
  unfolding give_first
  give_first-Ends x i j none s (b, _) = close_both-Ends i j s b
  give_first-Ends x i j (some fd0) s (b, e) =
      bind-Ends (FdTaken (plus (plus p i) j) (plus q i) (HasFirst fd0 i) j) (fdalloc j)
        (give_second x i j fd0) (fdalloc-Ends (plus (plus p i) j) (plus q i) (HasFirst fd0 i) j)
        (give_second-Ends x i j fd0) s (b, e)

  give_fds-Ends :
      (x : ℕ) (o : Option (ℕ × ℕ)) → Ends (BothTaken o) (give_fds x o) (λ _. Balanced p q)
  unfolding give_fds
  give_fds-Ends x none s b = pure-Kept p q minus_one s b
  give_fds-Ends x (some (i, j)) s b =
      bind-Ends (FdTaken (plus (plus p i) j) q (λ _. Unit {0}) i) (fdalloc i) (give_first x i j)
        (fdalloc-Ends (plus (plus p i) j) q (λ _. Unit {0}) i) (give_first-Ends x i j) s (b, tt)

  pub sys_pipe-Kept : Kept p q sys_pipe
  unfolding sys_pipe
  sys_pipe-Kept s b a t h = go (argptr s.user 0 8) h
    where
      go :
          (o : Option ℕ)
          → elim o [ none ↦ ok minus_one s | some x ↦ (pipealloc >>= give_fds x) s ] ≡ ok a t
          → Balanced p q t
      go none h = returned (λ _. Balanced p q) minus_one a s t b h
      go (some x) h =
          bind-Ends BothTaken pipealloc (give_fds x) pipealloc-Ends (give_fds-Ends x) s b a t h

  open_bad-Kept : (i : ℕ) → Kept p q (open_bad i)
  open_bad-Kept i =
      bind-Kept p q (on_files (λ t. release_put t i >> finish)) (λ _. pure minus_one)
        (on_files-Ends p q (λ t. release_put t i >> finish)) (λ _. pure-Kept p q minus_one)

  open_fd-Ends :
      (mode i o : ℕ) (fd : Option ℕ)
      → Ends (FdTaken (plus p o) q (λ _. Unit {0}) o fd) (open_fd mode i o fd) (λ _. Balanced p q)
  unfolding open_fd
  open_fd-Ends mode i o none s (b, _) =
      bind-Ends (λ _. Balanced p q) (fileclose o) (λ _. open_bad i) (fileclose-Ends p q o)
        (λ _. open_bad-Kept i) s b
  open_fd-Ends mode i o (some fd) s (b, _) =
      let set_up : System → System = λ s. set_file o (opened i mode (open_file s o)) s in
      bind-Kept p q (on_files (λ t. release t i >> finish)) (λ _. modify set_up >> pure (pos fd))
        (on_files-Ends p q (λ t. release t i >> finish))
        (λ _.
          bind-Kept p q (modify set_up) (λ _. pure (pos fd))
            (modify-Kept p q set_up (λ s. same_count p q o (opened i mode (open_file s o)) s refl))
            (λ _. pure-Kept p q (pos fd)))
        s (settle p q o s b)

  open_slot-Ends :
      (mode i : ℕ) (o : Option ℕ) → Ends (FileTaken p q o) (open_slot mode i o) (λ _. Balanced p q)
  unfolding open_slot
  open_slot-Ends mode i none s b = open_bad-Kept i s b
  open_slot-Ends mode i (some o) s b =
      bind-Ends (FdTaken (plus p o) q (λ _. Unit {0}) o) (fdalloc o) (open_fd mode i o)
        (fdalloc-Ends (plus p o) q (λ _. Unit {0}) o) (open_fd-Ends mode i o) s (b, tt)

  open_inode-Kept : (mode : ℕ) (o : Option ℕ) → Kept p q (open_inode mode o)
  unfolding open_inode
  open_inode-Kept mode none s b = pure-Kept p q minus_one s b
  open_inode-Kept mode (some i) s b =
      bind-Ends (FileTaken p q) filealloc (open_slot mode i) (filealloc-Ends p q)
        (open_slot-Ends mode i) s b

  pub sys_open-Kept : Kept p q sys_open
  unfolding sys_open
  sys_open-Kept s b a t h = path (argstr s.user 0) h
    where
      mode_of :
          (cs : List ℕ) (o : Option ℕ)
          → elim o [
            | none ↦ ok minus_one s
            | some mode ↦ (on_files (find_inode cs mode) >>= open_inode mode) s
          ]
            ≡ ok a t
          → Balanced p q t
      mode_of cs none h = returned (λ _. Balanced p q) minus_one a s t b h
      mode_of cs (some mode) h =
          bind-Kept p q (on_files (find_inode cs mode)) (open_inode mode)
            (on_files-Ends p q (find_inode cs mode)) (open_inode-Kept mode) s b a t h

      path :
          (o : Option (List ℕ))
          → elim o [
            | none ↦ ok minus_one s
            | some cs ↦ elim (argint s.user 1) [
              | none ↦ ok minus_one s
              | some mode ↦ (on_files (find_inode cs mode) >>= open_inode mode) s
            ]
          ]
            ≡ ok a t
          → Balanced p q t
      path none h = returned (λ _. Balanced p q) minus_one a s t b h
      path (some cs) h = mode_of cs (argint s.user 1) h

  set_cwd-Kept : (o : Option ℕ) → Kept p q (set_cwd o)
  unfolding set_cwd
  set_cwd-Kept none s b a t h = pure-Kept p q minus_one s b a t h
  set_cwd-Kept (some i) s b a t h =
      returned (λ _. Balanced p q) (pos 0) a (record s { cwd = i }) t
        (balanced_same p q (λ k. refl) refl b) h

  pub sys_chdir-Kept : Kept p q sys_chdir
  unfolding sys_chdir
  sys_chdir-Kept s =
      bind-Kept p q (on_files (find_dir (argstr s.user 0))) set_cwd
        (on_files-Ends p q (find_dir (argstr s.user 0))) set_cwd-Kept s
