-- ===== src/Fs/Calls/Balance/All.antt =====
-- All calls on files keep the balance.
use hyu_ele3021_operating_sy.Prelude.{
  Bool, true, false, if◌then◌else◌, if_true, if_false, ℕ, zero, suc, ◌+◌, ◌≡◌, refl, sym, ◌∙◌, inl,
  inr, not, Option, none, some, List, [], ◌∷◌, ◌==◌, Bool-cases, length, get_or, set, take, drop, ℤ,
  pos, minus_one,
}
use hyu_ele3021_operating_sy.Io.Pipe.{Pipe, Written, done, failed, sleeps, pipewrite}
use hyu_ele3021_operating_sy.Fs.Inode.{Stat, stati}
use hyu_ele3021_operating_sy.Fs.Names.{Files, file}
use hyu_ele3021_operating_sy.Fs.Run.{stop, ok, sleeps, panics, Cmd, pure, get_state, ◌>>=◌, ◌>>◌}
use hyu_ele3021_operating_sy.Fs.Run.Ends.{returned, no_sleep, no_panic, no_rounds}
use hyu_ele3021_operating_sy.Fs.Handles.{Task, lock, release, begin, finish}
use hyu_ele3021_operating_sy.Fs.Links.{Reply, reply, fails, to_driver, write_inode}
use hyu_ele3021_operating_sy.Fs.Calls.{
  Kind, fd_none, fd_pipe, fd_inode, OpenFile, User, System, or_fail, on_files,
}
use hyu_ele3021_operating_sy.Fs.Calls.Args.{argptr, peek}
use hyu_ele3021_operating_sy.Fs.Calls.Table.{
  open_file, filestat, stat_of, advance, max_write, after_write, filewrite_loop, sent_to_pipe,
  write_pipe, write_kind, filewrite,
}
use hyu_ele3021_operating_sy.Fs.Calls.Descriptors.{
  argfd, sys_dup, request, count_written, sys_write, sys_close, poke_stat, store_stat, sys_fstat,
  sys_pipe,
}
use hyu_ele3021_operating_sy.Fs.Calls.Balance.{Balanced}
use hyu_ele3021_operating_sy.Fs.Calls.Balance.Steps.{balanced_same, on_files-Ends}
use hyu_ele3021_operating_sy.Fs.Calls.Balance.Kept.{
  Kept, pure-Kept, bind-Kept, advance-Kept, sys_dup-Kept, sys_close-Kept, sys_read-Kept,
}
use hyu_ele3021_operating_sy.Fs.Calls.Balance.Opened.{sys_pipe-Kept, sys_open-Kept, sys_chdir-Kept}
use hyu_ele3021_operating_sy.Fs.Calls.Args.{argstr}
use hyu_ele3021_operating_sy.Fs.Calls.Naming.{link_paths, sys_link, unlink_path, sys_unlink}
use hyu_ele3021_operating_sy.Fs.Calls.Create.{
  make_node, mkdir_call, mknod_args, symlink_paths, sys_mkdir, sys_mknod, sys_symlink,
}
use hyu_ele3021_operating_sy.Fs.Calls.Opening.{sync, sys_sync, sys_open, sys_chdir}
use hyu_ele3021_operating_sy.Fs.Calls.Dispatch.{
  Call, call_pipe, call_read, call_fstat, call_chdir, call_dup, call_open, call_write, call_mknod,
  call_unlink, call_link, call_mkdir, call_close, call_symlink, call_sync, number, syscall,
  run_calls,
}

module _ (p q : ℕ → ℕ) where
  after_write-Kept :
      (i ip n1 : ℕ) (next : Cmd System (Reply ℕ)) (r : Reply ℕ)
      → Kept p q next
      → Kept p q (after_write i ip n1 next r)
  unfolding after_write
  after_write-Kept i ip n1 next (reply n) f s b a t h =
      let next' = if n == n1 then next else stop in
      bind-Kept p q (advance i n)
        (λ _. on_files (λ t. release t ip) >>= λ _. on_files (λ t. finish) >>= λ _. next')
        (advance-Kept p q i n)
        (λ _.
          bind-Kept p q (on_files (λ t. release t ip)) (λ _. on_files (λ t. finish) >>= λ _. next')
            (on_files-Ends p q (λ t. release t ip))
            (λ _.
              bind-Kept p q (on_files (λ t. finish)) (λ _. next') (on_files-Ends p q (λ t. finish))
                (λ _. whole (n == n1))))
        s b a t h
    where
      whole : (c : Bool) → Kept p q (if c then next else stop)
      whole true s b a t h = f s b a t h
      whole false s b a t h = no_panic h
  after_write-Kept i ip n1 next fails f s b a t h =
      bind-Kept p q (on_files (λ t. release t ip)) (λ _. on_files (λ t. finish) >>= λ _. pure fails)
        (on_files-Ends p q (λ t. release t ip))
        (λ _.
          bind-Kept p q (on_files (λ t. finish)) (λ _. pure fails) (on_files-Ends p q (λ t. finish))
            (λ _. pure-Kept p q fails))
        s b a t h
  after_write-Kept i ip n1 next (to_driver j) f s b a t h = pure-Kept p q (to_driver j) s b a t h

  filewrite_loop-Kept : (i ip n r : ℕ) (cs : List ℕ) → Kept p q (filewrite_loop i ip n r cs)
  unfolding filewrite_loop
  filewrite_loop-Kept i ip n zero cs s b a t h = no_rounds h
  filewrite_loop-Kept i ip n (suc r) cs s b a t h =
      let rest = filewrite_loop i ip n r (drop max_write cs) in
      let write : Task → Cmd Files (Reply ℕ) =
        λ t. write_inode t ip (open_file s i).off (take max_write cs) in
      let kept = after_write-Kept i ip (length (take max_write cs)) rest in
      let more : Kept p q rest = filewrite_loop-Kept i ip n r (drop max_write cs) in
      elim (Bool-cases (length cs == 0)) [
        | inl e ↦ returned (λ _. Balanced p q) (reply n) a s t b (sym (if_true _ _ e) ∙ h)
        | inr e ↦
            bind-Kept p q (on_files (λ t. begin))
              (λ _. on_files (λ t. lock t ip) >>= λ _.
                on_files write >>= after_write i ip (length (take max_write cs)) rest)
              (on_files-Ends p q (λ t. begin))
              (λ _.
                bind-Kept p q (on_files (λ t. lock t ip))
                  (λ _. on_files write >>= after_write i ip (length (take max_write cs)) rest)
                  (on_files-Ends p q (λ t. lock t ip))
                  (λ _.
                    bind-Kept p q (on_files write)
                      (after_write i ip (length (take max_write cs)) rest) (on_files-Ends p q write)
                      (λ r. kept r more)))
              s b a t (sym (if_false _ _ e) ∙ h)
      ]

  write_pipe-Kept : (i : ℕ) (cs : List ℕ) → Kept p q (write_pipe i cs)
  unfolding write_pipe sent_to_pipe
  write_pipe-Kept i cs s b a t h = go (get_or s.pipes i none) h
    where
      after : (w : Written) → sent_to_pipe (length cs) i s w ≡ ok a t → Balanced p q t
      after (done x) h =
          returned (λ _. Balanced p q) (reply (length cs)) a
            (record s { pipes = set s.pipes i (some x) }) t (balanced_same p q (λ j. refl) refl b) h
      after (failed x) h =
          returned (λ _. Balanced p q) fails a (record s { pipes = set s.pipes i (some x) }) t
            (balanced_same p q (λ j. refl) refl b) h
      after (sleeps ds x) h = no_sleep h

      go :
          (o : Option Pipe)
          → elim o [
            | none ↦ panics
            | some x ↦ sent_to_pipe (length cs) i s (pipewrite s.killed cs x)
          ]
            ≡ ok a t
          → Balanced p q t
      go none h = no_panic h
      go (some x) h = after (pipewrite s.killed cs x) h

  write_kind-Kept : (i : ℕ) (o : OpenFile) (cs : List ℕ) (c : Kind) → Kept p q (write_kind i o cs c)
  unfolding write_kind
  write_kind-Kept i o cs fd_none s b a t h = no_panic h
  write_kind-Kept i o cs fd_pipe s b a t h = write_pipe-Kept o.pipe cs s b a t h
  write_kind-Kept i o cs fd_inode s b a t h =
      filewrite_loop-Kept i o.ip (length cs) (length cs + 1) cs s b a t h

  filewrite-Kept : (i : ℕ) (cs : List ℕ) → Kept p q (filewrite i cs)
  unfolding filewrite
  filewrite-Kept i cs s b a t h = elim (Bool-cases (not (open_file s i).writable)) [
    | inl e ↦ returned (λ _. Balanced p q) fails a s t b (sym (if_true _ _ e) ∙ h)
    | inr e ↦
        write_kind-Kept i (open_file s i) cs (open_file s i).kind s b a t (sym (if_false _ _ e) ∙ h)
  ]

  count_written-Kept : (r : Reply ℕ) → Kept p q (count_written r)
  unfolding count_written
  count_written-Kept (reply n) = pure-Kept p q (reply (pos n))
  count_written-Kept fails = pure-Kept p q (reply minus_one)
  count_written-Kept (to_driver j) = pure-Kept p q (to_driver j)

  sys_write-Kept : Kept p q sys_write
  unfolding sys_write
  sys_write-Kept s b a t h = go (request s) h
    where
      go :
          (o : Option (ℕ × ℕ × ℕ))
          → elim o [
            | none ↦ ok (reply minus_one) s
            | some (i, x, n) ↦ (filewrite i (peek s.user x n) >>= count_written) s
          ]
            ≡ ok a t
          → Balanced p q t
      go none h = returned (λ _. Balanced p q) (reply minus_one) a s t b h
      go (some (i, x, n)) h =
          bind-Kept p q (filewrite i (peek s.user x n)) count_written
            (filewrite-Kept i (peek s.user x n)) count_written-Kept s b a t h

  stat_of-Kept : (c : Kind) (i : ℕ) → Kept p q (stat_of c i)
  unfolding stat_of
  stat_of-Kept fd_none i = pure-Kept p q none
  stat_of-Kept fd_pipe i = pure-Kept p q none
  stat_of-Kept fd_inode i =
      on_files-Ends p q
        (λ t. do lock t i; f ← get_state; release t i; pure (some (stati (file f i))))

  store_stat-Kept : (x : ℕ) (o : Option Stat) → Kept p q (store_stat x o)
  unfolding store_stat or_fail
  store_stat-Kept x none s b a t h = pure-Kept p q minus_one s b a t h
  store_stat-Kept x (some st) s b a t h =
      returned (λ _. Balanced p q) (pos 0) a (record s { user = poke_stat x st s.user }) t
        (balanced_same p q (λ j. refl) refl b) h

  sys_fstat-Kept : Kept p q sys_fstat
  unfolding sys_fstat filestat
  sys_fstat-Kept s b a t h = go (argfd 0 s) h
    where
      at :
          (i : ℕ) (o : Option ℕ)
          → elim o [
            | none ↦ ok minus_one s
            | some x ↦ (stat_of (open_file s i).kind (open_file s i).ip >>= store_stat x) s
          ]
            ≡ ok a t
          → Balanced p q t
      at i none h = returned (λ _. Balanced p q) minus_one a s t b h
      at i (some x) h =
          bind-Kept p q (stat_of (open_file s i).kind (open_file s i).ip) (store_stat x)
            (stat_of-Kept (open_file s i).kind (open_file s i).ip) (store_stat-Kept x) s b a t h

      go :
          (o : Option (ℕ × ℕ))
          → elim o [
            | none ↦ ok minus_one s
            | some (_, i) ↦ elim (argptr s.user 1 20) [
              | none ↦ ok minus_one s
              | some x ↦ (stat_of (open_file s i).kind (open_file s i).ip >>= store_stat x) s
            ]
          ]
            ≡ ok a t
          → Balanced p q t
      go none h = returned (λ _. Balanced p q) minus_one a s t b h
      go (some (_, i)) h = at i (argptr s.user 1 20) h

  -- A call on the inodes with paths that are fetched first.
  with_path-Kept :
      (s : System) (o : Option (List ℕ)) (m : List ℕ → Cmd System ℤ)
      → ((cs : List ℕ) → Kept p q (m cs))
      → Balanced p q s
      → (a : ℤ) (t : System) → elim o [ none ↦ ok minus_one s | some cs ↦ m cs s ] ≡ ok a t
      → Balanced p q t
  with_path-Kept s none m f b a t h = returned (λ _. Balanced p q) minus_one a s t b h
  with_path-Kept s (some cs) m f b a t h = f cs s b a t h

  with_paths-Kept :
      (s : System) (o o' : Option (List ℕ)) (m : List ℕ → List ℕ → Task → Cmd Files ℤ)
      → Balanced p q s
      → (a : ℤ) (t : System)
      → elim o [
        | none ↦ ok minus_one s
        | some cs ↦ elim o' [ none ↦ ok minus_one s | some ds ↦ on_files (m cs ds) s ]
      ]
        ≡ ok a t
      → Balanced p q t
  with_paths-Kept s none o' m b a t h = returned (λ _. Balanced p q) minus_one a s t b h
  with_paths-Kept s (some cs) o' m b a t h =
      with_path-Kept s o' (λ ds. on_files (m cs ds)) (λ ds. on_files-Ends p q (m cs ds)) b a t h

  number-Kept : (m : Cmd System ℤ) → Kept p q m → Kept p q (number m)
  number-Kept m f = bind-Kept p q m (λ n. pure (reply n)) f (λ n. pure-Kept p q (reply n))

  syscall-Kept : (c : Call) → Kept p q (syscall c)
  unfolding syscall sys_mknod sys_unlink sys_link sys_mkdir sys_symlink sys_sync
  syscall-Kept call_pipe = number-Kept sys_pipe (sys_pipe-Kept p q)
  syscall-Kept call_read = sys_read-Kept p q
  syscall-Kept call_fstat = number-Kept sys_fstat sys_fstat-Kept
  syscall-Kept call_chdir = number-Kept sys_chdir (sys_chdir-Kept p q)
  syscall-Kept call_dup = number-Kept sys_dup (sys_dup-Kept p q)
  syscall-Kept call_open = number-Kept sys_open (sys_open-Kept p q)
  syscall-Kept call_write = sys_write-Kept
  syscall-Kept call_mknod =
      number-Kept sys_mknod (λ s. on_files-Ends p q (make_node (mknod_args s.user)) s)
  syscall-Kept call_unlink = number-Kept sys_unlink (λ s b.
      with_path-Kept s (argstr s.user 0) (λ cs. on_files (unlink_path cs))
        (λ cs. on_files-Ends p q (unlink_path cs)) b)
  syscall-Kept call_link =
      number-Kept sys_link (λ s. with_paths-Kept s (argstr s.user 0) (argstr s.user 1) link_paths)
  syscall-Kept call_mkdir = number-Kept sys_mkdir (λ s. on_files-Ends p q (mkdir_call s.user) s)
  syscall-Kept call_close = number-Kept sys_close (sys_close-Kept p q)
  syscall-Kept call_symlink =
      number-Kept sys_symlink
        (λ s. with_paths-Kept s (argstr s.user 0) (argstr s.user 1) symlink_paths)
  syscall-Kept call_sync = number-Kept sys_sync (on_files-Ends p q (λ t. sync))

-- If every open file counts the descriptors of the process that have it and as many references more
-- as `p` says, and the process has `NOFILE` descriptors, then so it is after any sequence of the
-- calls on files that returns, whatever the memory of the process holds at each call.
pub run_calls-Balanced :
    (p : ℕ → ℕ) (cs : List (User × Call)) (s t : System) (rs : List (Reply ℤ))
    → Balanced p (λ _. 0) s
    → run_calls cs s ≡ ok rs t
    → Balanced p (λ _. 0) t
unfolding run_calls
run_calls-Balanced p [] s t rs b h = pure-Kept p (λ _. 0) [] s b rs t h
run_calls-Balanced p ((u, c) ∷ cs) s t rs b h =
    bind-Kept p (λ _. 0) (syscall c) (λ r. run_calls cs >>= λ rs. pure (r ∷ rs))
      (syscall-Kept p (λ _. 0) c)
      (λ r.
        bind-Kept p (λ _. 0) (run_calls cs) (λ rs. pure (r ∷ rs))
          (λ s b a t. run_calls-Balanced p cs s t a b) (λ rs. pure-Kept p (λ _. 0) (r ∷ rs)))
      (record s { user = u }) (balanced_same p (λ _. 0) (λ i. refl) refl b) rs t h
