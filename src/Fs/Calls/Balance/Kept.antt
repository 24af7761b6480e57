-- ===== src/Fs/Calls/Balance/Kept.antt =====
-- The calls on descriptors keep the balance.
use hyu_ele3021_operating_sy.Prelude.{
  if_true, if_false, ℕ, ◌+◌, ◌≡◌, refl, sym, subst, ◌∙◌, inl, inr, not, Option, none, some, List,
  leb, if◌then◌else◌, Bool-cases, length, get_or, set, pos, minus_one,
}
use hyu_ele3021_operating_sy.Io.Pipe.{Pipe, Received, got, refused, waits, piperead}
use hyu_ele3021_operating_sy.Fs.Run.{ok, panics, Cmd, pure, modify, ◌>>=◌, ◌>>◌}
use hyu_ele3021_operating_sy.Fs.Run.Ends.{
  Ends, returned, no_sleep, no_panic, pure-Ends, bind-Ends, modify-Ends,
}
use hyu_ele3021_operating_sy.Fs.Handles.{lock, release}
use hyu_ele3021_operating_sy.Fs.Links.{Reply, reply, fails, to_driver, read_inode}
use hyu_ele3021_operating_sy.Fs.Calls.{
  Kind, fd_none, fd_pipe, fd_inode, OpenFile, System, or_fail, on_files,
}
use hyu_ele3021_operating_sy.Fs.Calls.Args.{argint, poke}
use hyu_ele3021_operating_sy.Fs.Calls.Table.{
  open_file, set_file, filedup, fileclose, advance, received, read_pipe, after_read, read_kind,
  fileread,
}
use hyu_ele3021_operating_sy.Fs.Calls.Descriptors.{
  nofile, slot_at, argfd, set_fd, fdalloc, dup_file, sys_dup, request, store_read, sys_read,
  close_fd, sys_close,
}
use hyu_ele3021_operating_sy.Fs.Calls.Balance.{plus, Balanced, FdTaken}
use hyu_ele3021_operating_sy.Fs.Calls.Balance.Steps.{
  balanced_same, filedup-Ends, fdalloc-Ends, drop_fd, settle, on_files-Ends, fileclose-Ends,
  same_count,
}

-- The descriptor that `argfd` finds has the file.
argfd_slot :
    (n : ℕ) (s : System) (fd i : ℕ) → argfd n s ≡ some (fd, i) → slot_at s.ofile fd ≡ some i
unfolding argfd
argfd_slot n s fd i h = arg (argint s.user n) h
  where
    pair : {x y : ℕ × ℕ} → some x ≡ some y → x ≡ y
    pair h = cc

    move : {x y : ℕ × ℕ} → x ≡ y → slot_at s.ofile x.0 ≡ some x.1 → slot_at s.ofile y.0 ≡ some y.1
    move e h = subst (λ (x : ℕ × ℕ). slot_at s.ofile x.0 ≡ some x.1) e h

    slot :
        (d : ℕ) (o : Option ℕ)
        → slot_at s.ofile d ≡ o
        → elim o as (λ x. Option (ℕ × ℕ)) [ none ↦ none | some j ↦ some (d, j) ] ≡ some (fd, i)
        → slot_at s.ofile fd ≡ some i
    slot d none e h = absurd cc
    slot d (some j) e h = move (pair h) e

    arg :
        (o : Option ℕ)
        → elim o as (λ x. Option (ℕ × ℕ)) [
          | none ↦ none
          | some d ↦
              if leb nofile d then none else (elim (slot_at s.ofile d) as (λ x. Option (ℕ × ℕ)) [
                | none ↦ none
                | some j ↦ some (d, j)
              ])
        ]
          ≡ some (fd, i)
        → slot_at s.ofile fd ≡ some i
    arg none h = absurd cc
    arg (some d) h = elim (Bool-cases (leb nofile d)) [
      | inl t ↦ absurd_pair (sym (if_true _ _ t) ∙ h)
      | inr t ↦ slot d (slot_at s.ofile d) refl (sym (if_false _ _ t) ∙ h)
    ]
      where
        absurd_pair : {W : Type 0} {x : ℕ × ℕ} → none ≡ some x → W
        absurd_pair h = absurd cc

module _ (p q : ℕ → ℕ) where
  -- A call that keeps the balance.
  abbrev pub Kept : {A : Type 0} → Cmd System A → Type 0
  Kept m = Ends (Balanced p q) m (λ _. Balanced p q)

  -- A change of what is neither in the table of open files nor a descriptor.
  pub modify-Kept :
      (g : System → System) → ((s : System) → Balanced p q s → Balanced p q (g s)) → Kept (modify g)
  modify-Kept g f = modify-Ends (Balanced p q) g f

  pub pure-Kept : {A : Type 0} (a : A) → Kept (pure a)
  pure-Kept a = pure-Ends (λ _. Balanced p q) a (λ s b. b)

  pub bind-Kept :
      {A B : Type 0} (m : Cmd System A) (k : A → Cmd System B)
      → Kept m
      → ((a : A) → Kept (k a))
      → Kept (m >>= k)
  bind-Kept m k f g = bind-Ends (λ _. Balanced p q) m k f g

  dup_file-Ends : (o : Option (ℕ × ℕ)) → Kept (dup_file o)
  unfolding dup_file or_fail
  dup_file-Ends none s b = pure-Kept minus_one s b
  dup_file-Ends (some (fd, i)) s b =
      bind-Ends (FdTaken p q (λ _. Unit {0}) i) (fdalloc i)
        (λ o. or_fail o (λ c. filedup i >> pure (pos c))) (fdalloc-Ends p q (λ _. Unit {0}) i) after
        s (b, tt)
    where
      after :
          (o : Option ℕ)
          → Ends
              (FdTaken p q (λ _. Unit {0}) i o)
              (or_fail o (λ c. filedup i >> pure (pos c)))
              (λ _. Balanced p q)
      after none s b = pure-Ends (λ _. Balanced p q) minus_one (λ s b. b) s b.0
      after (some c) s b =
          bind-Ends (λ _. Balanced (plus p i) (plus q i)) (filedup i) (λ _. pure (pos c))
            (filedup-Ends p (plus q i) i)
            (λ _. pure-Ends (λ _. Balanced p q) (pos c) (λ s. settle p q i s)) s b.0

  pub sys_dup-Kept : Kept sys_dup
  unfolding sys_dup
  sys_dup-Kept s = dup_file-Ends (argfd 0 s) s

  pub sys_close-Kept : Kept sys_close
  unfolding sys_close close_fd
  sys_close-Kept s b a t h = go (argfd 0 s) refl h
    where
      go : (o : Option (ℕ × ℕ)) → argfd 0 s ≡ o → close_fd o s ≡ ok a t → Balanced p q t
      go none e h = pure-Kept minus_one s b a t h
      go (some (fd, i)) e h =
          bind-Ends (λ _. Balanced p q) (fileclose i) (λ _. pure (pos 0)) (fileclose-Ends p q i)
            (λ _. pure-Kept (pos 0)) (set_fd fd none s)
            (drop_fd p q fd i s (argfd_slot 0 s fd i e) b) a t h

  pub advance-Kept : (i n : ℕ) → Kept (advance i n)
  unfolding advance
  advance-Kept i n =
      modify-Kept (λ s. set_file i (record (open_file s i) { off = (open_file s i).off + n }) s)
        (λ s. same_count p q i (record (open_file s i) { off = (open_file s i).off + n }) s refl)

  read_pipe-Kept : (i n : ℕ) → Kept (read_pipe i n)
  unfolding read_pipe received
  read_pipe-Kept i n s b a t h = go (get_or s.pipes i none) h
    where
      after : (r : Received) → received i s r ≡ ok a t → Balanced p q t
      after (got cs x) h =
          returned (λ _. Balanced p q) (reply cs) a (record s { pipes = set s.pipes i (some x) }) t
            (balanced_same p q (λ j. refl) refl b) h
      after refused h = returned (λ _. Balanced p q) fails a s t b h
      after waits h = no_sleep h

      go :
          (o : Option Pipe)
          → elim o [ none ↦ panics | some x ↦ received i s (piperead s.killed n x) ] ≡ ok a t
          → Balanced p q t
      go none h = no_panic h
      go (some x) h = after (piperead s.killed n x) h

  after_read-Kept : (i ip : ℕ) (r : Reply (List ℕ)) → Kept (after_read i ip r)
  unfolding after_read
  after_read-Kept i ip (reply cs) =
      bind-Kept (advance i (length cs)) (λ _. on_files (λ t. release t ip) >> pure (reply cs))
        (advance-Kept i (length cs))
        (λ _.
          bind-Kept (on_files (λ t. release t ip)) (λ _. pure (reply cs))
            (on_files-Ends p q (λ t. release t ip)) (λ _. pure-Kept (reply cs)))
  after_read-Kept i ip fails =
      bind-Kept (on_files (λ t. release t ip)) (λ _. pure fails)
        (on_files-Ends p q (λ t. release t ip)) (λ _. pure-Kept fails)
  after_read-Kept i ip (to_driver j) = pure-Kept (to_driver j)

  read_kind-Kept : (i : ℕ) (o : OpenFile) (n : ℕ) (c : Kind) → Kept (read_kind i o n c)
  unfolding read_kind
  read_kind-Kept i o n fd_none s b a t h = no_panic h
  read_kind-Kept i o n fd_pipe s b a t h = read_pipe-Kept o.pipe n s b a t h
  read_kind-Kept i o n fd_inode s b a t h =
      bind-Kept (on_files (λ t. lock t o.ip))
        (λ _. on_files (λ t. read_inode t o.ip o.off n) >>= after_read i o.ip)
        (on_files-Ends p q (λ t. lock t o.ip))
        (λ _.
          bind-Kept (on_files (λ t. read_inode t o.ip o.off n)) (after_read i o.ip)
            (on_files-Ends p q (λ t. read_inode t o.ip o.off n)) (after_read-Kept i o.ip))
        s b a t h

  pub fileread-Kept : (i n : ℕ) → Kept (fileread i n)
  unfolding fileread
  fileread-Kept i n s b a t h = elim (Bool-cases (not (open_file s i).readable)) [
    | inl e ↦ returned (λ _. Balanced p q) fails a s t b (sym (if_true _ _ e) ∙ h)
    | inr e ↦
        read_kind-Kept i (open_file s i) n (open_file s i).kind s b a t (sym (if_false _ _ e) ∙ h)
  ]

  store_read-Kept : (n : ℕ) (r : Reply (List ℕ)) → Kept (store_read n r)
  unfolding store_read
  store_read-Kept n (reply cs) =
      bind-Kept (modify (λ s. record s { user = poke n cs s.user }))
        (λ _. pure (reply (pos (length cs))))
        (modify-Kept (λ s. record s { user = poke n cs s.user })
          (λ s. balanced_same p q (λ j. refl) refl))
        (λ _. pure-Kept (reply (pos (length cs))))
  store_read-Kept n fails = pure-Kept (reply minus_one)
  store_read-Kept n (to_driver j) = pure-Kept (to_driver j)

  pub sys_read-Kept : Kept sys_read
  unfolding sys_read
  sys_read-Kept s b a t h = go (request s) h
    where
      go :
          (o : Option (ℕ × ℕ × ℕ))
          → elim o [
            | none ↦ ok (reply minus_one) s
            | some (i, x, n) ↦ (fileread i n >>= store_read x) s
          ]
            ≡ ok a t
          → Balanced p q t
      go none h = returned (λ _. Balanced p q) (reply minus_one) a s t b h
      go (some (i, x, n)) h =
          bind-Kept (fileread i n) (store_read x) (fileread-Kept i n) (store_read-Kept x) s b a t h
