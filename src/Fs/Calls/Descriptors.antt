-- ===== src/Fs/Calls/Descriptors.antt =====
-- Project03-FileSystem/sysfile.c and pipe.c: the calls on file descriptors, `dup`, `read`, `write`,
-- `close`, `fstat` and `pipe`.
use hyu_ele3021_operating_sy.Prelude.{
  ℕ, zero, suc, ◌+◌, ◌/◌, ◌%◌, Bool, true, false, not, Option, none, some, List, [], ◌∷◌, ◌++◌, leb,
  if◌then◌else◌, length, get_or, set, ℤ, pos, minus_one,
}
use hyu_ele3021_operating_sy.Io.Pipe.{pipe_init}
use hyu_ele3021_operating_sy.Fs.Inode.{Stat}
use hyu_ele3021_operating_sy.Fs.Run.{Run, ok, Cmd, pure, modify, ◌>>=◌, ◌>>◌}
use hyu_ele3021_operating_sy.Fs.Links.{Reply, reply, fails, to_driver}
use hyu_ele3021_operating_sy.Fs.Calls.{fd_pipe, OpenFile, User, System, or_fail, kalloc}
use hyu_ele3021_operating_sy.Fs.Calls.Args.{argint, argptr, peek, poke}
use hyu_ele3021_operating_sy.Fs.Calls.Table.{
  open_file, filealloc, filedup, fileclose, filestat, fileread, filewrite,
}

-- `NOFILE` of param.h
abbrev pub nofile : ℕ
nofile = 16

-- The open file of descriptor `fd`.
abbrev pub slot_at : List (Option ℕ) → ℕ → Option ℕ
slot_at fds fd = get_or fds fd none

-- The descriptor and its file.
unfoldable pub argfd : ℕ → System → Option (ℕ × ℕ)
unfolding argint
argfd n s = elim (argint s.user n) [
  | none ↦ none
  | some fd ↦
      if leb nofile fd
      then none
      else (elim (slot_at s.ofile fd) [ none ↦ none | some i ↦ some (fd, i) ])
]

-- The first unused descriptor from `fd` on, with `r` to go.
unfoldable pub find_fd : List (Option ℕ) → ℕ → ℕ → Option ℕ
find_fd fds zero fd = none
find_fd fds (suc r) fd =
    let rest = find_fd fds r (fd + 1) in elim (slot_at fds fd) [ none ↦ some fd | some i ↦ rest ]

abbrev pub set_fd : ℕ → Option ℕ → System → System
set_fd fd o s = record s { ofile = set s.ofile fd o }

unfoldable pub take_fd : ℕ → System → Option ℕ → Run System (Option ℕ)
take_fd i s none = ok none s
take_fd i s (some fd) = ok (some fd) (set_fd fd (some i) s)

unfoldable pub fdalloc : ℕ → Cmd System (Option ℕ)
unfolding find_fd take_fd
fdalloc i s = take_fd i s (find_fd s.ofile nofile 0)

unfoldable pub dup_file : Option (ℕ × ℕ) → Cmd System ℤ
unfolding fdalloc filedup
dup_file none = pure minus_one
dup_file (some (_, i)) = do o ← fdalloc i; or_fail o (λ fd. filedup i >> pure (pos fd))

unfoldable pub sys_dup : Cmd System ℤ
unfolding argfd dup_file
sys_dup s = dup_file (argfd 0 s) s

-- The request of `read` or `write`: the file, the address and the count.
unfoldable pub request : System → Option (ℕ × ℕ × ℕ)
unfolding argfd argint argptr
request s = elim (argfd 0 s) [
  | none ↦ none
  | some (_, i) ↦ elim (argint s.user 2) [
    | none ↦ none
    | some n ↦ elim (argptr s.user 1 n) [ none ↦ none | some p ↦ some (i, p, n) ]
  ]
]

-- What the call returns, and the request to a driver, where there is one.
unfoldable pub store_read : ℕ → Reply (List ℕ) → Cmd System (Reply ℤ)
unfolding poke
store_read p (reply cs) = do
  modify (λ s. record s { user = poke p cs s.user })
  pure (reply (pos (length cs)))
store_read p fails = pure (reply minus_one)
store_read p (to_driver j) = pure (to_driver j)

unfoldable pub sys_read : Cmd System (Reply ℤ)
unfolding request fileread store_read
sys_read s = elim (request s) [
  | none ↦ ok (reply minus_one) s
  | some (i, p, n) ↦ (do r ← fileread i n; store_read p r) s
]

unfoldable pub count_written : Reply ℕ → Cmd System (Reply ℤ)
count_written (reply n) = pure (reply (pos n))
count_written fails = pure (reply minus_one)
count_written (to_driver j) = pure (to_driver j)

unfoldable pub sys_write : Cmd System (Reply ℤ)
unfolding request filewrite peek count_written
sys_write s = elim (request s) [
  | none ↦ ok (reply minus_one) s
  | some (i, p, n) ↦ (do w ← filewrite i (peek s.user p n); count_written w) s
]

unfoldable pub close_fd : Option (ℕ × ℕ) → Cmd System ℤ
unfolding fileclose
close_fd none = pure minus_one
close_fd (some (fd, i)) = do modify (set_fd fd none); fileclose i; pure (pos 0)

unfoldable pub sys_close : Cmd System ℤ
unfolding argfd close_fd
sys_close s = close_fd (argfd 0 s) s

-- The 20 bytes of a `struct stat`; those between the fields stay.
abbrev short_bytes : ℕ → List ℕ
short_bytes w = w % 256 ∷ (w / 256 % 256 ∷ [])

abbrev pub int_bytes : ℕ → List ℕ
int_bytes w = w % 256 ∷ (w / 256 % 256 ∷ (w / 65536 % 256 ∷ (w / 16777216 % 256 ∷ [])))

unfoldable pub poke_stat : ℕ → Stat → User → User
unfolding poke
poke_stat p st u = poke (p + 16) (int_bytes st.size) (
    poke (p + 12) (short_bytes st.nlink) (
      poke (p + 8) (int_bytes st.ino)
        (poke (p + 4) (int_bytes st.dev) (poke p (short_bytes st.type) u))))

unfoldable pub store_stat : ℕ → Option Stat → Cmd System ℤ
unfolding poke_stat
store_stat p o =
    or_fail o (λ st. modify (λ s. record s { user = poke_stat p st s.user }) >> pure (pos 0))

unfoldable pub sys_fstat : Cmd System ℤ
unfolding argfd argptr filestat store_stat
sys_fstat s = elim (argfd 0 s) [
  | none ↦ ok minus_one s
  | some (_, i) ↦ elim (argptr s.user 1 20) [
    | none ↦ ok minus_one s
    | some p ↦ (do o ← filestat i; store_stat p o) s
  ]
]

-- The two files of a new pipe at place `p`.
abbrev pub pipe_file : ℕ → Bool → OpenFile → OpenFile
pipe_file p writable o = record o {
  kind = fd_pipe;
  readable = not writable;
  writable = writable;
  pipe = p;
}

unfoldable pub join_files : ℕ → ℕ → Option (List ℕ × List (List ℕ)) → Cmd System (Option (ℕ × ℕ))
unfolding fileclose pipe_init
join_files i j none = do fileclose i; fileclose j; pure none
join_files i j (some (page, pages)) = do
  modify (λ s. record s {
    pipes = s.pipes ++ (some (pipe_init page) ∷ []);
    free_pages = pages;
    ftable =
        set (set s.ftable i (pipe_file (length s.pipes) false (open_file s i))) j
          (pipe_file (length s.pipes) true (open_file s j));
  })
  pure (some (i, j))

unfoldable pub second_file : ℕ → Option ℕ → Cmd System (Option (ℕ × ℕ))
unfolding fileclose kalloc join_files
second_file i none s = (fileclose i >> pure none) s
second_file i (some j) s = join_files i j (kalloc s.free_pages) s

unfoldable pub first_file : Option ℕ → Cmd System (Option (ℕ × ℕ))
unfolding filealloc second_file
first_file none = pure none
first_file (some i) = do o ← filealloc; second_file i o

-- `pipealloc`: the file to read from and the file to write to.
unfoldable pub pipealloc : Cmd System (Option (ℕ × ℕ))
unfolding filealloc first_file
pipealloc = do o ← filealloc; first_file o

abbrev pub close_both : ℕ → ℕ → Cmd System ℤ
close_both i j = do fileclose i; fileclose j; pure minus_one

unfoldable pub give_second : ℕ → ℕ → ℕ → ℕ → Option ℕ → Cmd System ℤ
unfolding poke
give_second p i j fd0 none = modify (set_fd fd0 none) >> close_both i j
give_second p i j fd0 (some fd1) = do
  modify (λ s. record s { user = poke p (int_bytes fd0 ++ int_bytes fd1) s.user })
  pure (pos 0)

unfoldable pub give_first : ℕ → ℕ → ℕ → Option ℕ → Cmd System ℤ
unfolding fdalloc give_second
give_first p i j none = close_both i j
give_first p i j (some fd0) = do o ← fdalloc j; give_second p i j fd0 o

unfoldable pub give_fds : ℕ → Option (ℕ × ℕ) → Cmd System ℤ
unfolding fdalloc give_first
give_fds p none = pure minus_one
give_fds p (some (i, j)) = do o ← fdalloc i; give_first p i j o

unfoldable pub sys_pipe : Cmd System ℤ
unfolding argptr pipealloc give_fds
sys_pipe s = elim (argptr s.user 0 8) [
  | none ↦ ok minus_one s
  | some p ↦ (do o ← pipealloc; give_fds p o) s
]
