-- ===== src/Fs/Calls/Opening.antt =====
-- Project03-FileSystem/sysfile.c and log.c: `open`, `chdir`, the arguments of `exec`, and `sync`.
use hyu_ele3021_operating_sy.Prelude.{
  ℕ, zero, suc, ◌+◌, ◌/◌, ◌%◌, ◌^◌, Bool, not, ◌&&◌, ◌||◌, Option, none, some, List, [], ◌∷◌, ◌==◌,
  if◌then◌else◌, ℤ, pos, minus_one,
}
use hyu_ele3021_operating_sy.Fs.Journal.{flush}
use hyu_ele3021_operating_sy.Fs.Names.{t_dir, Files, file}
use hyu_ele3021_operating_sy.Fs.Run.{ok, sleeps, Cmd, pure, modify, get_state, ◌>>=◌, ◌>>◌}
use hyu_ele3021_operating_sy.Fs.Handles.{
  Task, lock, release, put_inode, release_put, namei, begin, finish,
}
use hyu_ele3021_operating_sy.Fs.Links.{t_file}
use hyu_ele3021_operating_sy.Fs.Calls.{fd_inode, OpenFile, User, System, on_files}
use hyu_ele3021_operating_sy.Fs.Calls.Args.{fetchint, fetchstr, argint, argstr}
use hyu_ele3021_operating_sy.Fs.Calls.Table.{open_file, set_file, filealloc, fileclose}
use hyu_ele3021_operating_sy.Fs.Calls.Descriptors.{fdalloc}
use hyu_ele3021_operating_sy.Fs.Calls.Create.{create}

-- The flags of fcntl.h: `O_WRONLY`, `O_RDWR` and `O_CREATE` are bits 0, 1 and 9.
abbrev pub flag : ℕ → ℕ → Bool
flag i mode = mode / 2 ^ i % 2 == 1

unfoldable pub open_existing : Task → ℕ → Option ℕ → Cmd Files (Option ℕ)
unfolding lock release_put finish
open_existing t mode none = finish >> pure none
open_existing t mode (some i) = do
  lock t i
  f ← get_state
  if (file f i).meta.type == t_dir && not (mode == 0)
      then (do release_put t i; finish; pure none)
      else pure (some i)

unfoldable pub open_created : Option ℕ → Cmd Files (Option ℕ)
unfolding finish
open_created none = finish >> pure none
open_created (some i) = pure (some i)

-- The inode to open, locked.
unfoldable pub find_inode : List ℕ → ℕ → Task → Cmd Files (Option ℕ)
unfolding begin create open_created namei open_existing
find_inode path mode t = do
  begin
  if flag 9 mode
      then (do o ← create t (record { type = t_file; major = 0; minor = 0 }) path; open_created o)
      else (do o ← namei t path; open_existing t mode o)

-- The end of `sys_open` without a file or without a descriptor.
abbrev pub open_bad : ℕ → Cmd System ℤ
open_bad i = on_files (λ t. release_put t i >> finish) >> pure minus_one

abbrev pub opened : ℕ → ℕ → OpenFile → OpenFile
opened i mode o = record o {
  kind = fd_inode;
  ip = i;
  off = 0;
  readable = not (flag 0 mode);
  writable = flag 0 mode || flag 1 mode;
}

unfoldable pub open_fd : ℕ → ℕ → ℕ → Option ℕ → Cmd System ℤ
unfolding fileclose release finish release_put
open_fd mode i o none = fileclose o >> open_bad i
open_fd mode i o (some fd) = do
  on_files (λ t. release t i >> finish)
  modify (λ s. set_file o (opened i mode (open_file s o)) s)
  pure (pos fd)

unfoldable pub open_slot : ℕ → ℕ → Option ℕ → Cmd System ℤ
unfolding fdalloc open_fd release_put finish
open_slot mode i none = open_bad i
open_slot mode i (some o) = do fd ← fdalloc o; open_fd mode i o fd

unfoldable pub open_inode : ℕ → Option ℕ → Cmd System ℤ
unfolding filealloc open_slot
open_inode mode none = pure minus_one
open_inode mode (some i) = do o ← filealloc; open_slot mode i o

unfoldable pub sys_open : Cmd System ℤ
unfolding argstr argint find_inode open_inode
sys_open s = elim (argstr s.user 0) [
  | none ↦ ok minus_one s
  | some path ↦ elim (argint s.user 1) [
    | none ↦ ok minus_one s
    | some mode ↦ (do o ← on_files (find_inode path mode); open_inode mode o) s
  ]
]

-- The new directory, or none.
unfoldable pub enter_dir : Task → Option ℕ → Cmd Files (Option ℕ)
unfolding lock release release_put put_inode finish
enter_dir t none = finish >> pure none
enter_dir t (some i) = do
  lock t i
  f ← get_state
  if not ((file f i).meta.type == t_dir)
      then (do release_put t i; finish; pure none)
      else (do release t i; put_inode t t.cwd; finish; pure (some i))

unfoldable pub find_dir : Option (List ℕ) → Task → Cmd Files (Option ℕ)
unfolding begin finish namei enter_dir
find_dir none t = do begin; finish; pure none
find_dir (some path) t = do begin; o ← namei t path; enter_dir t o

unfoldable pub set_cwd : Option ℕ → Cmd System ℤ
set_cwd none = pure minus_one
set_cwd (some i) = modify (λ s. record s { cwd = i }) >> pure (pos 0)

unfoldable pub sys_chdir : Cmd System ℤ
unfolding argstr find_dir set_cwd
sys_chdir s = (do o ← on_files (find_dir (argstr s.user 0)); set_cwd o) s

-- The strings whose addresses stand from `addr` on, up to a 0, with room for `r` of them.
unfoldable pub exec_args : User → ℕ → ℕ → Option (List (List ℕ))
unfolding fetchint fetchstr
exec_args u zero addr = none
exec_args u (suc r) addr =
    let rest = exec_args u r (addr + 4) in
    elim (fetchint u (addr % 2 ^ 32)) [
      | none ↦ none
      | some p ↦ if p == 0 then some [] else (elim (fetchstr u p) [
        | none ↦ none
        | some cs ↦ elim rest [ none ↦ none | some css ↦ some (cs ∷ css) ]
      ])
    ]

-- What `sys_exec` calls `exec` with. `MAXARG` is 32.
unfoldable pub sys_exec : User → Option (List ℕ × List (List ℕ))
unfolding argstr argint exec_args
sys_exec u = elim (argstr u 0) [
  | none ↦ none
  | some path ↦ elim (argint u 1) [
    | none ↦ none
    | some argv ↦ elim (exec_args u 32 argv) [ none ↦ none | some css ↦ some (path, css) ]
  ]
]

-- `sync`, where no commit runs: what it does then is what `flush` does. It sleeps otherwise.
unfoldable pub sync : Cmd Files ℤ
unfolding flush
sync f =
    let (n, l, s) = flush f.kern.log f.kern.store in
    if f.kern.log.committing
    then sleeps
    else ok (pos n) (record f { kern = record { store = s; log = l } })

unfoldable pub sys_sync : Cmd System ℤ
unfolding sync
sys_sync = on_files (λ t. sync)
