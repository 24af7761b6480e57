-- ===== src/Fs/Calls/Dispatch.antt =====
-- Project03-FileSystem/syscall.c: the system calls on files in the table `syscalls`, but for `exec`.
use hyu_ele3021_operating_sy.Prelude.{List, [], ◌∷◌, ℤ}
use hyu_ele3021_operating_sy.Fs.Run.{Cmd, pure, modify, ◌>>=◌, ◌>>◌}
use hyu_ele3021_operating_sy.Fs.Links.{Reply, reply}
use hyu_ele3021_operating_sy.Fs.Calls.{User, System}
use hyu_ele3021_operating_sy.Fs.Calls.Descriptors.{
  sys_dup, sys_read, sys_write, sys_close, sys_fstat, sys_pipe,
}
use hyu_ele3021_operating_sy.Fs.Calls.Naming.{sys_link, sys_unlink}
use hyu_ele3021_operating_sy.Fs.Calls.Create.{sys_mkdir, sys_mknod, sys_symlink}
use hyu_ele3021_operating_sy.Fs.Calls.Opening.{sys_open, sys_chdir, sys_sync}

pub data Call : Type 0 where
  call_pipe : Call
  call_read : Call
  call_fstat : Call
  call_chdir : Call
  call_dup : Call
  call_open : Call
  call_write : Call
  call_mknod : Call
  call_unlink : Call
  call_link : Call
  call_mkdir : Call
  call_close : Call
  call_symlink : Call
  call_sync : Call

abbrev pub number : Cmd System ℤ → Cmd System (Reply ℤ)
number m = do n ← m; pure (reply n)

unfoldable pub syscall : Call → Cmd System (Reply ℤ)
unfolding sys_pipe sys_read sys_fstat sys_chdir sys_dup sys_open sys_write sys_mknod sys_unlink
    sys_link sys_mkdir sys_close sys_symlink sys_sync
syscall call_pipe = number sys_pipe
syscall call_read = sys_read
syscall call_fstat = number sys_fstat
syscall call_chdir = number sys_chdir
syscall call_dup = number sys_dup
syscall call_open = number sys_open
syscall call_write = sys_write
syscall call_mknod = number sys_mknod
syscall call_unlink = number sys_unlink
syscall call_link = number sys_link
syscall call_mkdir = number sys_mkdir
syscall call_close = number sys_close
syscall call_symlink = number sys_symlink
syscall call_sync = number sys_sync

-- Calls one after the other, each with the memory and the stack pointer that the process has then.
unfoldable pub run_calls : List (User × Call) → Cmd System (List (Reply ℤ))
unfolding syscall
run_calls [] = pure []
run_calls ((u, c) ∷ cs) = do
  modify (λ s. record s { user = u })
  r ← syscall c
  rs ← run_calls cs
  pure (r ∷ rs)
