-- ===== src/Fs/Calls/Finish/All.antt =====
-- All calls on files end: no loop of the model runs out of rounds.
use hyu_ele3021_operating_sy.Prelude.{ℕ, ◌≢◌, Option, none, some, List, ℤ, pos, minus_one}
use hyu_ele3021_operating_sy.Fs.Names.{Files}
use hyu_ele3021_operating_sy.Fs.Run.{ok, unfinished, Cmd, ◌>>=◌, ◌>>◌}
use hyu_ele3021_operating_sy.Fs.Run.Outcomes.{
  Outcome, returns, IsTotal, pure-IsTotal, not_unfinished,
}
use hyu_ele3021_operating_sy.Fs.Handles.{Task, release, release_put, finish}
use hyu_ele3021_operating_sy.Fs.Entries.Totals.{release-IsTotal, release_put-IsTotal}
use hyu_ele3021_operating_sy.Fs.Calls.Naming.{link_paths, unlink_path}
use hyu_ele3021_operating_sy.Fs.Calls.{System}
use hyu_ele3021_operating_sy.Fs.Calls.Finish.{
  seq, finish-IsTotal, link_paths-IsTotal, unlink_path-IsTotal,
}
use hyu_ele3021_operating_sy.Fs.Calls.Create.{make_node, symlink_paths}
use hyu_ele3021_operating_sy.Fs.Calls.Opening.{find_inode, find_dir, sync}
use hyu_ele3021_operating_sy.Fs.Links.{Reply, reply}
use hyu_ele3021_operating_sy.Fs.Calls.Args.{argint, argptr, peek}
use hyu_ele3021_operating_sy.Fs.Calls.Table.{
  open_file, set_file, filestat, stat_of, fileread, filewrite,
}
use hyu_ele3021_operating_sy.Fs.Calls.Descriptors.{
  argfd, sys_dup, request, store_read, sys_read, count_written, sys_write, sys_close, store_stat,
  sys_fstat, sys_pipe,
}
use hyu_ele3021_operating_sy.Fs.Calls.Args.{argstr}
use hyu_ele3021_operating_sy.Fs.Calls.Opening.{sync, sys_sync, sys_open, sys_chdir}
use hyu_ele3021_operating_sy.Fs.Calls.Dispatch.{
  Call, call_pipe, call_read, call_fstat, call_chdir, call_dup, call_open, call_write, call_mknod,
  call_unlink, call_link, call_mkdir, call_close, call_symlink, call_sync, number, syscall,
}
use hyu_ele3021_operating_sy.Fs.Calls.{on_files}
use hyu_ele3021_operating_sy.Fs.Calls.Descriptors.{pipealloc, give_fds}
use hyu_ele3021_operating_sy.Fs.Calls.Opening.{
  open_bad, open_fd, open_slot, open_inode, set_cwd, opened,
}
use hyu_ele3021_operating_sy.Fs.Calls.Naming.{sys_link, sys_unlink}
use hyu_ele3021_operating_sy.Fs.Calls.Create.{
  mkdir_call, mknod_args, sys_mkdir, sys_mknod, sys_symlink,
}
use hyu_ele3021_operating_sy.Fs.Calls.Finish.Creating.{
  sync-IsTotal, make_node-IsTotal, symlink_paths-IsTotal, find_inode-IsTotal, find_dir-IsTotal,
}
use hyu_ele3021_operating_sy.Fs.Calls.Finish.OpenFiles.{
  filealloc-IsTotal, fileclose-IsTotal, fileread-IsTotal, filewrite-IsTotal, modify-IsTotal,
  on_files-IsTotal, stat_of-IsTotal,
}
use hyu_ele3021_operating_sy.Fs.Calls.Finish.Descriptors.{
  close_fd-IsTotal, count_written-IsTotal, dup_file-IsTotal, fdalloc-IsTotal, give_fds-IsTotal,
  given, pipealloc-IsTotal, store_read-IsTotal, store_stat-IsTotal,
}

open_bad-IsTotal : (i : ℕ) → IsTotal (open_bad i)
open_bad-IsTotal i =
    seq
      (on_files-IsTotal (λ t. release_put t i >> finish)
        (λ t. seq (release_put-IsTotal t i) (λ _. finish-IsTotal)))
      (λ _. pure-IsTotal minus_one)

open_fd-IsTotal : (mode i o : ℕ) (fd : Option ℕ) → IsTotal (open_fd mode i o fd)
unfolding open_fd
open_fd-IsTotal mode i o none s = seq (fileclose-IsTotal o) (λ _. open_bad-IsTotal i) s
open_fd-IsTotal mode i o (some fd) s =
    seq
      (on_files-IsTotal (λ t. release t i >> finish)
        (λ t. seq (release-IsTotal t i) (λ _. finish-IsTotal)))
      (λ _.
        seq (modify-IsTotal (λ s. set_file o (opened i mode (open_file s o)) s))
          (λ _. pure-IsTotal (pos fd)))
      s

open_slot-IsTotal : (mode i : ℕ) (o : Option ℕ) → IsTotal (open_slot mode i o)
unfolding open_slot
open_slot-IsTotal mode i none s = open_bad-IsTotal i s
open_slot-IsTotal mode i (some o) s = seq (fdalloc-IsTotal o) (open_fd-IsTotal mode i o) s

open_inode-IsTotal : (mode : ℕ) (o : Option ℕ) → IsTotal (open_inode mode o)
unfolding open_inode
open_inode-IsTotal mode none s = returns tt
open_inode-IsTotal mode (some i) s = seq filealloc-IsTotal (open_slot-IsTotal mode i) s

set_cwd-IsTotal : (o : Option ℕ) → IsTotal (set_cwd o)
unfolding set_cwd
set_cwd-IsTotal none s = returns tt
set_cwd-IsTotal (some i) s = returns tt

number-IsTotal : (m : Cmd System ℤ) → IsTotal m → IsTotal (number m)
number-IsTotal m h = seq h (λ n. pure-IsTotal (reply n))

-- The calls with two paths.
two_paths :
    (o o' : Option (List ℕ)) (m : List ℕ → List ℕ → Task → Cmd Files ℤ)
    → ((cs ds : List ℕ) (t : Task) → IsTotal (m cs ds t))
    → (s : System)
    → Outcome
        (λ (a : ℤ) (t : System). Unit {0})
        (elim o [
          | none ↦ ok minus_one s
          | some cs ↦ elim o' [ none ↦ ok minus_one s | some ds ↦ on_files (m cs ds) s ]
        ])
two_paths none o' m h s = returns tt
two_paths (some cs) o' m h s =
    given o' minus_one (λ ds. on_files (m cs ds)) (λ ds. on_files-IsTotal (m cs ds) (h cs ds)) s

sys_read-IsTotal : IsTotal sys_read
unfolding sys_read
sys_read-IsTotal s = go (request s)
  where
    go :
        (o : Option (ℕ × ℕ × ℕ))
        → Outcome
            (λ (a : Reply ℤ) (t : System). Unit {0})
            (elim o [
              | none ↦ ok (reply minus_one) s
              | some (i, p, n) ↦ (fileread i n >>= store_read p) s
            ])
    go none = returns tt
    go (some (i, p, n)) = seq (fileread-IsTotal i n) (store_read-IsTotal p) s

sys_write-IsTotal : IsTotal sys_write
unfolding sys_write
sys_write-IsTotal s = go (request s)
  where
    go :
        (o : Option (ℕ × ℕ × ℕ))
        → Outcome
            (λ (a : Reply ℤ) (t : System). Unit {0})
            (elim o [
              | none ↦ ok (reply minus_one) s
              | some (i, p, n) ↦ (filewrite i (peek s.user p n) >>= count_written) s
            ])
    go none = returns tt
    go (some (i, p, n)) = seq (filewrite-IsTotal i (peek s.user p n)) count_written-IsTotal s

sys_fstat-IsTotal : IsTotal sys_fstat
unfolding sys_fstat filestat
sys_fstat-IsTotal s = go (argfd 0 s)
  where
    go :
        (o : Option (ℕ × ℕ))
        → Outcome
            (λ (a : ℤ) (t : System). Unit {0})
            (elim o [
              | none ↦ ok minus_one s
              | some (_, i) ↦ elim (argptr s.user 1 20) [
                | none ↦ ok minus_one s
                | some p ↦ (stat_of (open_file s i).kind (open_file s i).ip >>= store_stat p) s
              ]
            ])
    go none = returns tt
    go (some (_, i)) =
        given (argptr s.user 1 20) minus_one
          (λ p. stat_of (open_file s i).kind (open_file s i).ip >>= store_stat p)
          (λ p.
            seq (stat_of-IsTotal (open_file s i).kind (open_file s i).ip) (store_stat-IsTotal p))
          s

sys_open-IsTotal : IsTotal sys_open
unfolding sys_open
sys_open-IsTotal s = go (argstr s.user 0)
  where
    go :
        (o : Option (List ℕ))
        → Outcome
            (λ (a : ℤ) (t : System). Unit {0})
            (elim o [
              | none ↦ ok minus_one s
              | some cs ↦ elim (argint s.user 1) [
                | none ↦ ok minus_one s
                | some mode ↦ (on_files (find_inode cs mode) >>= open_inode mode) s
              ]
            ])
    go none = returns tt
    go (some cs) =
        given (argint s.user 1) minus_one
          (λ mode. on_files (find_inode cs mode) >>= open_inode mode)
          (λ mode.
            seq (on_files-IsTotal (find_inode cs mode) (λ t. find_inode-IsTotal t cs mode))
              (open_inode-IsTotal mode))
          s

syscall-IsTotal : (c : Call) → IsTotal (syscall c)
unfolding syscall sys_mknod sys_unlink sys_link sys_mkdir sys_symlink sys_sync sys_dup sys_close
    sys_pipe sys_chdir
syscall-IsTotal call_pipe = number-IsTotal sys_pipe (λ s.
    given (argptr s.user 0 8) minus_one (λ p. pipealloc >>= give_fds p)
      (λ p. seq pipealloc-IsTotal (give_fds-IsTotal p)) s)
syscall-IsTotal call_read = sys_read-IsTotal
syscall-IsTotal call_fstat = number-IsTotal sys_fstat sys_fstat-IsTotal
syscall-IsTotal call_chdir = number-IsTotal sys_chdir (λ s.
    seq (on_files-IsTotal (find_dir (argstr s.user 0)) (λ t. find_dir-IsTotal t (argstr s.user 0)))
      set_cwd-IsTotal s)
syscall-IsTotal call_dup = number-IsTotal sys_dup (λ s. dup_file-IsTotal (argfd 0 s) s)
syscall-IsTotal call_open = number-IsTotal sys_open sys_open-IsTotal
syscall-IsTotal call_write = sys_write-IsTotal
syscall-IsTotal call_mknod = number-IsTotal sys_mknod (λ s.
    on_files-IsTotal (make_node (mknod_args s.user)) (λ t. make_node-IsTotal t (mknod_args s.user))
      s)
syscall-IsTotal call_unlink = number-IsTotal sys_unlink (λ s.
    given (argstr s.user 0) minus_one (λ cs. on_files (unlink_path cs))
      (λ cs. on_files-IsTotal (unlink_path cs) (λ t. unlink_path-IsTotal t cs)) s)
syscall-IsTotal call_link = number-IsTotal sys_link (λ s.
    two_paths (argstr s.user 0) (argstr s.user 1) link_paths (λ cs ds t. link_paths-IsTotal t cs ds)
      s)
syscall-IsTotal call_mkdir =
    number-IsTotal sys_mkdir
      (λ s. on_files-IsTotal (mkdir_call s.user) (λ t. make_node-IsTotal t _) s)
syscall-IsTotal call_close = number-IsTotal sys_close (λ s. close_fd-IsTotal (argfd 0 s) s)
syscall-IsTotal call_symlink = number-IsTotal sys_symlink (λ s.
    two_paths (argstr s.user 0) (argstr s.user 1) symlink_paths
      (λ cs ds t. symlink_paths-IsTotal t cs ds) s)
syscall-IsTotal call_sync =
    number-IsTotal sys_sync (on_files-IsTotal (λ t. sync) (λ t. sync-IsTotal))

-- Whatever the state and the arguments, no call on files runs out of the rounds that the model
-- gives to its loops: those of `readi`, `writei`, `dirlookup`, `namex`, `dirlink`, `isdirempty`,
-- `filewrite` and the one over links.
pub syscall-Ends : (c : Call) (s : System) → syscall c s ≢ unfinished
syscall-Ends c s = not_unfinished (syscall-IsTotal c s)
