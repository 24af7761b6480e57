-- ===== src/Fs/Calls/Table.antt =====
-- Project03-FileSystem/file.c: the table of open files. A `struct file *` is the index of its slot.
-- What is asked of a device ends with the request to its driver.
use hyu_ele3021_operating_sy.Prelude.{
  ℕ, zero, suc, ◌+◌, ◌-◌, ◌*◌, ◌/◌, Bool, not, Option, none, some, List, [], ◌∷◌, ltb, ◌==◌,
  if◌then◌else◌, length, get_or, set, take, drop,
}
use hyu_ele3021_operating_sy.Io.Pipe.{
  Written, done, failed, sleeps, pipewrite, Received, got, refused, waits, piperead, pipeclose,
}
use hyu_ele3021_operating_sy.Fs.Inode.{Stat, stati}
use hyu_ele3021_operating_sy.Fs.Names.{file}
use hyu_ele3021_operating_sy.Fs.Run.{
  Run, ok, sleeps, panics, unfinished, Cmd, pure, stop, modify, get_state, ◌>>=◌, ◌>>◌,
}
use hyu_ele3021_operating_sy.Fs.Handles.{lock, release, put_inode, begin, finish}
use hyu_ele3021_operating_sy.Fs.Links.{Reply, reply, fails, to_driver, read_inode, write_inode}
use hyu_ele3021_operating_sy.Fs.Calls.{
  Kind, fd_none, fd_pipe, fd_inode, OpenFile, blank_file, System, on_files, kfree,
}

abbrev pub open_file : System → ℕ → OpenFile
open_file s i = get_or s.ftable i blank_file

abbrev pub set_file : ℕ → OpenFile → System → System
set_file i o s = record s { ftable = set s.ftable i o }

-- The first slot without references, from slot `i` on.
unfoldable pub find_file : ℕ → List OpenFile → Option ℕ
find_file i [] = none
find_file i (o ∷ os) = let rest = find_file (i + 1) os in if o.ref == 0 then some i else rest

unfoldable pub take_file : System → Option ℕ → Run System (Option ℕ)
take_file s none = ok none s
take_file s (some i) = ok (some i) (set_file i (record (open_file s i) { ref = 1 }) s)

unfoldable pub filealloc : Cmd System (Option ℕ)
unfolding take_file find_file
filealloc s = take_file s (find_file 0 s.ftable)

unfoldable pub filedup : ℕ → Cmd System (Unit {0})
filedup i s =
    let o = open_file s i in
    if ltb o.ref 1 then panics else ok tt (set_file i (record o { ref = o.ref + 1 }) s)

-- `pipeclose` of the pipe at place `p`; its page goes back when both ends are closed.
unfoldable pub close_pipe : ℕ → Bool → Cmd System (Unit {0})
unfolding pipeclose kfree
close_pipe p writable s = elim (get_or s.pipes p none) [
  | none ↦ panics
  | some q ↦ elim (pipeclose writable q) [
    | none ↦ ok tt (record s { pipes = set s.pipes p none; free_pages = kfree s.free_pages })
    | some q' ↦ ok tt (record s { pipes = set s.pipes p (some q') })
  ]
]

-- The end of `fileclose` for the last reference, with the file as it was.
unfoldable pub close_last : OpenFile → Kind → Cmd System (Unit {0})
unfolding close_pipe put_inode begin finish
close_last o fd_none = pure tt
close_last o fd_pipe = close_pipe o.pipe o.writable
close_last o fd_inode = on_files (λ t. do begin; put_inode t o.ip; finish)

unfoldable pub fileclose : ℕ → Cmd System (Unit {0})
unfolding close_last
fileclose i s =
    let o = open_file s i in
    if ltb o.ref 1
    then panics
    else (if ltb 1 o.ref
        then ok tt (set_file i (record o { ref = o.ref - 1 }) s)
        else close_last o o.kind (set_file i (record o { ref = 0; kind = fd_none }) s))

unfoldable pub stat_of : Kind → ℕ → Cmd System (Option Stat)
unfolding lock release stati
stat_of fd_none i = pure none
stat_of fd_pipe i = pure none
stat_of fd_inode i =
    on_files (λ t. do lock t i; f ← get_state; release t i; pure (some (stati (file f i))))

unfoldable pub filestat : ℕ → Cmd System (Option Stat)
unfolding stat_of
filestat i s = stat_of (open_file s i).kind (open_file s i).ip s

unfoldable pub advance : ℕ → ℕ → Cmd System (Unit {0})
advance i n = modify (λ s. set_file i (record (open_file s i) { off = (open_file s i).off + n }) s)

unfoldable pub received : ℕ → System → Received → Run System (Reply (List ℕ))
received p s (got cs q) = ok (reply cs) (record s { pipes = set s.pipes p (some q) })
received p s refused = ok fails s
received p s waits = sleeps

unfoldable pub read_pipe : ℕ → ℕ → Cmd System (Reply (List ℕ))
unfolding received piperead
read_pipe p n s = elim (get_or s.pipes p none) [
  | none ↦ panics
  | some q ↦ received p s (piperead s.killed n q)
]

unfoldable pub after_read : ℕ → ℕ → Reply (List ℕ) → Cmd System (Reply (List ℕ))
unfolding advance release
after_read i ip (reply cs) = do advance i (length cs); on_files (λ t. release t ip); pure (reply cs)
after_read i ip fails = do on_files (λ t. release t ip); pure fails
after_read i ip (to_driver j) = pure (to_driver j)

unfoldable pub read_kind : ℕ → OpenFile → ℕ → Kind → Cmd System (Reply (List ℕ))
unfolding read_pipe lock read_inode after_read
read_kind i o n fd_none = stop
read_kind i o n fd_pipe = read_pipe o.pipe n
read_kind i o n fd_inode = do
  on_files (λ t. lock t o.ip)
  r ← on_files (λ t. read_inode t o.ip o.off n)
  after_read i o.ip r

unfoldable pub fileread : ℕ → ℕ → Cmd System (Reply (List ℕ))
unfolding read_kind
fileread i n s =
    let o = open_file s i in if not o.readable then ok fails s else read_kind i o n o.kind s

-- `max` of `filewrite`: ((MAXOPBLOCKS-1-1-2)/2)*512
abbrev pub max_write : ℕ
max_write = (10 - 1 - 1 - 2) / 2 * 512

-- A round of `filewrite` from the result of `writei` of `n1` bytes on; `next` is the rest of the loop.
unfoldable pub after_write : ℕ → ℕ → ℕ → Cmd System (Reply ℕ) → Reply ℕ → Cmd System (Reply ℕ)
unfolding advance release finish
after_write i ip n1 next (reply n) = do
  advance i n
  on_files (λ t. release t ip)
  on_files (λ t. finish)
  if n == n1 then next else stop
after_write i ip n1 next fails = do on_files (λ t. release t ip); on_files (λ t. finish); pure fails
after_write i ip n1 next (to_driver j) = pure (to_driver j)

-- The loop of `filewrite` for the bytes `cs`, in at most `r` rounds; `n` is the count of the call.
unfoldable pub filewrite_loop : ℕ → ℕ → ℕ → ℕ → List ℕ → Cmd System (Reply ℕ)
unfolding begin lock write_inode after_write
filewrite_loop i ip n zero cs s = unfinished
filewrite_loop i ip n (suc r) cs s =
    if length cs == 0
    then ok (reply n) s
    else (do
      on_files (λ t. begin)
      on_files (λ t. lock t ip)
      w ← on_files (λ t. write_inode t ip (open_file s i).off (take max_write cs))
      after_write i ip (length (take max_write cs)) (filewrite_loop i ip n r (drop max_write cs)) w)
        s

unfoldable pub sent_to_pipe : ℕ → ℕ → System → Written → Run System (Reply ℕ)
sent_to_pipe n p s (done q) = ok (reply n) (record s { pipes = set s.pipes p (some q) })
sent_to_pipe n p s (failed q) = ok fails (record s { pipes = set s.pipes p (some q) })
sent_to_pipe n p s (sleeps cs q) = sleeps

unfoldable pub write_pipe : ℕ → List ℕ → Cmd System (Reply ℕ)
unfolding sent_to_pipe pipewrite
write_pipe p cs s = elim (get_or s.pipes p none) [
  | none ↦ panics
  | some q ↦ sent_to_pipe (length cs) p s (pipewrite s.killed cs q)
]

-- Every round writes a byte at least.
unfoldable pub write_kind : ℕ → OpenFile → List ℕ → Kind → Cmd System (Reply ℕ)
unfolding write_pipe filewrite_loop
write_kind i o cs fd_none = stop
write_kind i o cs fd_pipe = write_pipe o.pipe cs
write_kind i o cs fd_inode = filewrite_loop i o.ip (length cs) (length cs + 1) cs

unfoldable pub filewrite : ℕ → List ℕ → Cmd System (Reply ℕ)
unfolding write_kind
filewrite i cs s =
    let o = open_file s i in if not o.writable then ok fails s else write_kind i o cs o.kind s
