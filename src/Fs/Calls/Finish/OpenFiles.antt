-- ===== src/Fs/Calls/Finish/OpenFiles.antt =====
-- The operations of file.c end.
use hyu_ele3021_operating_sy.Prelude.{
  length-drop, ℕ, zero, suc, ◌+◌, ◌<◌, ◌≡◌, refl, Bool, true, false, not, Option, none, some, List,
  arith, ltb, ◌==◌, if◌then◌else◌, length, get_or, set, take, drop,
}
use hyu_ele3021_operating_sy.Fs.Names.{Files, file}
use hyu_ele3021_operating_sy.Fs.Run.{
  stop, Run, ok, sleeps, panics, Cmd, pure, modify, get_state, ◌>>=◌, ◌>>◌,
}
use hyu_ele3021_operating_sy.Fs.Run.Outcomes.{
  Outcome, returns, waits, stops, leaves, IsTotal, pure-IsTotal,
}
use hyu_ele3021_operating_sy.Fs.Handles.{Task, lock, release, put_inode, begin, finish}
use hyu_ele3021_operating_sy.Fs.Entries.Totals.{
  lock-IsTotal, put_inode-IsTotal, release-IsTotal, read_inode-IsTotal, write_inode-IsTotal,
}
use hyu_ele3021_operating_sy.Fs.Calls.{System}
use hyu_ele3021_operating_sy.Fs.Calls.Finish.{seq, state-IsTotal, begin-IsTotal, finish-IsTotal}
use hyu_ele3021_operating_sy.Io.Pipe.{
  Pipe, Written, done, failed, sleeps, pipewrite, Received, got, refused, waits, piperead,
}
use hyu_ele3021_operating_sy.Fs.Links.{Reply, reply, fails, to_driver, read_inode, write_inode}
use hyu_ele3021_operating_sy.Fs.Calls.Table.{
  open_file, set_file, filealloc, filedup, fileclose, stat_of, advance, received, read_pipe,
  after_read, read_kind, fileread, max_write, after_write, filewrite_loop, sent_to_pipe, write_pipe,
  write_kind, filewrite,
}
use hyu_ele3021_operating_sy.Io.Pipe.{pipeclose}
use hyu_ele3021_operating_sy.Fs.Inode.{stati}
use hyu_ele3021_operating_sy.Fs.Calls.{
  Kind, fd_none, fd_pipe, fd_inode, OpenFile, task, with_files, on_files, kfree,
}
use hyu_ele3021_operating_sy.Fs.Calls.Table.{find_file, take_file, close_pipe, close_last}

-- A command on the inodes.
pub on_files-IsTotal :
    {A : Type 0} (m : Task → Cmd Files A) → ((t : Task) → IsTotal (m t)) → IsTotal (on_files m)
unfolding on_files
on_files-IsTotal {A} m h s = go (h (task s) s.files)
  where
    go :
        {r : Run Files A}
        → Outcome (λ (a : A) (t : Files). Unit {0}) r
        → Outcome (λ (a : A) (t : System). Unit {0}) (with_files s r)
    go (returns q) = returns tt
    go waits = waits
    go stops = stops
    go leaves = leaves

pub modify-IsTotal : {S : Type 0} (g : S → S) → IsTotal (modify g)
modify-IsTotal g s = returns tt

pub filealloc-IsTotal : IsTotal filealloc
unfolding filealloc take_file
filealloc-IsTotal s = go (find_file 0 s.ftable)
  where
    go : (o : Option ℕ) → Outcome (λ (a : Option ℕ) (t : System). Unit {0}) (take_file s o)
    go none = returns tt
    go (some i) = returns tt

pub panic_or :
    {A : Type 0} (c : Bool) {r : Run System A}
    → Outcome (λ (a : A) (t : System). Unit {0}) r
    → Outcome (λ (a : A) (t : System). Unit {0}) (if c then panics else r)
panic_or true h = stops
panic_or false h = h

pub either :
    {A : Type 0} (c : Bool) {r r' : Run System A}
    → Outcome (λ (a : A) (t : System). Unit {0}) r
    → Outcome (λ (a : A) (t : System). Unit {0}) r'
    → Outcome (λ (a : A) (t : System). Unit {0}) (if c then r else r')
either true h k = h
either false h k = k

pub filedup-IsTotal : (i : ℕ) → IsTotal (filedup i)
unfolding filedup
filedup-IsTotal i s = panic_or (ltb (open_file s i).ref 1) (returns tt)

pub close_pipe-IsTotal : (p : ℕ) (w : Bool) → IsTotal (close_pipe p w)
unfolding close_pipe
close_pipe-IsTotal p w s = go (get_or s.pipes p none)
  where
    after :
        (o : Option Pipe)
        → Outcome
            (λ (a : Unit {0}) (t : System). Unit {0})
            (elim o [
              | none ↦
                  ok tt (record s { pipes = set s.pipes p none; free_pages = kfree s.free_pages })
              | some x ↦ ok tt (record s { pipes = set s.pipes p (some x) })
            ])
    after none = returns tt
    after (some x) = returns tt

    go :
        (o : Option Pipe)
        → Outcome
            (λ (a : Unit {0}) (t : System). Unit {0})
            (elim o [
              | none ↦ panics
              | some x ↦ elim (pipeclose w x) [
                | none ↦
                    ok tt (record s { pipes = set s.pipes p none; free_pages = kfree s.free_pages })
                | some y ↦ ok tt (record s { pipes = set s.pipes p (some y) })
              ]
            ])
    go none = stops
    go (some x) = after (pipeclose w x)

pub close_last-IsTotal : (o : OpenFile) (c : Kind) → IsTotal (close_last o c)
unfolding close_last
close_last-IsTotal o fd_none = pure-IsTotal tt
close_last-IsTotal o fd_pipe = close_pipe-IsTotal o.pipe o.writable
close_last-IsTotal o fd_inode =
    on_files-IsTotal (λ t. do begin; put_inode t o.ip; finish)
      (λ t. seq begin-IsTotal (λ _. seq (put_inode-IsTotal t o.ip) (λ _. finish-IsTotal)))

pub fileclose-IsTotal : (i : ℕ) → IsTotal (fileclose i)
unfolding fileclose
fileclose-IsTotal i s = panic_or (ltb (open_file s i).ref 1) (
    either (ltb 1 (open_file s i).ref) (returns tt) (
      close_last-IsTotal (open_file s i) (open_file s i).kind
        (set_file i (record (open_file s i) { ref = 0; kind = fd_none }) s)))

pub stat_of-IsTotal : (c : Kind) (i : ℕ) → IsTotal (stat_of c i)
unfolding stat_of
stat_of-IsTotal fd_none i = pure-IsTotal none
stat_of-IsTotal fd_pipe i = pure-IsTotal none
stat_of-IsTotal fd_inode i =
    on_files-IsTotal (λ t. do lock t i; f ← get_state; release t i; pure (some (stati (file f i))))
      (λ t. seq (lock-IsTotal t i) (λ _.
        seq state-IsTotal
          (λ f. seq (release-IsTotal t i) (λ _. pure-IsTotal (some (stati (file f i)))))))

pub let_go : (ip : ℕ) → IsTotal (on_files (λ t. release t ip))
let_go ip = on_files-IsTotal (λ t. release t ip) (λ t. release-IsTotal t ip)

pub advance-IsTotal : (i n : ℕ) → IsTotal (advance i n)
unfolding advance
advance-IsTotal i n s = returns tt

pub after_read-IsTotal : (i ip : ℕ) (r : Reply (List ℕ)) → IsTotal (after_read i ip r)
unfolding after_read
after_read-IsTotal i ip (reply cs) =
    seq (advance-IsTotal i (length cs)) (λ _. seq (let_go ip) (λ _. pure-IsTotal (reply cs)))
after_read-IsTotal i ip fails = seq (let_go ip) (λ _. pure-IsTotal fails)
after_read-IsTotal i ip (to_driver j) = pure-IsTotal (to_driver j)

pub read_pipe-IsTotal : (p n : ℕ) → IsTotal (read_pipe p n)
unfolding read_pipe received
read_pipe-IsTotal p n s = go (get_or s.pipes p none)
  where
    after :
        (r : Received) → Outcome (λ (a : Reply (List ℕ)) (t : System). Unit {0}) (received p s r)
    after (got cs q) = returns tt
    after refused = returns tt
    after waits = waits

    go :
        (o : Option Pipe)
        → Outcome
            (λ (a : Reply (List ℕ)) (t : System). Unit {0})
            (elim o [ none ↦ panics | some q ↦ received p s (piperead s.killed n q) ])
    go none = stops
    go (some q) = after (piperead s.killed n q)

pub read_kind-IsTotal : (i : ℕ) (o : OpenFile) (n : ℕ) (c : Kind) → IsTotal (read_kind i o n c)
unfolding read_kind
read_kind-IsTotal i o n fd_none s = stops
read_kind-IsTotal i o n fd_pipe s = read_pipe-IsTotal o.pipe n s
read_kind-IsTotal i o n fd_inode s =
    seq (on_files-IsTotal (λ t. lock t o.ip) (λ t. lock-IsTotal t o.ip))
      (λ _.
        seq
          (on_files-IsTotal (λ t. read_inode t o.ip o.off n)
            (λ t. read_inode-IsTotal t o.ip o.off n))
          (after_read-IsTotal i o.ip))
      s

pub fileread-IsTotal : (i n : ℕ) → IsTotal (fileread i n)
unfolding fileread
fileread-IsTotal i n s =
    either (not (open_file s i).readable) (returns tt)
      (read_kind-IsTotal i (open_file s i) n (open_file s i).kind s)

pub after_write-IsTotal :
    (i ip n1 : ℕ) (next : Cmd System (Reply ℕ)) (r : Reply ℕ)
    → IsTotal next
    → IsTotal (after_write i ip n1 next r)
unfolding after_write
after_write-IsTotal i ip n1 next (reply n) h = seq (advance-IsTotal i n) (λ _.
    seq (let_go ip)
      (λ _. seq (on_files-IsTotal (λ t. finish) (λ t. finish-IsTotal)) (λ _. whole (n == n1))))
  where
    whole : (c : Bool) → IsTotal (if c then next else stop)
    whole true s = h s
    whole false s = stops
after_write-IsTotal i ip n1 next fails h =
    seq (let_go ip)
      (λ _. seq (on_files-IsTotal (λ t. finish) (λ t. finish-IsTotal)) (λ _. pure-IsTotal fails))
after_write-IsTotal i ip n1 next (to_driver j) h = pure-IsTotal (to_driver j)

-- A round writes a byte at least.
pub filewrite_loop-IsTotal :
    (i ip n r : ℕ) (cs : List ℕ) → length cs < r → IsTotal (filewrite_loop i ip n r cs)
unfolding filewrite_loop
filewrite_loop-IsTotal i ip n zero cs h s = absurd (omega (arith, h))
filewrite_loop-IsTotal i ip n (suc r) cs h s =
    known (length cs == 0) (λ e. returns tt)
      (λ e.
        seq (on_files-IsTotal (λ t. begin) (λ t. begin-IsTotal))
          (λ _. seq (on_files-IsTotal (λ t. lock t ip) (λ t. lock-IsTotal t ip)) (λ _.
            seq
              (on_files-IsTotal (λ t. write_inode t ip (open_file s i).off (take max_write cs))
                (λ t. write_inode-IsTotal t ip (open_file s i).off (take max_write cs)))
              (λ w.
                after_write-IsTotal i ip (length (take max_write cs))
                  (filewrite_loop i ip n r (drop max_write cs)) w
                  (filewrite_loop-IsTotal i ip n r (drop max_write cs) (shorter e)))))
          s)
  where
    known :
        (c : Bool) {x y : Run System (Reply ℕ)}
        → (c ≡ true → Outcome (λ (a : Reply ℕ) (t : System). Unit {0}) x)
        → (c ≡ false → Outcome (λ (a : Reply ℕ) (t : System). Unit {0}) y)
        → Outcome (λ (a : Reply ℕ) (t : System). Unit {0}) (if c then x else y)
    known true f g = f refl
    known false f g = g refl

    shorter : (length cs == 0) ≡ false → length (drop max_write cs) < r
    shorter e =
        let l = length-drop max_write cs in
        let some_left : 0 < length cs = positive (length cs) e in omega (arith, h, l, some_left)
      where
        positive : (n : ℕ) → (n == 0) ≡ false → 0 < n
        positive n e = ground (arith, e)

pub write_pipe-IsTotal : (p : ℕ) (cs : List ℕ) → IsTotal (write_pipe p cs)
unfolding write_pipe sent_to_pipe
write_pipe-IsTotal p cs s = go (get_or s.pipes p none)
  where
    after :
        (w : Written)
        → Outcome (λ (a : Reply ℕ) (t : System). Unit {0}) (sent_to_pipe (length cs) p s w)
    after (done q) = returns tt
    after (failed q) = returns tt
    after (sleeps ds q) = waits

    go :
        (o : Option Pipe)
        → Outcome
            (λ (a : Reply ℕ) (t : System). Unit {0})
            (elim o [
              | none ↦ panics
              | some q ↦ sent_to_pipe (length cs) p s (pipewrite s.killed cs q)
            ])
    go none = stops
    go (some q) = after (pipewrite s.killed cs q)

pub write_kind-IsTotal :
    (i : ℕ) (o : OpenFile) (cs : List ℕ) (c : Kind) → IsTotal (write_kind i o cs c)
unfolding write_kind
write_kind-IsTotal i o cs fd_none s = stops
write_kind-IsTotal i o cs fd_pipe s = write_pipe-IsTotal o.pipe cs s
write_kind-IsTotal i o cs fd_inode s =
    filewrite_loop-IsTotal i o.ip (length cs) (length cs + 1) cs (omega arith) s

pub filewrite-IsTotal : (i : ℕ) (cs : List ℕ) → IsTotal (filewrite i cs)
unfolding filewrite
filewrite-IsTotal i cs s =
    either (not (open_file s i).writable) (returns tt)
      (write_kind-IsTotal i (open_file s i) cs (open_file s i).kind s)
