-- ===== src/Fs/Calls/Finish/Descriptors.antt =====
-- The calls on descriptors end, but for `open`.
use hyu_ele3021_operating_sy.Prelude.{ℕ, Option, none, some, List, ℤ, pos, minus_one}
use hyu_ele3021_operating_sy.Fs.Run.{ok, Cmd, pure, ◌>>◌}
use hyu_ele3021_operating_sy.Fs.Run.Outcomes.{Outcome, returns, IsTotal, pure-IsTotal}
use hyu_ele3021_operating_sy.Fs.Calls.{System}
use hyu_ele3021_operating_sy.Fs.Calls.Finish.{seq}
use hyu_ele3021_operating_sy.Fs.Links.{Reply, reply, fails, to_driver}
use hyu_ele3021_operating_sy.Fs.Calls.Table.{filedup}
use hyu_ele3021_operating_sy.Fs.Calls.Descriptors.{
  nofile, set_fd, fdalloc, dup_file, store_read, count_written, close_fd, store_stat,
}
use hyu_ele3021_operating_sy.Fs.Inode.{Stat}
use hyu_ele3021_operating_sy.Fs.Calls.{or_fail, kalloc}
use hyu_ele3021_operating_sy.Fs.Calls.Descriptors.{
  find_fd, take_fd, join_files, second_file, first_file, pipealloc, close_both, give_second,
  give_first, give_fds,
}
use hyu_ele3021_operating_sy.Fs.Calls.Finish.OpenFiles.{
  filealloc-IsTotal, fileclose-IsTotal, filedup-IsTotal, modify-IsTotal,
}

pub fdalloc-IsTotal : (i : ℕ) → IsTotal (fdalloc i)
unfolding fdalloc take_fd
fdalloc-IsTotal i s = go (find_fd s.ofile nofile 0)
  where
    go : (o : Option ℕ) → Outcome (λ (a : Option ℕ) (t : System). Unit {0}) (take_fd i s o)
    go none = returns tt
    go (some fd) = returns tt

-- Without its argument a call fails at once.
pub or_fail-IsTotal :
    {A : Type 0} (o : Option A) (m : A → Cmd System ℤ)
    → ((a : A) → IsTotal (m a))
    → IsTotal (or_fail o m)
unfolding or_fail
or_fail-IsTotal none m h = pure-IsTotal minus_one
or_fail-IsTotal (some a) m h = h a

pub given :
    {A B : Type 0} (o : Option A) (b : B) (m : A → Cmd System B)
    → ((a : A) → IsTotal (m a))
    → (s : System)
    → Outcome (λ (a : B) (t : System). Unit {0}) (elim o [ none ↦ ok b s | some a ↦ m a s ])
given none b m h s = returns tt
given (some a) b m h s = h a s

pub dup_file-IsTotal : (o : Option (ℕ × ℕ)) → IsTotal (dup_file o)
unfolding dup_file
dup_file-IsTotal none s = returns tt
dup_file-IsTotal (some (_, i)) s =
    seq (fdalloc-IsTotal i)
      (λ o.
        or_fail-IsTotal o (λ fd. filedup i >> pure (pos fd))
          (λ fd. seq (filedup-IsTotal i) (λ _. pure-IsTotal (pos fd))))
      s

pub close_fd-IsTotal : (o : Option (ℕ × ℕ)) → IsTotal (close_fd o)
unfolding close_fd
close_fd-IsTotal none s = returns tt
close_fd-IsTotal (some (fd, i)) s =
    seq (modify-IsTotal (set_fd fd none))
      (λ _. seq (fileclose-IsTotal i) (λ _. pure-IsTotal (pos 0))) s

pub store_read-IsTotal : (p : ℕ) (r : Reply (List ℕ)) → IsTotal (store_read p r)
unfolding store_read
store_read-IsTotal p (reply cs) s = returns tt
store_read-IsTotal p fails s = returns tt
store_read-IsTotal p (to_driver j) s = returns tt

pub count_written-IsTotal : (r : Reply ℕ) → IsTotal (count_written r)
unfolding count_written
count_written-IsTotal (reply n) s = returns tt
count_written-IsTotal fails s = returns tt
count_written-IsTotal (to_driver j) s = returns tt

pub store_stat-IsTotal : (p : ℕ) (o : Option Stat) → IsTotal (store_stat p o)
unfolding store_stat or_fail
store_stat-IsTotal p none s = returns tt
store_stat-IsTotal p (some st) s = returns tt

pub close_both-IsTotal : (i j : ℕ) → IsTotal (close_both i j)
close_both-IsTotal i j =
    seq (fileclose-IsTotal i) (λ _. seq (fileclose-IsTotal j) (λ _. pure-IsTotal minus_one))

pub join_files-IsTotal :
    (i j : ℕ) (o : Option (List ℕ × List (List ℕ))) → IsTotal (join_files i j o)
unfolding join_files
join_files-IsTotal i j none s =
    seq (fileclose-IsTotal i) (λ _. seq (fileclose-IsTotal j) (λ _. pure-IsTotal none)) s
join_files-IsTotal i j (some (page, pages)) s = returns tt

pub second_file-IsTotal : (i : ℕ) (o : Option ℕ) → IsTotal (second_file i o)
unfolding second_file
second_file-IsTotal i none s = seq (fileclose-IsTotal i) (λ _. pure-IsTotal none) s
second_file-IsTotal i (some j) s = join_files-IsTotal i j (kalloc s.free_pages) s

pub first_file-IsTotal : (o : Option ℕ) → IsTotal (first_file o)
unfolding first_file
first_file-IsTotal none s = returns tt
first_file-IsTotal (some i) s = seq filealloc-IsTotal (second_file-IsTotal i) s

pub pipealloc-IsTotal : IsTotal pipealloc
unfolding pipealloc
pipealloc-IsTotal = seq filealloc-IsTotal first_file-IsTotal

pub give_second-IsTotal : (p i j fd0 : ℕ) (o : Option ℕ) → IsTotal (give_second p i j fd0 o)
unfolding give_second
give_second-IsTotal p i j fd0 none s =
    seq (modify-IsTotal (set_fd fd0 none)) (λ _. close_both-IsTotal i j) s
give_second-IsTotal p i j fd0 (some fd1) s = returns tt

pub give_first-IsTotal : (p i j : ℕ) (o : Option ℕ) → IsTotal (give_first p i j o)
unfolding give_first
give_first-IsTotal p i j none s = close_both-IsTotal i j s
give_first-IsTotal p i j (some fd0) s = seq (fdalloc-IsTotal j) (give_second-IsTotal p i j fd0) s

pub give_fds-IsTotal : (p : ℕ) (o : Option (ℕ × ℕ)) → IsTotal (give_fds p o)
unfolding give_fds
give_fds-IsTotal p none s = returns tt
give_fds-IsTotal p (some (i, j)) s = seq (fdalloc-IsTotal i) (give_first-IsTotal p i j) s
