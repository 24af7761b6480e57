-- ===== src/Fs/Entries/Totals.antt =====
-- Reading and writing an inode, through links, always ends.
use hyu_ele3021_operating_sy.Prelude.{
  ℕ, zero, suc, inl, inr, Bool, true, false, not, Option, none, some, List, ◌==◌, if◌then◌else◌,
  Bool-cases, length,
}
use mathlib.Core.Bool.{false≢true}
use hyu_ele3021_operating_sy.Fs.Content.{Contents, got, refused, panic, unfinished, readi}
use hyu_ele3021_operating_sy.Fs.Content.Ends
use hyu_ele3021_operating_sy.Fs.Content.Ends.{readi-IsDone}
use hyu_ele3021_operating_sy.Fs.Write.Ends.{IsDone, writei-IsDone}
use hyu_ele3021_operating_sy.Fs.Names.{
  Files, file, with_file, Walk, reached, nowhere, sleeps, dies, unfinished, namex, unlock, put_back,
  iunlockput,
}
use hyu_ele3021_operating_sy.Fs.Names.Ends.{Finishes, namex-Finishes}
use hyu_ele3021_operating_sy.Fs.Run.{
  Run, sleeps, overruns, unfinished, Cmd, pure, stop, ◌>>=◌, ◌>>◌,
}
use hyu_ele3021_operating_sy.Fs.Run.Outcomes.{
  Outcome, returns, waits, stops, leaves, IsTotal, then-IsTotal, pure-IsTotal,
}
use hyu_ele3021_operating_sy.Fs.Inode.{Locking, locks, waits, panic, ilock}
use hyu_ele3021_operating_sy.Fs.Write.{Writing, written, refused, panic, unfinished, writei}
use hyu_ele3021_operating_sy.Fs.Handles.{
  Task, or_panics, lock_end, lock, release, put_inode, release_put, walk_end, named, namei,
  nameiparent,
}
use hyu_ele3021_operating_sy.Fs.Links.{
  t_symlink, t_dev, has_driver, runs_over, link_path, Target, target, cyclic, dangling, follow_link,
  resolve, go_back, Reply, reply, fails, to_driver, device_reply, read_end, read_target, read_inode,
  write_end, write_target, write_inode,
}
use hyu_ele3021_operating_sy.Fs.Entries.{all_written, write_entry}

-- A command ends whatever its state.
or_panics_total :
    (o : Option Files) → Outcome (λ (a : Unit {0}) (t : Files). Unit {0}) (or_panics o)
or_panics_total none = stops
or_panics_total (some f) = returns tt

module _ (t : Task) where
  pub lock-IsTotal : (i : ℕ) → IsTotal (lock t i)
  unfolding lock lock_end
  lock-IsTotal i f = go (ilock t.sb t.pid (file f i) f.kern)
    where
      go : (l : Locking) → Outcome (λ (a : Unit {0}) (t : Files). Unit {0}) (lock_end i f l)
      go (locks ip) = returns tt
      go waits = waits
      go panic = stops

  pub release-IsTotal : (i : ℕ) → IsTotal (release t i)
  unfolding release
  release-IsTotal i f = or_panics_total (unlock t.pid i f)

  pub put_inode-IsTotal : (i : ℕ) → IsTotal (put_inode t i)
  unfolding put_inode
  put_inode-IsTotal i f = or_panics_total (put_back t.sb i f)

  pub release_put-IsTotal : (i : ℕ) → IsTotal (release_put t i)
  unfolding release_put
  release_put-IsTotal i f = or_panics_total (iunlockput t.sb t.pid i f)

  walk_end_total :
      (w : Walk)
      → Finishes w
      → Outcome (λ (a : Option (ℕ × List ℕ)) (t : Files). Unit {0}) (walk_end w)
  unfolding walk_end
  walk_end_total (reached i name f) h = returns tt
  walk_end_total (nowhere f) h = returns tt
  walk_end_total sleeps h = waits
  walk_end_total dies h = stops
  walk_end_total unfinished h = absurd (false≢true h)

  named_total :
      (r : Run Files (Option (ℕ × List ℕ)))
      → Outcome (λ (a : Option (ℕ × List ℕ)) (t : Files). Unit {0}) r
      → Outcome (λ (a : Option ℕ) (t : Files). Unit {0}) (named r)
  unfolding named
  named_total _ (returns q) = returns tt
  named_total _ waits = waits
  named_total _ stops = stops
  named_total _ leaves = leaves

  pub nameiparent-IsTotal : (path : List ℕ) → IsTotal (nameiparent t path)
  unfolding nameiparent
  nameiparent-IsTotal path f =
      walk_end_total (namex t.sb t.pid t.cwd true path f)
        (namex-Finishes t.sb t.pid t.cwd true path f)

  pub namei-IsTotal : (path : List ℕ) → IsTotal (namei t path)
  unfolding namei
  namei-IsTotal path f = named_total (walk_end (namex t.sb t.pid t.cwd false path f)) (
      walk_end_total (namex t.sb t.pid t.cwd false path f)
        (namex-Finishes t.sb t.pid t.cwd false path f))

  -- The loop over links.
  follow_link-IsTotal :
      (oi : ℕ) (next : ℕ → Cmd Files Target) (o : Option ℕ)
      → ((j : ℕ) → IsTotal (next j))
      → IsTotal (follow_link t oi next o)
  unfolding follow_link
  follow_link-IsTotal oi next none h =
      then-IsTotal (lock t oi) (λ _. pure dangling) (lock-IsTotal oi) (λ _. pure-IsTotal dangling)
  follow_link-IsTotal oi next (some j) h =
      then-IsTotal (lock t j) (λ _. next j) (lock-IsTotal j) (λ _. h j)

  resolve-IsTotal : (oi r i : ℕ) → IsTotal (resolve t oi r i)
  unfolding resolve
  resolve-IsTotal oi zero i f = elim (Bool-cases ((file f i).meta.type == t_symlink)) [
    | inl e ↦ rw e (returns tt)
    | inr e ↦ rw e (returns tt)
  ]
  resolve-IsTotal oi (suc r) i f =
      let m = (file f i).meta in
      let links =
        then-IsTotal (release t i)
          (λ _. namei t (link_path m) >>= follow_link t oi (resolve t oi r)) (release-IsTotal i)
          (λ _.
            then-IsTotal (namei t (link_path m)) (follow_link t oi (resolve t oi r))
              (namei-IsTotal (link_path m))
              (λ o. follow_link-IsTotal oi (resolve t oi r) o (resolve-IsTotal oi r))) in
      branch (not (m.type == t_symlink)) (runs_over m) (returns tt) (links f)
    where
      branch :
          (c d : Bool) {x y : Run Files Target}
          → Outcome (λ (a : Target) (t : Files). Unit {0}) x
          → Outcome (λ (a : Target) (t : Files). Unit {0}) y
          → Outcome
              (λ (a : Target) (t : Files). Unit {0})
              (if c then x else (if d then overruns else y))
      branch true d p q = p
      branch false true p q = leaves
      branch false false p q = q

  if_IsTotal :
      {A : Type 0} (c : Bool) (m n : Cmd Files A) (f : Files)
      → IsTotal m
      → IsTotal n
      → Outcome (λ (a : A) (t : Files). Unit {0}) (if c then m f else n f)
  if_IsTotal true m n f p q = p f
  if_IsTotal false m n f p q = q f

  go_back-IsTotal : (oi i : ℕ) → IsTotal (go_back t oi i)
  unfolding go_back
  go_back-IsTotal oi i f = back (i == oi)
    where
      back :
          (c : Bool)
          → Outcome
              (λ (a : Unit {0}) (t : Files). Unit {0})
              ((if c then pure tt else (release t i >> lock t oi)) f)
      back true = returns tt
      back false =
          then-IsTotal (release t i) (λ _. lock t oi) (release-IsTotal i) (λ _. lock-IsTotal oi) f

  back_with : {A : Type 0} (oi i : ℕ) (a : A) → IsTotal (go_back t oi i >> pure a)
  back_with oi i a =
      then-IsTotal (go_back t oi i) (λ _. pure a) (go_back-IsTotal oi i) (λ _. pure-IsTotal a)

  device-IsTotal : {A : Type 0} (oi i : ℕ) → IsTotal (device_reply {A = A} t oi i)
  device-IsTotal oi i f =
      if_IsTotal (has_driver (file f i).meta.major) (go_back t oi i >> pure (to_driver i))
        (go_back t oi i >> pure fails) f (back_with oi i (to_driver i)) (back_with oi i fails)

  read_end_total :
      (oi i : ℕ) (f : Files) (c : Contents)
      → Ends.IsDone c
      → Outcome (λ (a : Reply (List ℕ)) (t : Files). Unit {0}) (read_end t oi i f c)
  unfolding read_end
  read_end_total oi i f refused z = back_with oi i fails f
  read_end_total oi i f panic z = stops
  read_end_total oi i f unfinished z = absurd (false≢true z)
  read_end_total oi i f (got cs m k) z =
      back_with oi i (reply cs) (with_file f i (record (file f i) { meta = m }) k)

  read_target-IsTotal : (oi off n : ℕ) (w : Target) → IsTotal (read_target t oi off n w)
  unfolding read_target
  read_target-IsTotal oi off n dangling f = returns tt
  read_target-IsTotal oi off n (cyclic i) f = back_with oi i fails f
  read_target-IsTotal oi off n (target i) f =
      if_IsTotal ((file f i).meta.type == t_dev) (device_reply t oi i)
        (λ g. read_end t oi i g (readi t.sb off n (file g i).meta g.kern)) f (device-IsTotal oi i)
        (λ g.
          read_end_total oi i g (readi t.sb off n (file g i).meta g.kern)
            (readi-IsDone t.sb off n (file g i).meta g.kern))

  pub read_inode-IsTotal : (i off n : ℕ) → IsTotal (read_inode t i off n)
  unfolding read_inode
  read_inode-IsTotal i off n =
      then-IsTotal (resolve t i 10 i) (read_target t i off n) (resolve-IsTotal i 10 i)
        (read_target-IsTotal i off n)

  write_end_total :
      (oi i n : ℕ) (f : Files) (c : Writing)
      → IsDone c
      → Outcome (λ (a : Reply ℕ) (t : Files). Unit {0}) (write_end t oi i n f c)
  unfolding write_end
  write_end_total oi i n f refused z = back_with oi i fails f
  write_end_total oi i n f panic z = stops
  write_end_total oi i n f unfinished z = absurd (false≢true z)
  write_end_total oi i n f (written ip k) z = back_with oi i (reply n) (with_file f i ip k)

  write_target-IsTotal :
      (oi off : ℕ) (cs : List ℕ) (w : Target) → IsTotal (write_target t oi off cs w)
  unfolding write_target
  write_target-IsTotal oi off cs dangling f = returns tt
  write_target-IsTotal oi off cs (cyclic i) f = back_with oi i fails f
  write_target-IsTotal oi off cs (target i) f =
      if_IsTotal ((file f i).meta.type == t_dev) (device_reply t oi i)
        (λ g. write_end t oi i (length cs) g (writei t.sb off cs (file g i) g.kern)) f
        (device-IsTotal oi i)
        (λ g.
          write_end_total oi i (length cs) g (writei t.sb off cs (file g i) g.kern)
            (writei-IsDone t.sb off cs (file g i) g.kern))

  pub write_inode-IsTotal : (i off : ℕ) (cs : List ℕ) → IsTotal (write_inode t i off cs)
  unfolding write_inode
  write_inode-IsTotal i off cs =
      then-IsTotal (resolve t i 10 i) (write_target t i off cs) (resolve-IsTotal i 10 i)
        (write_target-IsTotal i off cs)

  pub write_entry-IsTotal : (d off : ℕ) (cs : List ℕ) → IsTotal (write_entry t d off cs)
  unfolding write_entry all_written
  write_entry-IsTotal d off cs =
      then-IsTotal (write_inode t d off cs) all_written (write_inode-IsTotal d off cs) whole
    where
      whole : (r : Reply ℕ) → IsTotal (all_written r)
      whole (reply n) f = test (n == 16)
        where
          test :
              (c : Bool)
              → Outcome (λ (a : Unit {0}) (t : Files). Unit {0}) ((if c then pure tt else stop) f)
          test true = returns tt
          test false = stops
      whole fails f = stops
      whole (to_driver i) f = stops
