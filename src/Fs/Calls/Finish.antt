-- ===== src/Fs/Calls/Finish.antt =====
-- `link` and `unlink` end: no loop of them runs out of rounds.
pub mod Creating
pub mod OpenFiles
pub mod Descriptors
pub mod All
use hyu_ele3021_operating_sy.Prelude.{
  ℕ, ◌-◌, ◌≡◌, refl, Bool, true, false, not, Option, none, some, List, ◌==◌, if◌then◌else◌, ==_iff,
  replicate, ℤ, pos, minus_one,
}
use hyu_ele3021_operating_sy.Fs.Names.{t_dir, Files, file}
use hyu_ele3021_operating_sy.Fs.Inode.{Meta, Inode, iupdate, ialloc}
use hyu_ele3021_operating_sy.Fs.Blocks.{Kern}
use hyu_ele3021_operating_sy.Fs.Run.{Cmd, pure, stop, get_state, when, ◌>>=◌, ◌>>◌}
use hyu_ele3021_operating_sy.Fs.Run.Outcomes.{
  Outcome, returns, waits, stops, IsTotal, outcome_then, then-IsTotal, pure-IsTotal,
}
use hyu_ele3021_operating_sy.Fs.Journal.{Journal, begin_op, end_op}
use hyu_ele3021_operating_sy.Fs.Handles.{
  Task, lock, release, put_inode, release_put, edit, save, namei, nameiparent, alloc_inode, begin,
  finish, logged, alloc_end, or_panics_blocks,
}
use hyu_ele3021_operating_sy.Fs.Entries.{write_entry, dirlink, isdirempty}
use hyu_ele3021_operating_sy.Fs.Entries.Totals.{
  lock-IsTotal, put_inode-IsTotal, release-IsTotal, release_put-IsTotal, nameiparent-IsTotal,
  namei-IsTotal, write_entry-IsTotal,
}
use hyu_ele3021_operating_sy.Fs.Entries.Rounds.{isdirempty_total, search-IsTotal, dirlink-IsTotal}
use hyu_ele3021_operating_sy.Fs.Calls.Naming.{
  more_links, less_links, give_up, undo_link, link_done, link_new, link_old, link_paths, unlink_bad,
  clear_entry, unlink_empty, no_links, unlink_entry, is_dot, unlink_name, unlink_path,
}

-- The steps that look at no loop.
pub if_IsTotal :
    {S A : Type 0} (c : Bool) {m n : Cmd S A} → IsTotal m → IsTotal n → IsTotal (if c then m else n)
if_IsTotal true p q = p
if_IsTotal false p q = q

-- One command and then another.
pub seq :
    {S A B : Type 0} {m : Cmd S A} {k : A → Cmd S B}
    → IsTotal m
    → ((a : A) → IsTotal (k a))
    → IsTotal (m >>= k)
seq {m} {k} f g = then-IsTotal m k f g

pub state-IsTotal : {S : Type 0} → IsTotal (get_state {S = S})
state-IsTotal s = returns tt

pub begin-IsTotal : IsTotal begin
unfolding begin
begin-IsTotal f = go (begin_op f.kern.log)
  where
    go : (o : Option Journal) → Outcome (λ (a : Unit {0}) (t : Files). Unit {0}) (logged f o)
    go none = waits
    go (some l) = returns tt

pub finish-IsTotal : IsTotal finish
unfolding finish
finish-IsTotal f = go (end_op f.kern.log)
  where
    go : (o : Option Journal) → Outcome (λ (a : Unit {0}) (t : Files). Unit {0}) (logged f o)
    go none = waits
    go (some l) = returns tt

pub edit-IsTotal : (i : ℕ) (g : Meta → Meta) → IsTotal (edit i g)
unfolding edit
edit-IsTotal i g f = returns tt

pub give_up-IsTotal : IsTotal give_up
give_up-IsTotal = seq finish-IsTotal (λ _. pure-IsTotal minus_one)

module _ (t : Task) where
  pub save-IsTotal : (i : ℕ) → IsTotal (save t i)
  unfolding save
  save-IsTotal i f = go (iupdate t.sb (file f i) f.kern)
    where
      go :
          (o : Option Kern)
          → Outcome (λ (a : Unit {0}) (t : Files). Unit {0}) (or_panics_blocks f o)
      go none = stops
      go (some k) = returns tt

  pub alloc-IsTotal : (dev type : ℕ) → IsTotal (alloc_inode t dev type)
  unfolding alloc_inode
  alloc-IsTotal dev type f = go (ialloc t.sb dev type f.inodes f.kern)
    where
      go :
          (o : Option (ℕ × List Inode × Kern))
          → Outcome (λ (a : ℕ) (t : Files). Unit {0}) (alloc_end o)
      go none = stops
      go (some (i, ips, k)) = returns tt

  undo_link-IsTotal : (i : ℕ) → IsTotal (undo_link t i)
  unfolding undo_link
  undo_link-IsTotal i = seq (lock-IsTotal t i) (λ _.
      seq (edit-IsTotal i less_links)
        (λ _. seq (save-IsTotal i) (λ _. seq (release_put-IsTotal t i) (λ _. give_up-IsTotal))))

  link_done-IsTotal : (i d : ℕ) (b : Bool) → IsTotal (link_done t i d b)
  unfolding link_done
  link_done-IsTotal i d true =
      seq (release_put-IsTotal t d)
        (λ _. seq (put_inode-IsTotal t i) (λ _. seq finish-IsTotal (λ _. pure-IsTotal (pos 0))))
  link_done-IsTotal i d false = seq (release_put-IsTotal t d) (λ _. undo_link-IsTotal i)

  link_new-IsTotal : (i : ℕ) (o : Option (ℕ × List ℕ)) → IsTotal (link_new t i o)
  unfolding link_new
  link_new-IsTotal i none = undo_link-IsTotal i
  link_new-IsTotal i (some (d, name)) = seq (lock-IsTotal t d) (λ _. seq state-IsTotal (λ f.
      if_IsTotal (not ((file f d).dev == (file f i).dev)) (link_done-IsTotal i d false)
        (seq (dirlink-IsTotal t d name (file f i).inum) (link_done-IsTotal i d))))

  link_old-IsTotal : (new : List ℕ) (o : Option ℕ) → IsTotal (link_old t new o)
  unfolding link_old
  link_old-IsTotal new none = give_up-IsTotal
  link_old-IsTotal new (some i) = seq (lock-IsTotal t i) (λ _. seq state-IsTotal (λ f.
      if_IsTotal ((file f i).meta.type == t_dir)
        (seq (release_put-IsTotal t i) (λ _. give_up-IsTotal))
        (seq (edit-IsTotal i more_links) (λ _. seq (save-IsTotal i) (λ _.
          seq (release-IsTotal t i) (λ _. seq (nameiparent-IsTotal t new) (link_new-IsTotal i)))))))

  unlink_bad-IsTotal : (d : ℕ) → IsTotal (unlink_bad t d)
  unlink_bad-IsTotal d = seq (release_put-IsTotal t d) (λ _. give_up-IsTotal)

  when-IsTotal : (c : Bool) (m : Cmd Files (Unit {0})) → IsTotal m → IsTotal (when c m)
  when-IsTotal true m h = h
  when-IsTotal false m h = pure-IsTotal tt

  clear_entry-IsTotal : (d i off : ℕ) (c : Bool) → IsTotal (clear_entry t d i off c)
  unfolding clear_entry
  clear_entry-IsTotal d i off c = seq (write_entry-IsTotal t d off (replicate 16 0)) (λ _.
      seq
        (when-IsTotal c (edit d less_links >> save t d)
          (seq (edit-IsTotal d less_links) (λ _. save-IsTotal d)))
        (λ _. seq (release_put-IsTotal t d) (λ _. seq (edit-IsTotal i less_links) (λ _.
          seq (save-IsTotal i) (λ _.
            seq (release_put-IsTotal t i) (λ _. seq finish-IsTotal (λ _. pure-IsTotal (pos 0))))))))

  unlink_empty-IsTotal : (d i off : ℕ) (b : Bool) → IsTotal (unlink_empty t d i off b)
  unfolding unlink_empty
  unlink_empty-IsTotal d i off true = clear_entry-IsTotal d i off true
  unlink_empty-IsTotal d i off false = seq (release_put-IsTotal t i) (λ _. unlink_bad-IsTotal d)

  unlink_entry-IsTotal : (d : ℕ) (o : Option (ℕ × ℕ)) → IsTotal (unlink_entry t d o)
  unfolding unlink_entry
  unlink_entry-IsTotal d none = unlink_bad-IsTotal d
  unlink_entry-IsTotal d (some (i, off)) =
      seq (lock-IsTotal t i)
        (λ _ f. branch f (no_links (file f i).meta) ((file f i).meta.type == t_dir) refl)
    where
      branch :
          (f : Files) (c e : Bool)
          → ((file f i).meta.type == t_dir) ≡ e
          → Outcome
              (λ (a : ℤ) (t : Files). Unit {0})
              ((if c
                  then stop
                  else (if e
                      then (isdirempty t i >>= unlink_empty t d i off)
                      else clear_entry t d i off false))
                f)
      branch f true e h = stops
      branch f false true h =
          outcome_then (unlink_empty t d i off)
            (isdirempty_total t i f ((==_iff (file f i).meta.type t_dir).0 h))
            (λ b g _. unlink_empty-IsTotal d i off b g)
      branch f false false h = clear_entry-IsTotal d i off false f

  unlink_name-IsTotal : (o : Option (ℕ × List ℕ)) → IsTotal (unlink_name t o)
  unfolding unlink_name
  unlink_name-IsTotal none = give_up-IsTotal
  unlink_name-IsTotal (some (d, name)) = seq (lock-IsTotal t d) (λ _.
      if_IsTotal (is_dot name) (unlink_bad-IsTotal d)
        (seq (search-IsTotal t d name) (unlink_entry-IsTotal d)))

  pub link_paths-IsTotal : (old new : List ℕ) → IsTotal (link_paths old new t)
  unfolding link_paths
  link_paths-IsTotal old new =
      seq begin-IsTotal (λ _. seq (namei-IsTotal t old) (link_old-IsTotal new))

  pub unlink_path-IsTotal : (path : List ℕ) → IsTotal (unlink_path path t)
  unfolding unlink_path
  unlink_path-IsTotal path =
      seq begin-IsTotal (λ _. seq (nameiparent-IsTotal t path) unlink_name-IsTotal)
