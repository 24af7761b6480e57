-- ===== src/Fs/Calls/Finish/Creating.antt =====
-- `create`, `mkdir`, `mknod`, `symlink`, and the inodes of `open` and `chdir`, end.
use hyu_ele3021_operating_sy.Prelude.{
  ℕ, ◌+◌, Bool, true, false, not, ◌&&◌, Option, none, some, List, [], ◌∷◌, ltb, ◌==◌, if◌then◌else◌,
  length, ℤ, pos,
}
use hyu_ele3021_operating_sy.Fs.Names.{t_dir, Files, file}
use hyu_ele3021_operating_sy.Fs.Run.{Run, sleeps, overruns, Cmd, pure, ◌>>◌}
use hyu_ele3021_operating_sy.Fs.Run.Outcomes.{
  Outcome, returns, waits, stops, leaves, IsTotal, pure-IsTotal,
}
use hyu_ele3021_operating_sy.Fs.Handles.{Task, release, edit, save, finish}
use hyu_ele3021_operating_sy.Fs.Entries.Totals.{
  lock-IsTotal, put_inode-IsTotal, release-IsTotal, release_put-IsTotal, nameiparent-IsTotal,
  namei-IsTotal,
}
use hyu_ele3021_operating_sy.Fs.Entries.Rounds.{search-IsTotal, dirlink-IsTotal}
use hyu_ele3021_operating_sy.Fs.Calls.Naming.{more_links}
use hyu_ele3021_operating_sy.Fs.Calls.Finish.{
  if_IsTotal, seq, state-IsTotal, begin-IsTotal, finish-IsTotal, edit-IsTotal, give_up-IsTotal,
  save-IsTotal, alloc-IsTotal,
}
use hyu_ele3021_operating_sy.Fs.Content.{bytes}
use hyu_ele3021_operating_sy.Fs.Links.{t_file, t_symlink}
use hyu_ele3021_operating_sy.Fs.Calls.Create.{
  Sort, of_type, or_stop, must_link, dots, fresh, existing, create_in, create_at, create, close_new,
  make_node, store_path, set_target, new_name, old_name, symlink_paths,
}
use hyu_ele3021_operating_sy.Fs.Calls.Opening.{
  open_existing, open_created, find_inode, flag, enter_dir, find_dir, sync,
}

or_stop-IsTotal : (b : Bool) → IsTotal (or_stop b)
or_stop-IsTotal true f = returns tt
or_stop-IsTotal false f = stops

pub sync-IsTotal : IsTotal sync
unfolding sync
sync-IsTotal f = branch f.kern.log.committing (returns tt)
  where
    branch :
        (c : Bool) {r : Run Files ℤ}
        → Outcome (λ (a : ℤ) (t : Files). Unit {0}) r
        → Outcome (λ (a : ℤ) (t : Files). Unit {0}) (if c then sleeps else r)
    branch true h = waits
    branch false h = h

module _ (t : Task) where
  must_link-IsTotal : (d : ℕ) (name : List ℕ) (inum : ℕ) → IsTotal (must_link t d name inum)
  must_link-IsTotal d name inum = seq (dirlink-IsTotal t d name inum) or_stop-IsTotal

  dots-IsTotal : (d i : ℕ) → IsTotal (dots t d i)
  unfolding dots
  dots-IsTotal d i = seq (edit-IsTotal d more_links) (λ _. seq (save-IsTotal t d) (λ _.
      seq state-IsTotal (λ f.
        seq (must_link-IsTotal i (46 ∷ (0 ∷ [])) (file f i).inum)
          (λ _. must_link-IsTotal i (46 ∷ (46 ∷ (0 ∷ []))) (file f d).inum))))

  existing-IsTotal : (s : Sort) (d i : ℕ) → IsTotal (existing t s d i)
  unfolding existing
  existing-IsTotal s d i = seq (lock-IsTotal t i) (λ _. seq (release_put-IsTotal t d) (λ _.
      seq state-IsTotal (λ f.
        if_IsTotal (s.type == t_file && (file f i).meta.type == t_file) (pure-IsTotal (some i)) (
          if_IsTotal (s.type == t_symlink)
            (seq (edit-IsTotal i (λ m. record m { type = t_symlink })) (λ _. pure-IsTotal (some i)))
            (seq (release_put-IsTotal t i) (λ _. pure-IsTotal none))))))

  create_in-IsTotal :
      (s : Sort) (d : ℕ) (name : List ℕ) (o : Option (ℕ × ℕ)) → IsTotal (create_in t s d name o)
  unfolding create_in
  create_in-IsTotal s d name (some (i, _)) = existing-IsTotal s d i
  create_in-IsTotal s d name none = seq state-IsTotal (λ f.
      seq (alloc-IsTotal t (file f d).dev s.type) (λ i. seq (lock-IsTotal t i) (λ _.
        seq (edit-IsTotal i (fresh s)) (λ _. seq (save-IsTotal t i) (λ _.
          seq (if_IsTotal (s.type == t_dir) (dots-IsTotal d i) (pure-IsTotal tt)) (λ _.
            seq state-IsTotal (λ g.
              seq (must_link-IsTotal d name (file g i).inum)
                (λ _. seq (release_put-IsTotal t d) (λ _. pure-IsTotal (some i))))))))))

  create_at-IsTotal : (s : Sort) (o : Option (ℕ × List ℕ)) → IsTotal (create_at t s o)
  unfolding create_at
  create_at-IsTotal s none = pure-IsTotal none
  create_at-IsTotal s (some (d, name)) =
      seq (lock-IsTotal t d) (λ _. seq (search-IsTotal t d name) (create_in-IsTotal s d name))

  create-IsTotal : (s : Sort) (path : List ℕ) → IsTotal (create t s path)
  unfolding create
  create-IsTotal s path = seq (nameiparent-IsTotal t path) (create_at-IsTotal s)

  close_new-IsTotal : (o : Option ℕ) → IsTotal (close_new t o)
  unfolding close_new
  close_new-IsTotal none = give_up-IsTotal
  close_new-IsTotal (some i) =
      seq (release_put-IsTotal t i) (λ _. seq finish-IsTotal (λ _. pure-IsTotal (pos 0)))

  pub make_node-IsTotal : (o : Option (List ℕ × Sort)) → IsTotal (make_node o t)
  unfolding make_node
  make_node-IsTotal none = seq begin-IsTotal (λ _. give_up-IsTotal)
  make_node-IsTotal (some (path, s)) =
      seq begin-IsTotal (λ _. seq (create-IsTotal s path) close_new-IsTotal)

  set_target-IsTotal : (old : List ℕ) (o : Option ℕ) → IsTotal (set_target t old o)
  unfolding set_target
  set_target-IsTotal old none f = give_up-IsTotal f
  set_target-IsTotal old (some i) f =
      branch (ltb (length (bytes (file f i).meta.addrs)) (length old + 1))
    where
      stored : Cmd Files ℤ
      stored = do edit i (store_path old); save t i; release t i; finish; pure (pos 0)

      stored_total : IsTotal stored
      stored_total = seq (edit-IsTotal i (store_path old)) (λ _.
          seq (save-IsTotal t i)
            (λ _. seq (release-IsTotal t i) (λ _. seq finish-IsTotal (λ _. pure-IsTotal (pos 0)))))

      branch :
          (c : Bool) → Outcome (λ (a : ℤ) (t : Files). Unit {0}) (if c then overruns else stored f)
      branch true = leaves
      branch false = stored_total f

  new_name-IsTotal : (old new : List ℕ) (o : Option ℕ) → IsTotal (new_name t old new o)
  unfolding new_name
  new_name-IsTotal old new (some _) = give_up-IsTotal
  new_name-IsTotal old new none =
      seq (create-IsTotal (of_type t_symlink) new) (set_target-IsTotal old)

  old_name-IsTotal : (old new : List ℕ) (o : Option ℕ) → IsTotal (old_name t old new o)
  unfolding old_name
  old_name-IsTotal old new none = give_up-IsTotal
  old_name-IsTotal old new (some _) = seq (namei-IsTotal t new) (new_name-IsTotal old new)

  pub symlink_paths-IsTotal : (old new : List ℕ) → IsTotal (symlink_paths old new t)
  unfolding symlink_paths
  symlink_paths-IsTotal old new =
      seq begin-IsTotal (λ _. seq (namei-IsTotal t old) (old_name-IsTotal old new))

  open_existing-IsTotal : (mode : ℕ) (o : Option ℕ) → IsTotal (open_existing t mode o)
  unfolding open_existing
  open_existing-IsTotal mode none = seq finish-IsTotal (λ _. pure-IsTotal none)
  open_existing-IsTotal mode (some i) = seq (lock-IsTotal t i) (λ _. seq state-IsTotal (λ f.
      if_IsTotal ((file f i).meta.type == t_dir && not (mode == 0))
        (seq (release_put-IsTotal t i) (λ _. seq finish-IsTotal (λ _. pure-IsTotal none)))
        (pure-IsTotal (some i))))

  open_created-IsTotal : (o : Option ℕ) → IsTotal (open_created o)
  unfolding open_created
  open_created-IsTotal none = seq finish-IsTotal (λ _. pure-IsTotal none)
  open_created-IsTotal (some i) = pure-IsTotal (some i)

  pub find_inode-IsTotal : (path : List ℕ) (mode : ℕ) → IsTotal (find_inode path mode t)
  unfolding find_inode
  find_inode-IsTotal path mode = seq begin-IsTotal (λ _.
      if_IsTotal (flag 9 mode)
        (seq (create-IsTotal (record { type = t_file; major = 0; minor = 0 }) path)
          open_created-IsTotal)
        (seq (namei-IsTotal t path) (open_existing-IsTotal mode)))

  enter_dir-IsTotal : (o : Option ℕ) → IsTotal (enter_dir t o)
  unfolding enter_dir
  enter_dir-IsTotal none = seq finish-IsTotal (λ _. pure-IsTotal none)
  enter_dir-IsTotal (some i) = seq (lock-IsTotal t i) (λ _. seq state-IsTotal (λ f.
      if_IsTotal (not ((file f i).meta.type == t_dir))
        (seq (release_put-IsTotal t i) (λ _. seq finish-IsTotal (λ _. pure-IsTotal none)))
        (seq (release-IsTotal t i) (λ _.
          seq (put_inode-IsTotal t t.cwd) (λ _. seq finish-IsTotal (λ _. pure-IsTotal (some i)))))))

  pub find_dir-IsTotal : (o : Option (List ℕ)) → IsTotal (find_dir o t)
  unfolding find_dir
  find_dir-IsTotal none = seq begin-IsTotal (λ _. seq finish-IsTotal (λ _. pure-IsTotal none))
  find_dir-IsTotal (some path) =
      seq begin-IsTotal (λ _. seq (namei-IsTotal t path) enter_dir-IsTotal)
