-- ===== src/Fs/Calls/Naming.antt =====
-- Project03-FileSystem/sysfile.c: `link` and `unlink`.
use hyu_ele3021_operating_sy.Prelude.{
  ℕ, ◌+◌, ◌%◌, ◌^◌, Bool, true, false, not, ◌||◌, Option, none, some, List, [], ◌∷◌, ltb, leb, ◌==◌,
  if◌then◌else◌, replicate, ℤ, pos, minus_one,
}
use hyu_ele3021_operating_sy.Io.Strings.{strncmp}
use hyu_ele3021_operating_sy.Fs.Inode.{Meta}
use hyu_ele3021_operating_sy.Fs.Path.{dirsiz}
use hyu_ele3021_operating_sy.Fs.Names.{t_dir, Files, file, is_zero}
use hyu_ele3021_operating_sy.Fs.Run.{ok, Cmd, pure, stop, when, get_state, ◌>>=◌, ◌>>◌}
use hyu_ele3021_operating_sy.Fs.Handles.{
  Task, lock, release, put_inode, release_put, edit, save, namei, nameiparent, search_dir, begin,
  finish,
}
use hyu_ele3021_operating_sy.Fs.Entries.{dirlink, isdirempty, write_entry}
use hyu_ele3021_operating_sy.Fs.Calls.{System, on_files}
use hyu_ele3021_operating_sy.Fs.Calls.Args.{argstr}

-- `nlink++` and `nlink--` on a `short`.
abbrev pub more_links : Meta → Meta
more_links m = record m { nlink = (m.nlink + 1) % 2 ^ 16 }

abbrev pub less_links : Meta → Meta
less_links m = record m { nlink = (m.nlink + 65535) % 2 ^ 16 }

-- The end of a call that fails.
abbrev pub give_up : Cmd Files ℤ
give_up = finish >> pure minus_one

-- The label `bad` of `sys_link`.
unfoldable pub undo_link : Task → ℕ → Cmd Files ℤ
unfolding lock edit save release_put finish
undo_link t i = do lock t i; edit i less_links; save t i; release_put t i; give_up

unfoldable pub link_done : Task → ℕ → ℕ → Bool → Cmd Files ℤ
unfolding release_put put_inode finish undo_link
link_done t i d true = do release_put t d; put_inode t i; finish; pure (pos 0)
link_done t i d false = release_put t d >> undo_link t i

unfoldable pub link_new : Task → ℕ → Option (ℕ × List ℕ) → Cmd Files ℤ
unfolding lock dirlink link_done undo_link
link_new t i none = undo_link t i
link_new t i (some (d, name)) = do
  lock t d
  f ← get_state
  if not ((file f d).dev == (file f i).dev)
      then link_done t i d false
      else (do b ← dirlink t d name (file f i).inum; link_done t i d b)

unfoldable pub link_old : Task → List ℕ → Option ℕ → Cmd Files ℤ
unfolding lock edit save release release_put finish nameiparent link_new
link_old t new none = give_up
link_old t new (some i) = do
  lock t i
  f ← get_state
  if (file f i).meta.type == t_dir
      then release_put t i >> give_up
      else (do edit i more_links; save t i; release t i; p ← nameiparent t new; link_new t i p)

unfoldable pub link_paths : List ℕ → List ℕ → Task → Cmd Files ℤ
unfolding begin namei link_old
link_paths old new t = do begin; o ← namei t old; link_old t new o

unfoldable pub sys_link : Cmd System ℤ
unfolding argstr link_paths
sys_link s = elim (argstr s.user 0) [
  | none ↦ ok minus_one s
  | some old ↦ elim (argstr s.user 1) [
    | none ↦ ok minus_one s
    | some new ↦ on_files (link_paths old new) s
  ]
]

-- The names `.` and `..`.
abbrev pub is_dot : List ℕ → Bool
is_dot name =
    is_zero (strncmp name (46 ∷ (0 ∷ [])) dirsiz)
    || is_zero (strncmp name (46 ∷ (46 ∷ (0 ∷ []))) dirsiz)

-- The label `bad` of `sys_unlink`.
abbrev pub unlink_bad : Task → ℕ → Cmd Files ℤ
unlink_bad t d = release_put t d >> give_up

-- The entry is cleared, and the inode has a link less.
unfoldable pub clear_entry : Task → ℕ → ℕ → ℕ → Bool → Cmd Files ℤ
unfolding write_entry edit save release_put finish
clear_entry t d i off is_dir = do
  write_entry t d off (replicate 16 0)
  when is_dir (edit d less_links >> save t d)
  release_put t d
  edit i less_links
  save t i
  release_put t i
  finish
  pure (pos 0)

unfoldable pub unlink_empty : Task → ℕ → ℕ → ℕ → Bool → Cmd Files ℤ
unfolding release_put clear_entry
unlink_empty t d i off true = clear_entry t d i off true
unlink_empty t d i off false = release_put t i >> unlink_bad t d

-- Is `nlink < 1`, as a `short`?
abbrev pub no_links : Meta → Bool
no_links m = ltb m.nlink 1 || leb (2 ^ 15) m.nlink

unfoldable pub unlink_entry : Task → ℕ → Option (ℕ × ℕ) → Cmd Files ℤ
unfolding lock isdirempty unlink_empty clear_entry
unlink_entry t d none = unlink_bad t d
unlink_entry t d (some (i, off)) = do
  lock t i
  f ← get_state
  if no_links (file f i).meta
      then stop
      else (if (file f i).meta.type == t_dir
          then (do b ← isdirempty t i; unlink_empty t d i off b)
          else clear_entry t d i off false)

unfoldable pub unlink_name : Task → Option (ℕ × List ℕ) → Cmd Files ℤ
unfolding lock search_dir unlink_entry
unlink_name t none = give_up
unlink_name t (some (d, name)) = do
  lock t d
  if is_dot name then unlink_bad t d else (do e ← search_dir t d name; unlink_entry t d e)

unfoldable pub unlink_path : List ℕ → Task → Cmd Files ℤ
unfolding begin nameiparent unlink_name
unlink_path path t = do begin; p ← nameiparent t path; unlink_name t p

unfoldable pub sys_unlink : Cmd System ℤ
unfolding argstr unlink_path
sys_unlink s = elim (argstr s.user 0) [
  | none ↦ ok minus_one s
  | some path ↦ on_files (unlink_path path) s
]
