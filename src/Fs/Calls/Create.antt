-- ===== src/Fs/Calls/Create.antt =====
-- Project03-FileSystem/sysfile.c: `create`, and the calls `mkdir`, `mknod` and `symlink`.
use hyu_ele3021_operating_sy.Prelude.{
  ℕ, ◌+◌, ◌%◌, ◌^◌, Bool, true, false, not, ◌&&◌, Option, none, some, List, [], ◌∷◌, ◌++◌, ltb,
  ◌==◌, if◌then◌else◌, length, ℤ, pos, minus_one,
}
use hyu_ele3021_operating_sy.Io.Strings.{strlen}
use hyu_ele3021_operating_sy.Fs.Inode.{Meta}
use hyu_ele3021_operating_sy.Fs.Content.{bytes}
use hyu_ele3021_operating_sy.Fs.Write.{words, splice}
use hyu_ele3021_operating_sy.Fs.Names.{t_dir, Files, file}
use hyu_ele3021_operating_sy.Fs.Run.{ok, overruns, Cmd, pure, stop, when, get_state, ◌>>=◌, ◌>>◌}
use hyu_ele3021_operating_sy.Fs.Handles.{
  Task, lock, release, release_put, edit, save, namei, nameiparent, search_dir, alloc_inode, begin,
  finish,
}
use hyu_ele3021_operating_sy.Fs.Links.{t_file, t_dev, t_symlink}
use hyu_ele3021_operating_sy.Fs.Entries.{dirlink}
use hyu_ele3021_operating_sy.Fs.Calls.{User, System, on_files}
use hyu_ele3021_operating_sy.Fs.Calls.Args.{argint, argstr}
use hyu_ele3021_operating_sy.Fs.Calls.Naming.{more_links, give_up}

-- What a new inode is to be.
pub record Sort : Type 0 where
  pub type : ℕ
  pub major : ℕ
  pub minor : ℕ

abbrev pub of_type : ℕ → Sort
of_type n = record { type = n; major = 0; minor = 0 }

-- A step of `create` that panics if the name is there already.
abbrev pub or_stop : Bool → Cmd Files (Unit {0})
or_stop true = pure tt
or_stop false = stop

abbrev pub must_link : Task → ℕ → List ℕ → ℕ → Cmd Files (Unit {0})
must_link t d name inum = do b ← dirlink t d name inum; or_stop b

-- The entries `.` and `..` of a new directory in slot `i`.
unfoldable pub dots : Task → ℕ → ℕ → Cmd Files (Unit {0})
unfolding edit save dirlink
dots t d i = do
  edit d more_links
  save t d
  f ← get_state
  must_link t i (46 ∷ (0 ∷ [])) (file f i).inum
  must_link t i (46 ∷ (46 ∷ (0 ∷ []))) (file f d).inum

abbrev pub fresh : Sort → Meta → Meta
fresh s m = record m {
  type = if s.type == t_symlink && not (m.type == t_symlink) then t_symlink else m.type;
  major = s.major;
  minor = s.minor;
  nlink = 1;
}

-- The inode that is there already, locked.
unfoldable pub existing : Task → Sort → ℕ → ℕ → Cmd Files (Option ℕ)
unfolding lock release_put edit
existing t s d i = do
  lock t i
  release_put t d
  f ← get_state
  if s.type == t_file && (file f i).meta.type == t_file
      then pure (some i)
      else (if s.type == t_symlink
          then edit i (λ m. record m { type = t_symlink }) >> pure (some i)
          else release_put t i >> pure none)

unfoldable pub create_in : Task → Sort → ℕ → List ℕ → Option (ℕ × ℕ) → Cmd Files (Option ℕ)
unfolding existing alloc_inode lock edit save dots dirlink release_put
create_in t s d name (some (i, _)) = existing t s d i
create_in t s d name none = do
  f ← get_state
  i ← alloc_inode t (file f d).dev s.type
  lock t i
  edit i (fresh s)
  save t i
  when (s.type == t_dir) (dots t d i)
  g ← get_state
  must_link t d name (file g i).inum
  release_put t d
  pure (some i)

unfoldable pub create_at : Task → Sort → Option (ℕ × List ℕ) → Cmd Files (Option ℕ)
unfolding lock search_dir create_in
create_at t s none = pure none
create_at t s (some (d, name)) = do lock t d; e ← search_dir t d name; create_in t s d name e

-- `create`: the new inode, locked, or the one that is there.
unfoldable pub create : Task → Sort → List ℕ → Cmd Files (Option ℕ)
unfolding nameiparent create_at
create t s path = do p ← nameiparent t path; create_at t s p

unfoldable pub close_new : Task → Option ℕ → Cmd Files ℤ
unfolding release_put finish
close_new t none = give_up
close_new t (some i) = do release_put t i; finish; pure (pos 0)

-- The calls from `begin_op` on, with the path where it could be fetched.
unfoldable pub make_node : Option (List ℕ × Sort) → Task → Cmd Files ℤ
unfolding begin create close_new finish
make_node none t = begin >> give_up
make_node (some (path, s)) t = do begin; o ← create t s path; close_new t o

abbrev pub mkdir_call : User → Task → Cmd Files ℤ
mkdir_call u =
    make_node (elim (argstr u 0) [ none ↦ none | some path ↦ some (path, of_type t_dir) ])

unfoldable pub sys_mkdir : Cmd System ℤ
unfolding argstr make_node
sys_mkdir s = on_files (mkdir_call s.user) s

-- A device number is the low half of its argument.
unfoldable pub mknod_args : User → Option (List ℕ × Sort)
unfolding argstr argint
mknod_args u = elim (argstr u 0) [
  | none ↦ none
  | some path ↦ elim (argint u 1) [
    | none ↦ none
    | some major ↦ elim (argint u 2) [
      | none ↦ none
      | some minor ↦
          some (path, record { type = t_dev; major = major % 2 ^ 16; minor = minor % 2 ^ 16 })
    ]
  ]
]

unfoldable pub sys_mknod : Cmd System ℤ
unfolding mknod_args make_node
sys_mknod s = on_files (make_node (mknod_args s.user)) s

-- The text of a path and its 0 over the addresses of an inode.
unfoldable pub store_path : List ℕ → Meta → Meta
unfolding words splice bytes strlen
store_path old m = record m {
  size = strlen old;
  addrs = words (splice 0 (old ++ (0 ∷ [])) (bytes m.addrs));
}

-- A path whose text does not fit the addresses is written beyond them.
unfoldable pub set_target : Task → List ℕ → Option ℕ → Cmd Files ℤ
unfolding edit store_path save release finish
set_target t old none f = give_up f
set_target t old (some i) f =
    if ltb (length (bytes (file f i).meta.addrs)) (length old + 1)
    then overruns
    else (do edit i (store_path old); save t i; release t i; finish; pure (pos 0)) f

unfoldable pub new_name : Task → List ℕ → List ℕ → Option ℕ → Cmd Files ℤ
unfolding create set_target finish
new_name t old new (some _) = give_up
new_name t old new none = do o ← create t (of_type t_symlink) new; set_target t old o

unfoldable pub old_name : Task → List ℕ → List ℕ → Option ℕ → Cmd Files ℤ
unfolding namei new_name finish
old_name t old new none = give_up
old_name t old new (some _) = do o ← namei t new; new_name t old new o

unfoldable pub symlink_paths : List ℕ → List ℕ → Task → Cmd Files ℤ
unfolding begin namei old_name
symlink_paths old new t = do begin; o ← namei t old; old_name t old new o

unfoldable pub sys_symlink : Cmd System ℤ
unfolding argstr symlink_paths
sys_symlink s = elim (argstr s.user 0) [
  | none ↦ ok minus_one s
  | some old ↦ elim (argstr s.user 1) [
    | none ↦ ok minus_one s
    | some new ↦ on_files (symlink_paths old new) s
  ]
]
