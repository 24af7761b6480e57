-- ===== src/Fs/Entries.antt =====
-- Project03-FileSystem/fs.c and sysfile.c: entries of directories, `dirlink` and `isdirempty`, and the
-- entry that `unlink` clears.
pub mod Fields
pub mod Directories
pub mod Lookups
pub mod Searches
pub mod Totals
pub mod Rounds
use hyu_ele3021_operating_sy.Prelude.{
  ℕ, zero, suc, ◌+◌, ◌/◌, ◌%◌, Bool, true, false, not, Option, none, some, List, ◌∷◌, ltb, ◌==◌,
  if◌then◌else◌, length,
}
use hyu_ele3021_operating_sy.Io.Strings.{strncpy}
use hyu_ele3021_operating_sy.Fs.Path.{dirsiz}
use hyu_ele3021_operating_sy.Fs.Names.{Files, file, dirent_inum}
use hyu_ele3021_operating_sy.Fs.Run.{ok, unfinished, Cmd, pure, stop, ◌>>=◌, ◌>>◌}
use hyu_ele3021_operating_sy.Fs.Handles.{Task, put_inode, search_dir}
use hyu_ele3021_operating_sy.Fs.Links.{Reply, reply, fails, to_driver, read_inode, write_inode}

-- The bytes of an entry; a read or a write that is not whole panics.
unfoldable pub whole_entry : Reply (List ℕ) → Cmd Files (List ℕ)
whole_entry (reply cs) = if length cs == 16 then pure cs else stop
whole_entry fails = stop
whole_entry (to_driver i) = stop

unfoldable pub read_entry : Task → ℕ → ℕ → Cmd Files (List ℕ)
unfolding whole_entry read_inode
read_entry t d off = do r ← read_inode t d off 16; whole_entry r

unfoldable pub all_written : Reply ℕ → Cmd Files (Unit {0})
all_written (reply n) = if n == 16 then pure tt else stop
all_written fails = stop
all_written (to_driver i) = stop

unfoldable pub write_entry : Task → ℕ → ℕ → List ℕ → Cmd Files (Unit {0})
unfolding all_written write_inode
write_entry t d off cs = do r ← write_inode t d off cs; all_written r

-- The offset of the first empty entry from `off` on, or else the end; at most `r` rounds.
unfoldable pub free_entry : Task → ℕ → ℕ → ℕ → Cmd Files ℕ
unfolding read_entry
free_entry t d zero off f = unfinished
free_entry t d (suc r) off f =
    if ltb off (file f d).meta.size
    then (do
      cs ← read_entry t d off
      if dirent_inum cs == 0 then pure off else free_entry t d r (off + 16))
        f
    else ok off f

-- The bytes of a `struct dirent`: a `ushort`, and the name.
unfoldable pub dirent : ℕ → List ℕ → List ℕ
unfolding strncpy
dirent inum name = inum % 256 ∷ (inum / 256 % 256 ∷ strncpy name dirsiz)

unfoldable pub enter_name : Task → ℕ → List ℕ → ℕ → Option (ℕ × ℕ) → Cmd Files Bool
unfolding put_inode free_entry dirent write_entry
enter_name t d name inum (some (i, _)) f = (put_inode t i >> pure false) f
enter_name t d name inum none f =
    (do
      off ← free_entry t d ((file f d).meta.size / 16 + 2) 0
      write_entry t d off (dirent inum name)
      pure true)
      f

-- `dirlink`: false when the name is there already.
unfoldable pub dirlink : Task → ℕ → List ℕ → ℕ → Cmd Files Bool
unfolding search_dir enter_name
dirlink t d name inum = do e ← search_dir t d name; enter_name t d name inum e

-- The loop of `isdirempty` from `off` on, in at most `r` rounds.
unfoldable pub empty_loop : Task → ℕ → ℕ → ℕ → Cmd Files Bool
unfolding read_entry
empty_loop t d zero off f = unfinished
empty_loop t d (suc r) off f =
    if ltb off (file f d).meta.size
    then (do
      cs ← read_entry t d off
      if not (dirent_inum cs == 0) then pure false else empty_loop t d r (off + 16))
        f
    else ok true f

unfoldable pub isdirempty : Task → ℕ → Cmd Files Bool
unfolding empty_loop
isdirempty t d f = empty_loop t d ((file f d).meta.size / 16 + 1) 32 f
