-- ===== src/Fs/Links.antt =====
-- Project03-FileSystem/fs.c: `readi` and `writei` of any inode. A symbolic link is followed first;
-- what is asked of a device is handed to its driver.
use hyu_ele3021_operating_sy.Prelude.{
  ℕ, zero, suc, ◌+◌, Bool, not, ◌&&◌, Option, none, some, List, ltb, ◌==◌, if◌then◌else◌, length,
}
use hyu_ele3021_operating_sy.Io.Strings.{safestrcpy, strlen}
use hyu_ele3021_operating_sy.Fs.Inode.{Meta}
use hyu_ele3021_operating_sy.Fs.Content.{bytes, Contents, got, refused, panic, unfinished, readi}
use hyu_ele3021_operating_sy.Fs.Write.{Writing, written, refused, panic, unfinished, writei}
use hyu_ele3021_operating_sy.Fs.Names.{Files, file, with_file}
use hyu_ele3021_operating_sy.Fs.Run.{Run, ok, panics, overruns, unfinished, Cmd, pure, ◌>>=◌, ◌>>◌}
use hyu_ele3021_operating_sy.Fs.Handles.{Task, lock, release, namei}

-- `T_FILE`, `T_DEV` and `T_SYMLINK` of stat.h, and `NDEV` of param.h
abbrev pub t_file : ℕ
t_file = 2

abbrev pub t_dev : ℕ
t_dev = 3

abbrev pub t_symlink : ℕ
t_symlink = 4

abbrev ndev : ℕ
ndev = 10

-- Only the console has a driver in `devsw`.
abbrev pub has_driver : ℕ → Bool
has_driver major = ltb major ndev && major == 1

-- The ends of the search for the target: an inode, locked; a chain of more than ten links, whose
-- last inode is locked; or a path that leads nowhere.
pub data Target : Type 0 where
  target : ℕ → Target
  cyclic : ℕ → Target
  dangling : Target

-- The path text in the addresses of a link. A copy that finds no 0 in them goes on behind them.
abbrev pub runs_over : Meta → Bool
runs_over m =
    strlen (bytes m.addrs) == length (bytes m.addrs) && ltb (length (bytes m.addrs)) m.size

unfoldable pub link_path : Meta → List ℕ
unfolding safestrcpy bytes
link_path m = safestrcpy (bytes m.addrs) (m.size + 1)

-- A round from the result of `namei` on; `next` is the rest of the loop.
unfoldable pub follow_link : Task → ℕ → (ℕ → Cmd Files Target) → Option ℕ → Cmd Files Target
unfolding lock
follow_link t oi next none = lock t oi >> pure dangling
follow_link t oi next (some j) = lock t j >> next j

-- The loop at the inode in slot `i`, with `r` links to go; `oi` is the inode of the call.
unfoldable pub resolve : Task → ℕ → ℕ → ℕ → Cmd Files Target
unfolding follow_link release namei link_path
resolve t oi zero i f =
    if (file f i).meta.type == t_symlink then ok (cyclic i) f else ok (target i) f
resolve t oi (suc r) i f =
    let m = (file f i).meta in
    if not (m.type == t_symlink)
    then ok (target i) f
    else (if runs_over m
        then overruns
        else (do release t i; j ← namei t (link_path m); follow_link t oi (resolve t oi r) j) f)

-- The lock goes back from the target to the inode of the call.
unfoldable pub go_back : Task → ℕ → ℕ → Cmd Files (Unit {0})
unfolding lock release
go_back t oi i = if i == oi then pure tt else (release t i >> lock t oi)

-- What a call returns: its bytes or their number, -1, or the request to the driver of the device in
-- a slot.
pub data Reply (A : Type 0) : Type 0 where
  reply : A → Reply A
  fails : Reply A
  to_driver : ℕ → Reply A

abbrev pub device_reply : {A : Type 0} → Task → ℕ → ℕ → Cmd Files (Reply A)
device_reply t oi i f =
    if has_driver (file f i).meta.major
    then (go_back t oi i >> pure (to_driver i)) f
    else (go_back t oi i >> pure fails) f

unfoldable pub read_end : Task → ℕ → ℕ → Files → Contents → Run Files (Reply (List ℕ))
unfolding go_back
read_end t oi i f refused = (go_back t oi i >> pure fails) f
read_end t oi i f panic = panics
read_end t oi i f unfinished = unfinished
read_end t oi i f (got cs m k) =
    (go_back t oi i >> pure (reply cs)) (with_file f i (record (file f i) { meta = m }) k)

unfoldable pub read_target : Task → ℕ → ℕ → ℕ → Target → Cmd Files (Reply (List ℕ))
unfolding go_back read_end readi
read_target t oi off n dangling f = ok fails f
read_target t oi off n (cyclic i) f = (go_back t oi i >> pure fails) f
read_target t oi off n (target i) f =
    if (file f i).meta.type == t_dev
    then device_reply t oi i f
    else read_end t oi i f (readi t.sb off n (file f i).meta f.kern)

-- `readi` of the inode in slot `i`.
unfoldable pub read_inode : Task → ℕ → ℕ → ℕ → Cmd Files (Reply (List ℕ))
unfolding resolve read_target
read_inode t i off n = do w ← resolve t i 10 i; read_target t i off n w

unfoldable pub write_end : Task → ℕ → ℕ → ℕ → Files → Writing → Run Files (Reply ℕ)
unfolding go_back
write_end t oi i n f refused = (go_back t oi i >> pure fails) f
write_end t oi i n f panic = panics
write_end t oi i n f unfinished = unfinished
write_end t oi i n f (written ip k) = (go_back t oi i >> pure (reply n)) (with_file f i ip k)

unfoldable pub write_target : Task → ℕ → ℕ → List ℕ → Target → Cmd Files (Reply ℕ)
unfolding go_back write_end writei
write_target t oi off cs dangling f = ok fails f
write_target t oi off cs (cyclic i) f = (go_back t oi i >> pure fails) f
write_target t oi off cs (target i) f =
    if (file f i).meta.type == t_dev
    then device_reply t oi i f
    else write_end t oi i (length cs) f (writei t.sb off cs (file f i) f.kern)

-- `writei` of the inode in slot `i`.
unfoldable pub write_inode : Task → ℕ → ℕ → List ℕ → Cmd Files (Reply ℕ)
unfolding resolve write_target
write_inode t i off cs = do w ← resolve t i 10 i; write_target t i off cs w
