-- ===== src/Fs/Log.antt =====
-- Project03-FileSystem/log.c: the header of the log on the disk, `write_log`, `install_trans`,
-- `commit` and `recover_from_log`. `log.lh` is the list of its first `n` block numbers; `start` is
-- `log.start`.
pub mod Header
pub mod Commit
pub mod Writes
pub mod Crash
use hyu_ele3021_operating_sy.Prelude.{ℕ, zero, suc, ◌+◌, List, [], ◌∷◌, length, set, get_or}
use hyu_ele3021_operating_sy.Fs.Buffer.{Block, Store, bread, put}

-- `LOGSIZE` of param.h
abbrev pub log_size : ℕ
log_size = 100

-- The block numbers of a header from word `i + 1` on.
unfoldable pub get_words : ℕ → ℕ → Block → List ℕ
get_words zero i x = []
get_words (suc n) i x = get_or x (i + 1) 0 ∷ get_words n (i + 1) x

unfoldable pub put_words : ℕ → List ℕ → Block → Block
put_words i [] x = x
put_words i (b ∷ bs) x = put_words (i + 1) bs (set x (i + 1) b)

unfoldable pub read_head : ℕ → Store → List ℕ
unfolding get_words bread
read_head start s = let x = bread start s in get_words (get_or x 0 0) 0 x

unfoldable pub write_head : ℕ → List ℕ → Store → Store
unfolding put_words put
write_head start bs s = put start (put_words 0 bs (set (bread start s) 0 (length bs))) s

-- The loop from `tail` on.
unfoldable pub install_trans : ℕ → ℕ → List ℕ → Store → Store
unfolding put
install_trans start tail [] s = s
install_trans start tail (b ∷ bs) s =
    install_trans start (tail + 1) bs (put b (bread (start + tail + 1) s) s)

unfoldable pub write_log : ℕ → ℕ → List ℕ → Store → Store
unfolding put
write_log start tail [] s = s
write_log start tail (b ∷ bs) s =
    write_log start (tail + 1) bs (put (start + tail + 1) (bread b s) s)

-- `commit`; the log in memory is empty afterwards.
unfoldable pub commit : ℕ → List ℕ → Store → Store
unfolding write_log write_head install_trans
commit start [] s = s
commit start (b ∷ bs) s =
    write_head start []
      (install_trans start 0 (b ∷ bs) (write_head start (b ∷ bs) (write_log start 0 (b ∷ bs) s)))

unfoldable pub recover_from_log : ℕ → Store → Store
unfolding read_head write_head install_trans
recover_from_log start s = write_head start [] (install_trans start 0 (read_head start s) s)
