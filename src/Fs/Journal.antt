-- ===== src/Fs/Journal.antt =====
-- Project03-FileSystem/log.c: the log in memory, `begin_op`, `end_op`, `log_write` and `flush`, each
-- from its `acquire(&log.lock)` to its `release` (`flush` and its `commit` as one step).
pub mod Flush
use hyu_ele3021_operating_sy.Prelude.{
  ℕ, ◌+◌, ◌-◌, Bool, ◌||◌, Option, none, some, List, [], ◌∷◌, length, ltb, leb, ◌==◌, if◌then◌else◌,
}
use hyu_ele3021_operating_sy.Fs.Buffer.{Store}
use hyu_ele3021_operating_sy.Fs.Log.{commit, log_size}

-- `struct log`, with the first `n` block numbers of `lh`.
pub record Journal : Type 0 where
  pub start : ℕ
  pub size : ℕ
  pub outstanding : ℕ
  pub committing : Bool
  pub lh : List ℕ

-- `none` while a commit runs, for which the caller sleeps.
unfoldable pub begin_op : Journal → Option Journal
begin_op l = if l.committing then none else some (record l { outstanding = l.outstanding + 1 })

unfoldable pub end_op : Journal → Option Journal
end_op l = if l.committing then none else some (record l { outstanding = l.outstanding - 1 })

-- The number goes to the place where it stands already, or behind the others.
unfoldable pub absorb : ℕ → List ℕ → List ℕ
absorb b [] = b ∷ []
absorb b (x ∷ xs) = let rest = absorb b xs in if x == b then b ∷ xs else x ∷ rest

-- `none` is a panic: the log is full, or no call is running.
unfoldable pub log_write : ℕ → Journal → Option Journal
unfolding absorb
log_write b l =
    if leb log_size (length l.lh) || leb l.size (length l.lh + 1)
    then none
    else (if ltb l.outstanding 1 then none else some (record l { lh = absorb b l.lh }))

-- The number of blocks written back.
unfoldable pub flush : Journal → Store → ℕ × Journal × Store
flush l s =
    if l.committing then (0, l, s) else (length l.lh, record l { lh = [] }, commit l.start l.lh s)
