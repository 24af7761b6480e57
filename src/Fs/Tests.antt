-- ===== src/Fs/Tests.antt =====
-- Runs of the log on small inputs: a disk of 128-word blocks with the header in block 2 and two
-- blocks changed in the cache.
use hyu_ele3021_operating_sy.Prelude.{
  ℕ, ◌<◌, ◌≡◌, refl, ◌⊎◌, inr, false, ◌||◌, none, some, List, [], ◌∷◌, arith, ◌==◌, if◌then◌else◌,
  length, replicate,
}
use hyu_ele3021_operating_sy.Fs.Buffer.{Block, Store, bread, reboot}
use hyu_ele3021_operating_sy.Fs.Log.{commit, recover_from_log, get_words}
use hyu_ele3021_operating_sy.Fs.Log.Header.{decode}
use hyu_ele3021_operating_sy.Fs.Log.Commit.{IsHome, AllHome, has, updated}
use hyu_ele3021_operating_sy.Fs.Log.Crash.{commit_atomic, commit_complete}
use hyu_ele3021_operating_sy.Fs.Journal.{Journal, log_write}
use hyu_ele3021_operating_sy.Fs.Journal.Flush.{Fits, log_write-Fits}

abbrev zeros : Block
zeros = replicate 128 0

-- Two changed blocks, and power for three writes.
abbrev dirty : ℕ → Store
dirty p = record {
  disk = λ c. zeros;
  cached = λ c. if c == 40 then some (7 ∷ zeros) else (if c == 50 then some (8 ∷ zeros) else none);
  power = p;
}

abbrev two_blocks : List ℕ
two_blocks = 40 ∷ (50 ∷ [])

two_blocks-home : AllHome 2 2 two_blocks
two_blocks-home = (inr (omega arith), (inr (omega arith), tt))

dirty-fits : (p : ℕ) → 2 < length (bread 2 (dirty p))
unfolding bread
dirty-fits p = omega arith

zeros_empty : decode zeros ≡ []
unfolding get_words
zeros_empty = refl

commit_atomic_example :
    let r = recover_from_log 2 (reboot 5 (commit 2 two_blocks (dirty 3))) in
    ((c : ℕ) → IsHome 2 2 c → r.disk c ≡ zeros)
    ⊎ ((c : ℕ)
        → IsHome 2 2 c
        → r.disk c ≡ updated (λ b. bread b (dirty 3)) (dirty 3).disk two_blocks c)
commit_atomic_example =
    commit_atomic 2 5 two_blocks (dirty 3) two_blocks-home (dirty-fits 3) zeros_empty (omega arith)

commit_complete_example :
    let t = commit 2 two_blocks (dirty 6) in
    (decode (t.disk 2) ≡ [])
    × ((c : ℕ)
        → IsHome 2 2 c
        → t.disk c ≡ updated (λ d. bread d (dirty 6)) (dirty 6).disk two_blocks c)
commit_complete_example =
    commit_complete 2 40 (50 ∷ []) (dirty 6) two_blocks-home (dirty-fits 6) (omega arith)

-- A log with two blocks and one running call.
abbrev journal : Journal
journal = record { start = 2; size = 30; outstanding = 1; committing = false; lh = two_blocks }

journal-Fits : Fits journal
journal-Fits = record { once = (refl, (refl, tt)); header = omega arith; blocks = omega arith }

log_write-Fits_example :
    (t : Journal) × (log_write 60 journal ≡ some t)
    × Fits t
    × ((c : ℕ) → has c t.lh ≡ (has c two_blocks || c == 60))
    × (t.outstanding ≡ 1)
log_write-Fits_example =
    log_write-Fits 60 journal journal-Fits (omega arith) (omega arith) (omega arith)
