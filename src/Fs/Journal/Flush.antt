-- ===== src/Fs/Journal/Flush.antt =====
-- The log in memory keeps distinct block numbers within the log, and `flush` writes them back.
use hyu_ele3021_operating_sy.Prelude.{
  if_false, ℕ, ◌+◌, ◌-◌, ◌*◌, ◌≤◌, ◌<◌, ◌≡◌, refl, sym, ap, subst, ◌∙◌, inl, inr, Bool, true, false,
  ◌||◌, some, List, [], ◌∷◌, arith, ltb, leb, ◌==◌, Bool-cases, length,
}
use hyu_ele3021_operating_sy.Fs.Buffer.{Store, bread}
use hyu_ele3021_operating_sy.Fs.Log.{commit, log_size}
use hyu_ele3021_operating_sy.Fs.Log.Commit.{IsHome, AllHome, has, updated}
use hyu_ele3021_operating_sy.Fs.Log.Crash.{commit_complete}
use hyu_ele3021_operating_sy.Fs.Journal.{Journal, absorb, log_write, flush}

abbrev Distinct : List ℕ → Type 0
Distinct [] = Unit {0}
Distinct (x ∷ xs) = (has x xs ≡ false) × Distinct xs

-- The log fits its header and its blocks on the disk.
pub record Fits (l : Journal) : Type 0 where
  pub once : Distinct l.lh
  pub header : length l.lh ≤ log_size
  pub blocks : length l.lh ≤ l.size - 1

has-absorb : (b c : ℕ) (xs : List ℕ) → has c (absorb b xs) ≡ (has c xs || c == b)
unfolding absorb
has-absorb b c [] = ground arith
has-absorb b c (x ∷ xs) = elim (Bool-cases (x == b)) [
  | inl e ↦ rw e (same (c == b) (has c xs) ∙ ap (λ y. c == y || has c xs || c == b) (sym (eq e)))
  | inr e ↦ rw (e, has-absorb b c xs) (assoc (c == x) (has c xs) (c == b))
]
  where
    eq : (x == b) ≡ true → x ≡ b
    eq e = ground arith

    same : (p q : Bool) → (p || q) ≡ (p || q || p)
    same p q = ground arith

    assoc : (p q r : Bool) → (p || (q || r)) ≡ ((p || q) || r)
    assoc p q r = ground arith

absorb-Distinct : (b : ℕ) (xs : List ℕ) → Distinct xs → Distinct (absorb b xs)
unfolding absorb
absorb-Distinct b [] d = (refl, tt)
absorb-Distinct b (x ∷ xs) (h, d) = elim (Bool-cases (x == b)) [
  | inl e ↦ let e' : x ≡ b = ground arith in rw e (subst (λ y. has y xs ≡ false) e' h, d)
  | inr e ↦ rw e (has-absorb b x xs ∙ rw (h, e) refl, absorb-Distinct b xs d)
]

pub length-absorb : (b : ℕ) (xs : List ℕ) → length (absorb b xs) ≤ length xs + 1
unfolding absorb
length-absorb b [] = omega arith
length-absorb b (x ∷ xs) = elim (Bool-cases (x == b)) [
  | inl e ↦ rw e (omega arith)
  | inr e ↦ rw e (omega (arith, length-absorb b xs))
]

-- While a call is running and the log has room, `log_write` does not panic, adds the block to the
-- log and no other, and keeps the block numbers distinct and the log within `LOGSIZE` and within
-- its blocks on the disk.
pub log_write-Fits :
    (b : ℕ) (l : Journal)
    → Fits l
    → 0 < l.outstanding
    → length l.lh < log_size
    → length l.lh < l.size - 1
    → (t : Journal) × (log_write b l ≡ some t)
      × Fits t
      × ((c : ℕ) → has c t.lh ≡ (has c l.lh || c == b))
      × (t.outstanding ≡ l.outstanding)
unfolding log_write
log_write-Fits b l f o h k =
    let full : (leb log_size (length l.lh) || leb l.size (length l.lh + 1)) ≡ false =
      ground arith in
    let idle : ltb l.outstanding 1 ≡ false = ground arith in
    (
      record l { lh = absorb b l.lh },
      if_false _ _ full ∙ if_false _ _ idle,
      record {
        once = absorb-Distinct b l.lh f.once;
        header = omega (arith, length-absorb b l.lh);
        blocks = omega (arith, length-absorb b l.lh);
      },
      (λ c. has-absorb b c l.lh),
      refl,
    )

commit-updated :
    (start : ℕ) (bs : List ℕ) (s : Store)
    → AllHome start (length bs) bs
    → length bs < length (bread start s)
    → 2 * length bs + 2 ≤ s.power
    → (c : ℕ) → IsHome start (length bs) c
    → (commit start bs s).disk c ≡ updated (λ d. bread d s) s.disk bs c
commit-updated start [] s home fits enough c h = unfold commit in refl
commit-updated start (b ∷ bs) s home fits enough c h =
    (commit_complete start b bs s home fits enough).1 c h

-- While no commit runs, if the logged blocks stand outside the log on the disk, the log fits its
-- header block, and there is power for all writes, `flush` returns the number of logged blocks,
-- empties the log, gives every block that it named its new contents on the disk and leaves the
-- other blocks outside the log as before.
pub flush-updated :
    (l : Journal) (s : Store)
    → l.committing ≡ false
    → AllHome l.start (length l.lh) l.lh
    → length l.lh < length (bread l.start s)
    → 2 * length l.lh + 2 ≤ s.power
    → ((flush l s).0 ≡ length l.lh)
      × ((flush l s).1.lh ≡ [])
      × ((c : ℕ)
          → IsHome l.start (length l.lh) c
          → (flush l s).2.disk c ≡ updated (λ d. bread d s) s.disk l.lh c)
unfolding flush
flush-updated l s idle home fits enough =
    rw idle (refl, refl, commit-updated l.start l.lh s home fits enough)
