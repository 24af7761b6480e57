-- ===== src/Fs/Cache/Choice.antt =====
-- Which buffer `bget` takes.
use hyu_ele3021_operating_sy.Prelude.{
  if_true, if_false, ℕ, zero, suc, ◌+◌, ◌<◌, ◌≡◌, sym, ap, subst, ◌∙◌, inl, inr, Bool, true, false,
  Option, none, some, List, [], ◌∷◌, arith, if◌then◌else◌, Bool-cases, length, set,
}
use hyu_ele3021_operating_sy.Fs.Cache.{
  Buf, is_spare, is_block, find_cached, find_spare, buf, recycled, bget,
}

-- The first buffer of a block from position `i` on, by its place in the list.
data Cached (dev blockno i : ℕ) (bs : List Buf) : Option ℕ → Type 0 where
  hit :
      (k j : ℕ)
      → i + k ≡ j
      → k < length bs
      → is_block dev blockno (buf bs k) ≡ true
      → ((l : ℕ) → l < k → is_block dev blockno (buf bs l) ≡ false)
      → Cached dev blockno i bs (some j)
  miss :
      ((l : ℕ) → l < length bs → is_block dev blockno (buf bs l) ≡ false)
      → Cached dev blockno i bs none

-- Every position is the first or a later one.
at_head :
    (f : Buf → Bool) (b : Buf) (bs : List Buf) (n : ℕ)
    → f b ≡ false
    → ((l : ℕ) → l < n → f (buf bs l) ≡ false)
    → (l : ℕ) → l < suc n
    → f (buf (b ∷ bs) l) ≡ false
at_head f b bs n e h zero k = e
at_head f b bs n e h (suc l) k = h l (omega arith)

find_cached-Cached :
    (dev blockno i : ℕ) (bs : List Buf) → Cached dev blockno i bs (find_cached dev blockno i bs)
unfolding find_cached
find_cached-Cached dev blockno i [] = miss (λ l h. absurd (omega arith))
find_cached-Cached dev blockno i (b ∷ bs) = elim (Bool-cases (is_block dev blockno b)) [
  | inl e ↦
      subst (Cached dev blockno i (b ∷ bs)) (sym (if_true _ _ e))
        (hit 0 i (omega arith) (omega arith) e (λ l h. absurd (omega arith)))
  | inr e ↦
      subst (Cached dev blockno i (b ∷ bs)) (sym (if_false _ _ e))
        (later e (find_cached-Cached dev blockno (i + 1) bs))
]
  where
    later :
        {r : Option ℕ}
        → is_block dev blockno b ≡ false
        → Cached dev blockno (i + 1) bs r
        → Cached dev blockno i (b ∷ bs) r
    later e (hit k j a h y f) =
        hit (suc k) j (omega arith) (omega arith) y (at_head (is_block dev blockno) b bs k e f)
    later e (miss f) = miss (at_head (is_block dev blockno) b bs (length bs) e f)

-- The last spare buffer from position `i` on.
data Spare (i : ℕ) (bs : List Buf) : Option ℕ → Type 0 where
  spare :
      (k j : ℕ)
      → i + k ≡ j
      → k < length bs
      → is_spare (buf bs k) ≡ true
      → ((l : ℕ) → k < l → l < length bs → is_spare (buf bs l) ≡ false)
      → Spare i bs (some j)
  all_used : ((l : ℕ) → l < length bs → is_spare (buf bs l) ≡ false) → Spare i bs none

find_spare-Spare : (i : ℕ) (bs : List Buf) → Spare i bs (find_spare i bs)
unfolding find_spare
find_spare-Spare i [] = all_used (λ l h. absurd (omega arith))
find_spare-Spare i (b ∷ bs) = later (find_spare (i + 1) bs) (find_spare-Spare (i + 1) bs)
  where
    behind :
        (k n : ℕ)
        → ((l : ℕ) → k < l → l < n → is_spare (buf bs l) ≡ false)
        → (l : ℕ) → suc k < l
        → l < suc n
        → is_spare (buf (b ∷ bs) l) ≡ false
    behind k n f zero x y = absurd (omega arith)
    behind k n f (suc l) x y = f l (omega arith) (omega arith)

    front :
        (n : ℕ)
        → ((l : ℕ) → l < n → is_spare (buf bs l) ≡ false)
        → (l : ℕ) → 0 < l
        → l < suc n
        → is_spare (buf (b ∷ bs) l) ≡ false
    front n f zero x y = absurd (omega arith)
    front n f (suc l) x y = f l (omega arith)

    later :
        (r : Option ℕ)
        → Spare (i + 1) bs r
        → Spare i (b ∷ bs) (elim r as (λ x. Option ℕ) [
          | some j ↦ some j
          | none ↦ if is_spare b then some i else none
        ])
    later _ (spare k j a h y f) =
        spare (suc k) j (omega arith) (omega arith) y (behind k (length bs) f)
    later _ (all_used f) = elim (Bool-cases (is_spare b)) [
      | inl e ↦
          subst (Spare i (b ∷ bs)) (sym (if_true _ _ e))
            (spare 0 i (omega arith) (omega arith) e (front (length bs) f))
      | inr e ↦
          subst (Spare i (b ∷ bs)) (sym (if_false _ _ e))
            (all_used (at_head is_spare b bs (length bs) e f))
    ]

-- What `bget` does to the list `bs`.
pub data Got (dev blockno : ℕ) (bs : List Buf) : Option (ℕ × List Buf) → Type 0 where
  cached :
      (i : ℕ)
      → i < length bs
      → is_block dev blockno (buf bs i) ≡ true
      → ((l : ℕ) → l < i → is_block dev blockno (buf bs l) ≡ false)
      → Got dev blockno bs
          (some (i, set bs i (record (buf bs i) { refcnt = (buf bs i).refcnt + 1 })))
  taken :
      (i : ℕ)
      → ((l : ℕ) → l < length bs → is_block dev blockno (buf bs l) ≡ false)
      → i < length bs
      → is_spare (buf bs i) ≡ true
      → ((l : ℕ) → i < l → l < length bs → is_spare (buf bs l) ≡ false)
      → Got dev blockno bs (
          some (
            i,
            set bs i (record (buf bs i) {
              dev = dev;
              blockno = blockno;
              is_valid = false;
              dirty = false;
              refcnt = 1;
            }),
          ))
  panics :
      ((l : ℕ) → l < length bs → is_block dev blockno (buf bs l) ≡ false)
      → ((l : ℕ) → l < length bs → is_spare (buf bs l) ≡ false)
      → Got dev blockno bs none

-- `bget` takes the first buffer in the list that has the block and counts one more reference to it;
-- if none has the block, it takes the buffer that is least recently used among those with no
-- references that are not dirty, gives it the block, not valid, not dirty and with one reference,
-- and panics just if there is none; the other buffers and their order stay.
pub bget-Got : (dev blockno : ℕ) (bs : List Buf) → Got dev blockno bs (bget dev blockno bs)
unfolding bget
bget-Got dev blockno bs = scan (find_cached dev blockno 0 bs) (find_cached-Cached dev blockno 0 bs)
  where
    recycle :
        ((l : ℕ) → l < length bs → is_block dev blockno (buf bs l) ≡ false)
        → (r : Option ℕ) → Spare 0 bs r
        → Got dev blockno bs (elim r as (λ x. Option (ℕ × List Buf)) [
          | some i ↦ some (i, set bs i (recycled dev blockno (buf bs i)))
          | none ↦ none
        ])
    recycle f _ (all_used g) = panics f g
    recycle f _ (spare k j a h y g) =
        let e : k ≡ j = omega arith in
        taken j f (omega arith) (ap (λ m. is_spare (buf bs m)) (sym e) ∙ y)
          (λ l p q. g l (omega arith) q)

    scan :
        (r : Option ℕ)
        → Cached dev blockno 0 bs r
        → Got dev blockno bs (elim r as (λ x. Option (ℕ × List Buf)) [
          | some i ↦ some (i, set bs i (record (buf bs i) { refcnt = (buf bs i).refcnt + 1 }))
          | none ↦ elim (find_spare 0 bs) as (λ x. Option (ℕ × List Buf)) [
            | some i ↦ some (i, set bs i (recycled dev blockno (buf bs i)))
            | none ↦ none
          ]
        ])
    scan _ (miss f) = recycle f (find_spare 0 bs) (find_spare-Spare 0 bs)
    scan _ (hit k j a h y f) =
        let e : k ≡ j = omega arith in
        cached j (omega arith) (ap (λ m. is_block dev blockno (buf bs m)) (sym e) ∙ y)
          (λ l p. f l (omega arith))
