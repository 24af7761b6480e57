-- ===== src/Fs/Log/Header.antt =====
-- The header of the log reads back as it was written.
use hyu_ele3021_operating_sy.Prelude.{
  ℕ, ◌+◌, ◌≤◌, ◌<◌, ◌≡◌, refl, ap, ap₂, ◌∙◌, List, [], ◌∷◌, arith, length, get_or, set, length-set,
  get_or-set_self, get_or-set_ne,
}
use hyu_ele3021_operating_sy.Fs.Buffer.{Block}
use hyu_ele3021_operating_sy.Fs.Log.{get_words, put_words}

-- Words in front of the ones written stay.
get_or-put_words :
    (i j : ℕ) (bs : List ℕ) (x : Block) → j ≤ i → get_or (put_words i bs x) j 0 ≡ get_or x j 0
unfolding put_words
get_or-put_words i j [] x h = refl
get_or-put_words i j (b ∷ bs) x h =
    get_or-put_words (i + 1) j bs (set x (i + 1) b) (omega arith)
    ∙ get_or-set_ne x (i + 1) j b 0 (omega arith)

get_words-put_words :
    (i : ℕ) (bs : List ℕ) (x : Block)
    → i + length bs < length x
    → get_words (length bs) i (put_words i bs x) ≡ bs
unfolding get_words put_words
get_words-put_words i [] x h = refl
get_words-put_words i (b ∷ bs) x h =
    ap₂ ◌∷◌
      (get_or-put_words (i + 1) (i + 1) bs (set x (i + 1) b) (omega arith)
        ∙ get_or-set_self x (i + 1) b 0 (omega arith))
      (get_words-put_words (i + 1) bs (set x (i + 1) b) (omega (arith, length-set x (i + 1) b)))

-- A header.
abbrev pub encode : List ℕ → Block → Block
encode bs x = put_words 0 bs (set x 0 (length bs))

abbrev pub decode : Block → List ℕ
decode x = get_words (get_or x 0 0) 0 x

-- If a block has more words than a log has blocks, the header that `write_head` writes into it
-- reads back as that log.
pub decode-encode : (bs : List ℕ) (x : Block) → length bs < length x → decode (encode bs x) ≡ bs
decode-encode bs x h =
    ap (λ n. get_words n 0 (encode bs x))
      (get_or-put_words 0 0 bs (set x 0 (length bs)) (omega arith)
        ∙ get_or-set_self x 0 (length bs) 0 (omega arith))
    ∙ get_words-put_words 0 bs (set x 0 (length bs)) (omega (arith, length-set x 0 (length bs)))

pub length-put_words : (i : ℕ) (bs : List ℕ) (x : Block) → length (put_words i bs x) ≡ length x
unfolding put_words
length-put_words i [] x = refl
length-put_words i (b ∷ bs) x =
    length-put_words (i + 1) bs (set x (i + 1) b) ∙ length-set x (i + 1) b
