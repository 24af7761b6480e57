-- ===== src/Fs/Write/Rounds.antt =====
-- A round of the loop of `writei` on such a file.
use hyu_ele3021_operating_sy.Prelude.{
  if_true, if_false, ℕ, zero, suc, ◌+◌, ◌-◌, ◌*◌, ◌/◌, ◌%◌, ◌≤◌, ◌<◌, ◌≡◌, sym, ap, ◌∙◌, ◌≢◌, ◌⊎◌,
  inl, inr, false, some, List, [], ◌∷◌, arith, ◌==◌, ==_iff, ==_self, Bool-cases, length, get_or,
  take,
}
use hyu_ele3021_operating_sy.Fs.Buffer.{Block, bread}
use hyu_ele3021_operating_sy.Fs.Blocks.{Superblock, Kern, update}
use hyu_ele3021_operating_sy.Fs.Blocks.Marks.{bread-update}
use hyu_ele3021_operating_sy.Fs.Inode.{Meta}
use hyu_ele3021_operating_sy.Fs.Content.{bsize, bytes, part}
use hyu_ele3021_operating_sy.Fs.Content.Read.{length-bytes, length-take, get_or-take, file_byte}
use hyu_ele3021_operating_sy.Fs.Write.{words, splice, write_part}
use hyu_ele3021_operating_sy.Fs.Write.Bytes.{
  AreSmall, bytes-words, length-words, bytes-AreSmall, length-splice, get_or-splice_before,
  get_or-splice_in, get_or-splice_after, splice-AreSmall,
}
use hyu_ele3021_operating_sy.Fs.Write.Layout.{
  Grows, HasRoom, update-Grows, IsOther, Laid, Laid-kept, Wrote,
}

-- New data for a block, and the others.
module _ (b : ℕ) (x : Block) (k k' : Kern) (h : update b x k ≡ some k') where
  pub updated : bread b k'.store ≡ x
  updated = bread-update b b x k k' h ∙ if_true _ _ (==_self b)

  pub kept : (c : ℕ) → c ≢ b → bread c k'.store ≡ bread c k.store
  kept c n = bread-update b c x k k' h ∙ if_false _ _ (differ n)
    where
      differ : {c d : ℕ} → c ≢ d → (c == d) ≡ false
      differ h = ground (arith, h)

pub take_small : (n : ℕ) (cs : List ℕ) → AreSmall cs → AreSmall (take n cs)
take_small zero cs h i = omega arith
take_small (suc n) [] h i = omega arith
take_small (suc n) (c ∷ cs) h zero = h zero
take_small (suc n) (c ∷ cs) h (suc i) = take_small n cs (λ j. h (suc j)) i

module _ (sb : Superblock) (m : Meta) (place : ℕ → ℕ) (e home : ℕ) where
  module _ (off : ℕ) (cs : List ℕ) (k : Kern) (l : Laid sb m place e home k) where
    abbrev count : ℕ
    count = part off (length cs)

    abbrev block : ℕ
    block = place (off / bsize)

    abbrev new_bytes : List ℕ
    new_bytes = splice (off % bsize) (take count cs) (bytes (bread block k.store))

    module _ (some_left : 0 < length cs) (inner : off + length cs ≤ e) where
      block_there : off / bsize * bsize < e
      block_there = omega (arith, some_left, inner)

      length_old : length (bytes (bread block k.store)) ≡ 512
      length_old =
          let a = length-bytes (bread block k.store) in
          let w = l.whole (off / bsize) block_there in omega (arith, a, w)

      length_part : length (take count cs) ≡ count
      length_part = length-take count cs (omega arith)

      fits : off % bsize + length (take count cs) ≤ length (bytes (bread block k.store))
      fits = omega (arith, length_old, length_part)

      length_new : length new_bytes ≡ 4 * 128
      length_new =
          length-splice (off % bsize) (take count cs) (bytes (bread block k.store)) fits
          ∙ length_old

      starts : off % bsize ≤ length (bytes (bread block k.store))
      starts = omega (arith, fits)

      module _ (small : AreSmall cs) (k' : Kern)
          (h : update block (words new_bytes) k ≡ some k') where
        now : bytes (bread block k'.store) ≡ new_bytes
        now =
            ap bytes (updated block (words new_bytes) k k' h)
            ∙ bytes-words 128 new_bytes length_new (
                splice-AreSmall (off % bsize) (take count cs) (bytes (bread block k.store)) fits
                  (take_small count cs small) (bytes-AreSmall (bread block k.store)))

        -- A byte of this block.
        byte_now :
            (p : ℕ)
            → p / bsize ≡ off / bsize
            → file_byte sb m k' place p ≡ get_or new_bytes (p % bsize) 0
        byte_now p q =
            ap (λ n. get_or (bytes (bread (place n) k'.store)) (p % bsize) 0) q
            ∙ ap (λ xs. get_or xs (p % bsize) 0) now

        byte_before :
            (p : ℕ)
            → p / bsize ≡ off / bsize
            → get_or (bytes (bread block k.store)) (p % bsize) 0 ≡ file_byte sb m k place p
        byte_before p q = sym (ap (λ n. get_or (bytes (bread (place n) k.store)) (p % bsize) 0) q)

        inside_now : (i : ℕ) → i < count → file_byte sb m k' place (off + i) ≡ get_or cs i 0
        inside_now i g =
            let q : (off + i) / bsize ≡ off / bsize = omega (arith, g) in
            let r : (off + i) % bsize ≡ off % bsize + i = omega (arith, g) in
            byte_now (off + i) q
            ∙ ap (λ n. get_or new_bytes n 0) r
            ∙ get_or-splice_in (off % bsize) (take count cs) (bytes (bread block k.store)) i starts
                (omega (arith, g, length_part))
            ∙ get_or-take count i cs g

        outside_now :
            (p : ℕ)
            → p < e
            → (p < off) ⊎ (off + count ≤ p)
            → file_byte sb m k' place p ≡ file_byte sb m k place p
        outside_now p low side = elim (Bool-cases (p / bsize == off / bsize)) [
          | inl t ↦ same_block p ((==_iff (p / bsize) (off / bsize)).0 t) side
          | inr t ↦
              let n : place (p / bsize) ≢ block = λ u.
                other_block t
                  (l.distinct (p / bsize) (off / bsize) (omega (arith, low)) block_there u) in
              ap (λ x. get_or (bytes x) (p % bsize) 0)
                (kept block (words new_bytes) k k' h (place (p / bsize)) n)
        ]
          where
            other_block : {a b : ℕ} → (a == b) ≡ false → a ≢ b
            other_block t = ground (arith, t)

            same_block :
                (p : ℕ)
                → p / bsize ≡ off / bsize
                → (p < off) ⊎ (off + count ≤ p)
                → file_byte sb m k' place p ≡ file_byte sb m k place p
            same_block p q (inl u) =
                byte_now p q
                ∙ get_or-splice_before (off % bsize) (take count cs) (bytes (bread block k.store))
                    (p % bsize) starts (omega (arith, q, u))
                ∙ byte_before p q
            same_block p q (inr u) =
                let s : p % bsize ≡ off % bsize + (length (take count cs) + (p - off - count)) =
                  omega (arith, q, u, length_part) in
                byte_now p q
                ∙ ap (λ n. get_or new_bytes n 0) s
                ∙ get_or-splice_after (off % bsize) (take count cs) (bytes (bread block k.store))
                    (p - off - count) starts
                ∙ ap (λ n. get_or (bytes (bread block k.store)) n 0) (sym s)
                ∙ byte_before p q

        whole_now : (bn : ℕ) → bn * bsize < e → length (bread (place bn) k'.store) ≡ 128
        whole_now bn g = elim (Bool-cases (place bn == block)) [
          | inl t ↦
              ap (λ c. length (bread c k'.store)) ((==_iff (place bn) block).0 t)
              ∙ ap length (updated block (words new_bytes) k k' h)
              ∙ length-words 128 new_bytes length_new
          | inr t ↦
              ap length (kept block (words new_bytes) k k' h (place bn) (apart t)) ∙ l.whole bn g
        ]
          where
            apart : {a b : ℕ} → (a == b) ≡ false → a ≢ b
            apart t = ground (arith, t)

        round_Wrote : Grows 1 k k' → Wrote sb m place e home 1 off count cs k k'
        round_Wrote g =
            let others : (c : ℕ)
                → IsOther sb m place e home c
                → bread c k'.store ≡ bread c k.store =
              λ c o. kept block (words new_bytes) k k' h c (o (off / bsize) block_there) in
            record {
              laid = Laid-kept sb m place e home k k' (λ c o. others c o.0) whole_now l;
              inside = inside_now;
              outside = outside_now;
              others = others;
              log = g;
            }

      -- A round writes its part.
      pub write_part-Wrote :
          AreSmall cs
          → HasRoom 1 k
          → (k' : Kern) × (write_part block off cs k ≡ some k')
            × Wrote sb m place e home 1 off count cs k k'
      unfolding write_part
      write_part-Wrote small r =
          let (k', q, g) = update-Grows block (words new_bytes) k r in
          (k', q, round_Wrote small k' q g)
