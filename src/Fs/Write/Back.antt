-- ===== src/Fs/Write/Back.antt =====
-- `readi` returns what `writei` wrote.
use hyu_ele3021_operating_sy.Prelude.{
  if_true, if_false, ℕ, suc, ◌+◌, ◌-◌, ◌*◌, ◌/◌, ◌%◌, ◌^◌, ◌≤◌, ◌<◌, min, ◌≡◌, refl, sym, ap, ap₂,
  ◌∙◌, ◌⊎◌, inl, inr, Bool, true, false, ◌&&◌, ◌||◌, List, [], ◌∷◌, arith, ltb, if◌then◌else◌,
  Bool-cases, length, get_or,
}
use hyu_ele3021_operating_sy.Fs.Buffer.{bread}
use hyu_ele3021_operating_sy.Fs.Blocks.{Superblock, Kern}
use hyu_ele3021_operating_sy.Fs.Inode.{Meta, Inode, iblock, put_at, to_words, iupdate}
use hyu_ele3021_operating_sy.Fs.Content.{bsize, bytes, got, readi}
use hyu_ele3021_operating_sy.Fs.Content.Read.{not_lt, file_byte, AllPlaced, readi-AreBytes}
use hyu_ele3021_operating_sy.Fs.Write.{max_file, grow, writei, written}
use hyu_ele3021_operating_sy.Fs.Write.Bytes.{AreSmall}
use hyu_ele3021_operating_sy.Fs.Write.Layout.{
  HasRoom, update-Grows, Laid, Laid-AllPlaced, Laid-kept, Wrote,
}
use hyu_ele3021_operating_sy.Fs.Write.Rounds.{kept}
use hyu_ele3021_operating_sy.Fs.Write.Loop.{spans, room_less, room_after, write_loop-Wrote}

-- Lists with the same bytes.
same_bytes :
    (xs ys : List ℕ)
    → length xs ≡ length ys
    → ((i : ℕ) → i < length ys → get_or xs i 0 ≡ get_or ys i 0)
    → xs ≡ ys
same_bytes [] [] e h = refl
same_bytes [] (y ∷ ys) e h = absurd (omega (arith, e))
same_bytes (x ∷ xs) [] e h = absurd (omega (arith, e))
same_bytes (x ∷ xs) (y ∷ ys) e h =
    ap₂ (λ a zs. a ∷ zs) (h 0 (omega arith))
      (same_bytes xs ys (omega (arith, e)) (λ i l. h (suc i) (omega (arith, l))))

module _ (sb : Superblock) (place : ℕ → ℕ) (e home off : ℕ) (cs : List ℕ) where
  -- Where the bytes of the file are `cs`, `readi` returns them.
  read_back :
      (m : Meta) (k : Kern)
      → Laid sb m place e home k
      → ((i : ℕ) → i < length cs → file_byte sb m k place (off + i) ≡ get_or cs i 0)
      → off + length cs ≤ m.size
      → off + length cs < 2 ^ 32
      → off + length cs ≤ e
      → readi sb off (length cs) m k ≡ got cs m k
  read_back m k l inside s z u =
      let p = Laid-AllPlaced sb m place e home k l in
      let n : min (length cs) (m.size - off) ≡ length cs = omega (arith, s) in
      let small : AllPlaced sb m k place (off + min (length cs) (m.size - off)) = record {
        placed = λ bn h. p.placed bn (omega (arith, h, u, n));
        whole = λ bn h. p.whole bn (omega (arith, h, u, n));
      } in
      let (xs, q, a) =
        readi-AreBytes sb m k place off (length cs) (omega (arith, s)) (omega (arith, z)) small in
      let same : xs ≡ cs =
        same_bytes xs cs (a.all_read ∙ n) (λ i h. a.each i (omega (arith, h, n)) ∙ inside i h) in
      q ∙ ap (λ ys. got ys m k) same

-- The size after a write of the `n` bytes from `off` on.
abbrev pub size_after : ℕ → ℕ → ℕ → ℕ
size_after size off n = if ltb size (off + n) then off + n else size

-- The bytes `cs` are in the file from `off` on, and `readi` returns them; the other bytes of the file
-- are as they were.
pub record Stored (sb : Superblock) (place : ℕ → ℕ) (off : ℕ) (cs : List ℕ) (ip : Inode) (k : Kern)
    (ip' : Inode) (k' : Kern) : Type 0 where
  pub runs : writei sb off cs ip k ≡ written ip' k'
  pub reads : readi sb off (length cs) ip'.meta k' ≡ got cs ip'.meta k'
  pub size : ip'.meta.size ≡ size_after ip.meta.size off (length cs)
  pub outside :
      (p : ℕ)
      → p < ip.meta.size
      → (p < off) ⊎ (off + length cs ≤ p)
      → file_byte sb ip'.meta k' place p ≡ file_byte sb ip.meta k place p

module _ (sb : Superblock) (place : ℕ → ℕ) (e off : ℕ) (cs : List ℕ) (ip : Inode) (k k1 : Kern)
    (z : off + length cs < 2 ^ 32) (u : off + length cs ≤ e) (v : ip.meta.size ≤ e)
    (run : writei sb off cs ip k ≡ grow sb off (length cs) ip k1)
    (w : Wrote sb ip.meta place e
      (iblock sb ip.inum)
      (spans off (length cs))
      off
      (length cs)
      cs
      k
      k1) where
  abbrev home : ℕ
  home = iblock sb ip.inum

  abbrev n : ℕ
  n = length cs

  -- The file has not grown.
  Stored-within :
      ltb ip.meta.size (off + n) ≡ false
      → (ip' : Inode) × (k' : Kern) × Stored sb place off cs ip k ip' k'
  unfolding grow
  Stored-within t = (
    ip,
    k1,
    record {
      runs = run ∙ if_false _ _ (no_growth (ltb 0 n) t);
      reads = read_back sb place e home off cs ip.meta k1 w.laid w.inside (not_lt _ _ t) z u;
      size = sym (if_false _ _ t);
      outside = λ p l side. w.outside p (omega (arith, l, v)) side;
    },
  )
    where
      no_growth : (a : Bool) {b : Bool} → b ≡ false → (a && b) ≡ false
      no_growth a h = ground (arith, h)

  abbrev grown : Inode
  grown = record ip { meta = record (ip.meta) { size = off + n } }

  -- The file has grown, and the inode is written as well.
  Stored-grown :
      ltb ip.meta.size (off + n) ≡ true
      → off ≤ ip.meta.size
      → HasRoom 1 k1
      → (ip' : Inode) × (k' : Kern) × Stored sb place off cs ip k ip' k'
  unfolding grow iupdate
  Stored-grown t b r =
      let x = put_at (ip.inum % 8 * 16) (to_words grown.meta) (bread home k1.store) in
      let (k2, q, g) = update-Grows home x k1 r in
      let data_kept : (bn : ℕ)
          → bn * bsize < e
          → bread (place bn) k2.store ≡ bread (place bn) k1.store =
        λ bn h. kept home x k1 k2 q (place bn) (λ s. w.laid.apart bn h (sym s)) in
      let l2 : Laid sb ip.meta place e home k2 =
        Laid-kept sb ip.meta place e home k1 k2 (λ c o. kept home x k1 k2 q c o.1)
          (λ bn h. ap length (data_kept bn h) ∙ w.laid.whole bn h) w.laid in
      let same : (p : ℕ)
          → p < e
          → file_byte sb ip.meta k2 place p ≡ file_byte sb ip.meta k1 place p =
        λ p h.
          ap (λ y. get_or (bytes y) (p % bsize) 0) (data_kept (p / bsize) (omega (arith, h))) in
      let l3 : Laid sb grown.meta place e home k2 = record {
        way = l2.way;
        distinct = l2.distinct;
        whole = l2.whole;
        apart = l2.apart;
      } in
      (
        grown,
        k2,
        record {
          runs = run ∙ if_true _ _ (growth t b) ∙ rw q refl;
          reads =
              read_back sb place e home off cs grown.meta k2 l3
                (λ i h. same (off + i) (omega (arith, h, u)) ∙ w.inside i h) (omega arith) z u;
          size = sym (if_true _ _ t);
          outside =
              λ p l side. same p (omega (arith, l, v)) ∙ w.outside p (omega (arith, l, v)) side;
        },
      )
    where
      growth :
          {size : ℕ}
          → ltb size (off + n) ≡ true
          → off ≤ size
          → (ltb 0 n && ltb size (off + n)) ≡ true
      growth t b = ground (arith, t, b)

-- If the offset is within the size of a regular file, offset and count fit a `uint` and the largest
-- file, the bytes are below 256, the blocks of the file up to a bound that is below neither its
-- size nor the end of the write are there, are different blocks of 128 words, and hold neither
-- addresses of the file nor its inode, and the log has room for the blocks of the write and of the
-- inode, then `writei` neither refuses nor panics; afterwards `readi` at the same place returns the
-- bytes written, the size is the old one or the end of the write where that is larger, and the
-- other bytes of the file are as they were.
pub writei-Stored :
    (sb : Superblock) (place : ℕ → ℕ) (e off : ℕ) (cs : List ℕ) (ip : Inode) (k : Kern)
    → off ≤ ip.meta.size
    → off + length cs < 2 ^ 32
    → off + length cs ≤ max_file * bsize
    → off + length cs ≤ e
    → ip.meta.size ≤ e
    → AreSmall cs
    → Laid sb ip.meta place e (iblock sb ip.inum) k
    → HasRoom (spans off (length cs) + 1) k
    → (ip' : Inode) × (k' : Kern) × Stored sb place off cs ip k ip' k'
unfolding writei
writei-Stored sb place e off cs ip k b z f u v small l r =
    let (k1, q, w) =
      write_loop-Wrote sb ip.meta place e (iblock sb ip.inum) (length cs) off cs k (omega arith) u
        small (room_less (spans off (length cs)) (spans off (length cs) + 1) k (omega arith) r) l in
    let run : writei sb off cs ip k ≡ grow sb off (length cs) ip k1 =
      if_false _ _ (accepted ip.meta.size (length cs) b z f) ∙ rw q refl in
    elim (Bool-cases (ltb ip.meta.size (off + length cs))) [
      | inl t ↦ Stored-grown sb place e off cs ip k k1 z u v run w t b (
          room_after (spans off (length cs)) 1 k k1 w.log
            (room_less (1 + spans off (length cs)) (spans off (length cs) + 1) k (omega arith) r))
      | inr t ↦ Stored-within sb place e off cs ip k k1 z u v run w t
    ]
  where
    accepted :
        (size n : ℕ)
        → off ≤ size
        → off + n < 2 ^ 32
        → off + n ≤ max_file * bsize
        → (ltb size off || ltb ((off + n) % 2 ^ 32) off || ltb (max_file * bsize) (off + n)) ≡ false
    accepted size n b z f = ground (arith, b, z, f)
