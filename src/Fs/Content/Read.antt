-- ===== src/Fs/Content/Read.antt =====
-- `readi` returns the bytes of the file.
use hyu_ele3021_operating_sy.Prelude.{
  true, ℕ, zero, suc, ◌+◌, ◌-◌, ◌*◌, ◌/◌, ◌%◌, ◌^◌, ◌≤◌, ◌<◌, min, ◌≡◌, refl, sym, ap, ap₂, subst,
  ◌∙◌, inl, inr, false, some, List, [], ◌∷◌, ◌++◌, arith, ltb, ◌==◌, ltb→lt, ==_iff, Bool-cases,
  length, get_or, take, drop, length-append, length-drop,
}
use hyu_ele3021_operating_sy.Fs.Buffer.{Block, bread}
use hyu_ele3021_operating_sy.Fs.Blocks.{Superblock, Kern}
use hyu_ele3021_operating_sy.Fs.Inode.{Meta}
use hyu_ele3021_operating_sy.Fs.Bmap.{bmap}
use hyu_ele3021_operating_sy.Fs.Content.{bsize, bytes, part, ended, read_loop, got, readi}

pub length-bytes : (x : Block) → length (bytes x) ≡ 4 * length x
unfolding bytes
length-bytes [] = refl
length-bytes (w ∷ ws) = omega (arith, length-bytes ws)

pub length-take : (n : ℕ) (xs : List ℕ) → n ≤ length xs → length (take n xs) ≡ n
length-take zero xs h = refl
length-take (suc n) [] h = absurd (omega arith)
length-take (suc n) (x ∷ xs) h = ap suc (length-take n xs (omega arith))

pub get_or-take : (n i : ℕ) (xs : List ℕ) → i < n → get_or (take n xs) i 0 ≡ get_or xs i 0
get_or-take zero i xs h = absurd (omega arith)
get_or-take (suc n) i [] h = refl
get_or-take (suc n) zero (x ∷ xs) h = refl
get_or-take (suc n) (suc i) (x ∷ xs) h = get_or-take n i xs (omega arith)

pub get_or-drop : (n i : ℕ) (xs : List ℕ) → get_or (drop n xs) i 0 ≡ get_or xs (n + i) 0
get_or-drop zero i xs = ap (λ j. get_or xs j 0) (omega arith)
get_or-drop (suc n) i [] = refl
get_or-drop (suc n) i (x ∷ xs) =
    let e : suc n + i ≡ suc (n + i) = omega arith in
    get_or-drop n i xs ∙ sym (ap (λ j. get_or (x ∷ xs) j 0) e)

pub get_or-append_left :
    (xs ys : List ℕ) (i : ℕ) → i < length xs → get_or (xs ++ ys) i 0 ≡ get_or xs i 0
get_or-append_left [] ys i h = absurd (omega arith)
get_or-append_left (x ∷ xs) ys zero h = refl
get_or-append_left (x ∷ xs) ys (suc i) h = get_or-append_left xs ys i (omega arith)

pub get_or-append_right :
    (xs ys : List ℕ) (i : ℕ) → get_or (xs ++ ys) (length xs + i) 0 ≡ get_or ys i 0
get_or-append_right [] ys i = ap (λ j. get_or ys j 0) (omega arith)
get_or-append_right (x ∷ xs) ys i =
    let e : suc (length xs) + i ≡ suc (length xs + i) = omega arith in
    ap (λ j. get_or (x ∷ (xs ++ ys)) j 0) e ∙ get_or-append_right xs ys i

pub not_lt : (a b : ℕ) → ltb a b ≡ false → b ≤ a
not_lt a b e = ground arith

module _ (sb : Superblock) (m : Meta) (k : Kern) (place : ℕ → ℕ) where
  -- Byte `p` of the file whose block `bn` is block `place bn` of the disk.
  abbrev pub file_byte : ℕ → ℕ
  file_byte p = get_or (bytes (bread (place (p / bsize)) k.store)) (p % bsize) 0

  -- The `n` bytes from `off` on.
  pub record AreBytes (off n : ℕ) (cs : List ℕ) : Type 0 where
    pub all_read : length cs ≡ n
    pub each : (i : ℕ) → i < n → get_or cs i 0 ≡ file_byte (off + i)

  -- The blocks up to byte `e` are there.
  pub record AllPlaced (e : ℕ) : Type 0 where
    pub placed : (bn : ℕ) → bn * bsize < e → bmap sb bn m k ≡ some (place bn, m, k)
    pub whole : (bn : ℕ) → bn * bsize < e → length (bread (place bn) k.store) ≡ 128

  -- A round's bytes, and the rest.
  AreBytes-append :
      (off n : ℕ) (cs : List ℕ)
      → 0 < n
      → length (bread (place (off / bsize)) k.store) ≡ 128
      → AreBytes (off + part off n) (n - part off n) cs
      → AreBytes off n (
          take (part off n) (drop (off % bsize) (bytes (bread (place (off / bsize)) k.store)))
          ++ cs)
  AreBytes-append off n cs h w a =
      let xs = bytes (bread (place (off / bsize)) k.store) in
      let c = part off n in
      let ys = take c (drop (off % bsize) xs) in
      let lx = length-bytes (bread (place (off / bsize)) k.store) in
      let ld = length-drop (off % bsize) xs in
      let ly : length ys ≡ c = length-take c (drop (off % bsize) xs) (omega (arith, lx, ld, w)) in
      record {
        all_read = length-append ys cs ∙ omega (arith, ly, a.all_read);
        each = λ i l. elim (Bool-cases (ltb i c)) [
          | inl e ↦
              let low : i < c = ltb→lt i c e in
              let q : (off + i) / bsize ≡ off / bsize = omega (arith, low) in
              let r : (off + i) % bsize ≡ off % bsize + i = omega (arith, low) in
              get_or-append_left ys cs i (omega (arith, ly, low))
              ∙ get_or-take c i (drop (off % bsize) xs) low
              ∙ get_or-drop (off % bsize) i xs
              ∙ ap₂ (λ b j. get_or (bytes (bread (place b) k.store)) j 0) (sym q) (sym r)
          | inr e ↦
              let high : c ≤ i = not_lt i c e in
              let s : i ≡ length ys + (i - c) = omega (arith, high, ly) in
              let t : off + c + (i - c) ≡ off + i = omega (arith, high) in
              ap (λ j. get_or (ys ++ cs) j 0) s
              ∙ get_or-append_right ys cs (i - c)
              ∙ a.each (i - c) (omega (arith, high, l))
              ∙ ap file_byte t
        ];
      }

  read_loop-AreBytes :
      (r off n : ℕ)
      → n ≤ r
      → AllPlaced (off + n)
      → (cs : List ℕ) × (read_loop sb r off n m k ≡ ended (cs, m, k)) × AreBytes off n cs
  unfolding read_loop
  read_loop-AreBytes zero off n h p =
      let e : (n == 0) ≡ true = ground (arith, h) in
      (
        [],
        rw (e, read_loop) refl,
        record { all_read = omega arith; each = λ i l. absurd (omega (arith, l, h)) },
      )
  read_loop-AreBytes (suc r) off n h p = elim (Bool-cases (n == 0)) [
    | inl e ↦
        let z : n ≡ 0 = (==_iff n 0).0 e in
        (
          [],
          rw (e, read_loop) refl,
          record { all_read = sym z; each = λ i l. absurd (omega (arith, l, z)) },
        )
    | inr e ↦
        let some_left : 0 < n = ground arith in
        let here : off / bsize * bsize < off + n = omega (arith, some_left) in
        let c = part off n in
        let same : off + n ≡ off + c + (n - c) = omega arith in
        let (cs, q, a) =
          read_loop-AreBytes r (off + c) (n - c) (omega (arith, some_left))
            (subst AllPlaced same p) in
        (
          take c (drop (off % bsize) (bytes (bread (place (off / bsize)) k.store))) ++ cs,
          rw (e, p.placed (off / bsize) here, q, read_loop) refl,
          AreBytes-append off n cs some_left (p.whole (off / bsize) here) a,
        )
  ]

  -- If the offset is within the size of the file, offset and count do not exceed a `uint`, and the
  -- blocks of the bytes to be read are there and have 128 words, `readi` of a regular file neither
  -- fails nor panics: it returns as many bytes as were asked for or are left, each the byte of the
  -- file at its place, and changes nothing.
  pub readi-AreBytes :
      (off n : ℕ)
      → off ≤ m.size
      → off + n < 2 ^ 32
      → AllPlaced (off + min n (m.size - off))
      → (cs : List ℕ) × (readi sb off n m k ≡ got cs m k) × AreBytes off (min n (m.size - off)) cs
  unfolding readi
  readi-AreBytes off n h z p =
      let size = min n (m.size - off) in
      let starts : ltb m.size off ≡ false = not_ltb m.size off h in
      let fits : ltb ((off + n) % 2 ^ 32) off ≡ false =
        not_ltb ((off + n) % 2 ^ 32) off (omega (arith, z)) in
      elim (Bool-cases (ltb m.size (off + n))) [
        | inl e ↦
            let over = ltb→lt m.size (off + n) e in
            let t : m.size - off ≡ size = omega (arith, over) in
            let (cs, q, a) =
              read_loop-AreBytes (m.size - off) off (m.size - off) (omega arith)
                (subst (λ l. AllPlaced (off + l)) (sym t) p) in
            (cs, rw (e, starts, fits, q, readi) refl, subst (λ l. AreBytes off l cs) t a)
        | inr e ↦
            let within = not_lt m.size (off + n) e in
            let t : n ≡ size = omega (arith, within) in
            let (cs, q, a) =
              read_loop-AreBytes n off n (omega arith)
                (subst (λ l. AllPlaced (off + l)) (sym t) p) in
            (cs, rw (e, starts, fits, q, readi) refl, subst (λ l. AreBytes off l cs) t a)
      ]
    where
      not_ltb : (a b : ℕ) → b ≤ a → ltb a b ≡ false
      not_ltb a b h = ground arith
