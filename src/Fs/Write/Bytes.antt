-- ===== src/Fs/Write/Bytes.antt =====
-- The bytes of a block before and after `memmove` puts others in their place.
use hyu_ele3021_operating_sy.Prelude.{
  length-drop, ℕ, zero, suc, ◌+◌, ◌-◌, ◌*◌, ◌/◌, ◌%◌, ◌≤◌, ◌<◌, ◌≡◌, refl, sym, ap, subst, ◌∙◌, inl,
  inr, List, [], ◌∷◌, ◌++◌, arith, ltb, ltb→lt, Bool-cases, length, get_or, take, drop,
  length-append,
}
use hyu_ele3021_operating_sy.Fs.Buffer.{Block}
use hyu_ele3021_operating_sy.Fs.Content.{bytes}
use hyu_ele3021_operating_sy.Fs.Content.Read.{
  length-take, get_or-take, get_or-drop, get_or-append_left, get_or-append_right, not_lt,
}
use hyu_ele3021_operating_sy.Fs.Write.{words, splice}

-- Numbers that a byte can hold.
abbrev pub AreSmall : List ℕ → Type 0
AreSmall cs = (i : ℕ) → get_or cs i 0 < 256

small_tail : (c : ℕ) (cs : List ℕ) → AreSmall (c ∷ cs) → AreSmall cs
small_tail c cs h i = h (suc i)

-- Bytes in fours go into words and come back.
pub bytes-words : (n : ℕ) (cs : List ℕ) → length cs ≡ 4 * n → AreSmall cs → bytes (words cs) ≡ cs
unfolding bytes words
bytes-words zero [] e h = refl
bytes-words zero (c ∷ cs) e h = absurd (omega (arith, e))
bytes-words (suc n) [] e h = absurd (omega (arith, e))
bytes-words (suc n) (a ∷ []) e h = absurd (omega (arith, e))
bytes-words (suc n) (a ∷ (b ∷ [])) e h = absurd (omega (arith, e))
bytes-words (suc n) (a ∷ (b ∷ (c ∷ []))) e h = absurd (omega (arith, e))
bytes-words (suc n) (a ∷ (b ∷ (c ∷ (d ∷ cs)))) e h =
    let rest : bytes (words cs) ≡ cs =
      bytes-words n cs (omega (arith, e)) (λ i. h (suc (suc (suc (suc i))))) in
    let ha : a < 256 = h 0 in
    let hb : b < 256 = h 1 in
    let hc : c < 256 = h 2 in
    let hd : d < 256 = h 3 in
    let w = a + 256 * b + 65536 * c + 16777216 * d in
    let ea : w % 256 ≡ a = omega (arith, ha) in
    let eb : w / 256 % 256 ≡ b = omega (arith, ha, hb) in
    let ec : w / 65536 % 256 ≡ c = omega (arith, ha, hb, hc) in
    let ed : w / 16777216 % 256 ≡ d = omega (arith, ha, hb, hc, hd) in
    rw (ea, eb, ec, ed, rest) refl

pub length-words : (n : ℕ) (cs : List ℕ) → length cs ≡ 4 * n → length (words cs) ≡ n
unfolding words
length-words zero [] e = refl
length-words zero (c ∷ cs) e = absurd (omega (arith, e))
length-words (suc n) [] e = absurd (omega (arith, e))
length-words (suc n) (a ∷ []) e = absurd (omega (arith, e))
length-words (suc n) (a ∷ (b ∷ [])) e = absurd (omega (arith, e))
length-words (suc n) (a ∷ (b ∷ (c ∷ []))) e = absurd (omega (arith, e))
length-words (suc n) (a ∷ (b ∷ (c ∷ (d ∷ cs)))) e = ap suc (length-words n cs (omega (arith, e)))

pub bytes-AreSmall : (x : Block) → AreSmall (bytes x)
unfolding bytes
bytes-AreSmall [] i = omega arith
bytes-AreSmall (w ∷ ws) zero = omega arith
bytes-AreSmall (w ∷ ws) (suc zero) = omega arith
bytes-AreSmall (w ∷ ws) (suc (suc zero)) = omega arith
bytes-AreSmall (w ∷ ws) (suc (suc (suc zero))) = omega arith
bytes-AreSmall (w ∷ ws) (suc (suc (suc (suc i)))) = bytes-AreSmall ws i

module _ (o : ℕ) (cs xs : List ℕ) where
  pub length-splice : o + length cs ≤ length xs → length (splice o cs xs) ≡ length xs
  unfolding splice
  length-splice h =
      let lt : length (take o xs) ≡ o = length-take o xs (omega (arith, h)) in
      let ld = length-drop (o + length cs) xs in
      let lc = length-append (take o xs) (cs ++ drop (o + length cs) xs) in
      let le = length-append cs (drop (o + length cs) xs) in omega (arith, h, lt, ld, lc, le)

  -- A byte before the new ones, one of them, and one behind them.
  pub get_or-splice_before :
      (i : ℕ) → o ≤ length xs → i < o → get_or (splice o cs xs) i 0 ≡ get_or xs i 0
  unfolding splice
  get_or-splice_before i h l =
      let lt : length (take o xs) ≡ o = length-take o xs h in
      get_or-append_left (take o xs) (cs ++ drop (o + length cs) xs) i (omega (arith, lt, l))
      ∙ get_or-take o i xs l

  pub get_or-splice_in :
      (i : ℕ) → o ≤ length xs → i < length cs → get_or (splice o cs xs) (o + i) 0 ≡ get_or cs i 0
  unfolding splice
  get_or-splice_in i h l =
      let lt : length (take o xs) ≡ o = length-take o xs h in
      let ys = cs ++ drop (o + length cs) xs in
      ap (λ n. get_or (take o xs ++ ys) (n + i) 0) (sym lt)
      ∙ get_or-append_right (take o xs) ys i
      ∙ get_or-append_left cs (drop (o + length cs) xs) i l

  pub get_or-splice_after :
      (i : ℕ)
      → o ≤ length xs
      → get_or (splice o cs xs) (o + (length cs + i)) 0 ≡ get_or xs (o + (length cs + i)) 0
  unfolding splice
  get_or-splice_after i h =
      let lt : length (take o xs) ≡ o = length-take o xs h in
      let ys = cs ++ drop (o + length cs) xs in
      ap (λ n. get_or (take o xs ++ ys) (n + (length cs + i)) 0) (sym lt)
      ∙ get_or-append_right (take o xs) ys (length cs + i)
      ∙ get_or-append_right cs (drop (o + length cs) xs) i
      ∙ get_or-drop (o + length cs) i xs
      ∙ ap (λ n. get_or xs n 0) (omega arith)

  pub splice-AreSmall :
      o + length cs ≤ length xs → AreSmall cs → AreSmall xs → AreSmall (splice o cs xs)
  splice-AreSmall h c x i = elim (Bool-cases (ltb i o)) [
    | inl e ↦
        let l = ltb→lt i o e in
        subst (λ n. n < 256) (sym (get_or-splice_before i (omega (arith, h)) l)) (x i)
    | inr e ↦ elim (Bool-cases (ltb i (o + length cs))) [
      | inl f ↦
          let l = ltb→lt i (o + length cs) f in
          let g = not_lt i o e in
          let s : o + (i - o) ≡ i = omega (arith, g) in
          subst (λ j. get_or (splice o cs xs) j 0 < 256) s
            (subst (λ n. n < 256)
              (sym (get_or-splice_in (i - o) (omega (arith, h)) (omega (arith, g, l)))) (c (i - o)))
      | inr f ↦
          let g = not_lt i (o + length cs) f in
          let s : o + (length cs + (i - o - length cs)) ≡ i = omega (arith, g) in
          subst (λ j. get_or (splice o cs xs) j 0 < 256) s
            (subst (λ n. n < 256) (sym (get_or-splice_after (i - o - length cs) (omega (arith, h))))
              (x (o + (length cs + (i - o - length cs)))))
    ]
  ]
