-- ===== src/Fs/Content/Ends.antt =====
-- The loop of `readi` has rounds enough.
use hyu_ele3021_operating_sy.Prelude.{
  if_true, if_false, ℕ, zero, suc, ◌+◌, ◌-◌, ◌/◌, ◌%◌, ◌^◌, ◌≤◌, ◌<◌, ◌≡◌, refl, sym, subst, inl,
  inr, Bool, true, false, ◌||◌, Option, none, some, List, [], ◌++◌, arith, ltb, ◌==◌, if◌then◌else◌,
  Bool-cases, take, drop,
}
use hyu_ele3021_operating_sy.Fs.Buffer.{bread}
use hyu_ele3021_operating_sy.Fs.Blocks.{Superblock, Kern}
use hyu_ele3021_operating_sy.Fs.Inode.{Meta}
use hyu_ele3021_operating_sy.Fs.Bmap.{bmap}
use hyu_ele3021_operating_sy.Fs.Content.{
  bsize, bytes, part, Looped, ended, halted, out_of_rounds, read_loop, Contents, got, panic,
  unfinished, readi,
}

abbrev is_over : {A : Type 0} → Looped A → Bool
is_over out_of_rounds = false
is_over _ = true

-- The loop has not run out of rounds.
abbrev pub IsOver : {A : Type 0} → Looped A → Type 0
IsOver l = is_over l ≡ true

pub part_positive : (off n : ℕ) → (n == 0) ≡ false → 0 < part off n
part_positive off n e = let h : 0 < n = ground (arith, e) in omega (arith, h)

read_loop-IsOver :
    (sb : Superblock) (r off n : ℕ) (m : Meta) (k : Kern)
    → n ≤ r
    → IsOver (read_loop sb r off n m k)
unfolding read_loop
read_loop-IsOver sb zero off n m k h =
    let e : (n == 0) ≡ true = ground (arith, h) in rw (e, read_loop) refl
read_loop-IsOver sb (suc r) off n m k h =
    test (n == 0)
      (λ e m1 k1.
        read_loop-IsOver sb r (off + part off n) (n - part off n) m1 k1
          (omega (arith, h, part_positive off n e)))
      refl
  where
    Rest : Type 0
    Rest =
        (m1 : Meta) (k1 : Kern) → IsOver (read_loop sb r (off + part off n) (n - part off n) m1 k1)

    rest_read :
        (xs : List ℕ) (o : Looped (List ℕ × Meta × Kern))
        → IsOver o
        → IsOver (elim o as (λ x. Looped (List ℕ × Meta × Kern)) [
          | halted ↦ halted
          | out_of_rounds ↦ out_of_rounds
          | ended (ds, m2, k2) ↦ ended (xs ++ ds, m2, k2)
        ])
    rest_read xs halted e = refl
    rest_read xs out_of_rounds e = e
    rest_read xs (ended (ds, m2, k2)) e = refl

    mapped :
        (o : Option (ℕ × Meta × Kern))
        → Rest
        → IsOver (elim o as (λ x. Looped (List ℕ × Meta × Kern)) [
          | none ↦ halted
          | some (b, m1, k1) ↦
              elim (read_loop sb r (off + part off n) (n - part off n) m1 k1)
                as (λ x. Looped (List ℕ × Meta × Kern)) [
                  | halted ↦ halted
                  | out_of_rounds ↦ out_of_rounds
                  | ended (ds, m2, k2) ↦ ended (
                    take (part off n) (drop (off % bsize) (bytes (bread b k1.store))) ++ ds,
                    m2,
                    k2,
                  )
                ]
        ])
    mapped none f = refl
    mapped (some (b, m1, k1)) f =
        rest_read (take (part off n) (drop (off % bsize) (bytes (bread b k1.store))))
          (read_loop sb r (off + part off n) (n - part off n) m1 k1) (f m1 k1)

    test :
        (c : Bool)
        → ((n == 0) ≡ false → Rest)
        → (n == 0) ≡ c
        → IsOver (elim c as (λ x. Looped (List ℕ × Meta × Kern)) [
          | true ↦ ended ([], m, k)
          | false ↦ elim (bmap sb (off / bsize) m k) as (λ x. Looped (List ℕ × Meta × Kern)) [
            | none ↦ halted
            | some (b, m1, k1) ↦
                elim (read_loop sb r (off + part off n) (n - part off n) m1 k1)
                  as (λ x. Looped (List ℕ × Meta × Kern)) [
                    | halted ↦ halted
                    | out_of_rounds ↦ out_of_rounds
                    | ended (ds, m2, k2) ↦ ended (
                      take (part off n) (drop (off % bsize) (bytes (bread b k1.store))) ++ ds,
                      m2,
                      k2,
                    )
                  ]
          ]
        ])
    test true f e = refl
    test false f e = mapped (bmap sb (off / bsize) m k) (f e)

abbrev is_done : Contents → Bool
is_done unfinished = false
is_done _ = true

abbrev pub IsDone : Contents → Type 0
IsDone c = is_done c ≡ true

-- `readi` never needs more rounds than it asks for bytes.
pub readi-IsDone : (sb : Superblock) (off n : ℕ) (m : Meta) (k : Kern) → IsDone (readi sb off n m k)
unfolding readi
readi-IsDone sb off n m k =
    let c = if ltb m.size (off + n) then m.size - off else n in
    elim (Bool-cases (ltb m.size off || ltb ((off + n) % 2 ^ 32) off)) [
      | inl e ↦ subst IsDone (sym (if_true _ _ e)) refl
      | inr e ↦
          subst IsDone (sym (if_false _ _ e))
            (looped (read_loop sb c off c m k) (read_loop-IsOver sb c off c m k (omega arith)))
    ]
  where
    looped :
        (o : Looped (List ℕ × Meta × Kern))
        → IsOver o
        → IsDone (elim o as (λ x. Contents) [
          | halted ↦ panic
          | out_of_rounds ↦ unfinished
          | ended (cs, m', k') ↦ got cs m' k'
        ])
    looped halted e = refl
    looped out_of_rounds e = e
    looped (ended (cs, m', k')) e = refl
