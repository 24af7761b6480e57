-- ===== src/Fs/Write/Ends.antt =====
-- The loop of `writei` has rounds enough.
use hyu_ele3021_operating_sy.Prelude.{
  if_true, if_false, length-drop, ℕ, zero, suc, ◌+◌, ◌*◌, ◌/◌, ◌%◌, ◌^◌, ◌≤◌, ◌<◌, ◌≡◌, refl, sym,
  subst, inl, inr, Bool, true, false, ◌&&◌, ◌||◌, Option, none, some, List, arith, ltb, ◌==◌,
  Bool-cases, length, drop,
}
use hyu_ele3021_operating_sy.Fs.Blocks.{Superblock, Kern}
use hyu_ele3021_operating_sy.Fs.Inode.{Meta, Inode, iupdate}
use hyu_ele3021_operating_sy.Fs.Bmap.{bmap}
use hyu_ele3021_operating_sy.Fs.Content.{bsize, part, Looped, ended, halted, out_of_rounds}
use hyu_ele3021_operating_sy.Fs.Content.Ends.{IsOver, part_positive}
use hyu_ele3021_operating_sy.Fs.Write.{
  max_file, write_part, write_loop, Writing, written, panic, unfinished, grow, writei,
}

write_loop-IsOver :
    (sb : Superblock) (r off : ℕ) (cs : List ℕ) (m : Meta) (k : Kern)
    → length cs ≤ r
    → IsOver (write_loop sb r off cs m k)
unfolding write_loop
write_loop-IsOver sb zero off cs m k h =
    subst IsOver (sym (if_true _ _ (none_left (length cs) h))) refl
  where
    none_left : (n : ℕ) → n ≤ 0 → (n == 0) ≡ true
    none_left n h = ground (arith, h)
write_loop-IsOver sb (suc r) off cs m k h =
    test (length cs == 0)
      (λ e m1 k1.
        write_loop-IsOver sb r (off + part off (length cs)) (drop (part off (length cs)) cs) m1 k1
          (shorter (part off (length cs)) (part_positive off (length cs) e)))
      refl
  where
    shorter : (c : ℕ) → 0 < c → length (drop c cs) ≤ r
    shorter c p = omega (arith, length-drop c cs, p, h)

    Rest : Type 0
    Rest =
        (m1 : Meta) (k1 : Kern)
        → IsOver
            (write_loop sb r (off + part off (length cs)) (drop (part off (length cs)) cs) m1 k1)

    stored :
        (m1 : Meta) (o : Option Kern)
        → Rest
        → IsOver (elim o as (λ x. Looped (Meta × Kern)) [
          | none ↦ halted
          | some k2 ↦
              write_loop sb r (off + part off (length cs)) (drop (part off (length cs)) cs) m1 k2
        ])
    stored m1 none f = refl
    stored m1 (some k2) f = f m1 k2

    mapped :
        (o : Option (ℕ × Meta × Kern))
        → Rest
        → IsOver (elim o as (λ x. Looped (Meta × Kern)) [
          | none ↦ halted
          | some (b, m1, k1) ↦ elim (write_part b off cs k1) as (λ x. Looped (Meta × Kern)) [
            | none ↦ halted
            | some k2 ↦
                write_loop sb r (off + part off (length cs)) (drop (part off (length cs)) cs) m1 k2
          ]
        ])
    mapped none f = refl
    mapped (some (b, m1, k1)) f = stored m1 (write_part b off cs k1) f

    test :
        (c : Bool)
        → ((length cs == 0) ≡ false → Rest)
        → (length cs == 0) ≡ c
        → IsOver (elim c as (λ x. Looped (Meta × Kern)) [
          | true ↦ ended (m, k)
          | false ↦ elim (bmap sb (off / bsize) m k) as (λ x. Looped (Meta × Kern)) [
            | none ↦ halted
            | some (b, m1, k1) ↦ elim (write_part b off cs k1) as (λ x. Looped (Meta × Kern)) [
              | none ↦ halted
              | some k2 ↦
                  write_loop sb r
                    (off + part off (length cs))
                    (drop (part off (length cs)) cs)
                    m1
                    k2
            ]
          ]
        ])
    test true f e = refl
    test false f e = mapped (bmap sb (off / bsize) m k) (f e)

abbrev is_done : Writing → Bool
is_done unfinished = false
is_done _ = true

abbrev pub IsDone : Writing → Type 0
IsDone w = is_done w ≡ true

grow-IsDone : (sb : Superblock) (off n : ℕ) (ip : Inode) (k : Kern) → IsDone (grow sb off n ip k)
unfolding grow
grow-IsDone sb off n ip k = elim (Bool-cases (ltb 0 n && ltb ip.meta.size (off + n))) [
  | inl e ↦
      subst IsDone (sym (if_true _ _ e))
        (updated (iupdate sb (record ip { meta = record (ip.meta) { size = off + n } }) k))
  | inr e ↦ subst IsDone (sym (if_false _ _ e)) refl
]
  where
    updated :
        (o : Option Kern)
        → IsDone (elim o as (λ x. Writing) [
          | none ↦ panic
          | some k' ↦ written (record ip { meta = record (ip.meta) { size = off + n } }) k'
        ])
    updated none = refl
    updated (some k') = refl

-- `writei` never needs more rounds than it has bytes to write.
pub writei-IsDone :
    (sb : Superblock) (off : ℕ) (cs : List ℕ) (ip : Inode) (k : Kern)
    → IsDone (writei sb off cs ip k)
unfolding writei
writei-IsDone sb off cs ip k =
    elim (Bool-cases (
      ltb ip.meta.size off
      || ltb ((off + length cs) % 2 ^ 32) off
      || ltb (max_file * bsize) (off + length cs))) [
        | inl e ↦ subst IsDone (sym (if_true _ _ e)) refl
        | inr e ↦ subst IsDone (sym (if_false _ _ e)) (
            looped (write_loop sb (length cs) off cs ip.meta k)
              (write_loop-IsOver sb (length cs) off cs ip.meta k (omega arith)))
      ]
  where
    looped :
        (o : Looped (Meta × Kern))
        → IsOver o
        → IsDone (elim o as (λ x. Writing) [
          | halted ↦ panic
          | out_of_rounds ↦ unfinished
          | ended (m, k') ↦ grow sb off (length cs) (record ip { meta = m }) k'
        ])
    looped halted e = refl
    looped out_of_rounds e = e
    looped (ended (m, k')) e = grow-IsDone sb off (length cs) (record ip { meta = m }) k'
