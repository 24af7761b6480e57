-- ===== src/Fs/Write/Loop.antt =====
-- The loop of `writei`: what it writes, and the blocks that it logs.
use hyu_ele3021_operating_sy.Prelude.{
  if_true, true, length-drop, ℕ, zero, suc, ◌+◌, ◌-◌, ◌*◌, ◌/◌, ◌≤◌, ◌<◌, min, ◌≡◌, refl, sym, ap,
  subst, ◌∙◌, ◌⊎◌, inl, inr, List, arith, ltb, ◌==◌, ltb→lt, ==_iff, Bool-cases, length, get_or,
  drop,
}
use hyu_ele3021_operating_sy.Fs.Blocks.{Superblock, Kern}
use hyu_ele3021_operating_sy.Fs.Inode.{Meta}
use hyu_ele3021_operating_sy.Fs.Content.{bsize, part, ended}
use hyu_ele3021_operating_sy.Fs.Content.Read.{get_or-drop, not_lt, file_byte}
use hyu_ele3021_operating_sy.Fs.Write.{write_loop}
use hyu_ele3021_operating_sy.Fs.Write.Bytes.{AreSmall}
use hyu_ele3021_operating_sy.Fs.Write.Layout.{Grows, HasRoom, Laid, Laid-AllPlaced, Wrote}
use hyu_ele3021_operating_sy.Fs.Write.Rounds.{write_part-Wrote}

-- As many blocks hold the `n` bytes from `off` on.
abbrev pub spans : ℕ → ℕ → ℕ
spans off n = min n ((off + n + 511) / bsize - off / bsize)

spans-part : (off n : ℕ) → 0 < n → spans (off + part off n) (n - part off n) + 1 ≤ spans off n
spans-part off n h = omega (arith, h)

drop_small : (n : ℕ) (cs : List ℕ) → AreSmall cs → AreSmall (drop n cs)
drop_small n cs h i = subst (λ c. c < 256) (sym (get_or-drop n i cs)) (h (n + i))

pub room_after : (i j : ℕ) (k k' : Kern) → Grows i k k' → HasRoom (j + i) k → HasRoom j k'
room_after i j k k' g r = record {
  running = omega (arith, g.calls, r.running);
  in_header = omega (arith, g.more, r.in_header);
  on_disk = omega (arith, g.more, g.room, r.on_disk);
}

pub room_less : (i j : ℕ) (k : Kern) → i ≤ j → HasRoom j k → HasRoom i k
room_less i j k h r = record {
  running = r.running;
  in_header = omega (arith, h, r.in_header);
  on_disk = omega (arith, h, r.on_disk);
}

Grows-trans : (i j n : ℕ) (k k1 k2 : Kern) → j + i ≤ n → Grows i k k1 → Grows j k1 k2 → Grows n k k2
Grows-trans i j n k k1 k2 h f g = record {
  more = omega (arith, h, f.more, g.more);
  calls = g.calls ∙ f.calls;
  room = g.room ∙ f.room;
}

module _ (sb : Superblock) (m : Meta) (place : ℕ → ℕ) (e home : ℕ) where
  -- A part that is written, and then the rest.
  Wrote-join :
      (i j off c n : ℕ) (cs : List ℕ) (k k1 k2 : Kern)
      → c ≤ n
      → off + n ≤ e
      → j + i ≤ spans off n
      → Wrote sb m place e home i off c cs k k1
      → Wrote sb m place e home j (off + c) (n - c) (drop c cs) k1 k2
      → Wrote sb m place e home (spans off n) off n cs k k2
  Wrote-join i j off c n cs k k1 k2 h u s f g = record {
    laid = g.laid;
    inside = λ p l. elim (Bool-cases (ltb p c)) [
      | inl t ↦
          let low = ltb→lt p c t in
          g.outside (off + p) (omega (arith, u, l)) (inl (omega (arith, low))) ∙ f.inside p low
      | inr t ↦
          let high = not_lt p c t in
          let at : off + p ≡ off + c + (p - c) = omega (arith, high) in
          let to : c + (p - c) ≡ p = omega (arith, high) in
          ap (file_byte sb m k2 place) at
          ∙ g.inside (p - c) (omega (arith, high, l))
          ∙ get_or-drop c (p - c) cs
          ∙ ap (λ q. get_or cs q 0) to
    ];
    outside = λ p l side. g.outside p l (far p side) ∙ f.outside p l (near p side);
    others = λ b o. g.others b o ∙ f.others b o;
    log = Grows-trans i j (spans off n) k k1 k2 s f.log g.log;
  }
    where
      far : (p : ℕ) → (p < off) ⊎ (off + n ≤ p) → (p < off + c) ⊎ (off + c + (n - c) ≤ p)
      far p (inl l) = inl (omega (arith, l))
      far p (inr l) = inr (omega (arith, l, h))

      near : (p : ℕ) → (p < off) ⊎ (off + n ≤ p) → (p < off) ⊎ (off + c ≤ p)
      near p (inl l) = inl l
      near p (inr l) = inr (omega (arith, l, h))

  pub write_loop-Wrote :
      (r off : ℕ) (cs : List ℕ) (k : Kern)
      → length cs ≤ r
      → off + length cs ≤ e
      → AreSmall cs
      → HasRoom (spans off (length cs)) k
      → Laid sb m place e home k
      → (k' : Kern) × (write_loop sb r off cs m k ≡ ended (m, k'))
        × Wrote sb m place e home (spans off (length cs)) off (length cs) cs k k'
  unfolding write_loop
  write_loop-Wrote zero off cs k h u small room l =
      (k, if_true _ _ (none_left (length cs) h), nothing h)
    where
      none_left : (n : ℕ) → n ≤ 0 → (n == 0) ≡ true
      none_left n h = ground (arith, h)

      nothing :
          length cs ≤ 0 → Wrote sb m place e home (spans off (length cs)) off (length cs) cs k k
      nothing h = record {
        laid = l;
        inside = λ i g. absurd (omega (arith, g, h));
        outside = λ p g s. refl;
        others = λ c o. refl;
        log = record { more = omega arith; calls = refl; room = refl };
      }
  write_loop-Wrote (suc r) off cs k h u small room l = elim (Bool-cases (length cs == 0)) [
    | inl t ↦
        let z : length cs ≡ 0 = (==_iff (length cs) 0).0 t in
        (
          k,
          rw (t, write_loop) refl,
          record {
            laid = l;
            inside = λ i g. absurd (omega (arith, g, z));
            outside = λ p g s. refl;
            others = λ c o. refl;
            log = record { more = omega arith; calls = refl; room = refl };
          },
        )
    | inr t ↦
        let n = length cs in
        let c = part off n in
        let left : 0 < n = ground (arith, t) in
        let fewer = spans-part off n left in
        let there : off / bsize * bsize < e = omega (arith, left, u) in
        let (k1, q, f) =
          write_part-Wrote sb m place e home off cs k l left u small
            (room_less 1 (spans off n) k (omega (arith, fewer)) room) in
        let ld : length (drop c cs) ≡ n - c = length-drop c cs in
        let (k2, q', g) =
          write_loop-Wrote r (off + c) (drop c cs) k1 (omega (arith, ld, left, h))
            (omega (arith, ld, u)) (drop_small c cs small)
            (subst (λ x. HasRoom (spans (off + c) x) k1) (sym ld)
              (room_after 1 (spans (off + c) (n - c)) k k1 f.log
                (room_less (spans (off + c) (n - c) + 1) (spans off n) k fewer room)))
            f.laid in
        (
          k2,
          rw
              (
                t,
                (Laid-AllPlaced sb m place e home k l).placed (off / bsize) there,
                q,
                q',
                write_loop,
              )
              refl,
          Wrote-join 1 (spans (off + c) (n - c)) off c n cs k k1 k2 (omega arith) u fewer f (
              subst (λ x. Wrote sb m place e home (spans (off + c) x) (off + c) x (drop c cs) k1 k2)
                ld g),
        )
  ]
