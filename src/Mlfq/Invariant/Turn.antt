-- ===== src/Mlfq/Invariant/Turn.antt =====
-- One turn of the loops of `priorityBoost`.
use hyu_ele3021_operating_sy.Prelude.{
  ℕ, suc, ◌<◌, ◌≡◌, refl, sym, ap, subst, ◌∙◌, ◌≢◌, true, some, List, [], ◌∷◌, ◌++◌, arith, length,
  pos,
}
use hyu_ele3021_operating_sy.Mlfq.Queue.{Fq, Index}
use hyu_ele3021_operating_sy.Mlfq.Queue.Refine.{contents, length-contents}
use hyu_ele3021_operating_sy.Mlfq.Proc.{Proc, proc_at, put_at}
use hyu_ele3021_operating_sy.Mlfq.State.{Sys, proc, with_proc, queue, en_q, de_q}
use hyu_ele3021_operating_sy.Mlfq.Boost.{reset, boost_level}
use hyu_ele3021_operating_sy.Mlfq.Invariant.{
  Inv, en_q-Inv, with_proc-Inv, proc-with_proc_self, can_wait,
}
use hyu_ele3021_operating_sy.Mlfq.Invariant.Moves.{
  de_q-Dequeued, head_waits, contents-en_q, queue-en_q_ne, procs-en_q,
}

-- A process with priority 3, on level 0, that has used nothing of its quantum.
abbrev fresh : Proc → Proc
fresh p = record p { priority = 3; qlv = pos 0; consumed_tq = 0 }

-- The table after the processes of a list have got a fresh start.
unfoldable pub reset_all : List Index → List Proc → List Proc
reset_all [] ps = ps
reset_all (x ∷ xs) ps = reset_all xs (put_at ps x (fresh (proc_at ps x)))

pub reset_all-append :
    (xs ys : List Index) (ps : List Proc) → reset_all (xs ++ ys) ps ≡ reset_all ys (reset_all xs ps)
unfolding reset_all
reset_all-append [] ys ps = refl
reset_all-append (x ∷ xs) ys ps = reset_all-append xs ys (put_at ps x (fresh (proc_at ps x)))

pub size_of : (q : Fq) (xs : List Index) → contents q ≡ xs → length xs ≡ q.size
size_of q xs e = omega (arith, ap length e, length-contents q)

module _ {W : Type 0} where
  pub boost_level_zero : (lv : ℕ) (s : Sys W) → boost_level 0 lv s ≡ s
  unfolding boost_level
  boost_level_zero lv s = refl

  -- One turn of the loop.
  pub turn : ℕ → ℕ → Sys W → Sys W
  turn lv j s = let t = (de_q lv s).1 in en_q 0 (some j) (with_proc t (some j) (reset (proc t j)))

  pub boost_level-suc :
      (n lv j : ℕ) (s : Sys W)
      → (de_q lv s).0 ≡ some j
      → boost_level (suc n) lv s ≡ boost_level n lv (turn lv j s)
  unfolding boost_level turn
  boost_level-suc n lv j s e =
      ap
        (λ x.
          boost_level n lv
            (en_q 0 x (with_proc (de_q lv s).1 x (reset (proc_at (de_q lv s).1.procs x)))))
        e

  pub record Turned (held : List Index) (lv j : ℕ) (s t : Sys W) : Type 0 where
    pub kept : Inv held t
    pub front : (lv ≢ 0 → contents (queue t 0) ≡ contents (queue s 0) ++ (some j ∷ []))
    pub table : t.procs ≡ put_at s.procs (some j) (fresh (proc s j))
    pub others : (k : ℕ) → k ≢ 0 → k ≢ lv → contents (queue t k) ≡ contents (queue s k)

  pub turn-Turned :
      (held : List Index) (lv j : ℕ) (xs : List Index) (s : Sys W)
      → Inv held s
      → lv < 3
      → contents (queue s lv) ≡ some j ∷ xs
      → Turned held lv j s (turn lv j s)
        × (lv ≢ 0 → contents (queue (turn lv j s) lv) ≡ xs)
        × (lv ≡ 0 → contents (queue (turn lv j s) 0) ≡ xs ++ (some j ∷ []))
  unfolding turn
  turn-Turned held lv j xs s v h e =
      let d = de_q-Dequeued held lv s (some j) xs v h e in
      let w = head_waits held s lv j xs v h e in
      let t = (de_q lv s).1 in
      let u = with_proc t (some j) (reset (proc t j)) in
      let w' : can_wait (proc t j).state ≡ true = rw d.table w in
      let kept =
        with_proc-Inv (some j ∷ held) t j (reset (proc t j)) d.kept (λ _. w') (omega arith) in
      (
        record {
          kept = en_q-Inv held j u 0 kept (omega arith) (
              rw (proc-with_proc_self (some j ∷ held) t j (reset (proc t j)) d.kept d.kept.out.0)
                w');
          front = λ a.
              contents-en_q held (some j) u 0 kept (omega arith)
              ∙ ap (λ q. contents q ++ (some j ∷ [])) (d.others 0 a);
          table =
              procs-en_q 0 (some j) u
              ∙ ap (λ ps. put_at ps (some j) (reset (proc_at ps (some j)))) d.table;
          others = λ k a b.
              ap contents
                (queue-en_q_ne (some j) u 0 k (λ z. a (sym z)) ∙ d.others k (λ z. b (sym z)));
        },
        (λ a. ap contents (queue-en_q_ne (some j) u 0 lv (λ z. a (sym z))) ∙ d.rest),
        (λ z.
            contents-en_q held (some j) u 0 kept (omega arith)
            ∙ ap (λ l. l ++ (some j ∷ [])) (subst (λ k. contents (queue t k) ≡ xs) z d.rest)),
      )
