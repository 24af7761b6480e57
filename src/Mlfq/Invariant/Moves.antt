-- ===== src/Mlfq/Invariant/Moves.antt =====
-- `deQ` and `enQ` on the globals, `rotate`, and the move to the front of a level: contents and
-- invariant.
use hyu_ele3021_operating_sy.Prelude.{
  ℕ, suc, ◌<◌, ◌≡◌, refl, sym, ap, ◌∙◌, ◌≢◌, true, none, some, List, [], ◌∷◌, ◌++◌, append-nil,
  append_assoc, arith, length,
}
use hyu_ele3021_operating_sy.Mlfq.Queue.{Index, nproc, empty_fq, push_back, pop_front}
use hyu_ele3021_operating_sy.Mlfq.Queue.Refine.{
  contents, contents-push_back, length-contents, pop_front_cons, pop_front-IsRing,
}
use hyu_ele3021_operating_sy.Mlfq.State.{Sys, proc, queue, en_q, de_q}
use hyu_ele3021_operating_sy.Mlfq.Boost.{rotate, put_in_front}
use hyu_ele3021_operating_sy.Mlfq.Count.{AllFine-get, IsSlot, Fine, total-set, occurs, hit}
use hyu_ele3021_operating_sy.Mlfq.Invariant.{Inv, take-Inv, has_room, en_q-Inv, can_wait}
use hyu_ele3021_operating_sy.Mlfq.Invariant.Pick.{queue-with_queue_self, queue-with_queue_ne}

module _ {W : Type 0} where
  pub Fine-at : (held : List Index) (s : Sys W) (lv : ℕ) → Inv held s → lv < 3 → Fine (queue s lv)
  Fine-at held s lv v h = AllFine-get s.mlfq lv (omega (arith, v.levels)) v.rings

  pub head-IsSlot :
      (held : List Index) (s : Sys W) (lv : ℕ) (x : Index) (xs : List Index)
      → Inv held s
      → lv < 3
      → contents (queue s lv) ≡ x ∷ xs
      → IsSlot nproc x
  head-IsSlot held s lv x xs v h e = (rw e at (Fine-at held s lv v h).1).0

  -- A process at the head of a queue is able to wait.
  pub head_waits :
      (held : List Index) (s : Sys W) (lv j : ℕ) (xs : List Index)
      → Inv held s
      → lv < 3
      → contents (queue s lv) ≡ some j ∷ xs
      → can_wait (proc s j).state ≡ true
  head_waits held s lv j xs v h e = v.live j (
      omega (
        arith,
        total-set j s.mlfq lv empty_fq (omega (arith, v.levels)),
        ap (occurs j) e,
        hit_self j,
      ))
    where
      hit_self : (i : ℕ) → hit i (some i) ≡ 1
      hit_self i = ground arith

  -- `deQ` of a level that holds `x` at its head.
  pub record Dequeued (held : List Index) (lv : ℕ) (s : Sys W) (x : Index) (xs : List Index)
      : Type 0 where
    pub value : (de_q lv s).0 ≡ x
    pub rest : contents (queue (de_q lv s).1 lv) ≡ xs
    pub others : (k : ℕ) → lv ≢ k → queue (de_q lv s).1 k ≡ queue s k
    pub kept : Inv (x ∷ held) (de_q lv s).1
    pub table : (de_q lv s).1.procs ≡ s.procs

  pub de_q-Dequeued :
      (held : List Index) (lv : ℕ) (s : Sys W) (x : Index) (xs : List Index)
      → Inv held s
      → lv < 3
      → contents (queue s lv) ≡ x ∷ xs
      → Dequeued held lv s x xs
  unfolding de_q
  de_q-Dequeued held lv s x xs v h e =
      let p = pop_front_cons (queue s lv) x xs e in
      let q = (pop_front (queue s lv)).1 in
      record {
        value = p.0;
        rest = rw (queue-with_queue_self s lv q (omega (arith, v.levels))) p.1;
        others = λ k. queue-with_queue_ne s lv k q;
        kept =
            take-Inv held s lv q [] x xs v h
              (pop_front-IsRing (queue s lv) (Fine-at held s lv v h).0) e
              (p.1 ∙ sym (append-nil xs));
        table = refl;
      }

  pub contents-en_q :
      (held : List Index) (x : Index) (s : Sys W) (lv : ℕ)
      → Inv (x ∷ held) s
      → lv < 3
      → contents (queue (en_q lv x s) lv) ≡ contents (queue s lv) ++ (x ∷ [])
  unfolding en_q
  contents-en_q held x s lv v h =
      rw (queue-with_queue_self s lv (push_back (queue s lv) x) (omega (arith, v.levels))) (
        contents-push_back (queue s lv) x (Fine-at (x ∷ held) s lv v h).0
          (omega (arith, has_room (x ∷ held) s lv v h)))

  pub queue-en_q_ne :
      (x : Index) (s : Sys W) (lv k : ℕ) → lv ≢ k → queue (en_q lv x s) k ≡ queue s k
  unfolding en_q
  queue-en_q_ne x s lv k h = queue-with_queue_ne s lv k (push_back (queue s lv) x) h

  pub procs-en_q : (lv : ℕ) (x : Index) (s : Sys W) → (en_q lv x s).procs ≡ s.procs
  unfolding en_q
  procs-en_q lv x s = refl

  -- `rotate` turns the queue of one level.
  pub record Rotated (held : List Index) (lv : ℕ) (s t : Sys W) (zs : List Index) : Type 0 where
    pub turned : contents (queue t lv) ≡ zs
    pub others : (k : ℕ) → lv ≢ k → queue t k ≡ queue s k
    pub kept : Inv held t
    pub table : t.procs ≡ s.procs

  rotate-suc :
      (n lv : ℕ) (x : Index) (s : Sys W)
      → (de_q lv s).0 ≡ x
      → rotate (suc n) lv s ≡ rotate n lv (en_q lv x (de_q lv s).1)
  unfolding rotate
  rotate-suc n lv x s e = ap (λ y. rotate n lv (en_q lv y (de_q lv s).1)) e

  rotate_zero : (lv : ℕ) (s : Sys W) → rotate 0 lv s ≡ s
  unfolding rotate
  rotate_zero lv s = refl

  pub rotate-Rotated :
      (held : List Index) (lv : ℕ) (xs ys : List Index) (s : Sys W)
      → Inv held s
      → lv < 3
      → contents (queue s lv) ≡ xs ++ ys
      → Rotated held lv s (rotate (length xs) lv s) (ys ++ xs)
  rotate-Rotated held lv [] ys s v h e =
      rw (rotate_zero lv s)
        (record { turned = e ∙ sym (append-nil ys); others = λ k a. refl; kept = v; table = refl })
  rotate-Rotated held lv (none ∷ xs) ys s v h e =
      absurd (head-IsSlot held s lv none (xs ++ ys) v h e)
  rotate-Rotated held lv (some j ∷ xs) ys s v h e =
      let d = de_q-Dequeued held lv s (some j) (xs ++ ys) v h e in
      let s1 = (de_q lv s).1 in
      let w = head_waits held s lv j (xs ++ ys) v h e in
      let keep = en_q-Inv held j s1 lv d.kept h (rw d.table w) in
      let ih = rotate-Rotated held lv xs (ys ++ (some j ∷ [])) (en_q lv (some j) s1) keep h (
        contents-en_q held (some j) s1 lv d.kept h
        ∙ ap (λ l. l ++ (some j ∷ [])) d.rest
        ∙ append_assoc xs ys (some j ∷ [])) in
      rw (rotate-suc (length xs) lv (some j) s d.value) (record {
        turned = ih.turned ∙ append_assoc ys (some j ∷ []) xs;
        others = λ k a. ih.others k a ∙ queue-en_q_ne (some j) s1 lv k a ∙ d.others k a;
        kept = ih.kept;
        table = ih.table ∙ procs-en_q lv (some j) s1 ∙ d.table;
      })

  -- If a process that sleeps or is RUNNABLE stands in no queue while the invariant holds, `enQ`
  -- followed by the rotation by the old size puts it at the head of the level in front of the old
  -- entries, changes no other queue and not the table, and keeps the invariant.
  pub put_in_front-Rotated :
      (held : List Index) (lv j : ℕ) (s : Sys W)
      → Inv (some j ∷ held) s
      → lv < 3
      → can_wait (proc s j).state ≡ true
      → Rotated held lv s (put_in_front lv (some j) s) (some j ∷ contents (queue s lv))
  unfolding put_in_front
  put_in_front-Rotated held lv j s v h w =
      let r =
        rotate-Rotated held lv (contents (queue s lv)) (some j ∷ []) (en_q lv (some j) s)
          (en_q-Inv held j s lv v h w) h (contents-en_q held (some j) s lv v h) in
      let r' = rw (length-contents (queue s lv)) at r in
      record {
        turned = r'.turned;
        others = λ k a. r'.others k a ∙ queue-en_q_ne (some j) s lv k a;
        kept = r'.kept;
        table = r'.table ∙ procs-en_q lv (some j) s;
      }
