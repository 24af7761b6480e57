-- ===== src/Mlfq/Invariant/Boost.antt =====
-- `priorityBoost`: every queued process ends up in L0, in order, with a fresh start.
use hyu_ele3021_operating_sy.Prelude.{
  ℕ, ◌<◌, ◌≡◌, refl, sym, ap, ap₂, subst, ◌∙◌, ◌≢◌, true, false, none, some, List, [], ◌∷◌, ◌++◌,
  append-nil, append_assoc, arith, length,
}
use hyu_ele3021_operating_sy.Mlfq.Queue.{Index}
use hyu_ele3021_operating_sy.Mlfq.Queue.Refine.{contents}
use hyu_ele3021_operating_sy.Mlfq.State.{Sys, proc, queue}
use hyu_ele3021_operating_sy.Mlfq.Boost.{
  put_in_front, boost_level, boost_levels, depose, priority_boost,
}
use hyu_ele3021_operating_sy.Mlfq.Invariant.{Inv, Inv-same, can_wait}
use hyu_ele3021_operating_sy.Mlfq.Invariant.Moves.{
  de_q-Dequeued, head-IsSlot, Rotated, put_in_front-Rotated,
}
use hyu_ele3021_operating_sy.Mlfq.Invariant.Turn.{
  reset_all, reset_all-append, size_of, boost_level_zero, turn, boost_level-suc, turn-Turned,
}

module _ {W : Type 0} where
  -- The loop on L0 turns the whole queue.
  record Boosted (held : List Index) (s t : Sys W) (front : List Index) (moved : List Index)
      : Type 0 where
    pub kept : Inv held t
    pub top : contents (queue t 0) ≡ front
    pub table : t.procs ≡ reset_all moved s.procs

  boost_zero :
      (held : List Index) (xs ys : List Index) (s : Sys W)
      → Inv held s
      → contents (queue s 0) ≡ xs ++ ys
      → Boosted held s (boost_level (length xs) 0 s) (ys ++ xs) xs
        × ((k : ℕ)
            → k ≢ 0
            → contents (queue (boost_level (length xs) 0 s) k) ≡ contents (queue s k))
  unfolding reset_all
  boost_zero held [] ys s v e =
      rw (boost_level_zero 0 s)
        (record { kept = v; top = e ∙ sym (append-nil ys); table = refl }, λ k a. refl)
  boost_zero held (none ∷ xs) ys s v e =
      absurd (head-IsSlot held s 0 none (xs ++ ys) v (omega arith) e)
  boost_zero held (some j ∷ xs) ys s v e =
      let d = de_q-Dequeued held 0 s (some j) (xs ++ ys) v (omega arith) e in
      let t = turn-Turned held 0 j (xs ++ ys) s v (omega arith) e in
      let ih =
        boost_zero held xs (ys ++ (some j ∷ [])) (turn 0 j s) t.0.kept
          (t.2 refl ∙ append_assoc xs ys (some j ∷ [])) in
      rw (boost_level-suc (length xs) 0 j s d.value) (
        record {
          kept = ih.0.kept;
          top = ih.0.top ∙ append_assoc ys (some j ∷ []) xs;
          table = ih.0.table ∙ ap (reset_all xs) t.0.table;
        },
        (λ k a. ih.1 k a ∙ t.0.others k a a),
      )

  -- The loop on another level moves it behind L0.
  boost_other :
      (held : List Index) (lv : ℕ) (xs : List Index) (s : Sys W)
      → Inv held s
      → lv < 3
      → lv ≢ 0
      → contents (queue s lv) ≡ xs
      → Boosted held s (boost_level (length xs) lv s) (contents (queue s 0) ++ xs) xs
        × (contents (queue (boost_level (length xs) lv s) lv) ≡ [])
        × ((k : ℕ)
            → k ≢ 0
            → k ≢ lv
            → contents (queue (boost_level (length xs) lv s) k) ≡ contents (queue s k))
  unfolding reset_all
  boost_other held lv [] s v h a e = rw (boost_level_zero lv s) (
    record { kept = v; top = sym (append-nil (contents (queue s 0))); table = refl },
    e,
    (λ k b c. refl),
  )
  boost_other held lv (none ∷ xs) s v h a e = absurd (head-IsSlot held s lv none xs v h e)
  boost_other held lv (some j ∷ xs) s v h a e =
      let d = de_q-Dequeued held lv s (some j) xs v h e in
      let t = turn-Turned held lv j xs s v h e in
      let ih = boost_other held lv xs (turn lv j s) t.0.kept h a (t.1 a) in
      rw (boost_level-suc (length xs) lv j s d.value) (
        record {
          kept = ih.0.kept;
          top =
              ih.0.top
              ∙ ap (λ l. l ++ xs) (t.0.front a)
              ∙ append_assoc (contents (queue s 0)) (some j ∷ []) xs;
          table = ih.0.table ∙ ap (reset_all xs) t.0.table;
        },
        ih.1,
        (λ k b c. ih.2 k b c ∙ t.0.others k b c),
      )

  -- What `priorityBoost` does to the levels and the table, the dictator counted as the head of L0.
  pub record Boost (held : List Index) (front : List Index) (s t : Sys W) : Type 0 where
    pub kept : Inv held t
    pub top : contents (queue t 0) ≡ front ++ (contents (queue s 1) ++ contents (queue s 2))
    pub middle : contents (queue t 1) ≡ []
    pub bottom : contents (queue t 2) ≡ []
    pub table :
        t.procs ≡ reset_all (front ++ (contents (queue s 1) ++ contents (queue s 2))) s.procs

  boost_levels_eq :
      (s : Sys W)
      → boost_levels 3 0 s ≡ (
          let a = boost_level (queue s 0).size 0 s in
          let b = boost_level (queue a 1).size 1 a in boost_level (queue b 2).size 2 b)
  unfolding boost_levels
  boost_levels_eq s = refl

  -- The three levels in turn.
  Boost-three :
      (held : List Index) (s : Sys W)
      → Inv held s
      → let a = boost_level (length (contents (queue s 0))) 0 s in
        let b = boost_level (length (contents (queue s 1))) 1 a in
        Boost held (contents (queue s 0)) s (boost_level (length (contents (queue s 2))) 2 b)
        × (contents (queue a 1) ≡ contents (queue s 1))
        × (contents (queue b 2) ≡ contents (queue s 2))
  Boost-three held s v =
      let c0 = contents (queue s 0) in
      let c1 = contents (queue s 1) in
      let c2 = contents (queue s 2) in
      let a = boost_level (length c0) 0 s in
      let z = boost_zero held c0 [] s v (sym (append-nil c0)) in
      let e1 = z.1 1 (omega arith) in
      let y = boost_other held 1 c1 a z.0.kept (omega arith) (omega arith) e1 in
      let b = boost_level (length c1) 1 a in
      let e2 = y.2 2 (omega arith) (omega arith) ∙ z.1 2 (omega arith) in
      let x = boost_other held 2 c2 b y.0.kept (omega arith) (omega arith) e2 in
      (
        record {
          kept = x.0.kept;
          top =
              x.0.top
              ∙ ap (λ l. l ++ c2) (y.0.top ∙ ap (λ l. l ++ c1) z.0.top)
              ∙ append_assoc c0 c1 c2;
          middle = x.2 1 (omega arith) (omega arith) ∙ y.1;
          bottom = x.1;
          table =
              x.0.table
              ∙ ap (reset_all c2) (y.0.table ∙ ap (reset_all c1) z.0.table)
              ∙ sym (reset_all-append c1 c2 (reset_all c0 s.procs))
              ∙ sym (reset_all-append c0 (c1 ++ c2) s.procs);
        },
        e1,
        e2,
      )

  boost_levels-Boost :
      (held : List Index) (s : Sys W)
      → Inv held s
      → Boost held (contents (queue s 0)) s (boost_levels 3 0 s)
  boost_levels-Boost held s v =
      let r = Boost-three held s v in
      let n0 = size_of (queue s 0) (contents (queue s 0)) refl in
      let a = boost_level (length (contents (queue s 0))) 0 s in
      let n1 = size_of (queue a 1) (contents (queue s 1)) r.1 in
      let b = boost_level (length (contents (queue s 1))) 1 a in
      let n2 = size_of (queue b 2) (contents (queue s 2)) r.2 in
      let c = boost_level (length (contents (queue s 2))) 2 b in
      let e : boost_levels 3 0 s ≡ c = boost_levels_eq s ∙ rw (n2, n1, n0) refl in
      subst (Boost held (contents (queue s 0)) s) (sym e) r.0

  pub depose_free : (s : Sys W) → s.is_dictated ≡ false → depose s ≡ s
  unfolding depose
  depose_free s e = rw e

  pub depose_held :
      (s : Sys W)
      → s.is_dictated ≡ true
      → depose s ≡ record (put_in_front 0 s.scheduler_dictator s) {
        is_dictated = false;
        scheduler_dictator = none;
      }
  unfolding depose
  depose_held s e = rw e

  -- If nobody dictates while the invariant holds, `priorityBoost` moves the entries of L1 and then
  -- of L2 behind those of L0, empties L1 and L2, gives exactly the queued processes priority 3,
  -- level 0 and a `consumed_tq` of 0, and keeps the invariant.
  pub priority_boost_free :
      (held : List Index) (s : Sys W)
      → Inv held s
      → s.is_dictated ≡ false
      → Boost held (contents (queue s 0)) s (priority_boost s)
  unfolding priority_boost
  priority_boost_free held s v e = rw (depose_free s e) (boost_levels-Boost held s v)

  -- If a process that stands in no queue and sleeps or is RUNNABLE dictates while the invariant
  -- holds, `priorityBoost` puts it at the head of L0, followed by the entries of L0, L1 and L2 in
  -- their order, empties L1 and L2, gives exactly these processes priority 3, level 0 and a
  -- `consumed_tq` of 0, and keeps the invariant.
  pub priority_boost_dictated :
      (held : List Index) (j : ℕ) (s : Sys W)
      → Inv (some j ∷ held) s
      → s.is_dictated ≡ true
      → s.scheduler_dictator ≡ some j
      → can_wait (proc s j).state ≡ true
      → Boost held (some j ∷ contents (queue s 0)) s (priority_boost s)
  unfolding priority_boost
  priority_boost_dictated held j s v e d w =
      let r = put_in_front-Rotated held 0 j s v (omega arith) w in
      let t = put_in_front 0 (some j) s in
      let t' = record t { is_dictated = false; scheduler_dictator = none } in
      let e' : depose s ≡ t' = depose_held s e ∙ rw d refl in
      let b = boost_levels-Boost held t' (Inv-same held t t' r.kept refl refl) in
      rw e' (record {
        kept = b.kept;
        top = b.top ∙ lists r;
        middle = b.middle;
        bottom = b.bottom;
        table = b.table ∙ ap₂ reset_all (lists r) r.table;
      })
    where
      lists :
          Rotated held 0 s (put_in_front 0 (some j) s) (some j ∷ contents (queue s 0))
          → let t = put_in_front 0 (some j) s in
            contents (queue t 0) ++ (contents (queue t 1) ++ contents (queue t 2))
            ≡ (some j ∷ contents (queue s 0)) ++ (contents (queue s 1) ++ contents (queue s 2))
      lists r = ap₂ ◌++◌ r.turned (
          ap₂ (λ p q. contents p ++ contents q) (r.others 1 (omega arith))
            (r.others 2 (omega arith)))
