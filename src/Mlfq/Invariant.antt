-- ===== src/Mlfq/Invariant.antt =====
-- The invariant of the scheduler's state, in each phase of its loop.
pub mod Pick
pub mod Moves
pub mod Turn
pub mod Boost
pub mod Dispatch
pub mod Feedback
pub mod Quantum
pub mod Gentle
pub mod Switch
pub mod Life
pub mod Wait
pub mod Search
pub mod Sought
pub mod Control
pub mod Unlock
pub mod Init
use hyu_ele3021_operating_sy.Prelude.{
  ℕ, ◌+◌, ◌-◌, ◌≤◌, ◌<◌, ◌≡◌, sym, ap, subst, ◌∙◌, ◌≢◌, ◌⊎◌, inl, inr, Bool, true, false, some,
  List, ◌∷◌, ◌++◌, arith, ◌==◌, Bool-cases, length, get_or, set, take, drop, length-set,
  get_or-set_self, get_or-set_ne, get_or-set_cases,
}
use mathlib.Core.Bool.{false≢true}
use hyu_ele3021_operating_sy.Mlfq.Queue.{Fq, Index, nproc, push_back}
use hyu_ele3021_operating_sy.Mlfq.Queue.Refine.{contents, IsRing}
use hyu_ele3021_operating_sy.Mlfq.Proc.{Proc, ProcState, sleeping, runnable, blank}
use hyu_ele3021_operating_sy.Mlfq.State.{Sys, proc, with_proc, en_q, with_queue, queue}
use hyu_ele3021_operating_sy.Mlfq.Count.{
  AllFine, total, hit, room, push_back-Fine, occurs-push_back, total-set, AllFine-get, AllFine-set,
  occurs, Fine, Inside, Inside-split, Inside-append, occurs-append,
}

-- The states in which a process may wait in a queue.
abbrev pub can_wait : ProcState → Bool
can_wait sleeping = true
can_wait runnable = true
can_wait _ = false

-- The highest priority number that `setPriority` accepts.
abbrev pub max_priority : ℕ
max_priority = 4

-- What holds of the queues and the table while the processes of `held` stand in no queue, those
-- that a CPU runs among them: no process stands in two places, and every queued process sleeps or
-- is RUNNABLE.
pub record Inv {W : Type 0} (held : List Index) (s : Sys W) : Type 0 where
  pub table : length s.procs ≡ nproc
  pub levels : length s.mlfq ≡ 3
  pub rings : AllFine s.mlfq
  pub out : Inside nproc held
  pub once : (i : ℕ) → total i s.mlfq + occurs i held ≤ 1
  pub live : (i : ℕ) → 0 < total i s.mlfq → can_wait (proc s i).state ≡ true
  pub ranks : (i : ℕ) → (proc s i).priority ≤ max_priority

hit_cases : (i j : ℕ) → ((hit i (some j) ≡ 1) × (j ≡ i)) ⊎ (hit i (some j) ≡ 0)
hit_cases i j = elim (Bool-cases (j == i)) [ inl e ↦ inl (rw e, ground arith) | inr e ↦ inr (rw e) ]

pub hit_self : (i : ℕ) → hit i (some i) ≡ 1
hit_self i = ground arith

module _ {W : Type 0} where
  -- Only the table and the queues matter.
  pub Inv-same :
      (held : List Index) (s t : Sys W)
      → Inv held s
      → t.procs ≡ s.procs
      → t.mlfq ≡ s.mlfq
      → Inv held t
  Inv-same held s t v p m = record {
    table = rw p v.table;
    levels = rw m v.levels;
    rings = rw m v.rings;
    out = v.out;
    once = λ i. rw m (v.once i);
    live = λ i. rw (m, p) (v.live i);
    ranks = λ i. rw p (v.ranks i);
  }

  -- A queue has room for each process that stands in none.
  pub has_room :
      (held : List Index) (s : Sys W) (lv : ℕ)
      → Inv held s
      → lv < 3
      → (queue s lv).size + length held ≤ nproc
  has_room held s lv v h = room held s.mlfq lv (omega (arith, v.levels)) v.rings v.out v.once

  total-en_q :
      (held : List Index) (x : Index) (s : Sys W) (lv i : ℕ)
      → Inv (x ∷ held) s
      → lv < 3
      → total i (en_q lv x s).mlfq ≡ total i s.mlfq + hit i x
  unfolding en_q
  total-en_q held x s lv i v h =
      let lv' : lv < length s.mlfq = omega (arith, v.levels) in
      omega (
        arith,
        total-set i s.mlfq lv (push_back (queue s lv) x) lv',
        occurs-push_back i (queue s lv) x (AllFine-get s.mlfq lv lv' v.rings).0
            (omega (arith, has_room (x ∷ held) s lv v h)),
      )

  -- `enQ` of a process that is held.
  pub en_q-Inv :
      (held : List Index) (j : ℕ) (s : Sys W) (lv : ℕ)
      → Inv (some j ∷ held) s
      → lv < 3
      → can_wait (proc s j).state ≡ true
      → Inv held (en_q lv (some j) s)
  unfolding en_q
  en_q-Inv held j s lv v h w =
      let lv' : lv < length s.mlfq = omega (arith, v.levels) in
      record {
        table = v.table;
        levels = length-set s.mlfq lv (push_back (queue s lv) (some j)) ∙ v.levels;
        rings = AllFine-set s.mlfq lv (push_back (queue s lv) (some j)) v.rings (
            push_back-Fine (queue s lv) (some j) (AllFine-get s.mlfq lv lv' v.rings)
              (omega (arith, has_room (some j ∷ held) s lv v h)) v.out.0);
        out = v.out.1;
        once = λ i. omega (arith, total-en_q held (some j) s lv i v h, v.once i);
        live = λ i t. elim (hit_cases i j) [
          | inl (_, e) ↦ rw (← e) w
          | inr e ↦ v.live i (omega (arith, e, total-en_q held (some j) s lv i v h, t))
        ];
        ranks = v.ranks;
      }

  -- A change of one queue that only takes processes out, to be held.
  pub with_queue-Inv :
      (held held' : List Index) (s : Sys W) (lv : ℕ) (q : Fq)
      → Inv held s
      → lv < 3
      → Fine q
      → Inside nproc held'
      → ((i : ℕ)
          → occurs i (contents q) + occurs i held'
            ≡ occurs i (contents (queue s lv)) + occurs i held)
      → ((i : ℕ) → occurs i (contents q) ≤ occurs i (contents (queue s lv)))
      → Inv held' (with_queue s lv q)
  with_queue-Inv held held' s lv q v h f out same less =
      let lv' : lv < length s.mlfq = omega (arith, v.levels) in
      record {
        table = v.table;
        levels = length-set s.mlfq lv q ∙ v.levels;
        rings = AllFine-set s.mlfq lv q v.rings f;
        out = out;
        once = λ i. omega (arith, total-set i s.mlfq lv q lv', same i, v.once i);
        live = λ i t. v.live i (omega (arith, total-set i s.mlfq lv q lv', less i, t));
        ranks = v.ranks;
      }

  -- The loop has turned the queue, or left it alone.
  pub turn-Inv :
      (held : List Index) (s : Sys W) (lv : ℕ) (q : Fq) (xs ys : List Index)
      → Inv held s
      → lv < 3
      → IsRing q
      → contents (queue s lv) ≡ xs ++ ys
      → contents q ≡ ys ++ xs
      → Inv held (with_queue s lv q)
  turn-Inv held s lv q xs ys v h ring e k =
      let fine = AllFine-get s.mlfq lv (omega (arith, v.levels)) v.rings in
      let parts = Inside-split nproc xs ys (rw e at fine.1) in
      let same : (i : ℕ) → occurs i (contents q) ≡ occurs i (contents (queue s lv)) = λ i.
        omega
          (arith, ap (occurs i) e, ap (occurs i) k, occurs-append i xs ys, occurs-append i ys xs) in
      with_queue-Inv held held s lv q v h (ring, rw k (Inside-append nproc ys xs parts.1 parts.0))
        v.out (λ i. omega (arith, same i)) (λ i. omega (arith, same i))

  -- The loop has taken a process out, and turned the rest.
  pub take-Inv :
      (held : List Index) (s : Sys W) (lv : ℕ) (q : Fq) (xs : List Index) (x : Index)
      (ys : List Index)
      → Inv held s
      → lv < 3
      → IsRing q
      → contents (queue s lv) ≡ xs ++ (x ∷ ys)
      → contents q ≡ ys ++ xs
      → Inv (x ∷ held) (with_queue s lv q)
  take-Inv held s lv q xs x ys v h ring e k =
      let fine = AllFine-get s.mlfq lv (omega (arith, v.levels)) v.rings in
      let parts = Inside-split nproc xs (x ∷ ys) (rw e at fine.1) in
      let same : (i : ℕ) → occurs i (contents q) + hit i x ≡ occurs i (contents (queue s lv)) = λ i.
        omega (
          arith,
          ap (occurs i) e,
          ap (occurs i) k,
          occurs-append i xs (x ∷ ys),
          occurs-append i ys xs,
        ) in
      with_queue-Inv held (x ∷ held) s lv q v h
        (ring, rw k (Inside-append nproc ys xs parts.1.1 parts.0)) (parts.1.0, v.out)
        (λ i. omega (arith, same i)) (λ i. omega (arith, same i))

  pub proc-with_proc_self :
      (held : List Index) (s : Sys W) (j : ℕ) (p : Proc)
      → Inv held s
      → j < nproc
      → proc (with_proc s (some j) p) j ≡ p
  proc-with_proc_self held s j p v h = get_or-set_self s.procs j p blank (omega (arith, v.table))

  pub proc-with_proc_ne :
      (s : Sys W) (j i : ℕ) (p : Proc) → j ≢ i → proc (with_proc s (some j) p) i ≡ proc s i
  proc-with_proc_ne s j i p h = get_or-set_ne s.procs j i p blank h

  -- A change of one slot that leaves a queued process able to wait.
  pub with_proc-Inv :
      (held : List Index) (s : Sys W) (j : ℕ) (p : Proc)
      → Inv held s
      → (0 < total j s.mlfq → can_wait p.state ≡ true)
      → p.priority ≤ max_priority
      → Inv held (with_proc s (some j) p)
  with_proc-Inv held s j p v w h = record {
    table = length-set s.procs j p ∙ v.table;
    levels = v.levels;
    rings = v.rings;
    out = v.out;
    once = v.once;
    live = λ i t. elim (get_or-set_cases s.procs j i p blank) [
      | inl (e, q) ↦ rw q (w (rw e t))
      | inr q ↦ rw q (v.live i t)
    ];
    ranks = λ i. elim (get_or-set_cases s.procs j i p blank) [
      | inl (e, q) ↦ rw q h
      | inr q ↦ rw q (v.ranks i)
    ];
  }

  total_held : (held : List Index) (j : ℕ) (s : Sys W) → Inv (some j ∷ held) s → total j s.mlfq ≡ 0
  total_held held j s v = omega (arith, v.once j, hit_self j)

  -- A change of a process that stands in no queue.
  pub with_held-Inv :
      (held : List Index) (s : Sys W) (j : ℕ) (p : Proc)
      → Inv (some j ∷ held) s
      → p.priority ≤ max_priority
      → Inv (some j ∷ held) (with_proc s (some j) p)
  with_held-Inv held s j p v h =
      with_proc-Inv (some j ∷ held) s j p v (λ t. absurd (omega (arith, total_held held j s v, t)))
        h

  -- A process may be dropped.
  pub drop-Inv : (held : List Index) (x : Index) (s : Sys W) → Inv (x ∷ held) s → Inv held s
  drop-Inv held x s v = record {
    table = v.table;
    levels = v.levels;
    rings = v.rings;
    out = v.out.1;
    once = λ i. omega (arith, v.once i);
    live = v.live;
    ranks = v.ranks;
  }

  -- A process that cannot wait stands in no queue.
  pub hold-Inv :
      (held : List Index) (j : ℕ) (s : Sys W)
      → Inv held s
      → j < nproc
      → can_wait (proc s j).state ≡ false
      → occurs j held ≡ 0
      → Inv (some j ∷ held) s
  hold-Inv held j s v h w o = record {
    table = v.table;
    levels = v.levels;
    rings = v.rings;
    out = (h, v.out);
    once = λ i. elim (hit_cases i j) [
      | inl (e, same) ↦
          subst (λ k. total k s.mlfq + (hit k (some j) + occurs k held) ≤ 1) same
            (omega (arith, none_queued, o, hit_self j))
      | inr e ↦ omega (arith, e, v.once i)
    ];
    live = v.live;
    ranks = v.ranks;
  }
    where
      none_queued : total j s.mlfq ≡ 0
      none_queued = elim (Bool-cases (total j s.mlfq == 0)) [
        | inl e ↦ ground arith
        | inr e ↦ absurd (false≢true (sym w ∙ v.live j (ground arith)))
      ]
