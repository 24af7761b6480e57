-- ===== src/Mlfq/Invariant/Sought.antt =====
-- The search of `setPriority` through the levels.
use hyu_ele3021_operating_sy.Prelude.{
  ℕ, zero, suc, ◌+◌, ◌≤◌, ◌<◌, ◌≡◌, refl, sym, ap, ◌∙◌, ◌≢◌, inl, inr, true, Option, none, some,
  List, [], ◌∷◌, ◌++◌, append-nil, append_assoc, arith, ◌==◌, Bool-cases, length, ℤ,
}
use mathlib.Core.Path.{subst₂}
use mathlib.Core.Bool.{false≢true}
use hyu_ele3021_operating_sy.Mlfq.Queue.{Fq, Index}
use hyu_ele3021_operating_sy.Mlfq.Queue.Refine.{contents, length-contents}
use hyu_ele3021_operating_sy.Mlfq.Proc.{Proc, proc_at}
use hyu_ele3021_operating_sy.Mlfq.State.{Sys, with_queue, queue}
use hyu_ele3021_operating_sy.Mlfq.Sleep.{is_pid}
use hyu_ele3021_operating_sy.Mlfq.Control.{find_pid, find_levels}
use hyu_ele3021_operating_sy.Mlfq.Invariant.{Inv, turn-Inv}
use hyu_ele3021_operating_sy.Mlfq.Invariant.Pick.{queue-with_queue_self, queue-with_queue_ne}
use hyu_ele3021_operating_sy.Mlfq.Invariant.Moves.{Fine-at}
use hyu_ele3021_operating_sy.Mlfq.Invariant.Search.{Absent, Found, missing, present, find_pid-Found}

-- A process found is not absent.
pub Absent-hit :
    (pid : ℤ) (ps : List Proc) (before : List Index) (x : Index) (after : List Index)
    → Absent pid ps (before ++ (x ∷ after))
    → is_pid pid (proc_at ps x).pid ≡ true
    → ⊥
Absent-hit pid ps [] x after b h = false≢true (sym b.0 ∙ h)
Absent-hit pid ps (y ∷ ys) x after b h = Absent-hit pid ps ys x after b.1 h

module _ {W : Type 0} where
  -- What a search of the levels from `lv` on yields: no queue changes, or one is turned until the
  -- process found is its last.
  pub data Sought (held : List Index) (pid : ℤ) (lv : ℕ) (s : Sys W) (r : Option Index × Sys W)
      : Type 0 where
    nowhere :
        r.0 ≡ none
        → ((k : ℕ) → lv ≤ k → k < 3 → Absent pid s.procs (contents (queue s k)))
        → ((k : ℕ) → contents (queue r.1 k) ≡ contents (queue s k))
        → r.1.procs ≡ s.procs
        → r.1.is_dictated ≡ s.is_dictated
        → r.1.scheduler_dictator ≡ s.scheduler_dictator
        → Inv held r.1
        → Sought held pid lv s r
    somewhere :
        (l : ℕ) (before : List Index) (x : Index) (after : List Index)
        → r.0 ≡ some x
        → l < 3
        → is_pid pid (proc_at s.procs x).pid ≡ true
        → contents (queue s l) ≡ before ++ (x ∷ after)
        → contents (queue r.1 l) ≡ after ++ (before ++ (x ∷ []))
        → ((k : ℕ) → l ≢ k → contents (queue r.1 k) ≡ contents (queue s k))
        → r.1.procs ≡ s.procs
        → r.1.is_dictated ≡ s.is_dictated
        → r.1.scheduler_dictator ≡ s.scheduler_dictator
        → Inv held r.1
        → Sought held pid lv s r

  find_levels_zero : (lv : ℕ) (pid : ℤ) (s : Sys W) → find_levels 0 lv pid s ≡ (none, s)
  unfolding find_levels
  find_levels_zero lv pid s = refl

  find_levels-some :
      (n lv : ℕ) (pid : ℤ) (s : Sys W) (x : Index)
      → let f = find_pid (queue s lv).size pid s.procs (queue s lv) in
        f.0 ≡ some x → find_levels (suc n) lv pid s ≡ (some x, with_queue s lv f.1)
  unfolding find_levels
  find_levels-some n lv pid s x e = rw (e, find_levels)

  find_levels-none :
      (n lv : ℕ) (pid : ℤ) (s : Sys W)
      → let f = find_pid (queue s lv).size pid s.procs (queue s lv) in
        f.0 ≡ none → find_levels (suc n) lv pid s ≡ find_levels n (lv + 1) pid (with_queue s lv f.1)
  unfolding find_levels
  find_levels-none n lv pid s e = rw (e, find_levels)

  -- A queue is replaced by one with the same entries.
  pub same_contents :
      (s : Sys W) (lv : ℕ) (q : Fq)
      → lv < length s.mlfq
      → contents q ≡ contents (queue s lv)
      → (k : ℕ) → contents (queue (with_queue s lv q) k) ≡ contents (queue s k)
  same_contents s lv q h e k = elim (Bool-cases (lv == k)) [
    | inl t ↦
        let t' : lv ≡ k = ground arith in
        rw (← t') (ap contents (queue-with_queue_self s lv q h) ∙ e)
    | inr t ↦ ap contents (queue-with_queue_ne s lv k q (λ z. ground arith))
  ]

  Sought-next :
      (held : List Index) (pid : ℤ) (lv : ℕ) (s t : Sys W) (r : Option Index × Sys W)
      → Absent pid s.procs (contents (queue s lv))
      → ((k : ℕ) → contents (queue t k) ≡ contents (queue s k))
      → t.procs ≡ s.procs
      → t.is_dictated ≡ s.is_dictated
      → t.scheduler_dictator ≡ s.scheduler_dictator
      → Sought held pid (lv + 1) t r
      → Sought held pid lv s r
  Sought-next held pid lv s t r a same p d1 d2 (nowhere e f keep rp rd1 rd2 v) =
      nowhere e
        (λ k b c. elim (Bool-cases (lv == k)) [
          | inl z ↦ let z' : lv ≡ k = ground arith in rw (← z') a
          | inr z ↦ subst₂ (Absent pid) p (same k) (f k (ground arith) c)
        ])
        (λ k. keep k ∙ same k) (rp ∙ p) (rd1 ∙ d1) (rd2 ∙ d2) v
  Sought-next held pid lv s t r a same p d1 d2 (somewhere l b x f e h i c g o rp rd1 rd2 v) =
      somewhere l b x f e h (rw p at i) (sym (same l) ∙ c) g (λ k z. o k z ∙ same k) (rp ∙ p)
        (rd1 ∙ d1) (rd2 ∙ d2) v

  -- While the invariant holds, the search of `setPriority` through the levels from `lv` on either
  -- finds no entry with the pid and keeps every queue's entries in order, or finds one and turns
  -- that queue until the entry is its last, the other queues keeping theirs; the table and the
  -- dictator stay as they were and so does the invariant.
  pub find_levels-Sought :
      (held : List Index) (pid : ℤ) (n lv : ℕ) (s : Sys W)
      → n + lv ≡ 3
      → Inv held s
      → Sought held pid lv s (find_levels n lv pid s)
  find_levels-Sought held pid zero lv s e v =
      rw (find_levels_zero lv pid s)
        (nowhere refl (λ k a b. absurd (omega arith)) (λ k. refl) refl refl refl v)
  find_levels-Sought held pid (suc n) lv s e v =
      step (rw (length-contents (queue s lv)) at found)
        (λ w. find_levels-Sought held pid n (lv + 1) (with_queue s lv f.1) (omega arith) w)
    where
      f : Option Index × Fq
      f = find_pid (queue s lv).size pid s.procs (queue s lv)

      h : lv < 3
      h = omega (arith, e)

      found :
          Found pid s.procs
            (contents (queue s lv))
            []
            (find_pid (length (contents (queue s lv))) pid s.procs (queue s lv))
      found =
          find_pid-Found pid s.procs (contents (queue s lv)) [] (queue s lv)
            (Fine-at held s lv v h).0 (sym (append-nil (contents (queue s lv))))

      step :
          Found pid s.procs (contents (queue s lv)) [] f
          → (Inv held (with_queue s lv f.1)
              → Sought held pid
                  (lv + 1)
                  (with_queue s lv f.1)
                  (find_levels n (lv + 1) pid (with_queue s lv f.1)))
          → Sought held pid lv s (find_levels (suc n) lv pid s)
      step (missing z a c ring) rest = rw (find_levels-none n lv pid s z) (
          Sought-next held pid lv s (with_queue s lv f.1) _ a
            (same_contents s lv f.1 (omega (arith, v.levels, h)) c) refl refl refl
            (rest (
              turn-Inv held s lv f.1 [] (contents (queue s lv)) v h ring refl
                (c ∙ sym (append-nil (contents (queue s lv)))))))
      step (present b x a z split absent hit c ring) rest =
          let q : queue (with_queue s lv f.1) lv ≡ f.1 =
            queue-with_queue_self s lv f.1 (omega (arith, v.levels, h)) in
          rw (find_levels-some n lv pid s x z) (
            somewhere lv b x a refl h hit split (ap contents q ∙ c)
              (λ k ne. ap contents (queue-with_queue_ne s lv k f.1 ne)) refl refl refl
              (turn-Inv held s lv f.1 (b ++ (x ∷ [])) a v h ring
                (split ∙ sym (append_assoc b (x ∷ []) a)) c))
