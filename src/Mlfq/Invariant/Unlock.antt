-- ===== src/Mlfq/Invariant/Unlock.antt =====
-- `schedulerUnlock` of the process that dictates.
use hyu_ele3021_operating_sy.Prelude.{
  if_false, ℕ, zero, suc, ◌≡◌, refl, sym, ap, ◌∙◌, true, false, not, ◌||◌, none, some, List, [],
  ◌∷◌, arith, ==_self, length, get_or, ℤ,
}
use hyu_ele3021_operating_sy.Mlfq.Queue.{Index, empty_fq}
use hyu_ele3021_operating_sy.Mlfq.Queue.Refine.{contents}
use hyu_ele3021_operating_sy.Mlfq.Proc.{Proc, runnable, running, ptr_eq, blank}
use hyu_ele3021_operating_sy.Mlfq.State.{Sys, proc, with_proc, queue, en_q, de_q}
use hyu_ele3021_operating_sy.Mlfq.Boost.{reset, rotate, put_in_front}
use hyu_ele3021_operating_sy.Mlfq.Control.{stays, is_password, scheduler_unlock}
use hyu_ele3021_operating_sy.Mlfq.Count.{total-set, occurs}
use hyu_ele3021_operating_sy.Mlfq.Invariant.{Inv, with_held-Inv, proc-with_proc_self, hit_self}
use hyu_ele3021_operating_sy.Mlfq.Invariant.Moves.{put_in_front-Rotated}
use hyu_ele3021_operating_sy.Mlfq.Invariant.Dispatch.{Running}

module _ {W : Type 0} where
  -- The moves of queue entries read nothing of the table.
  rotate-procs :
      (n lv : ℕ) (s : Sys W) (ps : List Proc)
      → rotate n lv (record s { procs = ps }) ≡ record (rotate n lv s) { procs = ps }
  unfolding rotate en_q de_q
  rotate-procs zero lv s ps = refl
  rotate-procs (suc n) lv s ps = rotate-procs n lv _ ps

  put_in_front-procs :
      (lv : ℕ) (x : Index) (s : Sys W) (ps : List Proc)
      → put_in_front lv x (record s { procs = ps }) ≡ record (put_in_front lv x s) { procs = ps }
  unfolding put_in_front en_q
  put_in_front-procs lv x s ps = rotate-procs (queue s lv).size lv (en_q lv x s) ps

  -- A process that stands in no queue goes in front, whatever its state.
  front_any :
      (j : ℕ) (s : Sys W)
      → Inv (some j ∷ []) s
      → (contents (queue (put_in_front 0 (some j) s) 0) ≡ some j ∷ contents (queue s 0))
        × ((put_in_front 0 (some j) s).procs ≡ s.procs)
        × (length (put_in_front 0 (some j) s).mlfq ≡ 3)
  front_any j s v =
      let p = record (proc s j) { state = runnable } in
      let u = with_proc s (some j) p in
      let v' = with_held-Inv [] s j p v (v.ranks j) in
      let at : proc u j ≡ p = proc-with_proc_self (some j ∷ []) s j p v v.out.0 in
      let r = put_in_front-Rotated [] 0 j u v' (omega arith) (rw at refl) in
      let e = put_in_front-procs 0 (some j) s u.procs in
      let f = put_in_front-procs 0 (some j) s s.procs in
      (
        ap (λ (t : Sys W). contents (queue t 0)) (sym e) ∙ r.turned,
        ap (λ (t : Sys W). t.procs) f,
        ap (λ (t : Sys W). length t.mlfq) (sym e) ∙ r.kept.levels,
      )

  -- When the running process dictates and gives the right password, `schedulerUnlock` returns with
  -- that process at the head of L0 in front of the old entries and still RUNNING, with nobody
  -- dictating, so that the invariant of a running process does not hold.
  pub unlock_queues_running :
      (password : ℤ) (cur : ℕ) (s : Sys W)
      → Running cur s
      → s.is_dictated ≡ true
      → is_password password ≡ true
      → (t : Sys W) × (scheduler_unlock password cur s ≡ stays t)
        × (contents (queue t 0) ≡ some cur ∷ contents (queue s 0))
        × ((proc t cur).state ≡ running)
        × (t.is_dictated ≡ false)
        × (¬ Running cur t)
  unfolding scheduler_unlock
  unlock_queues_running password cur s r d w =
      let front = front_any cur u v in
      let state : (proc t cur).state ≡ running =
        ap (λ ps. (get_or ps cur blank).state) front.1
        ∙ ap (λ (q : Proc). q.state) (proc-with_proc_self (some cur ∷ []) s cur p r.inv r.inv.out.0)
        ∙ r.state in
      (
        t,
        if_false _ _ (ap not w) ∙ if_false _ _ lawful,
        front.0,
        state,
        refl,
        (λ x. absurd (
            omega (
              arith,
              x.inv.once cur,
              hit_self cur,
              total-set cur t.mlfq 0 empty_fq (omega (arith, front.2)),
              ap (occurs cur) front.0,
            ))),
      )
    where
      p : Proc
      p = reset (proc s cur)

      u : Sys W
      u = with_proc s (some cur) p

      v : Inv (some cur ∷ []) u
      v = with_held-Inv [] s cur p r.inv (omega arith)

      t : Sys W
      t = record (put_in_front 0 (some cur) u) { scheduler_dictator = none; is_dictated = false }

      lawful : (not s.is_dictated || not (ptr_eq (some cur) s.scheduler_dictator)) ≡ false
      lawful = rw (d, r.rule d) (ap not (==_self cur))
