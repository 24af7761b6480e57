-- ===== src/Threads/Reap/Freed.antt =====
-- `wait` gives back all that a process had.
use hyu_ele3021_operating_sy.Prelude.{
  if_true, if_false, ℕ, zero, suc, ◌+◌, ◌≤◌, ◌<◌, ◌≡◌, refl, sym, subst, ◌∙◌, ◌≢◌, ◌⊎◌, inl, inr,
  Bool, true, false, ◌&&◌, ◌||◌, some, List, [], ◌∷◌, arith, ◌==◌, if◌then◌else◌, Bool-cases,
  length, get_or, get_or-set_self, get_or-set_ne,
}
use hyu_ele3021_operating_sy.Prelude.{from_next, or_false, and_true, and_false}
use hyu_ele3021_operating_sy.Mlfq.Proc.{ptr_eq}
use mathlib.Core.Bool.{false≢true}
use hyu_ele3021_operating_sy.Threads.Table.{
  Thread, Sys, proc, thread, is_zombie, blank_proc, blank_thread,
}
use hyu_ele3021_operating_sy.Threads.Vm.{Vm}
use hyu_ele3021_operating_sy.Threads.Kill.{emptied}
use hyu_ele3021_operating_sy.Threads.Reap.{
  released, Waited, reaped, refused, waits, empty_threads, reap, wait_scan,
}

module _ (v : Vm) where
  open v use {World}

  -- Each slot with the pid is emptied, and the others stay.
  empty_threads-slot :
      (pid : ℕ) (ts : List Thread) (w : World) (j : ℕ)
      → j < length ts
      → get_or (empty_threads v pid ts w).0 j blank_thread
        ≡ (let t = get_or ts j blank_thread in if t.pid == pid then emptied t else t)
  unfolding empty_threads
  empty_threads-slot pid [] w j h = absurd (omega arith)
  empty_threads-slot pid (t ∷ ts) w zero h = refl
  empty_threads-slot pid (t ∷ ts) w (suc j) h =
      empty_threads-slot pid ts (if t.pid == pid then v.kfree t.kstack w else w) j (omega arith)

  -- What is left of the process in slot `i`, whose pid is `pid`.
  pub record Freed (i pid : ℕ) (s t : Sys World) : Type 0 where
    pub slot : proc t i ≡ released (proc s i)
    pub procs_kept : (k : ℕ) → i ≢ k → proc t k ≡ proc s k
    pub gone :
        (j : ℕ) → j < length s.threads → (thread s j).pid ≡ pid → thread t j ≡ emptied (thread s j)
    pub kept : (j : ℕ) → j < length s.threads → (thread s j).pid ≢ pid → thread t j ≡ thread s j

  pub reap-Freed :
      (i : ℕ) (s : Sys World) → i < length s.procs → Freed i (proc s i).pid s (reap v i s)
  unfolding reap
  reap-Freed i s h = record {
    slot = get_or-set_self s.procs i (released (proc s i)) blank_proc h;
    procs_kept = λ k n. get_or-set_ne s.procs i k (released (proc s i)) blank_proc n;
    gone =
        λ j l e. empty_threads-slot (proc s i).pid s.threads s.world j l ∙ if_true _ _ (same j e);
    kept = λ j l e.
        empty_threads-slot (proc s i).pid s.threads s.world j l ∙ if_false _ _ (differ j e);
  }
    where
      same :
          (j : ℕ) → (thread s j).pid ≡ (proc s i).pid → ((thread s j).pid == (proc s i).pid) ≡ true
      same j e = ground (arith, e)

      differ :
          (j : ℕ) → (thread s j).pid ≢ (proc s i).pid → ((thread s j).pid == (proc s i).pid) ≡ false
      differ j e = ground (arith, e)

  -- Slot `i` holds a child of the thread in which `cur` runs.
  abbrev pub IsChild : ℕ → Sys World → ℕ → Type 0
  IsChild cur s i = ptr_eq (proc s i).parent_pthread (some (proc s cur).thread_idx) ≡ true

  abbrev pub IsDead : ℕ → Sys World → ℕ → Type 0
  IsDead cur s i = IsChild cur s i × (is_zombie (proc s i).state ≡ true)

  -- The ends of a scan of the slots from `i` up to `e`, with a child seen before if `kids` holds.
  pub data Scanned (i e cur : ℕ) (kids : Bool) (s : Sys World) (r : Waited World) : Type 0 where
    one :
        (j : ℕ) (t : Sys World)
        → i ≤ j
        → j < e
        → IsDead cur s j
        → r ≡ reaped (proc s j).pid t
        → Freed j (proc s j).pid s t
        → Scanned i e cur kids s r
    childless :
        kids ≡ false
        → ((l : ℕ) → i ≤ l → l < e → ¬ IsChild cur s l)
        → r ≡ refused s
        → Scanned i e cur kids s r
    stopped :
        (proc s cur).killed ≡ true
        → ((l : ℕ) → i ≤ l → l < e → ¬ IsDead cur s l)
        → r ≡ refused s
        → Scanned i e cur kids s r
    sleeps :
        (proc s cur).killed ≡ false
        → ((l : ℕ) → i ≤ l → l < e → ¬ IsDead cur s l)
        → (kids ≡ true) ⊎ ((l : ℕ) × (i ≤ l) × (l < e) × IsChild cur s l)
        → r ≡ waits s
        → Scanned i e cur kids s r

  Scanned-next :
      (i e cur : ℕ) (kids : Bool) (s : Sys World) (r : Waited World)
      → i < e
      → ¬ IsDead cur s i
      → Scanned
          (i + 1)
          e
          cur
          (ptr_eq (proc s i).parent_pthread (some (proc s cur).thread_idx) || kids)
          s
          r
      → Scanned i e cur kids s r
  Scanned-next i e cur kids s r h miss (one j t a b d q f) = one j t (omega arith) b d q f
  Scanned-next i e cur kids s r h miss (childless x f q) =
      childless ((or_false _ kids x).1)
        (from_next i e (λ y. false≢true (sym ((or_false _ kids x).0) ∙ y)) f) q
  Scanned-next i e cur kids s r h miss (stopped d f q) = stopped d (from_next i e miss f) q
  Scanned-next i e cur kids s r h miss (sleeps d f (inr (l, a, b, c)) q) =
      sleeps d (from_next i e miss f) (inr (l, omega arith, b, c)) q
  Scanned-next i e cur kids s r h miss (sleeps d f (inl x) q) =
      elim (Bool-cases (ptr_eq (proc s i).parent_pthread (some (proc s cur).thread_idx))) [
        | inl c ↦ sleeps d (from_next i e miss f) (inr (i, omega arith, h, c)) q
        | inr c ↦ sleeps d (from_next i e miss f) (inl (rest _ kids c x)) q
      ]
    where
      rest : (a b : Bool) → a ≡ false → (a || b) ≡ true → b ≡ true
      rest a b h k = ground arith

  pub wait_scan-Scanned :
      (n i e cur : ℕ) (kids : Bool) (s : Sys World)
      → i + n ≡ e
      → e ≤ length s.procs
      → Scanned i e cur kids s (wait_scan v n i cur kids s)
  unfolding wait_scan
  wait_scan-Scanned zero i e cur false s h l = childless refl (λ l a b. absurd (omega arith)) refl
  wait_scan-Scanned zero i e cur true s h l = elim (Bool-cases (proc s cur).killed) [
    | inl d ↦ stopped d (λ l a b. absurd (omega arith)) (rw d)
    | inr d ↦ sleeps d (λ l a b. absurd (omega arith)) (inl refl) (rw d)
  ]
  wait_scan-Scanned (suc n) i e cur kids s h l =
      let mine = ptr_eq (proc s i).parent_pthread (some (proc s cur).thread_idx) in
      let ih = wait_scan-Scanned n (i + 1) e cur (mine || kids) s (omega arith) l in
      elim (Bool-cases (mine && is_zombie (proc s i).state)) [
        | inl z ↦
            one i (reap v i s) (omega arith) (omega arith)
              (and_true mine (is_zombie (proc s i).state) z) (if_true _ _ z)
              (reap-Freed i s (omega arith))
        | inr z ↦ subst (Scanned i e cur kids s) (sym (if_false _ _ z)) (
            Scanned-next i e cur kids s _ (omega arith)
              (λ c. and_false mine (is_zombie (proc s i).state) z c) ih)
      ]
