-- ===== src/Mlfq/Invariant/Wait.antt =====
-- The scan of `wait`: it reaps the first zombie child, or changes nothing.
use hyu_ele3021_operating_sy.Prelude.{
  if_true, if_false, ℕ, zero, suc, ◌+◌, ◌≤◌, ◌<◌, ◌≡◌, refl, sym, subst, ◌⊎◌, inl, inr, Bool, true,
  false, ◌&&◌, ◌||◌, some, arith, ◌==◌, Bool-cases,
}
use hyu_ele3021_operating_sy.Mlfq.Queue.{nproc}
use hyu_ele3021_operating_sy.Mlfq.Proc.{Proc, ptr_eq, is_zombie}
use hyu_ele3021_operating_sy.Mlfq.Kernel.{Kernel}
use hyu_ele3021_operating_sy.Mlfq.State.{Sys, proc}
use hyu_ele3021_operating_sy.Mlfq.Life.{Waited, reaped, refused, waits, reap, wait_scan, wait_turn}

module _ (k : Kernel) where
  open k use {World}

  -- Slot `j` holds a zombie child of `cur`.
  abbrev ZombieChild : ℕ → Sys World → ℕ → Type 0
  ZombieChild cur s j =
      (ptr_eq (proc s j).parent (some cur) ≡ true) × (is_zombie (proc s j).state ≡ true)

  -- What `wait` says of the slots from `i` up to `e`, with a child seen before if `kids` holds.
  pub data Scanned (i e cur : ℕ) (kids : Bool) (s : Sys World) (r : Waited World) : Type 0 where
    one :
        (j : ℕ)
        → i ≤ j
        → j < e
        → ZombieChild cur s j
        → ((l : ℕ) → i ≤ l → l < j → ¬ ZombieChild cur s l)
        → r ≡ reaped (proc s j).pid (reap k j s)
        → Scanned i e cur kids s r
    childless :
        kids ≡ false
        → ((l : ℕ) → i ≤ l → l < e → ptr_eq (proc s l).parent (some cur) ≡ false)
        → r ≡ refused s
        → Scanned i e cur kids s r
    stopped :
        ((l : ℕ) → i ≤ l → l < e → ¬ ZombieChild cur s l)
        → (proc s cur).killed ≡ true
        → r ≡ refused s
        → Scanned i e cur kids s r
    sleeps :
        ((l : ℕ) → i ≤ l → l < e → ¬ ZombieChild cur s l)
        → (kids ≡ true)
          ⊎ ((l : ℕ) × (i ≤ l) × (l < e) × (ptr_eq (proc s l).parent (some cur) ≡ true))
        → (proc s cur).killed ≡ false
        → r ≡ waits s
        → Scanned i e cur kids s r

  -- Every slot from `i` on is slot `i` or a later one.
  from_next :
      {P : ℕ → Type 0} (i e : ℕ)
      → P i
      → ((l : ℕ) → i + 1 ≤ l → l < e → P l)
      → (l : ℕ) → i ≤ l
      → l < e
      → P l
  from_next {P} i e h f l a b = elim (Bool-cases (i == l)) [
    | inl t ↦ let t' : i ≡ l = ground arith in subst P t' h
    | inr t ↦ f l (ground arith) b
  ]

  Scanned-next :
      (i e cur : ℕ) (kids : Bool) (s : Sys World) (r : Waited World)
      → i < e
      → ¬ ZombieChild cur s i
      → Scanned (i + 1) e cur (ptr_eq (proc s i).parent (some cur) || kids) s r
      → Scanned i e cur kids s r
  Scanned-next i e cur kids s r h no_child (one j a b z f q) =
      one j (omega arith) b z (from_next i j no_child f) q
  Scanned-next i e cur kids s r h no_child (childless x f q) =
      childless (ground arith) (from_next i e (ground arith) f) q
  Scanned-next i e cur kids s r h no_child (stopped f d q) = stopped (from_next i e no_child f) d q
  Scanned-next i e cur kids s r h no_child (sleeps f (inr (l, a, b, c)) d q) =
      sleeps (from_next i e no_child f) (inr (l, omega arith, b, c)) d q
  Scanned-next i e cur kids s r h no_child (sleeps f (inl x) d q) =
      elim (Bool-cases (ptr_eq (proc s i).parent (some cur))) [
        | inl c ↦ sleeps (from_next i e no_child f) (inr (i, omega arith, h, c)) d q
        | inr c ↦ sleeps (from_next i e no_child f) (inl (ground arith)) d q
      ]

  wait_scan-Scanned :
      (n i e cur : ℕ) (kids : Bool) (s : Sys World)
      → i + n ≡ e
      → Scanned i e cur kids s (wait_scan k n i cur kids s)
  unfolding wait_scan
  wait_scan-Scanned zero i e cur false s h = childless refl (λ l a b. absurd (omega arith)) refl
  wait_scan-Scanned zero i e cur true s h = elim (Bool-cases (proc s cur).killed) [
    | inl d ↦ stopped (λ l a b. absurd (omega arith)) d (rw d)
    | inr d ↦ sleeps (λ l a b. absurd (omega arith)) (inl refl) d (rw d)
  ]
  wait_scan-Scanned (suc n) i e cur kids s h =
      let p = proc s i in
      let ih =
        wait_scan-Scanned n (i + 1) e cur (ptr_eq p.parent (some cur) || kids) s (omega arith) in
      elim (Bool-cases (ptr_eq p.parent (some cur) && is_zombie p.state)) [
        | inl z ↦
            one i (omega arith) (omega arith) (ground arith) (λ l a b. absurd (omega arith))
              (if_true _ _ z)
        | inr z ↦
            subst (Scanned i e cur kids s) (sym (if_false _ _ z))
              (Scanned-next i e cur kids s _ (omega arith) (λ c. no_zombie p z c) ih)
      ]
    where
      no_zombie :
          (p : Proc)
          → (ptr_eq p.parent (some cur) && is_zombie p.state) ≡ false
          → ¬ ((ptr_eq p.parent (some cur) ≡ true) × (is_zombie p.state ≡ true))
      no_zombie p z c = ground arith

  -- A scan of `wait` reaps the zombie child with the lowest slot; without a zombie child it fails
  -- if the caller has no child or is killed, and goes to sleep otherwise.
  pub wait_turn-Scanned :
      (cur : ℕ) (s : Sys World) → Scanned 0 nproc cur false s (wait_turn k cur s)
  unfolding wait_turn
  wait_turn-Scanned cur s = wait_scan-Scanned nproc 0 nproc cur false s refl
