-- ===== src/Threads/Paging/Sized.antt =====
-- `allocuvm` and `deallocuvm` return the sizes that their callers count on, and their loops end.
use hyu_ele3021_operating_sy.Prelude.{
  ℕ, zero, suc, ◌+◌, ◌*◌, ◌%◌, ◌≤◌, ◌≡◌, refl, ◌⊎◌, inl, inr, false, Option, none, some, arith, ltb,
  leb, ◌==◌, Bool-cases,
}
use hyu_ele3021_operating_sy.Threads.Vm.{Vm, Sizes, kernbase, pg_round_up}
use hyu_ele3021_operating_sy.Threads.Paging.{
  Pages, dealloc_page, dealloc_loop, deallocuvm, alloc_loop, allocuvm, rounds, paged,
}

module _ (v : Vm) (g : Pages v) where
  open v use {World, kalloc, kfree}
  open g use {walk, unmap, map_page, halt}

  dealloc_page_cases :
      (pgdir a old : ℕ) (w : World)
      → a % 4096 ≡ 0
      → let b = (dealloc_page v g pgdir a old w).0 in ((a + 4096 ≤ b) × (b % 4096 ≡ 0)) ⊎ (b ≡ old)
  unfolding dealloc_page
  dealloc_page_cases pgdir a old w r = by_walk (walk pgdir a w) refl
    where
      by_walk :
          (o : Option (Option ℕ))
          → walk pgdir a w ≡ o
          → let b = (dealloc_page v g pgdir a old w).0 in
            ((a + 4096 ≤ b) × (b % 4096 ≡ 0)) ⊎ (b ≡ old)
      by_walk none e = rw (e, dealloc_page) (inl (omega arith, omega arith))
      by_walk (some none) e = rw (e, dealloc_page) (inl (omega arith, omega arith))
      by_walk (some (some pa)) e = elim (Bool-cases (pa == 0)) [
        | inl z ↦ rw (e, dealloc_page) (rw z (inr refl))
        | inr z ↦ rw (e, dealloc_page) (rw z (inl (omega arith, omega arith)))
      ]

  dealloc_loop_past :
      (n pgdir a old : ℕ) (w : World) → old ≤ a → old ≤ (dealloc_loop v g n pgdir a old w).0
  unfolding dealloc_loop
  dealloc_loop_past zero pgdir a old w h = h
  dealloc_loop_past (suc n) pgdir a old w h = let e : ltb a old ≡ false = ground arith in rw e h

  dealloc_loop_done :
      (n pgdir a old : ℕ) (w : World)
      → a % 4096 ≡ 0
      → old ≤ a + 4096 * n
      → old ≤ (dealloc_loop v g n pgdir a old w).0
  unfolding dealloc_loop
  dealloc_loop_done zero pgdir a old w r h = omega arith
  dealloc_loop_done (suc n) pgdir a old w r h =
      let x = dealloc_page v g pgdir a old w in
      elim (Bool-cases (ltb a old)) [
        | inr e ↦ rw e (ground arith)
        | inl e ↦ elim (dealloc_page_cases pgdir a old w r) [
          | inl (k, q) ↦ rw e (dealloc_loop_done n pgdir x.0 old x.1 q (omega arith))
          | inr k ↦ rw e (dealloc_loop_past n pgdir x.0 old x.1 (omega (arith, k)))
        ]
      ]

  -- From a page boundary the rounds suffice to reach the end.
  pub dealloc_rounds_done :
      (pgdir a old : ℕ) (w : World)
      → a % 4096 ≡ 0
      → old ≤ (dealloc_loop v g (rounds v g a old) pgdir a old w).0
  dealloc_rounds_done pgdir a old w r =
      dealloc_loop_done (rounds v g a old) pgdir a old w r (omega arith)

  alloc_loop_cases :
      (n pgdir a old new : ℕ) (w : World)
      → ((alloc_loop v g n pgdir a old new w).0 ≡ new)
        ⊎ ((alloc_loop v g n pgdir a old new w).0 ≡ 0)
  unfolding alloc_loop
  alloc_loop_cases zero pgdir a old new w = inl refl
  alloc_loop_cases (suc n) pgdir a old new w =
      let m = kalloc w in
      let p = map_page pgdir a m.0 m.1 in
      elim (Bool-cases (ltb a new)) [
        | inr e ↦ rw e (inl refl)
        | inl e ↦ elim (Bool-cases (m.0 == 0)) [
          | inl f ↦ rw (e, f) (inr refl)
          | inr f ↦ elim (Bool-cases p.0) [
            | inr k ↦ rw (e, f, k) (inr refl)
            | inl k ↦ rw (e, f, k) (alloc_loop_cases n pgdir (a + 4096) old new p.1)
          ]
        ]
      ]

  -- The two functions of vm.c return the sizes that they document.
  pub paged-Sizes : Sizes (paged v g)
  unfolding allocuvm deallocuvm
  paged-Sizes = record {
    grown = λ pgdir old new w. elim (Bool-cases (leb kernbase new)) [
      | inl e ↦ rw e (inr (inl refl))
      | inr e ↦ elim (Bool-cases (ltb new old)) [
        | inl f ↦ rw (e, f) (inr (inr (refl, ground arith)))
        | inr f ↦
            rw (e, f)
              (elim (alloc_loop_cases (rounds v g (pg_round_up old) new) pgdir (pg_round_up old) old
                new w) [ inl q ↦ inl (q, ground arith) | inr q ↦ inr (inl q) ])
      ]
    ];
    shrunk = λ pgdir old new w. elim (Bool-cases (leb old new)) [
      | inl e ↦ rw e (inr (refl, ground arith))
      | inr e ↦ rw e (inl (refl, ground arith))
    ];
  }
