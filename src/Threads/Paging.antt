-- ===== src/Threads/Paging.antt =====
-- Project02-Thread/vm.c: `allocuvm` and `deallocuvm`, over `walkpgdir` and `mappages`. The panic of
-- `deallocuvm` is a function on the rest of the kernel, and its loop ends there.
pub mod Sized
use hyu_ele3021_operating_sy.Prelude.{
  ℕ, zero, suc, ◌+◌, ◌-◌, ◌*◌, ◌/◌, ◌^◌, Bool, Option, none, some, ltb, leb, ◌==◌, if◌then◌else◌,
}
use hyu_ele3021_operating_sy.Threads.Vm.{Vm, kernbase, pg_round_up}

-- What the two functions call on the page tables.
pub record Pages (v : Vm) : Type 0 where
  -- `walkpgdir` without allocation and `PTE_ADDR` of the entry, if it is present: `none` without a
  -- page table, 0 for an entry that is not present
  pub walk : ℕ → ℕ → v.World → Option (Option ℕ)
  -- `*pte = 0`
  pub unmap : ℕ → ℕ → v.World → v.World
  -- `memset` of the page and `mappages` of it; false for a failure
  pub map_page : ℕ → ℕ → ℕ → v.World → Bool × v.World
  -- what `panic` does
  pub halt : v.World → v.World

module _ (v : Vm) (g : Pages v) where
  open v use {World, kalloc, kfree}
  open g use {walk, unmap, map_page, halt}

  -- One round of the loop of `deallocuvm`: the next address, which is the end after a panic.
  unfoldable pub dealloc_page : ℕ → ℕ → ℕ → World → ℕ × World
  dealloc_page pgdir a old w = elim (walk pgdir a w) [
    | none ↦ ((a / 2 ^ 22 + 1) * 2 ^ 22, w)
    | some none ↦ (a + 4096, w)
    | some (some pa) ↦ if pa == 0 then (old, halt w) else (a + 4096, unmap pgdir a (kfree pa w))
  ]

  -- `for (; a < oldsz; a += PGSIZE)`: the address at the end, and the rest of the kernel.
  unfoldable pub dealloc_loop : ℕ → ℕ → ℕ → ℕ → World → ℕ × World
  dealloc_loop zero pgdir a old w = (a, w)
  dealloc_loop (suc n) pgdir a old w =
      let (a', w') = dealloc_page pgdir a old w in
      let rest = dealloc_loop n pgdir a' old w' in if ltb a old then rest else (a, w)

  -- The rounds that the loop takes at most.
  abbrev pub rounds : ℕ → ℕ → ℕ
  rounds a old = (old - a + 4095) / 4096 + 1

  unfoldable pub deallocuvm : ℕ → ℕ → ℕ → World → ℕ × World
  unfolding dealloc_loop dealloc_page
  deallocuvm pgdir old new w =
      let a = pg_round_up new in
      if leb old new then (old, w) else (new, (dealloc_loop (rounds a old) pgdir a old w).1)

  -- `for (; a < newsz; a += PGSIZE)`: 0 for a failure, the new size otherwise.
  unfoldable pub alloc_loop : ℕ → ℕ → ℕ → ℕ → ℕ → World → ℕ × World
  alloc_loop zero pgdir a old new w = (new, w)
  alloc_loop (suc n) pgdir a old new w =
      let (mem, w1) = kalloc w in
      let (ok, w2) = map_page pgdir a mem w1 in
      let rest = alloc_loop n pgdir (a + 4096) old new w2 in
      if ltb a new
      then (if mem == 0
          then (0, (deallocuvm pgdir new old w1).1)
          else (if ok then rest else (0, kfree mem (deallocuvm pgdir new old w2).1)))
      else (new, w)

  unfoldable pub allocuvm : ℕ → ℕ → ℕ → World → ℕ × World
  unfolding alloc_loop
  allocuvm pgdir old new w =
      let a = pg_round_up old in
      if leb kernbase new
      then (0, w)
      else (if ltb new old then (old, w) else alloc_loop (rounds a new) pgdir a old new w)

-- The kernel calls with the two functions of vm.c in their places.
abbrev pub paged : (v : Vm) → Pages v → Vm
paged v g = record v { allocuvm = allocuvm v g; deallocuvm = deallocuvm v g }
