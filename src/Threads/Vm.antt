-- ===== src/Threads/Vm.antt =====
-- What the threads of Project02-Thread call in vm.c, kalloc.c, file.c, fs.c and log.c, and the
-- arithmetic of sizes, which are of type `uint`.
use hyu_ele3021_operating_sy.Prelude.{
  ℕ, suc, ◌+◌, ◌-◌, ◌*◌, ◌/◌, ◌%◌, ◌^◌, ◌≤◌, ◌<◌, ◌≡◌, ◌⊎◌, Bool, List, ℤ, pos, negsuc,
}

-- Each call may change the rest of the kernel, `World`; an address or size of 0 is a failure.
pub record Vm : Type 1 where
  pub World : Type 0
  pub kalloc : World → ℕ × World
  pub kfree : ℕ → World → World
  pub copyuvm : ℕ → ℕ → World → ℕ × World
  pub freevm : ℕ → World → World
  -- page directory, old size and new size
  pub allocuvm : ℕ → ℕ → ℕ → World → ℕ × World
  pub deallocuvm : ℕ → ℕ → ℕ → World → ℕ × World
  -- page directory and address
  pub clearpteu : ℕ → ℕ → World → World
  -- page directory, address and words; false for a failure
  pub copyout : ℕ → ℕ → List ℕ → World → Bool × World
  pub filedup : ℕ → World → ℕ × World
  pub idup : ℕ → World → ℕ × World

-- `KERNBASE` of memlayout.h
abbrev pub kernbase : ℕ
kernbase = 2 ^ 31

-- The sizes that `allocuvm` and `deallocuvm` return.
pub record Sizes (v : Vm) : Type 0 where
  -- the new size, below the kernel; 0; or the old size if the new one is less
  pub grown :
      (pgdir old new : ℕ) (w : v.World)
      → (((v.allocuvm pgdir old new w).0 ≡ new) × (new < kernbase))
        ⊎ (((v.allocuvm pgdir old new w).0 ≡ 0)
            ⊎ (((v.allocuvm pgdir old new w).0 ≡ old) × (new < old)))
  -- the lesser of the two
  pub shrunk :
      (pgdir old new : ℕ) (w : v.World)
      → (((v.deallocuvm pgdir old new w).0 ≡ new) × (new < old))
        ⊎ (((v.deallocuvm pgdir old new w).0 ≡ old) × (old ≤ new))

-- `PGSIZE` of mmu.h
abbrev pub pgsize : ℕ
pgsize = 4096

-- `PGROUNDUP` of mmu.h, on a `uint`
abbrev pub pg_round_up : ℕ → ℕ
pg_round_up n = (n + 4095) % 2 ^ 32 / 4096 * 4096

-- `sz + n` with an `int` n
abbrev pub add_int : ℕ → ℤ → ℕ
add_int sz (pos n) = (sz + n) % 2 ^ 32
add_int sz (negsuc n) = (sz + 2 ^ 32 - suc n) % 2 ^ 32

-- The end of a stack of `stacksz` pages and its guard page that starts at `sz`, and its start.
abbrev pub stack_end : ℕ → ℕ → ℕ
stack_end sz stacksz = (sz + (stacksz + 1) * pgsize) % 2 ^ 32

abbrev pub stack_start : ℕ → ℕ → ℕ
stack_start sz stacksz = (sz + 2 ^ 32 - (stacksz + 1) * pgsize % 2 ^ 32) % 2 ^ 32
