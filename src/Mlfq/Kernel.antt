-- ===== src/Mlfq/Kernel.antt =====
-- What the scheduler calls in the rest of the Project01-MLFQ kernel: kalloc.c, vm.c, file.c, fs.c
-- and log.c. Each call may change the rest of the kernel, `World`; an address of 0 is a failure.
use hyu_ele3021_operating_sy.Prelude.{ℕ}

pub record Kernel : Type 1 where
  pub World : Type 0
  pub kalloc : World → ℕ × World
  pub kfree : ℕ → World → World
  pub setupkvm : World → ℕ × World
  pub inituvm : ℕ → World → World
  -- page directory and size
  pub copyuvm : ℕ → ℕ → World → ℕ × World
  pub freevm : ℕ → World → World
  -- page directory, old size and new size
  pub allocuvm : ℕ → ℕ → ℕ → World → ℕ × World
  pub deallocuvm : ℕ → ℕ → ℕ → World → ℕ × World
  pub filedup : ℕ → World → ℕ × World
  pub fileclose : ℕ → World → World
  pub idup : ℕ → World → ℕ × World
  -- `begin_op(); iput(ip); end_op();`
  pub iput_op : ℕ → World → World
  -- `namei("/")`
  pub root_inode : World → ℕ × World
