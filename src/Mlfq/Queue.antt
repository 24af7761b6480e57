-- ===== src/Mlfq/Queue.antt =====
-- Project01-MLFQ/proc.c: `struct fq`, the circular array behind each level, and the queue
-- operations on one of them. A C index is an `Option ℕ`, with `none` for -1.
pub mod Refine
use hyu_ele3021_operating_sy.Prelude.{
  ℕ, ◌+◌, ◌-◌, ◌%◌, Bool, Option, none, some, List, get_or, set, replicate, ◌==◌, if◌then◌else◌,
}

-- `NPROC` of param.h
abbrev pub nproc : ℕ
nproc = 64

abbrev pub Index : Type 0
Index = Option ℕ

pub record Fq : Type 0 where
  pub proc_idx : List Index
  pub front : ℕ
  pub back : ℕ
  pub size : ℕ

-- The globals of C start as zeros; no entry is live while `size` is 0.
abbrev pub empty_fq : Fq
empty_fq = record { proc_idx = replicate nproc (some 0); front = 0; back = 0; size = 0 }

-- `enQ` on the queue of one level; it has no test for a full queue.
unfoldable pub push_back : Fq → Index → Fq
push_back q idx = record q {
  proc_idx = set q.proc_idx q.back idx;
  back = (q.back + 1) % nproc;
  size = q.size + 1;
}

unfoldable pub is_empty : Fq → Bool
is_empty q = q.size == 0

-- `deQ` on the queue of one level. The result is -1 on the empty queue.
unfoldable pub pop_front : Fq → Index × Fq
unfolding is_empty
pop_front q = if is_empty q then (none, q) else (
  get_or q.proc_idx q.front none,
  record q { front = (q.front + 1) % nproc; size = q.size - 1 },
)
