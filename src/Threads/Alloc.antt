-- ===== src/Threads/Alloc.antt =====
-- Project02-Thread/proc.c: `allocthread` and `allocproc`.
use hyu_ele3021_operating_sy.Prelude.{
  ℕ, ◌+◌, Option, none, some, List, [], ◌∷◌, ◌==◌, if◌then◌else◌, replicate,
}
use hyu_ele3021_operating_sy.Threads.Table.{
  Thread, Proc, Sys, proc, with_proc, thread, with_thread, is_unused, unused, embryo, main_th,
  nthrd,
}
use hyu_ele3021_operating_sy.Threads.Vm.{Vm}

-- The first UNUSED slot, from slot `j` on.
unfoldable pub find_thread : ℕ → List Thread → Option ℕ
find_thread j [] = none
find_thread j (t ∷ ts) = if is_unused t.state then some j else find_thread (j + 1) ts

unfoldable pub find_proc : ℕ → List Proc → Option ℕ
find_proc i [] = none
find_proc i (p ∷ ps) = if is_unused p.state then some i else find_proc (i + 1) ps

-- The process structure in which `allocproc` puts the thread of slot `j`.
abbrev pub fresh_proc : ℕ → ℕ → ℕ → Proc → Proc
fresh_proc pid j kstack p = record p {
  state = embryo;
  pid = pid;
  kstack = kstack;
  sz = 0;
  memlimit = 0;
  thread_assign = 1;
  thread_idx = j;
  thread_id = main_th;
  main_thread_idx = j;
  stacksz = 1;
  front = 0;
  back = 0;
  freed = 0;
  parent_proc = none;
  parent_pthread = none;
  joiner_pthread = some j;
  freed_sz = replicate nthrd 0;
}

module _ (v : Vm) where
  open v use {World, kalloc}

  -- `allocthread` from the slot found on.
  unfoldable pub take_thread : Option ℕ → Sys World → Option ℕ × Sys World
  take_thread none s = (none, s)
  take_thread (some j) s =
      let (kstack, w) = kalloc s.world in
      let t = record (thread s j) { kstack = kstack } in
      if kstack == 0
      then (none, record (with_thread s j (record t { state = unused })) { world = w })
      else (
        some j,
        record (with_thread s j (record t { state = embryo; retval = 0 })) { world = w },
      )

  unfoldable pub allocthread : Sys World → Option ℕ × Sys World
  unfolding take_thread
  allocthread s = take_thread (find_thread 0 s.threads) s

  -- `allocproc` once slot `i` and the thread of slot `j` are found.
  unfoldable pub fill_proc : ℕ → Option ℕ → Sys World → Option ℕ × Sys World
  fill_proc i none s = (none, s)
  fill_proc i (some j) s =
      let t = thread s j in
      let s1 = record (with_thread s j (record t { pid = s.nextpid })) {
        nextpid = s.nextpid + 1;
      } in
      if t.kstack == 0
      then (
        none,
        with_proc s1 i (record (proc s1 i) { state = unused; pid = s.nextpid; kstack = 0 }),
      )
      else (some i, with_proc s1 i (fresh_proc s.nextpid j t.kstack (proc s1 i)))

  unfoldable pub allocproc : Sys World → Option ℕ × Sys World
  unfolding allocthread fill_proc
  allocproc s = elim (find_proc 0 s.procs) [
    | none ↦ (none, s)
    | some i ↦ let (found, s1) = allocthread s in fill_proc i found s1
  ]
