-- ===== src/Threads/Create.antt =====
-- Project02-Thread/proc.c: `pthread_fork`, `pthread_exec` and `thread_create`. What they print is
-- left out.
pub mod Stacks
pub mod Touched
pub mod Made
use hyu_ele3021_operating_sy.Prelude.{
  ℕ, ◌+◌, ◌-◌, ◌%◌, ◌^◌, Bool, true, false, Option, none, some, [], ◌∷◌, ◌==◌, if◌then◌else◌,
  get_or, set,
}
use hyu_ele3021_operating_sy.Threads.Table.{
  Proc, Sys, proc, with_proc, thread, with_thread, unused, runnable, nthrd,
}
use hyu_ele3021_operating_sy.Threads.Vm.{Vm, pg_round_up, stack_end, stack_start}
use hyu_ele3021_operating_sy.Threads.Alloc.{allocthread}
use hyu_ele3021_operating_sy.Threads.Limit.{exceeds}

-- A freed stack leaves the queue.
unfoldable pub pop_stack : Proc → Proc
pop_stack p = record p {
  freed_sz = set p.freed_sz p.front 0;
  freed = p.freed - 1;
  front = (p.front + 1) % nthrd;
}

-- The page at which the new stack starts: the oldest freed one, or the end of the memory.
abbrev pub stack_base : Proc → ℕ
stack_base p = pg_round_up (if p.freed == 0 then p.sz else get_or p.freed_sz p.front 0)

module _ (v : Vm) where
  open v use {World, allocuvm, clearpteu, copyout}

  -- `pthread_fork` once the thread has slot `j`.
  unfoldable pub enroll : ℕ → ℕ → Sys World → Sys World
  enroll j cur s =
      let p = proc s cur in
      let id = (p.thread_assign + 1) % 2 ^ 32 in
      let me = thread s p.thread_idx in
      let t = record (thread s j) {
        pid = p.pid;
        eip = me.eip;
        esp = me.esp;
        thread_id = id;
        ptable_idx = cur;
      } in
      with_proc (with_thread s j t) cur (record p { thread_assign = id })

  unfoldable pub pthread_fork : ℕ → Sys World → Option ℕ × Sys World
  unfolding enroll
  pthread_fork cur s =
      let (found, s1) = allocthread v s in
      elim found [ none ↦ (none, s1) | some j ↦ (some j, enroll j cur s1) ]

  -- `pthread_exec` once the stack is allocated up to `sz`; false for -1.
  unfoldable pub start_stack : ℕ → ℕ → ℕ → ℕ → ℕ → Sys World → Bool × Sys World
  unfolding pop_stack
  start_stack sz j routine arg cur s =
      let p = proc s cur in
      let w = clearpteu p.pgdir (stack_start sz p.stacksz) s.world in
      let sp = (sz + 2 ^ 32 - 8) % 2 ^ 32 in
      let (ok, w') = copyout p.pgdir sp (4294967295 ∷ (arg ∷ [])) w in
      let p' = (if p.freed == 0 then record p { sz = sz } else pop_stack p) in
      let t = record (thread s j) { th_sz = sz; eip = routine; esp = sp } in
      if ok
      then (true, record (with_thread (with_proc s cur p') j t) { world = w' })
      else (false, record s { world = w' })

  unfoldable pub pthread_exec : ℕ → ℕ → ℕ → ℕ → Sys World → Bool × Sys World
  unfolding start_stack
  pthread_exec j routine arg cur s =
      let p = proc s cur in
      let base = stack_base p in
      let (sz, w) = allocuvm p.pgdir base (stack_end base p.stacksz) s.world in
      if exceeds p (stack_end base p.stacksz)
      then (false, s)
      else (if sz == 0
          then (false, record s { world = w })
          else start_stack sz j routine arg cur (record s { world = w }))

  -- `thread_create` once the thread has its slot: its id, or `none` for -1.
  unfoldable pub launch : ℕ → ℕ → ℕ → ℕ → Sys World → Option ℕ × Sys World
  launch j routine arg cur s =
      let (ok, s1) = pthread_exec j routine arg cur s in
      let p = proc s1 cur in
      let t = thread s1 j in
      if ok
      then (
        some t.thread_id,
        with_thread s1 j (record t {
          pid = p.pid;
          state = runnable;
          eip = routine;
          ptable_idx = cur;
          joiner_pthread = some p.thread_idx;
        }),
      )
      else (none, with_thread s1 j (record t { state = unused }))

  unfoldable pub thread_create : ℕ → ℕ → ℕ → Sys World → Option ℕ × Sys World
  thread_create routine arg cur s =
      let (found, s1) = pthread_fork cur s in
      elim found [ none ↦ (none, s1) | some j ↦ launch j routine arg cur s1 ]
