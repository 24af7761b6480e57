-- ===== src/Mlfq/Life.antt =====
-- Project01-MLFQ/proc.c: the life of a process. `allocproc`, `userinit`, `growproc`, `fork`,
-- `exit` and `wait`. The trap frame and the first context are left out.
use hyu_ele3021_operating_sy.Prelude.{
  ℕ, zero, suc, ◌+◌, ◌-◌, ◌%◌, ◌^◌, ℤ, pos, negsuc, Bool, true, false, not, ◌||◌, ◌&&◌, Option,
  none, some, List, [], ◌∷◌, ◌==◌, if◌then◌else◌,
}
use hyu_ele3021_operating_sy.Mlfq.Queue.{nproc}
use hyu_ele3021_operating_sy.Mlfq.Proc.{
  Proc, ptr_eq, chan_of, unused, embryo, runnable, zombie, is_unused, is_zombie,
}
use hyu_ele3021_operating_sy.Mlfq.Kernel.{Kernel}
use hyu_ele3021_operating_sy.Mlfq.State.{Sys, proc, with_proc, en_q}
use hyu_ele3021_operating_sy.Mlfq.Boost.{reset}
use hyu_ele3021_operating_sy.Mlfq.Sleep.{Outcome, sched, wakeup1}

-- The first UNUSED slot, from slot `i` on.
unfoldable pub find_unused : ℕ → List Proc → Option ℕ
find_unused i [] = none
find_unused i (p ∷ ps) = if is_unused p.state then some i else find_unused (i + 1) ps

-- `wait` in its scan of the table: a child was reaped, the call fails, or it goes to sleep.
pub data Waited (W : Type 0) : Type 0 where
  reaped : ℕ → Sys W → Waited W
  refused : Sys W → Waited W
  waits : Sys W → Waited W

module _ {W : Type 0} where
  -- The child in slot `i`, if it is one of `cur`, passes to init.
  unfoldable pub adopt_one : ℕ → ℕ → Sys W → Sys W
  adopt_one i cur s =
      let p = proc s i in
      let s' = with_proc s (some i) (record p { parent = s.initproc }) in
      if ptr_eq p.parent (some cur)
      then (if is_zombie p.state then wakeup1 (chan_of s.initproc) s' else s')
      else s

  -- The loop over the table, from slot `i` on.
  unfoldable pub adopt : ℕ → ℕ → ℕ → Sys W → Sys W
  unfolding adopt_one
  adopt zero i cur s = s
  adopt (suc n) i cur s = adopt n (i + 1) cur (adopt_one i cur s)

  -- A dictator gives up the lock.
  unfoldable pub step_down : ℕ → Sys W → Sys W
  step_down cur s =
      if ptr_eq s.scheduler_dictator (some cur)
      then record s { is_dictated = false; scheduler_dictator = none }
      else s

  -- `exit` from `acquire(&ptable.lock)` to `sched()`.
  unfoldable pub exit_locked : ℕ → Sys W → Outcome W
  unfolding step_down
  exit_locked cur s =
      let s1 = adopt nproc 0 cur (wakeup1 (chan_of (proc s cur).parent) s) in
      let s2 = with_proc s1 (some cur) (record (proc s1 cur) { state = zombie }) in
      sched cur (step_down cur s2)

-- The user-visible part of `fork` and of `userinit`: L0, the default priority, a new quantum.
abbrev pub admit : Proc → Proc
admit p = record (reset p) { state = runnable }

module _ (k : Kernel) where
  open k use {
    World, kalloc, kfree, setupkvm, inituvm, copyuvm, freevm, allocuvm, deallocuvm, filedup,
    fileclose, idup, iput_op, root_inode,
  }

  -- `allocproc` from the slot found on: a pid, then a kernel stack, without which the slot is free
  -- again.
  unfoldable pub alloc_slot : Option ℕ → Sys World → Option ℕ × Sys World
  alloc_slot none s = (none, s)
  alloc_slot (some i) s =
      let s1 =
        record (with_proc s (some i) (record (proc s i) { state = embryo; pid = s.nextpid })) {
          nextpid = s.nextpid + 1;
        } in
      let (kstack, w) = kalloc s.world in
      let p = record (proc s1 i) { kstack = kstack } in
      if kstack == 0
      then (none, record (with_proc s1 (some i) (record p { state = unused })) { world = w })
      else (some i, record (with_proc s1 (some i) p) { world = w })

  unfoldable pub allocproc : Sys World → Option ℕ × Sys World
  unfolding alloc_slot
  allocproc s = alloc_slot (find_unused 0 s.procs) s

  -- The child's open files: a copy where the parent has a file, else what the slot had before.
  unfoldable pub dup_files : List ℕ → List ℕ → World → List ℕ × World
  dup_files [] gs w = (gs, w)
  dup_files (f ∷ fs) [] w = ([], w)
  dup_files (f ∷ fs) (g ∷ gs) w =
      let (f', w') = (if f == 0 then (g, w) else filedup f w) in
      let (fs', w'') = dup_files fs gs w' in (f' ∷ fs', w'')

  unfoldable pub close_files : List ℕ → World → List ℕ × World
  close_files [] w = ([], w)
  close_files (f ∷ fs) w =
      let (fs', w') = close_files fs (if f == 0 then w else fileclose f w) in (0 ∷ fs', w')

  -- `fork` from the result of `allocproc` on.
  unfoldable pub fork_child : Option ℕ → ℕ → Sys World → Option ℕ × Sys World
  unfolding dup_files
  fork_child none cur s = (none, s)
  fork_child (some i) cur s =
      let parent = proc s cur in
      let (pgdir, w) = copyuvm parent.pgdir parent.sz s.world in
      let np = record (proc s i) { pgdir = pgdir } in
      let (files, w') = dup_files parent.ofile np.ofile w in
      let (cwd, w'') = idup parent.cwd w' in
      let np' = record np { sz = parent.sz; parent = some cur; ofile = files; cwd = cwd } in
      if pgdir == 0
      then (
        none,
        record (with_proc s (some i) (record np { kstack = 0; state = unused })) {
          world = kfree np.kstack w;
        },
      )
      else (
        some np.pid,
        en_q 0 (some i) (record (with_proc s (some i) (admit np')) { world = w'' }),
      )

  -- `fork`: the pid of the child, or `none` for -1.
  unfoldable pub fork : ℕ → Sys World → Option ℕ × Sys World
  unfolding allocproc fork_child
  fork cur s = let (found, s1) = allocproc s in fork_child found cur s1

  -- `userinit` from the result of `allocproc` on; `none` is its panic, or the null pointer of a
  -- failed `allocproc`.
  unfoldable pub first_proc : Option ℕ → Sys World → Option (Sys World)
  first_proc none s = none
  first_proc (some i) s =
      let (pgdir, w) = setupkvm s.world in
      let (cwd, w') = root_inode (inituvm pgdir w) in
      let p = record (proc s i) { pgdir = pgdir; sz = 4096; cwd = cwd } in
      let s' = record s { initproc = some i } in
      if pgdir == 0
      then none
      else some (en_q 0 (some i) (record (with_proc s' (some i) (admit p)) { world = w' }))

  unfoldable pub userinit : Sys World → Option (Sys World)
  unfolding allocproc first_proc
  userinit s = let (found, s1) = allocproc s in first_proc found s1

  -- The new size and memory, by the sign of `n`. Sizes are 32-bit, so `sz + n` wraps.
  unfoldable pub resize : ℤ → Proc → World → ℕ × World
  resize (pos zero) p w = (p.sz, w)
  resize (pos (suc m)) p w = allocuvm p.pgdir p.sz ((p.sz + suc m) % 2 ^ 32) w
  resize (negsuc m) p w = deallocuvm p.pgdir p.sz ((p.sz + 2 ^ 32 - suc m) % 2 ^ 32) w

  -- `growproc`: false for -1.
  unfoldable pub growproc : ℤ → ℕ → Sys World → Bool × Sys World
  unfolding resize
  growproc n cur s =
      let p = proc s cur in
      let (sz, w) = resize n p s.world in
      let failed : Bool = elim n [ pos zero ↦ false | _ ↦ sz == 0 ] in
      if failed
      then (false, record s { world = w })
      else (true, record (with_proc s (some cur) (record p { sz = sz })) { world = w })

  -- `exit`: init may not call it.
  unfoldable exit : ℕ → Sys World → Outcome World
  unfolding close_files exit_locked
  exit cur s =
      if ptr_eq s.initproc (some cur)
      then Outcome.panic
      else (let p = proc s cur in
          let (files, w) = close_files p.ofile s.world in
          exit_locked cur (record (with_proc s (some cur) (record p { ofile = files; cwd = 0 })) {
            world = iput_op p.cwd w;
          }))

  -- A zombie child gives back its memory and its slot.
  unfoldable pub reap : ℕ → Sys World → Sys World
  reap i s =
      let p = proc s i in
      record (with_proc s (some i)
        (record p { kstack = 0; pid = 0; parent = none; killed = false; state = unused })) {
          world = freevm p.pgdir (kfree p.kstack s.world);
        }

  -- The scan of `wait` from slot `i` on.
  unfoldable pub wait_scan : ℕ → ℕ → ℕ → Bool → Sys World → Waited World
  unfolding reap
  wait_scan zero i cur havekids s =
      if not havekids || (proc s cur).killed then refused s else waits s
  wait_scan (suc n) i cur havekids s =
      let p = proc s i in
      let rest = wait_scan n (i + 1) cur (ptr_eq p.parent (some cur) || havekids) s in
      if ptr_eq p.parent (some cur) && is_zombie p.state then reaped p.pid (reap i s) else rest

  -- One turn of the loop of `wait`; `waits` goes on to `sleep(curproc, &ptable.lock)`.
  unfoldable pub wait_turn : ℕ → Sys World → Waited World
  wait_turn cur s = wait_scan nproc 0 cur false s
