-- ===== src/Threads/Fork.antt =====
-- Project02-Thread/proc.c: `fork`, of the main thread with all threads of the process, and of
-- another thread alone.
use hyu_ele3021_operating_sy.Prelude.{
  ℕ, zero, suc, ◌+◌, ◌%◌, Bool, true, false, not, ◌&&◌, Option, none, some, List, [], ◌∷◌, ◌==◌,
  if◌then◌else◌, get_or, set, replicate,
}
use hyu_ele3021_operating_sy.Threads.Table.{
  Thread, Proc, Sys, proc, with_proc, thread, with_thread, unused, runnable, main_th, nthrd,
}
use hyu_ele3021_operating_sy.Threads.Vm.{Vm}
use hyu_ele3021_operating_sy.Threads.Alloc.{allocthread, allocproc}
use hyu_ele3021_operating_sy.Threads.Switch.{mv_proc_to_thread, clear_proc}

-- The freed stacks, entry by entry from the front.
unfoldable pub copy_freed : ℕ → ℕ → List ℕ → List ℕ → List ℕ
copy_freed zero front from to = to
copy_freed (suc n) front from to =
    copy_freed n ((front + 1) % nthrd) from (set to front (get_or from front 0))

-- The copy of a thread, in the slot that `allocthread` has taken.
abbrev pub copied : Proc → ℕ → Thread → Thread → Thread
copied np n t nt = record nt {
  th_sz = t.th_sz;
  pid = np.pid;
  state = t.state;
  chan = t.chan;
  eip = t.eip;
  esp = t.esp;
  ptable_idx = n;
  thread_id = t.thread_id;
  joiner_pthread = some np.main_thread_idx;
  retval = t.retval;
}

module _ (v : Vm) where
  open v use {World, kfree, copyuvm, filedup, idup}

  unfoldable pub dup_files : List ℕ → List ℕ → World → List ℕ × World
  dup_files [] gs w = (gs, w)
  dup_files (f ∷ fs) [] w = ([], w)
  dup_files (f ∷ fs) (g ∷ gs) w =
      let (f', w') = (if f == 0 then (g, w) else filedup f w) in
      let (fs', w'') = dup_files fs gs w' in (f' ∷ fs', w'')

  -- The loop over the threads from slot `j` on; false for its `break`.
  unfoldable pub copy_threads : ℕ → ℕ → ℕ → ℕ → Sys World → Bool × Sys World
  copy_threads zero j cur n s = (true, s)
  copy_threads (suc m) j cur n s =
      let t = thread s j in
      elim (t.pid == (proc s cur).pid && not (t.thread_id == main_th)) [
        | false ↦ copy_threads m (j + 1) cur n s
        | true ↦
            let (found, s1) = allocthread v s in
            elim found [
              | none ↦ (false, with_proc s1 n (record (proc s1 n) { killed = true }))
              | some k ↦
                  copy_threads m (j + 1) cur n
                    (with_thread s1 k (copied (proc s1 n) n (thread s1 j) (thread s1 k)))
            ]
      ]

  -- The new process structure once the memory is copied.
  unfoldable pub child : ℕ → ℕ → Proc → Proc → World → Proc × World
  unfolding copy_freed dup_files
  child pgdir cur p np w =
      let (files, w1) = dup_files p.ofile np.ofile w in
      let (cwd, w2) = idup p.cwd w1 in
      (
        record np {
          pgdir = pgdir;
          parent_proc = some cur;
          parent_pthread = some p.thread_idx;
          sz = p.sz;
          ofile = files;
          cwd = cwd;
          memlimit = p.memlimit;
          thread_assign = p.thread_assign;
          stacksz = p.stacksz;
          th_sz = p.th_sz;
          state = runnable;
          chan = p.chan;
          killed = p.killed;
          thread_id = p.thread_id;
          front = p.front;
          back = p.back;
          freed = p.freed;
          freed_sz = copy_freed p.freed p.front p.freed_sz (replicate nthrd 0);
        },
        w2,
      )

  -- `*np->tf = *curproc->tf` on the thread of the new process.
  unfoldable pub copy_frame : ℕ → ℕ → Sys World → Sys World
  copy_frame n cur s =
      let j = (proc s n).thread_idx in
      let me = thread s (proc s cur).thread_idx in
      with_thread s j (record (thread s j) { eip = me.eip; esp = me.esp })

  -- `fork` once slot `n` and the copy of the memory are there: the value that it returns.
  unfoldable pub spawn : ℕ → ℕ → Sys World → Option ℕ × Sys World
  unfolding copy_frame copy_threads
  spawn n cur s =
      let p = proc s cur in
      let np = proc s n in
      let s1 = copy_frame n cur s in
      let alone = record np {
        thread_assign = 1;
        thread_id = main_th;
        joiner_pthread = some p.thread_idx;
      } in
      let one = clear_proc n (mv_proc_to_thread n np.thread_idx (with_proc s1 n alone)) in
      let (ok, all) = copy_threads nthrd 0 cur n (mv_proc_to_thread n np.thread_idx s1) in
      if p.thread_id == main_th
      then ((if ok then some np.pid else none), all)
      else (some p.pid, one)

  -- `fork` from the result of `allocproc` on; `none` is -1.
  unfoldable pub fork_child : Option ℕ → ℕ → Sys World → Option ℕ × Sys World
  unfolding child
  fork_child none cur s = (none, s)
  fork_child (some n) cur s =
      let p = proc s cur in
      let (pgdir, w) = copyuvm p.pgdir p.sz s.world in
      let np = proc s n in
      let (np', w') = child pgdir cur p np w in
      if pgdir == 0
      then (
        none,
        record (with_proc s n (record np { pgdir = 0; kstack = 0; state = unused })) {
          world = kfree np.kstack w;
        },
      )
      else spawn n cur (record (with_proc s n np') { world = w' })

  unfoldable pub fork : ℕ → Sys World → Option ℕ × Sys World
  unfolding fork_child
  fork cur s = let (found, s1) = allocproc v s in fork_child found cur s1
