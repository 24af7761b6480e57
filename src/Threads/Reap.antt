-- ===== src/Threads/Reap.antt =====
-- Project02-Thread/proc.c: `wait`.
pub mod Freed
use hyu_ele3021_operating_sy.Prelude.{
  ℕ, zero, suc, ◌+◌, Bool, false, not, ◌&&◌, ◌||◌, none, some, List, [], ◌∷◌, ◌==◌, if◌then◌else◌,
  replicate,
}
use hyu_ele3021_operating_sy.Mlfq.Proc.{null, ptr_eq}
use hyu_ele3021_operating_sy.Threads.Table.{
  Thread, Proc, Sys, proc, with_proc, is_zombie, unused, nthrd,
}
use hyu_ele3021_operating_sy.Threads.Vm.{Vm}
use hyu_ele3021_operating_sy.Threads.Kill.{emptied}

-- The slot of a process that has been waited for.
abbrev pub released : Proc → Proc
released p = record p {
  parent_pthread = none;
  parent_proc = none;
  joiner_pthread = none;
  memlimit = 0;
  thread_assign = 0;
  stacksz = 0;
  pid = 0;
  thread_idx = 0;
  sz = 0;
  state = unused;
  chan = null;
  killed = false;
  thread_id = 0;
  front = 0;
  back = 0;
  freed = 0;
  freed_sz = replicate nthrd 0;
}

-- The ends of a scan of `wait`.
pub data Waited (W : Type 0) : Type 0 where
  reaped : ℕ → Sys W → Waited W
  refused : Sys W → Waited W
  waits : Sys W → Waited W

module _ (v : Vm) where
  open v use {World, kfree, freevm}

  -- All threads of a pid give back their stacks and slots.
  unfoldable pub empty_threads : ℕ → List Thread → World → List Thread × World
  empty_threads pid [] w = ([], w)
  empty_threads pid (t ∷ ts) w =
      let (ts', w') = empty_threads pid ts (if t.pid == pid then kfree t.kstack w else w) in
      ((if t.pid == pid then emptied t else t) ∷ ts', w')

  unfoldable pub reap : ℕ → Sys World → Sys World
  unfolding empty_threads
  reap i s =
      let p = proc s i in
      let (ts, w) = empty_threads p.pid s.threads s.world in
      record (with_proc s i (released p)) { threads = ts; world = freevm p.pgdir w }

  unfoldable pub wait_scan : ℕ → ℕ → ℕ → Bool → Sys World → Waited World
  unfolding reap
  wait_scan zero i cur havekids s =
      if not havekids || (proc s cur).killed then refused s else waits s
  wait_scan (suc n) i cur havekids s =
      let p = proc s i in
      let mine = ptr_eq p.parent_pthread (some (proc s cur).thread_idx) in
      let rest = wait_scan n (i + 1) cur (mine || havekids) s in
      if mine && is_zombie p.state then reaped p.pid (reap i s) else rest
