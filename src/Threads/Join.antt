-- ===== src/Threads/Join.antt =====
-- Project02-Thread/proc.c: `thread_join` and `thread_exit`.
pub mod Found
use hyu_ele3021_operating_sy.Prelude.{
  ℕ, zero, suc, ◌+◌, ◌%◌, Bool, false, not, ◌&&◌, ◌||◌, none, List, ◌==◌, if◌then◌else◌, set, pos,
}
use hyu_ele3021_operating_sy.Mlfq.Proc.{null, chan_of}
use hyu_ele3021_operating_sy.Threads.Table.{
  Thread, Proc, Sys, proc, with_proc, thread, with_thread, unused, th_zombie, is_th_zombie, id_of,
  main_th, nthrd,
}
use hyu_ele3021_operating_sy.Threads.Vm.{Vm, stack_start}
use hyu_ele3021_operating_sy.Threads.Switch.{Ends, sched, wakeup1}
use hyu_ele3021_operating_sy.Threads.Kill.{kill}

-- The start of a freed stack joins the queue.
unfoldable pub push_stack : ℕ → Proc → Proc
push_stack base p = record p {
  freed_sz = set p.freed_sz p.back base;
  back = (p.back + 1) % nthrd;
  freed = p.freed + 1;
}

-- `thread_join` after a scan: joined with a value, failed, or to sleep.
pub data Joined (W : Type 0) : Type 0 where
  joined : ℕ → Sys W → Joined W
  refused : Sys W → Joined W
  waits : Sys W → Joined W

-- Is this the thread with the id `id` that process `p` may join?
abbrev pub is_wanted : ℕ → Proc → List Thread → Thread → Bool
is_wanted id p ths t =
    t.pid == p.pid && (t.thread_id == id && id_of ths t.joiner_pthread == p.thread_id)

module _ {W : Type 0} where
  -- `thread_exit` up to its `sched`: the main thread kills its process.
  unfoldable pub thread_exit : ℕ → ℕ → Sys W → Ends W
  unfolding sched
  thread_exit retval cur s =
      let p = proc s cur in
      let j = p.thread_idx in
      let s1 =
        (if p.thread_id == main_th
          then (kill (pos p.pid) s).1
          else with_proc (with_thread s j (record (thread s j) { retval = retval })) cur
              (record p { state = th_zombie })) in
      sched cur (wakeup1 (chan_of (proc s1 cur).joiner_pthread) s1)

module _ (v : Vm) where
  open v use {World, kfree, deallocuvm}

  -- The slot is given back and the stack remembered.
  unfoldable pub collect : ℕ → ℕ → Sys World → Sys World
  unfolding push_stack
  collect j cur s =
      let t = thread s j in
      let p = proc s cur in
      let base = stack_start t.th_sz p.stacksz in
      let t' = record t {
        th_sz = 0;
        pid = 0;
        kstack = 0;
        state = unused;
        chan = null;
        ptable_idx = 0;
        thread_id = 0;
        joiner_pthread = none;
      } in
      record (with_proc (with_thread s j t') cur (push_stack base p)) {
        world = (deallocuvm p.pgdir t.th_sz base (kfree t.kstack s.world)).1;
      }

  -- The scan of the table from slot `j` on.
  unfoldable pub join_scan : ℕ → ℕ → ℕ → ℕ → Bool → Sys World → Joined World
  unfolding collect
  join_scan zero j id cur havekids s =
      if not havekids || (proc s cur).killed then refused s else waits s
  join_scan (suc n) j id cur havekids s =
      let t = thread s j in
      let wanted = is_wanted id (proc s cur) s.threads t in
      let rest = join_scan n (j + 1) id cur (wanted || havekids) s in
      if wanted && is_th_zombie t.state then joined t.retval (collect j cur s) else rest

  -- One turn of the loop of `thread_join`; `waits` goes on to `sleep`.
  unfoldable pub thread_join : ℕ → ℕ → Sys World → Joined World
  thread_join id cur s = if id == main_th then refused s else join_scan nthrd 0 id cur false s
