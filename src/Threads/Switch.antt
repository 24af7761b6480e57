-- ===== src/Threads/Switch.antt =====
-- Project02-Thread/proc.c: `mvProcToThread`, `clearProc`, `mvThreadToProc`, one turn of the inner
-- loop of `scheduler`, `sched`, `yield`, `sleep`, `wakeup1` and `deleteThread`.
use hyu_ele3021_operating_sy.Prelude.{ℕ, Bool, ◌&&◌, map, ◌==◌, if◌then◌else◌}
use hyu_ele3021_operating_sy.Mlfq.Proc.{Chan, null, chan_eq}
use hyu_ele3021_operating_sy.Threads.Table.{
  Thread, Proc, Sys, proc, with_proc, thread, with_thread, is_zombie, is_runnable, is_running,
  is_sleeping, runnable, running, sleeping,
}

-- What the thread gets from the process structure that it ran in.
abbrev pub undressed : ℕ → Proc → Thread → Thread
undressed i p t = record t {
  th_sz = p.th_sz;
  pid = p.pid;
  kstack = p.kstack;
  state = p.state;
  chan = p.chan;
  thread_id = p.thread_id;
  joiner_pthread = p.joiner_pthread;
  ptable_idx = i;
}

-- What the process structure gets from the thread in slot `j`.
abbrev pub dressed : ℕ → Thread → Proc → Proc
dressed j t p = record p {
  th_sz = t.th_sz;
  pid = t.pid;
  kstack = t.kstack;
  state = t.state;
  chan = t.chan;
  thread_id = t.thread_id;
  joiner_pthread = t.joiner_pthread;
  thread_idx = j;
}

abbrev pub cleared : Proc → Proc
cleared p = record p { state = if is_zombie p.state then p.state else runnable; chan = null }

abbrev pub wake : Chan → Thread → Thread
wake c t = if is_sleeping t.state && chan_eq t.chan c then record t { state = runnable } else t

-- Where a kernel path ends: in the scheduler, or in a panic.
pub data Ends (W : Type 0) : Type 0 where
  away : Sys W → Ends W
  panic : Ends W

module _ {W : Type 0} where
  unfoldable pub mv_proc_to_thread : ℕ → ℕ → Sys W → Sys W
  mv_proc_to_thread i j s = with_thread s j (undressed i (proc s i) (thread s j))

  unfoldable pub clear_proc : ℕ → Sys W → Sys W
  clear_proc i s = with_proc s i (cleared (proc s i))

  unfoldable pub mv_thread_to_proc : ℕ → ℕ → Sys W → Sys W
  mv_thread_to_proc j i s = with_proc s i (dressed j (thread s j) (proc s i))

  -- The test of the inner loop of `scheduler`.
  unfoldable pub is_ready : ℕ → ℕ → Sys W → Bool
  is_ready i j s = (thread s j).pid == (proc s i).pid && is_runnable (thread s j).state

  -- A turn of that loop up to `swtch`, and after it; true for its `break`.
  unfoldable pub switch_in : ℕ → ℕ → Sys W → Sys W
  unfolding mv_thread_to_proc
  switch_in i j s =
      let t = mv_thread_to_proc j i s in with_proc t i (record (proc t i) { state = running })

  unfoldable pub switch_out : ℕ → ℕ → Sys W → Bool × Sys W
  unfolding mv_proc_to_thread
  switch_out i j s = (is_zombie (proc s i).state, mv_proc_to_thread i j s)

  unfoldable pub sched : ℕ → Sys W → Ends W
  sched cur s = if is_running (proc s cur).state then panic else away s

  unfoldable pub yield_cpu : ℕ → Sys W → Ends W
  unfolding sched
  yield_cpu cur s = sched cur (with_proc s cur (record (proc s cur) { state = runnable }))

  -- `sleep` up to its `sched`, and after it.
  unfoldable pub sleep_on : Chan → ℕ → Sys W → Ends W
  unfolding sched
  sleep_on c cur s =
      sched cur (with_proc s cur (record (proc s cur) { chan = c; state = sleeping }))

  unfoldable pub sleep_end : ℕ → Sys W → Sys W
  sleep_end cur s = with_proc s cur (record (proc s cur) { chan = null })

  unfoldable pub wakeup1 : Chan → Sys W → Sys W
  wakeup1 c s = record s { threads = map (wake c) s.threads }
