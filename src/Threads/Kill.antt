-- ===== src/Threads/Kill.antt =====
-- Project02-Thread/proc.c: `kill`, `exit` under its locks, and `deleteThreads`.
pub mod Zombies
use hyu_ele3021_operating_sy.Prelude.{
  ℕ, zero, suc, ◌+◌, Bool, true, false, not, ◌||◌, Option, none, some, List, [], ◌∷◌, map, ◌==◌,
  if◌then◌else◌, ℤ,
}
use hyu_ele3021_operating_sy.Mlfq.Proc.{null, chan_of, ptr_eq}
use hyu_ele3021_operating_sy.Mlfq.Sleep.{is_pid}
use hyu_ele3021_operating_sy.Threads.Table.{
  Thread, Proc, Sys, proc, with_proc, thread, with_thread, is_sleeping, is_zombie, runnable, zombie,
  th_zombie, unused, main_th,
}
use hyu_ele3021_operating_sy.Threads.Vm.{Vm}
use hyu_ele3021_operating_sy.Threads.Switch.{Ends, sched, wakeup1}

abbrev pub doomed : Proc → Proc
doomed p = record p { killed = true; state = if is_sleeping p.state then runnable else p.state }

-- What `kill` does to a thread: the main thread goes on to exit, the others end.
abbrev pub end_thread : ℤ → Thread → Thread
end_thread pid t =
    if is_pid pid t.pid
    then record t { state = if t.thread_id == main_th then runnable else th_zombie }
    else t

unfoldable pub kill_table : ℤ → List Proc → Bool × List Proc
kill_table pid [] = (false, [])
kill_table pid (p ∷ ps) =
    let (found, ps') = kill_table pid ps in
    if is_pid pid p.pid then (true, doomed p ∷ ps) else (found, p ∷ ps')

-- A thread of an exiting process.
abbrev pub bury : ℕ → Thread → Thread
bury pid t = if t.pid == pid then record t { state = th_zombie } else t

module _ {W : Type 0} where
  unfoldable pub kill : ℤ → Sys W → Bool × Sys W
  unfolding kill_table
  kill pid s =
      let (found, ps) = kill_table pid s.procs in
      if found
      then (true, record s { procs = ps; threads = map (end_thread pid) s.threads })
      else (false, s)

  -- The child in slot `i`, if it is one of `cur`, passes to init.
  unfoldable pub adopt_one : ℕ → ℕ → Sys W → Sys W
  adopt_one i cur s =
      let p = proc s i in
      let s' = with_proc s i (record p { parent_proc = s.initproc }) in
      let heir : Option ℕ = elim s.initproc [ none ↦ none | some k ↦ (proc s' k).parent_pthread ] in
      let s'' = with_proc s' i (record (proc s' i) { parent_pthread = heir }) in
      if ptr_eq p.parent_proc (some cur)
      then (if is_zombie p.state then wakeup1 (chan_of heir) s'' else s'')
      else s

  unfoldable pub adopt : ℕ → ℕ → ℕ → Sys W → Sys W
  unfolding adopt_one
  adopt zero i cur s = s
  adopt (suc n) i cur s = adopt n (i + 1) cur (adopt_one i cur s)

  -- `exit` from its `acquire`s to its `sched`.
  unfoldable pub exit_locked : ℕ → ℕ → Sys W → Ends W
  unfolding sched
  exit_locked n cur s =
      let s1 = adopt n 0 cur (wakeup1 (chan_of (proc s cur).parent_pthread) s) in
      let s2 = with_proc s1 cur (record (proc s1 cur) { state = zombie }) in
      sched cur (record s2 { threads = map (bury (proc s2 cur).pid) s2.threads })

-- Children of the thread in slot `j` pass to the thread in slot `heir`.
abbrev pub pass_on : ℕ → ℕ → Proc → Proc
pass_on j heir p =
    if ptr_eq p.parent_pthread (some j) then record p { parent_pthread = some heir } else p

-- The slot of a deleted thread.
abbrev pub emptied : Thread → Thread
emptied t = record t {
  th_sz = 0;
  pid = 0;
  kstack = 0;
  state = unused;
  chan = null;
  ptable_idx = 0;
  thread_id = 0;
  joiner_pthread = none;
  retval = 0;
}

module _ (v : Vm) where
  open v use {World, kfree}

  unfoldable pub delete_thread : ℕ → Sys World → Sys World
  delete_thread j s = record (with_thread s j (emptied (thread s j))) {
    world = kfree (thread s j).kstack s.world;
  }

  -- The loop of `deleteThreads` from slot `j` on.
  unfoldable pub delete_loop : ℕ → ℕ → ℕ → Sys World → Sys World
  unfolding delete_thread
  delete_loop zero j cur s = s
  delete_loop (suc n) j cur s =
      let p = proc s cur in
      let t = thread s j in
      let s' =
        (if not (t.pid == p.pid) || t.thread_id == p.thread_id
          then s
          else delete_thread j (record s { procs = map (pass_on j p.thread_idx) s.procs })) in
      delete_loop n (j + 1) cur s'

  unfoldable pub delete_threads : ℕ → ℕ → Sys World → Sys World
  unfolding delete_loop
  delete_threads n cur s =
      let t = delete_loop n 0 cur s in
      let p = proc t cur in with_proc t cur (record p { joiner_pthread = some p.thread_idx })
