-- ===== src/Mlfq/Sleep.antt =====
-- Project01-MLFQ/proc.c: `sched`, `yield`, `sleep`, `wakeup1`, `wakeup` and `kill`.
use hyu_ele3021_operating_sy.Prelude.{
  ℕ, ℤ, pos, negsuc, Bool, true, false, ◌&&◌, some, List, [], ◌∷◌, map, ◌==◌, if◌then◌else◌,
}
use hyu_ele3021_operating_sy.Mlfq.Proc.{
  Proc, Chan, null, chan_eq, runnable, sleeping, is_running, is_sleeping,
}
use hyu_ele3021_operating_sy.Mlfq.State.{Sys, proc, with_proc}

-- Where a kernel path of the running process ends: back in the process, in the scheduler, where
-- `sched` switches to, or in a panic.
pub data Outcome (W : Type 0) : Type 0 where
  back : Sys W → Outcome W
  away : Sys W → Outcome W
  panic : Outcome W

-- Could a signed pid argument be this pid?
abbrev pub is_pid : ℤ → ℕ → Bool
is_pid (pos n) m = m == n
is_pid (negsuc n) m = false

abbrev pub wake : Chan → Proc → Proc
wake c p = if is_sleeping p.state && chan_eq p.chan c then record p { state = runnable } else p

-- What `kill` does to the process that it finds.
abbrev pub doom : Proc → Proc
doom p =
    if is_sleeping p.state
    then record p { killed = true; state = runnable }
    else record p { killed = true }

-- The first slot with the pid is changed; `none` if there is none.
unfoldable pub kill_table : ℤ → List Proc → Bool × List Proc
kill_table pid [] = (false, [])
kill_table pid (p ∷ ps) =
    let (found, ps') = kill_table pid ps in
    if is_pid pid p.pid then (true, doom p ∷ ps) else (found, p ∷ ps')

module _ {W : Type 0} where
  -- The tests of the lock, of `ncli` and of the interrupt flag are not modelled.
  unfoldable pub sched : ℕ → Sys W → Outcome W
  sched cur s = if is_running (proc s cur).state then panic else away s

  unfoldable pub yield_cpu : ℕ → Sys W → Outcome W
  unfolding sched
  yield_cpu cur s = sched cur (with_proc s (some cur) (record (proc s cur) { state = runnable }))

  -- `sleep` up to its `sched`.
  unfoldable pub sleep_on : Chan → ℕ → Sys W → Outcome W
  unfolding sched
  sleep_on c cur s =
      sched cur (with_proc s (some cur) (record (proc s cur) { chan = c; state = sleeping }))

  -- `sleep` after its `sched`.
  unfoldable pub sleep_end : ℕ → Sys W → Sys W
  sleep_end cur s = with_proc s (some cur) (record (proc s cur) { chan = null })

  unfoldable pub wakeup1 : Chan → Sys W → Sys W
  wakeup1 c s = record s { procs = map (wake c) s.procs }

  unfoldable pub kill : ℤ → Sys W → Bool × Sys W
  unfolding kill_table
  kill pid s = let (found, ps) = kill_table pid s.procs in (found, record s { procs = ps })
