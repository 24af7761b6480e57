-- ===== src/Mlfq/Tests.antt =====
-- Runs of the MLFQ model on small inputs: init from boot on, with the scheduler taken for itself
-- and given back, and queues of a few entries.
use hyu_ele3021_operating_sy.Prelude.{
  ℕ, zero, suc, ◌≤◌, ◌<◌, ◌≡◌, refl, sym, ◌∙◌, true, false, Option, none, some, List, [], ◌∷◌, ◌++◌,
  arith, replicate, pos, negsuc,
}
use mathlib.Core.Bool.{false≢true}
use hyu_ele3021_operating_sy.Mlfq.Queue.{Fq, nproc, empty_fq, push_back, pop_front}
use hyu_ele3021_operating_sy.Mlfq.Queue.Refine.{
  contents, IsRing, empty_fq-IsRing, push_back-IsRing, contents-push_back,
}
use hyu_ele3021_operating_sy.Mlfq.Proc.{Proc, ProcState, blank, object}
use hyu_ele3021_operating_sy.Mlfq.Kernel.{Kernel}
use hyu_ele3021_operating_sy.Mlfq.State.{Sys, proc, with_proc, queue, boot, en_q, pick_proc}
use hyu_ele3021_operating_sy.Mlfq.Life.{
  find_unused, alloc_slot, allocproc, first_proc, userinit, exit_locked,
}
use hyu_ele3021_operating_sy.Mlfq.Boost.{priority_boost}
use hyu_ele3021_operating_sy.Mlfq.Scheduler.{dispatch, choose, pick_levels, start, feedback}
use hyu_ele3021_operating_sy.Mlfq.Sleep.{away, sleep_on, wakeup1}
use hyu_ele3021_operating_sy.Mlfq.Control.{
  scheduler_lock, scheduler_unlock, stays, find_levels, set_priority,
}
use hyu_ele3021_operating_sy.Mlfq.Pick.{pick_queue, pick_first}
use hyu_ele3021_operating_sy.Mlfq.Pick.Result.{Picks, pick_queue-Picks}
use hyu_ele3021_operating_sy.Mlfq.Count.{total}
use hyu_ele3021_operating_sy.Mlfq.Machine.{Config, rests, CalmStep, CalmReach, calm, chosen}
use hyu_ele3021_operating_sy.Mlfq.Machine.Safety.{
  Sound, at_rest, running, switched, Kept, Step-Sound, CalmReach-Sound,
}
use hyu_ele3021_operating_sy.Mlfq.Machine.Reached.{reached_once, reached_alone}
use hyu_ele3021_operating_sy.Mlfq.Invariant.{Inv, can_wait}
use hyu_ele3021_operating_sy.Mlfq.Invariant.Pick.{Levels, pick_levels-Levels}
use hyu_ele3021_operating_sy.Mlfq.Invariant.Boost.{
  Boost, priority_boost_free, priority_boost_dictated,
}
use hyu_ele3021_operating_sy.Mlfq.Invariant.Dispatch.{
  AtRest, free, ruled, Running, Returned, Dispatched, dispatch-Dispatched,
}
use hyu_ele3021_operating_sy.Mlfq.Invariant.Quantum.{Charged, feedback-Charged}
use hyu_ele3021_operating_sy.Mlfq.Invariant.Gentle.{Gentle, wakeup1-Gentle}
use hyu_ele3021_operating_sy.Mlfq.Invariant.Switch.{sleep-Switches, exit-Switches}
use hyu_ele3021_operating_sy.Mlfq.Invariant.Sought.{Sought, find_levels-Sought}
use hyu_ele3021_operating_sy.Mlfq.Invariant.Control.{set_priority-Absent, scheduler_lock-Running}
use hyu_ele3021_operating_sy.Mlfq.Invariant.Search.{Absent}
use hyu_ele3021_operating_sy.Mlfq.Invariant.Unlock.{unlock_queues_running}
use hyu_ele3021_operating_sy.Mlfq.Invariant.Init.{userinit-AtRest, boot-Inv}

-- A kernel that never fails, with nothing else in it.
abbrev test_kernel : Kernel
test_kernel = record {
  World = Unit {0};
  kalloc = λ w. (4096, w);
  kfree = λ a w. w;
  setupkvm = λ w. (8192, w);
  inituvm = λ a w. w;
  copyuvm = λ a n w. (12288, w);
  freevm = λ a w. w;
  allocuvm = λ a n m w. (m, w);
  deallocuvm = λ a n m w. (m, w);
  filedup = λ f w. (f, w);
  fileclose = λ f w. w;
  idup = λ i w. (i, w);
  iput_op = λ i w. w;
  root_inode = λ w. (1, w);
}

abbrev or_boot : Option (Sys (Unit {0})) → Sys (Unit {0})
or_boot none = boot tt
or_boot (some s) = s

-- The state after `userinit`.
abbrev booted : Sys (Unit {0})
booted = or_boot (userinit test_kernel (boot tt))

userinit-boot : userinit test_kernel (boot tt) ≡ some booted
unfolding userinit allocproc find_unused alloc_slot first_proc
userinit-boot = refl

-- The state in which init runs.
abbrev started : Sys (Unit {0})
started = (dispatch booted).1

dispatch-booted : dispatch booted ≡ (some (chosen 0 0), started)
unfolding userinit allocproc find_unused alloc_slot first_proc en_q dispatch choose pick_levels
    pick_proc pick_queue pick_first pop_front push_back start
dispatch-booted = refl

booted-AtRest : AtRest booted
booted-AtRest = userinit-AtRest test_kernel (boot tt) booted refl (boot-Inv tt) userinit-boot

booted_free : booted.is_dictated ≡ false
unfolding userinit find_unused en_q
booted_free = refl

booted-Inv : Inv [] booted
booted-Inv = inv_of booted-AtRest booted_free
  where
    inv_of : AtRest booted → booted.is_dictated ≡ false → Inv [] booted
    inv_of (free e v) d = v
    inv_of (ruled j e x w v) d = absurd (false≢true (sym d ∙ e))

CalmReach-booted : CalmReach test_kernel tt (rests booted)
CalmReach-booted = CalmReach.starts booted userinit-boot

CalmReach-started : CalmReach test_kernel tt (Config.runs 0 0 started)
CalmReach-started =
    CalmReach.goes CalmReach-booted (CalmStep.dispatches 0 0 booted started dispatch-booted)

started-Running : Running 0 started
started-Running =
    running_of (CalmReach-Sound test_kernel tt (Config.runs 0 0 started) CalmReach-started)
  where
    running_of : Sound (Config.runs 0 0 started) → Running 0 started
    running_of (running _ _ _ h r) = r

-- The state in which init has taken the scheduler for itself.
abbrev locked : Sys (Unit {0})
locked =
    record (with_proc started (some 0)
      (record (proc started 0) { consumed_tq = 0; qlv = negsuc 0 })) {
        global_ticks = 0;
        scheduler_dictator = some 0;
        is_dictated = true;
      }

lock_started : scheduler_lock (pos 2018008240) 0 started ≡ stays locked
unfolding userinit allocproc find_unused alloc_slot first_proc en_q dispatch choose pick_levels
    pick_proc pick_queue pick_first pop_front push_back start scheduler_lock
lock_started = refl

locked-Running : Running 0 locked
locked-Running =
    scheduler_lock-Running (pos 2018008240) 0 started locked started-Running lock_started

-- Init sleeps.
abbrev asleep : Sys (Unit {0})
asleep =
    with_proc locked (some 0)
      (record (proc locked 0) { chan = object 1; state = ProcState.sleeping })

sleep_locked : sleep_on (object 1) 0 locked ≡ away asleep
unfolding userinit allocproc find_unused alloc_slot first_proc en_q dispatch choose pick_levels
    pick_proc pick_queue pick_first pop_front push_back start sleep_on
sleep_locked = refl

asleep-Returned : Returned 0 asleep
asleep-Returned =
    switched 0 (sleep_on (object 1) 0 locked) asleep
      (sleep-Switches (object 1) 0 locked locked-Running) sleep_locked

asleep_waits : can_wait (proc asleep 0).state ≡ true
unfolding userinit allocproc find_unused alloc_slot first_proc en_q dispatch choose pick_levels
    pick_proc pick_queue pick_first pop_front push_back start
asleep_waits = refl

reached_once_example :
    ((i : ℕ) → total i started.mlfq ≤ 1)
    × ((i : ℕ) → 0 < total i started.mlfq → can_wait (proc started i).state ≡ true)
    × ((lv : ℕ) → lv < 3 → (queue started lv).size ≤ nproc)
reached_once_example = reached_once test_kernel tt (Config.runs 0 0 started) CalmReach-started

reached_alone_example :
    ((proc started 0).state ≡ ProcState.running)
    × (total 0 started.mlfq ≡ 0)
    × (started.is_dictated ≡ true → started.scheduler_dictator ≡ some 0)
reached_alone_example = reached_alone test_kernel tt 0 0 started CalmReach-started

Step-Sound_example : Kept test_kernel (rests booted) (Config.runs 0 0 started)
Step-Sound_example =
    Step-Sound test_kernel (rests booted) (Config.runs 0 0 started) (at_rest booted booted-AtRest)
      (calm (CalmStep.dispatches 0 0 booted started dispatch-booted))

dispatch-Dispatched_example : Dispatched (dispatch booted)
dispatch-Dispatched_example = dispatch-Dispatched booted booted-AtRest

pick_levels-Levels_example : Levels [] 0 booted (pick_levels 3 0 booted)
pick_levels-Levels_example = pick_levels-Levels [] 3 0 booted refl booted-Inv

-- Three RUNNABLE processes on L2.
abbrev ready_at : ℕ → Proc
ready_at n = record blank { state = ProcState.runnable; priority = n }

abbrev three : List Proc
three = ready_at 3 ∷ (ready_at 1 ∷ (ready_at 2 ∷ []))

abbrev three_queued : Fq
three_queued = push_back (push_back (push_back empty_fq (some 0)) (some 1)) (some 2)

one-IsRing : IsRing (push_back empty_fq (some 0))
one-IsRing = push_back-IsRing empty_fq (some 0) empty_fq-IsRing (omega arith)

three_queued-IsRing : IsRing three_queued
three_queued-IsRing =
    push_back-IsRing (push_back (push_back empty_fq (some 0)) (some 1)) (some 2)
      (push_back-IsRing (push_back empty_fq (some 0)) (some 1) one-IsRing
        (unfold push_back in omega arith))
      (unfold push_back in omega arith)

three_queued-contents : contents three_queued ≡ some 0 ∷ (some 1 ∷ (some 2 ∷ []))
unfolding push_back
three_queued-contents = refl

pick_queue-Picks_example : Picks 2 three (contents three_queued) (pick_queue 2 three three_queued)
pick_queue-Picks_example =
    pick_queue-Picks 2 three three_queued three_queued-IsRing
      (rw three_queued-contents (omega arith, (omega arith, (omega arith, tt))))

priority_boost_free_example : Boost [] (contents (queue booted 0)) booted (priority_boost booted)
priority_boost_free_example = priority_boost_free [] booted booted-Inv booted_free

priority_boost_dictated_example :
    Boost [] (some 0 ∷ contents (queue asleep 0)) asleep (priority_boost asleep)
priority_boost_dictated_example =
    priority_boost_dictated [] 0 asleep asleep-Returned.inv refl refl asleep_waits

unlock_queues_running_example :
    (t : Sys (Unit {0})) × (scheduler_unlock (pos 2018008240) 0 locked ≡ stays t)
    × (contents (queue t 0) ≡ some 0 ∷ contents (queue locked 0))
    × ((proc t 0).state ≡ ProcState.running)
    × (t.is_dictated ≡ false)
    × (¬ Running 0 t)
unlock_queues_running_example =
    unlock_queues_running (pos 2018008240) 0 locked locked-Running refl refl

exit-Switches_example :
    (t : Sys (Unit {0})) × (exit_locked 0 locked ≡ away t)
    × Returned 0 t
    × ((proc t 0).state ≡ ProcState.zombie)
    × (t.is_dictated ≡ false)
exit-Switches_example = exit-Switches 0 locked locked-Running

find_levels-Sought_example : Sought [] (pos 1) 0 booted (find_levels 3 0 (pos 1) booted)
find_levels-Sought_example = find_levels-Sought [] (pos 1) 3 0 booted refl booted-Inv

started-Absent : (k : ℕ) → k < 3 → Absent (pos 1) started.procs (contents (queue started k))
unfolding userinit allocproc find_unused alloc_slot first_proc en_q dispatch choose pick_levels
    pick_proc pick_queue pick_first pop_front push_back start
started-Absent zero h = tt
started-Absent (suc zero) h = tt
started-Absent (suc (suc zero)) h = tt
started-Absent (suc (suc (suc k))) h = absurd (omega (arith, h))

set_priority-Absent_example :
    ((set_priority (pos 1) (pos 2) started).procs ≡ started.procs)
    × ((k : ℕ)
        → contents (queue (set_priority (pos 1) (pos 2) started) k) ≡ contents (queue started k))
set_priority-Absent_example =
    set_priority-Absent (some 0 ∷ []) (pos 1) (pos 2) started started-Running.inv started-Absent

contents-push_back_example :
    contents (push_back empty_fq (some 5)) ≡ contents empty_fq ++ (some 5 ∷ [])
contents-push_back_example = contents-push_back empty_fq (some 5) empty_fq-IsRing (omega arith)

abbrev full_fq : Fq
full_fq = record { proc_idx = replicate nproc (some 7); front = 0; back = 0; size = 64 }

full_fq-IsRing : IsRing full_fq
full_fq-IsRing = record {
  storage = refl;
  front_in = omega arith;
  size_in = omega arith;
  back_at = refl;
}

wakeup1-Gentle_example : Gentle asleep (wakeup1 (object 1) asleep)
wakeup1-Gentle_example = wakeup1-Gentle (object 1) asleep

-- Init sleeps while nobody dictates.
abbrev dozing : Sys (Unit {0})
dozing =
    with_proc started (some 0)
      (record (proc started 0) { chan = object 1; state = ProcState.sleeping })

sleep_started : sleep_on (object 1) 0 started ≡ away dozing
unfolding userinit allocproc find_unused alloc_slot first_proc en_q dispatch choose pick_levels
    pick_proc pick_queue pick_first pop_front push_back start sleep_on
sleep_started = refl

dozing-Returned : Returned 0 dozing
dozing-Returned =
    switched 0 (sleep_on (object 1) 0 started) dozing
      (sleep-Switches (object 1) 0 started started-Running) sleep_started

dozing_free : dozing.is_dictated ≡ false
unfolding userinit allocproc find_unused alloc_slot first_proc en_q dispatch choose pick_levels
    pick_proc pick_queue pick_first pop_front push_back start
dozing_free = refl

dozing_ticks : dozing.global_ticks ≡ 0
unfolding userinit allocproc find_unused alloc_slot first_proc en_q dispatch choose pick_levels
    pick_proc pick_queue pick_first pop_front push_back start
dozing_ticks = refl

feedback-Charged_example : Charged 0 0 dozing (feedback (chosen 0 0) dozing)
feedback-Charged_example =
    feedback-Charged 0 0 dozing (omega arith) dozing-Returned dozing_free
      (omega (arith, dozing_ticks))
