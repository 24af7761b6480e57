-- ===== src/Mlfq/Machine.antt =====
-- The scheduler's loop on one CPU as a transition system: between two rounds, while a process runs
-- in the kernel, and after its `swtch` back. Each step is one function of proc.c, or of trap.c for
-- the timer, run to its end. `fork` is one step too, although proc.c gives `ptable.lock` back between
-- `allocproc` and the entry of the child in its queue.
pub mod Safety
pub mod Reached
use hyu_ele3021_operating_sy.Prelude.{ℕ, ◌≡◌, true, false, none, some, ℤ}
use hyu_ele3021_operating_sy.Mlfq.Kernel.{Kernel}
use hyu_ele3021_operating_sy.Mlfq.Proc.{Chan}
use hyu_ele3021_operating_sy.Mlfq.State.{Sys, boot}
use hyu_ele3021_operating_sy.Mlfq.Scheduler.{Choice, dispatch, feedback, timer_tick}
use hyu_ele3021_operating_sy.Mlfq.Sleep.{away, yield_cpu, sleep_on, sleep_end, wakeup1, kill}
use hyu_ele3021_operating_sy.Mlfq.Control.{
  set_priority, scheduler_lock, scheduler_unlock, stays, exits,
}
use hyu_ele3021_operating_sy.Mlfq.Life.{exit_locked, fork, growproc, reaped, wait_turn, userinit}

pub data Config (W : Type 0) : Type 0 where
  -- between two rounds
  rests : Sys W → Config W
  -- the process in slot `cur`, chosen from level `lv`, runs
  runs : (lv cur : ℕ) → Sys W → Config W
  -- it has switched to the scheduler
  came_back : (lv cur : ℕ) → Sys W → Config W

-- The choice of a slot on a level.
abbrev pub chosen : ℕ → ℕ → Choice
chosen lv j = record { lv = lv; proc_idx = some j }

module _ (k : Kernel) where
  open k use {World}

  -- The steps other than a `schedulerUnlock` that takes effect.
  pub data CalmStep : Config World → Config World → Type 0 where
    dispatches :
        (lv j : ℕ) (s t : Sys World)
        → dispatch s ≡ (some (chosen lv j), t)
        → CalmStep (rests s) (runs lv j t)
    stalls : (s t : Sys World) → dispatch s ≡ (none, t) → CalmStep (rests s) (rests t)
    -- interrupts between rounds
    rest_wakes : (c : Chan) (s : Sys World) → CalmStep (rests s) (rests (wakeup1 c s))
    rest_ticks : (s : Sys World) → CalmStep (rests s) (rests (timer_tick s))
    -- calls that come back to the process
    forks : (lv j : ℕ) (s : Sys World) → CalmStep (runs lv j s) (runs lv j (fork k j s).1)
    wakes : (c : Chan) (lv j : ℕ) (s : Sys World) → CalmStep (runs lv j s) (runs lv j (wakeup1 c s))
    kills : (pid : ℤ) (lv j : ℕ) (s : Sys World) → CalmStep (runs lv j s) (runs lv j (kill pid s).1)
    ticks : (lv j : ℕ) (s : Sys World) → CalmStep (runs lv j s) (runs lv j (timer_tick s))
    waits :
        (lv j pid : ℕ) (s t : Sys World)
        → wait_turn k j s ≡ reaped pid t
        → CalmStep (runs lv j s) (runs lv j t)
    grows :
        (n : ℤ) (lv j : ℕ) (s : Sys World) → CalmStep (runs lv j s) (runs lv j (growproc k n j s).1)
    ranks :
        (pid priority : ℤ) (lv j : ℕ) (s : Sys World)
        → CalmStep (runs lv j s) (runs lv j (set_priority pid priority s))
    locks :
        (password : ℤ) (lv j : ℕ) (s t : Sys World)
        → scheduler_lock password j s ≡ stays t
        → CalmStep (runs lv j s) (runs lv j t)
    -- a refused `schedulerLock` or `schedulerUnlock` goes on to `exit`
    lock_refused :
        (password : ℤ) (lv j : ℕ) (s t : Sys World)
        → scheduler_lock password j s ≡ exits t
        → CalmStep (runs lv j s) (runs lv j t)
    unlock_refused :
        (password : ℤ) (lv j : ℕ) (s t : Sys World)
        → scheduler_unlock password j s ≡ exits t
        → CalmStep (runs lv j s) (runs lv j t)
    -- `schedulerUnlock` while nobody dictates
    unlock_void :
        (password : ℤ) (lv j : ℕ) (s t : Sys World)
        → s.is_dictated ≡ false
        → scheduler_unlock password j s ≡ stays t
        → CalmStep (runs lv j s) (runs lv j t)
    wakes_up : (lv j : ℕ) (s : Sys World) → CalmStep (runs lv j s) (runs lv j (sleep_end j s))
    -- calls that switch to the scheduler
    yields :
        (lv j : ℕ) (s t : Sys World)
        → yield_cpu j s ≡ away t
        → CalmStep (runs lv j s) (came_back lv j t)
    sleeps :
        (c : Chan) (lv j : ℕ) (s t : Sys World)
        → sleep_on c j s ≡ away t
        → CalmStep (runs lv j s) (came_back lv j t)
    exits_now :
        (lv j : ℕ) (s t : Sys World)
        → exit_locked j s ≡ away t
        → CalmStep (runs lv j s) (came_back lv j t)
    feeds :
        (lv j : ℕ) (s : Sys World) → CalmStep (came_back lv j s) (rests (feedback (chosen lv j) s))

  -- Every step.
  pub data Step : Config World → Config World → Type 0 where
    calm : {c d : Config World} → CalmStep c d → Step c d
    -- `schedulerUnlock` of the dictator with the right password, which returns to its caller
    unlocks :
        (password : ℤ) (lv j : ℕ) (s t : Sys World)
        → s.is_dictated ≡ true
        → scheduler_unlock password j s ≡ stays t
        → Step (runs lv j s) (runs lv j t)

  -- What a kernel can get to from boot.
  pub data Reach (w : World) : Config World → Type 0 where
    starts : (s : Sys World) → userinit k (boot w) ≡ some s → Reach w (rests s)
    goes : {c d : Config World} → Reach w c → Step c d → Reach w d

  -- What it can get to while no `schedulerUnlock` takes effect.
  pub data CalmReach (w : World) : Config World → Type 0 where
    starts : (s : Sys World) → userinit k (boot w) ≡ some s → CalmReach w (rests s)
    goes : {c d : Config World} → CalmReach w c → CalmStep c d → CalmReach w d

  pub CalmReach-Reach : {w : World} {c : Config World} → CalmReach w c → Reach w c
  CalmReach-Reach (CalmReach.starts s e) = Reach.starts s e
  CalmReach-Reach (CalmReach.goes r st) = Reach.goes (CalmReach-Reach r) (calm st)
