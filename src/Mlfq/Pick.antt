-- ===== src/Mlfq/Pick.antt =====
-- Project01-MLFQ/proc.c: `pickProc`, on the queue `mlfq[lv]`, the only one that it touches.
pub mod First
pub mod Scan
pub mod Lowest
pub mod Result
use hyu_ele3021_operating_sy.Prelude.{ℕ, zero, suc, ◌+◌, none, List, ltb, ◌==◌, if◌then◌else◌}
use hyu_ele3021_operating_sy.Mlfq.Queue.{Fq, Index, push_back, pop_front, is_empty}
use hyu_ele3021_operating_sy.Mlfq.Proc.{Proc, proc_at, is_runnable}

-- `USELESS` of defs.h
abbrev pub useless : ℕ
useless = 200

-- The loop for L0 and L1: the first RUNNABLE entry, the others going to the back.
unfoldable pub pick_first : ℕ → List Proc → Fq → Index × Fq
pick_first zero ps q = (none, q)
pick_first (suc n) ps q =
    let (idx, q') = pop_front q in
    if is_runnable (proc_at ps idx).state then (idx, q') else pick_first n ps (push_back q' idx)

-- The best entry so far, `proc_priority` and `mlfq_idx`, after entry `i`.
pub record Best : Type 0 where
  pub proc_priority : ℕ
  pub mlfq_idx : ℕ

unfoldable pub better : Proc → ℕ → Best → Best
better p i b =
    if is_runnable p.state
    then (if ltb p.priority b.proc_priority
        then record { proc_priority = p.priority; mlfq_idx = i }
        else b)
    else b

-- The scan of L2: once round the queue, looking for the highest priority.
unfoldable pub pick_scan : ℕ → ℕ → List Proc → Best → Fq → Best × Fq
unfolding better
pick_scan zero i ps b q = (b, q)
pick_scan (suc n) i ps b q =
    let (idx, q') = pop_front q in
    pick_scan n (i + 1) ps (better (proc_at ps idx) i b) (push_back q' idx)

-- The second loop of L2: put entries back until the chosen one is taken.
unfoldable pub pick_turn : ℕ → Index → Fq → Index × Fq
pick_turn zero idx q = (idx, q)
pick_turn (suc n) idx q = let (idx', q') = pop_front (push_back q idx) in pick_turn n idx' q'

unfoldable pub pick_best : List Proc → Fq → Index × Fq
pick_best ps q =
    let (b, q') = pick_scan q.size 0 ps (record { proc_priority = useless; mlfq_idx = 0 }) q in
    if b.proc_priority == useless
    then (none, q')
    else (let (idx, q'') = pop_front q' in pick_turn b.mlfq_idx idx q'')

unfoldable pub pick_queue : ℕ → List Proc → Fq → Index × Fq
unfolding is_empty
pick_queue lv ps q =
    if is_empty q then (none, q) else (if lv == 2 then pick_best ps q else pick_first q.size ps q)
