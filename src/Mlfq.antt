-- ===== src/Mlfq.antt =====
-- Project01-MLFQ: the multi-level feedback queue scheduler of proc.c.
pub mod Queue
pub mod Proc
pub mod Pick
pub mod State
pub mod Boost
pub mod Scheduler
pub mod Kernel
pub mod Sleep
pub mod Control
pub mod Life
pub mod Count
pub mod Invariant
pub mod Machine
pub mod Tests
