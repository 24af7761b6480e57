-- ===== src/Threads.antt =====
-- Project02-Thread: threads of a process, the freed stacks, and the memory limit.
pub mod Table
pub mod Vm
pub mod Paging
pub mod Switch
pub mod Alloc
pub mod Limit
pub mod Create
pub mod Join
pub mod Kill
pub mod Reap
pub mod Fork
pub mod Tests
