-- ===== src/Lib.antt =====
-- The three course kernels of the repository are xv6 with one change each: Project01-MLFQ (a
-- multilevel feedback queue scheduler), Project02-Thread (threads) and Project03-FileSystem (large
-- files, symbolic links, a log that is written back on demand). This library models the scheduler
-- of Project01-MLFQ, the core of which is Project01-MLFQ/proc.c, and the log of
-- Project03-FileSystem (log.c, on bread and bwrite of bio.c) with the blocks, inodes, directories
-- and paths of its fs.c and the system calls on files (file.c, sysfile.c), the threads of
-- Project02-Thread (proc.c and the growth of memory in vm.c), and the pipes and string functions
-- that the kernels share (pipe.c and string.c of Project01-MLFQ).
--
-- Prelude and its children hold the shared tests on numbers, the list functions over the native
-- numbers, the entries of a circular buffer, ranges and the integers.
--
-- Mlfq/Proc models `struct proc` and the process table of Project01-MLFQ/proc.h. Mlfq/Queue models
-- `struct fq` with enQ, deQ and isEmpty; Mlfq/Queue/Refine relates the ring to the list of its
-- entries. Mlfq/Pick models pickProc on one queue; its children First, Scan, Lowest and Result say
-- which entry it takes. Mlfq/State holds the globals of proc.c as one record and lifts the queue
-- operations to it. Mlfq/Boost models priorityBoost; Mlfq/Scheduler one round of scheduler() before
-- and after its swtch, and the timer's tick; Mlfq/Sleep models sched, yield, sleep, wakeup1 and
-- kill; Mlfq/Control getLevel, setPriority, schedulerLock and schedulerUnlock; Mlfq/Life allocproc,
-- userinit, growproc, fork, exit and wait. Mlfq/Kernel is the interface of the calls into kalloc.c,
-- vm.c, file.c, fs.c and log.c: a record of functions on the rest of the kernel, of which nothing
-- is assumed.
--
-- Mlfq/Count counts a process over the queues. Mlfq/Invariant states the invariant (no process
-- stands in two places, queued processes sleep or are RUNNABLE, the rings are well formed) and its
-- children are about what each operation does to it. Mlfq/Machine is the loop of scheduler() on one
-- CPU as a step relation between three phases (at rest, a process runs, a process has come back);
-- Machine/Safety is about the invariant of each phase, Machine/Reached about the configurations
-- that are reached from boot by calm steps, those other than a schedulerUnlock that takes effect
-- (Mlfq/Invariant/Unlock is about that call). Of exit the relation has the part under the lock.
-- Mlfq/Tests runs the model on small inputs.
--
-- Fs/Buffer models bread and bwrite of Project03-FileSystem/bio.c on a disk, the cached blocks and
-- a number of writes that still reach the disk before the machine stops. Fs/Log models the header
-- of the log, write_log, install_trans, commit and recover_from_log of log.c; its children Header,
-- Commit, Writes and Crash are about what stands on the disk after a crash and after recovery.
-- Fs/Journal models the log in memory with begin_op, end_op, log_write and flush. Fs/Tests runs
-- them on a small disk. Fs/Blocks models readsb, bzero, balloc and bfree of
-- Project03-FileSystem/fs.c on the blocks and the log in memory, Fs/Inode the inode cache and the
-- inodes on the disk (iget, idup, ialloc, iupdate, ilock, iunlock, stati), Fs/Bmap the addresses of
-- an inode (bmap, itrunc, iput), Fs/Content readi of a regular file, Fs/Path skipelem, Fs/Names
-- dirlookup and namex, and Fs/Cache the list of buffers of bio.c (binit, bget, brelse); Fs/Samples
-- runs them. Fs/Write models writei of a regular file (its children Bytes, Layout, Rounds, Loop and
-- Back are about what it writes), Fs/Run the ways a call can end as a small monad, Fs/Handles the
-- operations on inodes and the log as commands of it, Fs/Links readi and writei of any inode,
-- through symbolic links, and Fs/Entries dirlink of fs.c and isdirempty of sysfile.c. Fs/Calls
-- holds the state of the calls on files; its children model syscall.c's arguments (Args), file.c
-- (Table), and sysfile.c: the calls on descriptors (Descriptors), link and unlink (Naming), create
-- with mkdir, mknod and symlink (Create), open, chdir, sync and the arguments of exec (Opening),
-- and the table of the calls (Dispatch). Calls/Balance is about the references that open files
-- count, Calls/Finish and Fs/Content/Ends, Fs/Write/Ends and Rounds, Searches and Lookups of
-- Fs/Entries about the loops; Fs/Runs runs them.
--
-- Threads/Table models `struct proc` and `struct pthread_t` of Project02-Thread/proc.h; a thread
-- that runs lends its fields to the process structure. Threads/Switch models mvProcToThread,
-- clearProc, mvThreadToProc, a turn of the inner loop of scheduler, sched, yield, sleep and
-- wakeup1; Threads/Alloc allocthread and allocproc; Threads/Limit setmemorylimit and growproc;
-- Threads/Create pthread_fork, pthread_exec and thread_create (its children Touched and Made are
-- about the tables afterwards, Stacks about the queue of freed stacks); Threads/Join thread_exit
-- and thread_join; Threads/Kill kill, exit under its locks and deleteThreads; Threads/Reap wait;
-- Threads/Fork fork. Threads/Vm is the interface of the calls into other files, of which
-- Threads/Paging gives allocuvm and deallocuvm of vm.c over the page tables, and Sizes says what
-- they return. Threads/Tests runs them.
--
-- Io/Pipe models pipe.c (its child Fifo relates the ring to its bytes, Turns is about a writer and
-- a reader that take turns), Io/Strings string.c, Io/Tests runs them.
--
-- A process pointer is the index of its slot, -1 is `none`. A stretch of code under ptable.lock is
-- one step. The loops of the source are recursions on the number of turns that the source computes
-- before the loop (the size of a queue, NPROC), so no fuel is needed; deallocuvm and allocuvm take
-- the number of pages, one more than enough; readi takes a round for each byte, dirlookup one for
-- each entry of 16 bytes, namex one for each byte of the path, writei and filewrite one for each
-- byte, and dirlink and isdirempty one for each entry; a loop over links ends after ten of them.
-- consumed_tq, global_ticks and the sizes of growproc wrap at 2 ^ 32 as in C; pids do not wrap.
--
-- Not modelled: the context switch, trap frames and saved contexts, interrupts within locked
-- stretches, a second CPU, messages, the disk driver, the drivers of devices, what a call does
-- after it has waited, the loading of programs, and the rest of the three kernels. fork is one step
-- of the relation, although proc.c gives ptable.lock back between allocproc and the entry of the
-- child. pipewrite and piperead go from one sleep to the next, without their calls of wakeup. The
-- panic of deallocuvm is a function on the rest of the kernel, after which its call returns in the
-- model.
pub mod Prelude
pub mod Mlfq
pub mod Fs
pub mod Threads
pub mod Io
