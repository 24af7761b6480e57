-- ===== src/Threads/Tests.antt =====
-- Runs of the threads of a process on small tables.
use hyu_ele3021_operating_sy.Prelude.{
  ℕ, zero, suc, ◌+◌, ◌-◌, ◌<◌, ◌≡◌, refl, ◌≢◌, ◌⊎◌, inl, inr, true, false, some, [], ◌∷◌, ◌++◌,
  replicate, arith, pos,
}
use hyu_ele3021_operating_sy.Threads.Table.{
  Thread, Proc, Sys, proc, thread, running, zombie, th_zombie, runnable, blank_proc, blank_thread,
  main_th, nthrd,
}
use hyu_ele3021_operating_sy.Threads.Vm.{Vm}
use hyu_ele3021_operating_sy.Threads.Paging.{Pages, paged}
use hyu_ele3021_operating_sy.Threads.Switch.{away, panic}
use hyu_ele3021_operating_sy.Threads.Limit.{growproc}
use hyu_ele3021_operating_sy.Threads.Limit.Bound.{Within, AllWithin, growproc-AllWithin-paged}
use hyu_ele3021_operating_sy.Threads.Create.{pthread_exec, thread_create}
use hyu_ele3021_operating_sy.Threads.Create.Made.{Created, thread_create-Created}
use hyu_ele3021_operating_sy.Threads.Create.Stacks.{
  stacks, IsStacks, stacks-push_stack, Restarted, pthread_exec-Restarted,
}
use hyu_ele3021_operating_sy.Threads.Kill.{exit_locked}
use hyu_ele3021_operating_sy.Threads.Kill.Zombies.{exit_locked-away}
use hyu_ele3021_operating_sy.Threads.Join.{push_stack, refused, thread_join, thread_exit}
use hyu_ele3021_operating_sy.Threads.Join.Found
use hyu_ele3021_operating_sy.Threads.Join.Found.{thread_join-Scanned, thread_exit-panic}
use hyu_ele3021_operating_sy.Threads.Reap.Freed

-- A kernel with pages for ever, whose `World` counts them.
abbrev test_base : Vm
test_base = record {
  World = ℕ;
  kalloc = λ w. (4096, w + 1);
  kfree = λ a w. w - 1;
  copyuvm = λ d n w. (8192, w + 1);
  freevm = λ d w. w;
  allocuvm = λ d a b w. (b, w);
  deallocuvm = λ d a b w. (b, w);
  clearpteu = λ d a w. w;
  copyout = λ d a ws w. (true, w);
  filedup = λ f w. (f, w);
  idup = λ i w. (i, w);
}

abbrev test_pages : Pages test_base
test_pages = record {
  walk = λ d a w. some (some 4096);
  unmap = λ d a w. w;
  map_page = λ d a m w. (true, w);
  halt = λ w. w;
}

abbrev test_vm : Vm
test_vm = paged test_base test_pages

-- The main thread of process 1, in slot 0, and a thread with the id 2 that has ended, in slot 1.
abbrev main_proc : Proc
main_proc = record blank_proc {
  pid = 1;
  state = running;
  thread_id = 1;
  thread_idx = 0;
  sz = 12288;
  stacksz = 1;
  memlimit = 40960;
}

abbrev child_proc : Proc
child_proc = record blank_proc {
  pid = 2;
  state = zombie;
  parent_pthread = some 0;
  parent_proc = some 0;
}

abbrev main_thread : Thread
main_thread = record blank_thread { pid = 1; state = runnable; thread_id = 1 }

abbrev ended_thread : Thread
ended_thread = record blank_thread {
  pid = 1;
  state = th_zombie;
  thread_id = 2;
  joiner_pthread = some 0;
  retval = 7;
  th_sz = 12288;
}

abbrev two_threads : Sys ℕ
two_threads = record {
  procs = main_proc ∷ (child_proc ∷ []);
  threads =
      main_thread ∷ (ended_thread ∷ (record blank_thread { pid = 2; state = th_zombie } ∷ []));
  initproc = some 0;
  nextpid = 3;
  world = 5;
}

-- The same with all slots of the table of threads.
abbrev full_table : Sys ℕ
full_table = record two_threads {
  threads = two_threads.threads ++ replicate (nthrd - 3) blank_thread;
}

thread_join-Scanned_example :
    ((2 ≡ main_th) × (thread_join test_vm 2 0 full_table ≡ refused full_table))
    ⊎ ((2 ≢ main_th)
        × Found.Scanned test_vm 0 nthrd 2 0 false full_table (thread_join test_vm 2 0 full_table))
thread_join-Scanned_example = thread_join-Scanned test_vm 2 0 full_table (omega arith) (omega arith)

exit_locked-away_example :
    (t : Sys ℕ) × (exit_locked 2 0 two_threads ≡ away t)
    × ((proc t 0).state ≡ zombie)
    × ((j : ℕ) → j < 3 → (thread two_threads j).pid ≡ 1 → (thread t j).state ≡ th_zombie)
exit_locked-away_example = exit_locked-away 2 0 two_threads (omega arith)

blank-Within : Within blank_proc
blank-Within = record { limit = inl refl; low = omega arith }

two_threads-AllWithin : AllWithin two_threads
two_threads-AllWithin zero = record { limit = inr (omega arith); low = omega arith }
two_threads-AllWithin (suc zero) = record { limit = inl refl; low = omega arith }
two_threads-AllWithin (suc (suc i)) = blank-Within

growproc-AllWithin-paged_example : AllWithin (growproc test_vm (pos 4096) 0 two_threads).1
growproc-AllWithin-paged_example =
    growproc-AllWithin-paged test_base test_pages (pos 4096) 0 two_threads two_threads-AllWithin

main_proc-IsStacks : IsStacks main_proc
main_proc-IsStacks = record {
  storage = refl;
  front_in = omega arith;
  freed_in = omega arith;
  back_at = refl;
}

pushed : (stacks (push_stack 12288 main_proc) ≡ 12288 ∷ []) × IsStacks (push_stack 12288 main_proc)
pushed = stacks-push_stack 12288 main_proc main_proc-IsStacks (omega arith)

stacks-push_stack_example :
    (stacks (push_stack 12288 main_proc) ≡ stacks main_proc ++ (12288 ∷ []))
    × IsStacks (push_stack 12288 main_proc)
stacks-push_stack_example = stacks-push_stack 12288 main_proc main_proc-IsStacks (omega arith)

-- The main thread's process with a freed stack.
abbrev one_freed : Sys ℕ
one_freed = record two_threads { procs = push_stack 12288 main_proc ∷ (child_proc ∷ []) }

pthread_exec-Restarted_example :
    Restarted test_vm 1 0 12288 9 [] one_freed (pthread_exec test_vm 1 1024 9 0 one_freed)
pthread_exec-Restarted_example =
    pthread_exec-Restarted test_vm 1 1024 9 0 12288 [] one_freed pushed.1 pushed.0 (omega arith)
      (omega arith)

thread_exit-panic_example : thread_exit 3 0 two_threads ≡ panic
thread_exit-panic_example = thread_exit-panic 3 0 two_threads refl refl

-- The same with a slot for one more thread.
abbrev free_slot : Sys ℕ
free_slot = record two_threads { threads = two_threads.threads ++ (blank_thread ∷ []) }

thread_create-Created_example :
    Created test_vm 1024 0 free_slot (thread_create test_vm 1024 9 0 free_slot)
thread_create-Created_example = thread_create-Created test_vm 1024 9 0 free_slot
