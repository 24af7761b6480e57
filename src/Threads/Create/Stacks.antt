-- ===== src/Threads/Create/Stacks.antt =====
-- The queue of freed stacks that `thread_join` fills and `thread_create` empties.
use hyu_ele3021_operating_sy.Prelude.{
  if_true, inl, inr, Bool, true, set, subst, ◌^◌, if◌then◌else◌, Bool-cases, ==_iff,
  get_or-set_self, if_false, false, ◌==◌, ℕ, suc, ◌+◌, ◌-◌, ◌%◌, ◌≤◌, ◌<◌, ◌≡◌, refl, sym, ap, ◌∙◌,
  List, [], ◌∷◌, ◌++◌, arith, length, get_or, length-set,
}
use hyu_ele3021_operating_sy.Prelude.{ring, ring-set, ring-set_past, length-ring}
use hyu_ele3021_operating_sy.Threads.Table.{
  Thread, Proc, Sys, proc, thread, nthrd, blank_proc, blank_thread,
}
use hyu_ele3021_operating_sy.Threads.Create.{pop_stack, stack_base, start_stack, pthread_exec}
use hyu_ele3021_operating_sy.Threads.Limit.{exceeds}
use hyu_ele3021_operating_sy.Threads.Vm.{Vm, pg_round_up, stack_end, stack_start}
use hyu_ele3021_operating_sy.Threads.Join.{push_stack}

-- The starts of the freed stacks, oldest first.
abbrev pub stacks : Proc → List ℕ
stacks p = ring nthrd 0 p.freed_sz p.front p.freed

pub record IsStacks (p : Proc) : Type 0 where
  pub storage : length p.freed_sz ≡ nthrd
  pub front_in : p.front < nthrd
  pub freed_in : p.freed ≤ nthrd
  pub back_at : p.back ≡ (p.front + p.freed) % nthrd

-- If the queue of freed stacks of a process is well formed and has room, a stack that `thread_join`
-- frees goes behind the others, and the queue stays well formed.
pub stacks-push_stack :
    (base : ℕ) (p : Proc)
    → IsStacks p
    → p.freed < nthrd
    → (stacks (push_stack base p) ≡ stacks p ++ (base ∷ [])) × IsStacks (push_stack base p)
unfolding push_stack
stacks-push_stack base p v room =
    let e : p.freed + 1 ≡ suc p.freed = omega arith in
    (
      rw e (
          ring-set nthrd 0 p.freed_sz base p.freed p.front p.back v.storage v.front_in room
            v.back_at),
      record {
        storage = length-set p.freed_sz p.back base ∙ v.storage;
        front_in = v.front_in;
        freed_in = omega arith;
        back_at = omega (arith, v.back_at);
      },
    )

stacks-suc :
    (p : Proc) (n : ℕ)
    → p.freed ≡ suc n
    → stacks p ≡ get_or p.freed_sz p.front 0 ∷ ring nthrd 0 p.freed_sz ((p.front + 1) % nthrd) n
stacks-suc p n e = rw e refl

-- If the queue of freed stacks of a process is well formed and not empty, the page at which
-- `pthread_exec` starts the new stack is that of the oldest stack; when this stack leaves the
-- queue, the others stay in their order and the queue stays well formed.
pub stacks-pop_stack :
    (base : ℕ) (bases : List ℕ) (p : Proc)
    → IsStacks p
    → stacks p ≡ base ∷ bases
    → (stack_base p ≡ pg_round_up base) × (stacks (pop_stack p) ≡ bases) × IsStacks (pop_stack p)
unfolding pop_stack
stacks-pop_stack base bases p v e =
    let n = p.freed - 1 in
    let size : p.freed ≡ suc n =
      omega (arith, length-ring nthrd 0 p.freed_sz p.front p.freed, ap length e) in
    let both = sym e ∙ stacks-suc p n size in
    let past =
      ring-set_past nthrd 0 p.freed_sz 0 n 255 ((p.front + 1) % nthrd) p.front (omega arith)
        (omega (arith, v.freed_in, size)) (omega arith) (omega (arith, v.front_in)) in
    let used : (p.freed == 0) ≡ false = ground (arith, size) in
    let oldest : get_or p.freed_sz p.front 0 ≡ base = cc in
    (
      ap pg_round_up (if_false _ _ used ∙ oldest),
      past ∙ cc,
      record {
        storage = length-set p.freed_sz p.front 0 ∙ v.storage;
        front_in = omega arith;
        freed_in = omega (arith, v.freed_in);
        back_at = omega (arith, v.back_at, v.front_in, size);
      },
    )

module _ (v : Vm) where
  open v use {World, allocuvm, copyout}

  -- The end of the stack that is allocated from the page of `base` on; 0 for a failure.
  abbrev pub new_end : ℕ → ℕ → Sys World → ℕ
  new_end cur base s =
      let p = proc s cur in
      (allocuvm p.pgdir (pg_round_up base) (stack_end (pg_round_up base) p.stacksz) s.world).0

  -- Why a start fails: the memory limit, no memory, or a page that cannot be written.
  pub data Fails (cur base arg : ℕ) (s : Sys World) : Type 0 where
    over :
        exceeds (proc s cur) (stack_end (pg_round_up base) (proc s cur).stacksz) ≡ true
        → Fails cur base arg s
    no_memory : new_end cur base s ≡ 0 → Fails cur base arg s
    not_copied :
        (w : World)
        → (copyout
            (proc s cur).pgdir
            ((new_end cur base s + 2 ^ 32 - 8) % 2 ^ 32)
            (4294967295 ∷ (arg ∷ []))
            w).0
          ≡ false
        → Fails cur base arg s

  -- What becomes of a start on the oldest freed stack, whose start is `base`.
  pub data Restarted (j cur base arg : ℕ) (bases : List ℕ) (s : Sys World) (r : Bool × Sys World)
      : Type 0 where
    failed :
        r.0 ≡ false
        → Fails cur base arg s
        → r.1.procs ≡ s.procs
        → r.1.threads ≡ s.threads
        → Restarted j cur base arg bases s r
    started :
        r.0 ≡ true
        → (thread r.1 j).th_sz ≡ new_end cur base s
        → stacks (proc r.1 cur) ≡ bases
        → IsStacks (proc r.1 cur)
        → Restarted j cur base arg bases s r

  start_stack-Restarted :
      (sz j routine arg cur base : ℕ) (bases : List ℕ) (s : Sys World) (w : World)
      → IsStacks (proc s cur)
      → stacks (proc s cur) ≡ base ∷ bases
      → cur < length s.procs
      → j < length s.threads
      → sz ≡ new_end cur base s
      → Restarted j cur base arg bases s
          (start_stack v sz j routine arg cur (record s { world = w }))
  unfolding start_stack
  start_stack-Restarted sz j routine arg cur base bases s w x e c d a = elim (Bool-cases ran.0) [
    | inl o ↦ subst (Restarted j cur base arg bases s) (sym (if_true _ _ o)) (
        started refl (ap (λ (t : Thread). t.th_sz) slot ∙ a) (ap stacks self ∙ popped.1)
          (subst IsStacks (sym self) popped.2))
    | inr o ↦ subst (Restarted j cur base arg bases s) (sym (if_false _ _ o)) (
        failed refl
          (not_copied wrote (
            ap
              (λ n. (copyout p.pgdir ((n + 2 ^ 32 - 8) % 2 ^ 32) (4294967295 ∷ (arg ∷ [])) wrote).0)
              (sym a)
            ∙ o))
          refl refl)
  ]
    where
      p : Proc
      p = proc s cur

      wrote : World
      wrote = v.clearpteu p.pgdir (stack_start sz p.stacksz) w

      ran : Bool × World
      ran = v.copyout p.pgdir ((sz + 2 ^ 32 - 8) % 2 ^ 32) (4294967295 ∷ (arg ∷ [])) wrote

      popped :
          (stack_base p ≡ pg_round_up base)
          × (stacks (pop_stack p) ≡ bases)
          × IsStacks (pop_stack p)
      popped = stacks-pop_stack base bases p x e

      used : (p.freed == 0) ≡ false
      used = ground (arith, length-ring nthrd 0 p.freed_sz p.front p.freed, ap length e)

      p' : Proc
      p' = if p.freed == 0 then record p { sz = sz } else pop_stack p

      self : get_or (set s.procs cur p') cur blank_proc ≡ pop_stack p
      self = get_or-set_self s.procs cur p' blank_proc c ∙ if_false _ _ used

      t' : Thread
      t' = record (thread s j) { th_sz = sz; eip = routine; esp = (sz + 2 ^ 32 - 8) % 2 ^ 32 }

      slot : get_or (set s.threads j t') j blank_thread ≡ t'
      slot = get_or-set_self s.threads j t' blank_thread d

  -- If the queue of freed stacks of the caller's process is well formed and not empty, and both
  -- slots are in their tables, `pthread_exec` either fails and leaves both tables as they were,
  -- over the memory limit, without memory or where the page cannot be written, or lets the thread
  -- have the stack that is allocated from the page of the oldest freed stack on; then that stack
  -- has left the queue, the others stand in it in their order, and the queue is well formed.
  pub pthread_exec-Restarted :
      (j routine arg cur base : ℕ) (bases : List ℕ) (s : Sys World)
      → IsStacks (proc s cur)
      → stacks (proc s cur) ≡ base ∷ bases
      → cur < length s.procs
      → j < length s.threads
      → Restarted j cur base arg bases s (pthread_exec v j routine arg cur s)
  unfolding pthread_exec
  pthread_exec-Restarted j routine arg cur base bases s x e c d =
      let p = proc s cur in
      let first = stack_base p in
      let a = allocuvm p.pgdir first (stack_end first p.stacksz) s.world in
      let at : first ≡ pg_round_up base = (stacks-pop_stack base bases p x e).0 in
      elim (Bool-cases (exceeds p (stack_end first p.stacksz))) [
        | inl o ↦ subst (Restarted j cur base arg bases s) (sym (if_true _ _ o)) (
            failed refl (over (ap (λ b. exceeds p (stack_end b p.stacksz)) (sym at) ∙ o)) refl refl)
        | inr o ↦
            subst (Restarted j cur base arg bases s) (sym (if_false _ _ o))
              (elim (Bool-cases (a.0 == 0)) [
                | inl z ↦ subst (Restarted j cur base arg bases s) (sym (if_true _ _ z)) (
                    failed refl
                      (no_memory (
                        ap (λ b. (allocuvm p.pgdir b (stack_end b p.stacksz) s.world).0) (sym at)
                        ∙ (==_iff a.0 0).0 z))
                      refl refl)
                | inr z ↦ subst (Restarted j cur base arg bases s) (sym (if_false _ _ z)) (
                    start_stack-Restarted a.0 j routine arg cur base bases s a.1 x e c d
                      (ap (λ b. (allocuvm p.pgdir b (stack_end b p.stacksz) s.world).0) at))
              ])
      ]
