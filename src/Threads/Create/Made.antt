-- ===== src/Threads/Create/Made.antt =====
-- What `thread_create` does to the tables.
use hyu_ele3021_operating_sy.Prelude.{
  if_true, if_false, ℕ, suc, ◌+◌, ◌%◌, ◌^◌, ◌<◌, ◌≡◌, refl, sym, ap, subst, ◌∙◌, ◌≢◌, inl, inr,
  Bool, true, false, Option, none, some, List, [], ◌∷◌, arith, ◌==◌, if◌then◌else◌, Bool-cases,
  length, get_or, get_or-set_self,
}
use mathlib.Core.Bool.{false≢true}
use hyu_ele3021_operating_sy.Threads.Table.{
  ThState, embryo, sleeping, running, zombie, th_zombie, Thread, Sys, proc, thread, with_thread,
  unused, runnable, is_unused, blank_proc, blank_thread,
}
use hyu_ele3021_operating_sy.Threads.Vm.{Vm}
use hyu_ele3021_operating_sy.Threads.Alloc.{find_thread, take_thread, allocthread}
use hyu_ele3021_operating_sy.Threads.Create.{
  enroll, pthread_fork, pthread_exec, launch, thread_create,
}
use hyu_ele3021_operating_sy.Threads.Create.Touched.{
  Touched, Touched-trans, Touched-with_thread, Touched-with_proc, Result, pthread_exec-Readied,
}

-- The search finds an UNUSED slot of the table.
find_thread-unused :
    (i : ℕ) (ts : List Thread) (j : ℕ)
    → find_thread i ts ≡ some j
    → (k : ℕ) × (i + k ≡ j) × (k < length ts) × ((get_or ts k blank_thread).state ≡ unused)
unfolding find_thread
find_thread-unused i [] j h = absurd cc
find_thread-unused i (t ∷ ts) j h = elim (Bool-cases (is_unused t.state)) [
  | inl e ↦
      let same = inside (sym (if_true _ _ e) ∙ h) in
      (0, omega (arith, same), omega arith, state_of t.state e)
  | inr e ↦
      let (k, a, b, c) = find_thread-unused (i + 1) ts j (sym (if_false _ _ e) ∙ h) in
      (suc k, omega arith, omega arith, c)
]
  where
    inside : {a b : ℕ} → some a ≡ some b → a ≡ b
    inside h = cc

    state_of : (q : ThState) → is_unused q ≡ true → q ≡ unused
    state_of unused e = refl
    state_of embryo e = absurd (false≢true e)
    state_of sleeping e = absurd (false≢true e)
    state_of runnable e = absurd (false≢true e)
    state_of running e = absurd (false≢true e)
    state_of zombie e = absurd (false≢true e)
    state_of th_zombie e = absurd (false≢true e)

module _ (v : Vm) where
  open v use {World}

  -- The thread `id` that runs `routine` in slot `j`.
  pub record Made (routine cur j id : ℕ) (s t : Sys World) : Type 0 where
    pub id_next : id ≡ ((proc s cur).thread_assign + 1) % 2 ^ 32
    pub was_free : (thread s j).state ≡ unused
    pub ready : (thread t j).state ≡ runnable
    pub named : (thread t j).thread_id ≡ id
    pub owned : (thread t j).pid ≡ (proc s cur).pid
    pub starts : (thread t j).eip ≡ routine
    pub runs_in : (thread t j).ptable_idx ≡ cur
    pub joiner : (thread t j).joiner_pthread ≡ some (proc s cur).thread_idx
    pub other_threads : (l : ℕ) → l ≢ j → thread t l ≡ thread s l
    pub other_procs : (l : ℕ) → l ≢ cur → proc t l ≡ proc s l

  pub data Created (routine cur : ℕ) (s : Sys World) : Option ℕ × Sys World → Type 0 where
    made :
        (j id : ℕ) (t : Sys World) → Made routine cur j id s t → Created routine cur s (some id, t)
    failed :
        (t : Sys World)
        → ((l : ℕ) → (thread s l).state ≢ unused → thread t l ≡ thread s l)
        → Created routine cur s (none, t)

  -- Only a slot that was UNUSED changed.
  failed_in :
      (routine cur j : ℕ) (s t : Sys World)
      → (thread s j).state ≡ unused
      → Touched j cur s t
      → Created routine cur s (none, t)
  failed_in routine cur j s t u a =
      failed t (λ l h. a.other_threads l (λ e. h (ap (λ m. (thread s m).state) e ∙ u)))

  launch-Created :
      (j id routine arg cur : ℕ) (s u : Sys World)
      → (thread s j).state ≡ unused
      → j < length s.threads
      → id ≡ ((proc s cur).thread_assign + 1) % 2 ^ 32
      → Touched j cur s u
      → (thread u j).thread_id ≡ id
      → Created routine cur s (launch v j routine arg cur u)
  unfolding launch
  launch-Created j id routine arg cur s u free h n a b =
      go (pthread_exec v j routine arg cur u)
        (pthread_exec-Readied v j routine arg cur u (omega (arith, h, a.as_long)))
    where
      last : Sys World → Thread
      last w = record (thread w j) {
        pid = (proc w cur).pid;
        state = runnable;
        eip = routine;
        ptable_idx = cur;
        joiner_pthread = some (proc w cur).thread_idx;
      }

      go :
          (q : Bool × Sys World)
          → Result v j cur u q
          → Created routine cur s (
              if q.0
              then (some (thread q.1 j).thread_id, with_thread q.1 j (last q.1))
              else (none, with_thread q.1 j (record (thread q.1 j) { state = unused })))
      go (false, w) r =
          failed_in routine cur j s (with_thread w j (record (thread w j) { state = unused })) free
            (Touched-trans a (
              Touched-trans r.touched
                (Touched-with_thread j cur (record (thread w j) { state = unused }) w w.world)))
      go (true, w) r =
          let c = Touched-trans a r.touched in
          let d = Touched-trans c (Touched-with_thread j cur (last w) w w.world) in
          let e = get_or-set_self w.threads j (last w) blank_thread (omega (arith, h, c.as_long)) in
          made j (thread w j).thread_id (with_thread w j (last w)) (record {
            id_next = r.same_id ∙ b ∙ n;
            was_free = free;
            ready = ap (λ t. t.state) e;
            named = ap (λ t. t.thread_id) e;
            owned = ap (λ t. t.pid) e ∙ c.same_pid;
            starts = ap (λ t. t.eip) e;
            runs_in = ap (λ t. t.ptable_idx) e;
            joiner = ap (λ t. t.joiner_pthread) e ∙ ap some c.same_idx;
            other_threads = d.other_threads;
            other_procs = d.other_procs;
          })

  -- The ends of `allocthread`.
  data Allotted (cur : ℕ) (s : Sys World) : Option ℕ × Sys World → Type 0 where
    none_free : Allotted cur s (none, s)
    no_stack :
        (j : ℕ) (t : Sys World)
        → (thread s j).state ≡ unused
        → Touched j cur s t
        → Allotted cur s (none, t)
    given :
        (j : ℕ) (t : Sys World)
        → (thread s j).state ≡ unused
        → j < length s.threads
        → Touched j cur s t
        → t.procs ≡ s.procs
        → Allotted cur s (some j, t)

  allocthread-Allotted : (cur : ℕ) (s : Sys World) → Allotted cur s (allocthread v s)
  unfolding allocthread take_thread
  allocthread-Allotted cur s = go (find_thread 0 s.threads) refl
    where
      go : (o : Option ℕ) → find_thread 0 s.threads ≡ o → Allotted cur s (take_thread v o s)
      go none e = none_free
      go (some j) e =
          let (k, a, b, c) = find_thread-unused 0 s.threads j e in
          let same : k ≡ j = omega arith in
          let free = ap (λ m. (thread s m).state) (sym same) ∙ c in
          let (kstack, w) = v.kalloc s.world in
          let x = record (thread s j) { kstack = kstack; state = unused } in
          let y = record (thread s j) { kstack = kstack; state = embryo; retval = 0 } in
          elim (Bool-cases (kstack == 0)) [
            | inl f ↦ subst (Allotted cur s) (sym (if_true _ _ f)) (
                no_stack j (record (with_thread s j x) { world = w }) free
                  (Touched-with_thread j cur x s w))
            | inr f ↦ subst (Allotted cur s) (sym (if_false _ _ f)) (
                given j (record (with_thread s j y) { world = w }) free (omega arith)
                  (Touched-with_thread j cur y s w) refl)
          ]

  -- The ends of `pthread_fork`.
  data Forked (cur : ℕ) (s : Sys World) : Option ℕ × Sys World → Type 0 where
    same : Forked cur s (none, s)
    without_stack :
        (j : ℕ) (t : Sys World)
        → (thread s j).state ≡ unused
        → Touched j cur s t
        → Forked cur s (none, t)
    enrolled :
        (j : ℕ) (t : Sys World)
        → (thread s j).state ≡ unused
        → j < length s.threads
        → Touched j cur s t
        → (thread t j).thread_id ≡ ((proc s cur).thread_assign + 1) % 2 ^ 32
        → Forked cur s (some j, t)

  pthread_fork-Forked : (cur : ℕ) (s : Sys World) → Forked cur s (pthread_fork v cur s)
  unfolding pthread_fork enroll
  pthread_fork-Forked cur s = go (allocthread v s) (allocthread-Allotted cur s)
    where
      go :
          (q : Option ℕ × Sys World)
          → Allotted cur s q
          → Forked cur s (elim (q.0) as (λ x. Option ℕ × Sys World) [
            | none ↦ (none, q.1)
            | some j ↦ (some j, enroll v j cur q.1)
          ])
      go _ none_free = same
      go _ (no_stack j t free a) = without_stack j t free a
      go _ (given j t free h a e) =
          let p = proc t cur in
          let id = (p.thread_assign + 1) % 2 ^ 32 in
          let me = thread t p.thread_idx in
          let x = record (thread t j) {
            pid = p.pid;
            eip = me.eip;
            esp = me.esp;
            thread_id = id;
            ptable_idx = cur;
          } in
          let p' = record p { thread_assign = id } in
          enrolled j (enroll v j cur t) free h
            (Touched-trans a (
              Touched-trans (Touched-with_thread j cur x t t.world)
                (Touched-with_proc j cur p' (with_thread t j x) t.world refl refl)))
            (ap (λ t. t.thread_id)
                (get_or-set_self t.threads j x blank_thread (omega (arith, h, a.as_long)))
              ∙ ap (λ ps. ((get_or ps cur blank_proc).thread_assign + 1) % 2 ^ 32) e)

  -- `thread_create` either fails and leaves every slot that was not UNUSED as it was, or returns
  -- the caller's next thread id, after a slot that was UNUSED has become a RUNNABLE thread of the
  -- caller's process with this id, which starts at the routine and may be joined by the calling
  -- thread; then no other slot of the thread table and no other process has changed.
  pub thread_create-Created :
      (routine arg cur : ℕ) (s : Sys World)
      → Created routine cur s (thread_create v routine arg cur s)
  unfolding thread_create
  thread_create-Created routine arg cur s = go (pthread_fork v cur s) (pthread_fork-Forked cur s)
    where
      go :
          (q : Option ℕ × Sys World)
          → Forked cur s q
          → Created routine cur s (elim (q.0) as (λ x. Option ℕ × Sys World) [
            | none ↦ (none, q.1)
            | some j ↦ launch v j routine arg cur q.1
          ])
      go _ same = failed s (λ l h. refl)
      go _ (without_stack j t free a) = failed_in routine cur j s t free a
      go _ (enrolled j t free h a e) =
          launch-Created j (((proc s cur).thread_assign + 1) % 2 ^ 32) routine arg cur s t free h
            refl a e
