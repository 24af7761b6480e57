-- ===== src/Mlfq/Invariant/Life.antt =====
-- `allocproc`, `fork` and the reaping of `wait`: what they do to the queues and to the phases.
use hyu_ele3021_operating_sy.Prelude.{
  if_true, if_false, ℕ, suc, ◌+◌, ◌≤◌, ◌<◌, ◌≡◌, refl, sym, ap, subst, ◌∙◌, ◌≢◌, inl, inr, true,
  false, Option, none, some, List, [], ◌∷◌, arith, ◌==◌, Bool-cases, length, get_or, length-set,
  get_or-set_self,
}
use hyu_ele3021_operating_sy.Mlfq.Queue.{Index, nproc}
use hyu_ele3021_operating_sy.Mlfq.Proc.{
  Proc, proc_at, running, blank, is_zombie, is_unused, unused, embryo,
}
use hyu_ele3021_operating_sy.Mlfq.Kernel.{Kernel}
use hyu_ele3021_operating_sy.Mlfq.State.{Sys, proc, with_proc, en_q}
use hyu_ele3021_operating_sy.Mlfq.Life.{
  find_unused, alloc_slot, allocproc, fork_child, fork, reap, admit, dup_files,
}
use hyu_ele3021_operating_sy.Mlfq.Invariant.{
  Inv, Inv-same, max_priority, with_held-Inv, proc-with_proc_self, proc-with_proc_ne, hold-Inv,
  en_q-Inv,
}
use hyu_ele3021_operating_sy.Mlfq.Count.{hit, occurs}
use hyu_ele3021_operating_sy.Mlfq.Invariant.Moves.{procs-en_q}
use hyu_ele3021_operating_sy.Mlfq.Invariant.Dispatch.{Running}
use hyu_ele3021_operating_sy.Mlfq.Invariant.Gentle.{
  Gentle, Gentle-trans, Gentle-refl, Gentle-Running, Gentle-same, with_proc-Gentle, Keeps,
}

-- The slot found is an UNUSED one of the table.
find_unused_lem :
    (i : ℕ) (ps : List Proc) (j : ℕ)
    → find_unused i ps ≡ some j
    → (k : ℕ) × (j ≡ i + k) × (k < length ps) × ((get_or ps k blank).state ≡ unused)
unfolding find_unused
find_unused_lem i [] j e = absurd (ground arith)
find_unused_lem i (p ∷ ps) j e = elim (Bool-cases (is_unused p.state)) [
  | inl u ↦ (0, ground arith, omega arith, ground arith)
  | inr u ↦ later (find_unused_lem (i + 1) ps j (sym (if_false (some i) _ u) ∙ e))
]
  where
    later :
        ((k : ℕ) × (j ≡ i + 1 + k) × (k < length ps) × ((get_or ps k blank).state ≡ unused))
        → (k : ℕ) × (j ≡ i + k) × (k < length (p ∷ ps)) × ((get_or (p ∷ ps) k blank).state ≡ unused)
    later (k, a, b, c) = (suc k, omega (arith, a), omega (arith, b), c)

Keeps-unused :
    (p q : Proc)
    → p.state ≡ unused
    → (p.priority ≤ max_priority → q.priority ≤ max_priority)
    → Keeps p q
Keeps-unused p q u r = record { waits = λ h. ground arith; runs = λ h. ground arith; rank = r }

Keeps-embryo :
    (p q : Proc)
    → p.state ≡ embryo
    → (p.priority ≤ max_priority → q.priority ≤ max_priority)
    → Keeps p q
Keeps-embryo p q u r = record { waits = λ h. ground arith; runs = λ h. ground arith; rank = r }

Keeps-zombie :
    (p q : Proc)
    → is_zombie p.state ≡ true
    → (p.priority ≤ max_priority → q.priority ≤ max_priority)
    → Keeps p q
Keeps-zombie p q u r = record { waits = λ h. ground arith; runs = λ h. ground arith; rank = r }

embryo_running : embryo ≢ running
embryo_running e = cc

hit_ne : (i j : ℕ) → i ≢ j → hit i (some j) ≡ 0
hit_ne i j h = ground arith

module _ (k : Kernel) where
  open k use {World, kalloc, kfree, copyuvm, idup}

  -- What `allocproc` yields: no slot, or one that was UNUSED and is an EMBRYO now.
  pub data Alloc (s : Sys World) (r : Option ℕ × Sys World) : Type 0 where
    refused : r.0 ≡ none → Gentle s r.1 → Alloc s r
    made :
        (i : ℕ)
        → r.0 ≡ some i
        → i < length s.procs
        → (proc r.1 i).state ≡ embryo
        → (proc s i).state ≡ unused
        → Gentle s r.1
        → Alloc s r

  alloc_slot-Alloc :
      (i : ℕ) (s : Sys World)
      → i < length s.procs
      → (proc s i).state ≡ unused
      → Alloc s (alloc_slot k (some i) s)
  unfolding alloc_slot
  alloc_slot-Alloc i s h u =
      let p1 = record (proc s i) { state = embryo; pid = s.nextpid } in
      let s1 = record (with_proc s (some i) p1) { nextpid = s.nextpid + 1 } in
      let g1 =
        Gentle-same s1 (with_proc-Gentle s i p1 (Keeps-unused (proc s i) p1 u (λ r. r))) refl refl
          refl refl in
      let at : proc s1 i ≡ p1 = get_or-set_self s.procs i p1 blank h in
      let state1 : (proc s1 i).state ≡ embryo = rw at refl in
      let h1 : i < length s1.procs = rw (length-set s.procs i p1) h in
      let p2 = record (proc s1 i) { kstack = (kalloc s.world).0 } in
      let p3 = record p2 { state = unused } in
      elim (Bool-cases ((kalloc s.world).0 == 0)) [
        | inl e ↦ subst (Alloc s) (sym (if_true _ _ e)) (
            refused refl (
              Gentle-trans g1 (
                Gentle-same _
                  (with_proc-Gentle s1 i p3 (Keeps-embryo (proc s1 i) p3 state1 (λ r. r))) refl refl
                  refl refl)))
        | inr e ↦ subst (Alloc s) (sym (if_false _ _ e)) (
            made i refl h
              (ap (λ (p : Proc). p.state) (get_or-set_self s1.procs i p2 blank h1) ∙ state1) u
              (Gentle-trans g1 (
                Gentle-same _
                  (with_proc-Gentle s1 i p2 (Keeps-embryo (proc s1 i) p2 state1 (λ r. r))) refl refl
                  refl refl)))
      ]

  -- `allocproc` yields no slot, or a slot of the table that was UNUSED and is an EMBRYO now; either
  -- way the queues and the dictator stay as they were, and no process loses its right to wait,
  -- stops running, or leaves the range of priorities.
  pub allocproc-Alloc : (s : Sys World) → Alloc s (allocproc k s)
  unfolding allocproc
  allocproc-Alloc s = found (find_unused 0 s.procs) refl
    where
      full : Alloc s (alloc_slot k none s)
      full = unfold alloc_slot in refused refl (Gentle-refl s)

      found : (r : Option ℕ) → find_unused 0 s.procs ≡ r → Alloc s (alloc_slot k r s)
      found none e = full
      found (some j) e =
          let (n, a, b, c) = find_unused_lem 0 s.procs j e in
          let same : n ≡ j = omega (arith, a) in
          alloc_slot-Alloc j s (rw (← same) b) (subst (λ m. (proc s m).state ≡ unused) same c)

  -- A new process goes into L0 with a fresh start.
  pub admit-Inv :
      (held : List Index) (i : ℕ) (s : Sys World) (np : Proc) (w : World)
      → Inv held s
      → i < nproc
      → (proc s i).state ≡ embryo
      → occurs i held ≡ 0
      → Inv held (en_q 0 (some i) (record (with_proc s (some i) (admit np)) { world = w }))
  admit-Inv held i s np w v0 h u o =
      let p = admit np in
      let t0 = with_proc s (some i) p in
      let t = record t0 { world = w } in
      let v1 = hold-Inv held i s v0 h (ground arith) o in
      let v2 = with_held-Inv held s i p v1 (omega arith) in
      let v = Inv-same (some i ∷ held) t0 t v2 refl refl in
      let at : proc t i ≡ p = proc-with_proc_self (some i ∷ held) s i p v1 h in
      en_q-Inv held i t 0 v (omega arith) (rw at refl)

  admit-Running :
      (cur i : ℕ) (s : Sys World) (np : Proc) (w : World)
      → Running cur s
      → i < nproc
      → (proc s i).state ≡ embryo
      → Running cur (en_q 0 (some i) (record (with_proc s (some i) (admit np)) { world = w }))
  admit-Running cur i s np w r h u = record {
    inv = admit-Inv (some cur ∷ []) i s np w r.inv h u (omega (arith, hit_ne i cur other));
    state =
        ap (λ (q : Proc). q.state)
          (ap (λ ps. proc_at ps (some cur)) (procs-en_q 0 (some i) t)
            ∙ proc-with_proc_ne s i cur (admit np) other)
        ∙ r.state;
    rule = λ e. dictator-en_q t ∙ r.rule (sym (dictated-en_q t) ∙ e);
  }
    where
      t : Sys World
      t = record (with_proc s (some i) (admit np)) { world = w }

      other : i ≢ cur
      other e = embryo_running (sym u ∙ ap (λ j. (proc s j).state) e ∙ r.state)

      dictated-en_q : (t : Sys World) → (en_q 0 (some i) t).is_dictated ≡ t.is_dictated
      dictated-en_q t = unfold en_q in refl

      dictator-en_q :
          (t : Sys World) → (en_q 0 (some i) t).scheduler_dictator ≡ t.scheduler_dictator
      dictator-en_q t = unfold en_q in refl

  fork_child-Running :
      (cur i : ℕ) (s : Sys World)
      → Running cur s
      → i < nproc
      → (proc s i).state ≡ embryo
      → Running cur (fork_child k (some i) cur s).1
  unfolding fork_child
  fork_child-Running cur i s r h u =
      let parent = proc s cur in
      let c = copyuvm parent.pgdir parent.sz s.world in
      let np = record (proc s i) { pgdir = c.0 } in
      let f = dup_files k parent.ofile np.ofile c.1 in
      let d = idup parent.cwd f.1 in
      let np' = record np { sz = parent.sz; parent = some cur; ofile = f.0; cwd = d.0 } in
      let dead = record np { kstack = 0; state = unused } in
      let g =
        Gentle-same (record (with_proc s (some i) dead) { world = kfree np.kstack c.1 })
          (with_proc-Gentle s i dead (Keeps-embryo (proc s i) dead u (λ x. x))) refl refl refl
          refl in
      elim (Bool-cases (c.0 == 0)) [
        | inl e ↦
            subst (λ (x : Option ℕ × Sys World). Running cur x.1) (sym (if_true _ _ e))
              (Gentle-Running cur g r)
        | inr e ↦
            subst (λ (x : Option ℕ × Sys World). Running cur x.1) (sym (if_false _ _ e))
              (admit-Running cur i s np' d.1 r h u)
      ]

  fork_none : (cur : ℕ) (s : Sys World) → fork_child k none cur s ≡ (none, s)
  unfolding fork_child
  fork_none cur s = refl

  fork_eq :
      (cur : ℕ) (s : Sys World)
      → fork k cur s ≡ fork_child k (allocproc k s).0 cur (allocproc k s).1
  unfolding fork
  fork_eq cur s = refl

  -- `fork` by the running process, whether it succeeds or fails, keeps the invariant of the running
  -- process.
  pub fork-Running : (cur : ℕ) (s : Sys World) → Running cur s → Running cur (fork k cur s).1
  fork-Running cur s r =
      subst (λ (x : Option ℕ × Sys World). Running cur x.1) (sym (fork_eq cur s))
        (step (allocproc-Alloc s))
    where
      step :
          Alloc s (allocproc k s)
          → Running cur (fork_child k (allocproc k s).0 cur (allocproc k s).1).1
      step (refused e g) = rw (e, fork_none cur (allocproc k s).1) (Gentle-Running cur g r)
      step (made i e h em un g) = rw e (
          fork_child-Running cur i (allocproc k s).1 (Gentle-Running cur g r)
            (omega (arith, h, r.inv.table)) em)

  -- `wait` frees only a zombie's slot.
  pub reap-Gentle :
      (i : ℕ) (s : Sys World) → is_zombie (proc s i).state ≡ true → Gentle s (reap k i s)
  unfolding reap
  reap-Gentle i s z =
      let p = proc s i in
      let q = record p { kstack = 0; pid = 0; parent = none; killed = false; state = unused } in
      Gentle-same _ (with_proc-Gentle s i q (Keeps-zombie p q z (λ x. x))) refl refl refl refl
