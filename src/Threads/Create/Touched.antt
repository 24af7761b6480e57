-- ===== src/Threads/Create/Touched.antt =====
-- Which slots `pthread_exec` changes.
use hyu_ele3021_operating_sy.Prelude.{
  if_true, if_false, ℕ, ◌+◌, ◌-◌, ◌%◌, ◌^◌, ◌<◌, ◌≡◌, refl, sym, ap, subst, ◌∙◌, ◌≢◌, inl, inr,
  Bool, [], ◌∷◌, ◌==◌, if◌then◌else◌, Bool-cases, length, length-set, get_or-set_self,
  get_or-set_ne, get_or-set_cases,
}
use hyu_ele3021_operating_sy.Threads.Table.{
  Thread, Proc, Sys, proc, with_proc, thread, with_thread, blank_proc, blank_thread,
}
use hyu_ele3021_operating_sy.Threads.Vm.{Vm, stack_end, stack_start}
use hyu_ele3021_operating_sy.Threads.Limit.{exceeds}
use hyu_ele3021_operating_sy.Threads.Create.{pop_stack, stack_base, start_stack, pthread_exec}

module _ {W : Type 0} where
  -- Of the threads only slot `j` differs, of the processes only slot `cur`, which keeps what
  -- `thread_create` reads.
  pub record Touched (j cur : ℕ) (s t : Sys W) : Type 0 where
    pub as_long : length t.threads ≡ length s.threads
    pub other_threads : (l : ℕ) → l ≢ j → thread t l ≡ thread s l
    pub other_procs : (l : ℕ) → l ≢ cur → proc t l ≡ proc s l
    pub same_pid : (proc t cur).pid ≡ (proc s cur).pid
    pub same_idx : (proc t cur).thread_idx ≡ (proc s cur).thread_idx

  pub Touched-trans :
      {j cur : ℕ} {s t u : Sys W} → Touched j cur s t → Touched j cur t u → Touched j cur s u
  Touched-trans a b = record {
    as_long = b.as_long ∙ a.as_long;
    other_threads = λ l h. b.other_threads l h ∙ a.other_threads l h;
    other_procs = λ l h. b.other_procs l h ∙ a.other_procs l h;
    same_pid = b.same_pid ∙ a.same_pid;
    same_idx = b.same_idx ∙ a.same_idx;
  }

  pub Touched-with_thread :
      (j cur : ℕ) (x : Thread) (s : Sys W) (w : W)
      → Touched j cur s (record (with_thread s j x) { world = w })
  Touched-with_thread j cur x s w = record {
    as_long = length-set s.threads j x;
    other_threads = λ l h. get_or-set_ne s.threads j l x blank_thread (λ e. h (sym e));
    other_procs = λ l h. refl;
    same_pid = refl;
    same_idx = refl;
  }

  pub Touched-with_proc :
      (j cur : ℕ) (p : Proc) (s : Sys W) (w : W)
      → p.pid ≡ (proc s cur).pid
      → p.thread_idx ≡ (proc s cur).thread_idx
      → Touched j cur s (record (with_proc s cur p) { world = w })
  Touched-with_proc j cur p s w a b = record {
    as_long = refl;
    other_threads = λ l h. refl;
    other_procs = λ l h. get_or-set_ne s.procs cur l p blank_proc (λ e. h (sym e));
    same_pid = elim (get_or-set_cases s.procs cur cur p blank_proc) [
      | inl (_, e) ↦ ap (λ q. q.pid) e ∙ a
      | inr e ↦ ap (λ q. q.pid) e
    ];
    same_idx = elim (get_or-set_cases s.procs cur cur p blank_proc) [
      | inl (_, e) ↦ ap (λ q. q.thread_idx) e ∙ b
      | inr e ↦ ap (λ q. q.thread_idx) e
    ];
  }

module _ (v : Vm) where
  open v use {World, clearpteu, copyout}

  -- The slot of the new thread after `pthread_exec`.
  pub record Readied (j cur : ℕ) (s t : Sys World) : Type 0 where
    pub touched : Touched j cur s t
    pub same_id : (thread t j).thread_id ≡ (thread s j).thread_id

  Readied-world : (j cur : ℕ) (s : Sys World) (w : World) → Readied j cur s (record s { world = w })
  Readied-world j cur s w = record {
    touched = record {
      as_long = refl;
      other_threads = λ l h. refl;
      other_procs = λ l h. refl;
      same_pid = refl;
      same_idx = refl;
    };
    same_id = refl;
  }

  abbrev pub Result : ℕ → ℕ → Sys World → Bool × Sys World → Type 0
  Result j cur s (ok, t) = Readied j cur s t

  start_stack-Readied :
      (sz j routine arg cur : ℕ) (s : Sys World)
      → j < length s.threads
      → Result j cur s (start_stack v sz j routine arg cur s)
  unfolding start_stack pop_stack
  start_stack-Readied sz j routine arg cur s h =
      let p = proc s cur in
      let w = clearpteu p.pgdir (stack_start sz p.stacksz) s.world in
      let sp = (sz + 2 ^ 32 - 8) % 2 ^ 32 in
      let r = copyout p.pgdir sp (4294967295 ∷ (arg ∷ [])) w in
      let p' = (if p.freed == 0 then record p { sz = sz } else pop_stack p) in
      let x = record (thread s j) { th_sz = sz; eip = routine; esp = sp } in
      elim (Bool-cases r.0) [
        | inl e ↦ subst (Result j cur s) (sym (if_true _ _ e)) (record {
          touched =
              Touched-trans (Touched-with_proc j cur p' s s.world (kept_pid p sz) (kept_idx p sz))
                (Touched-with_thread j cur x (with_proc s cur p') r.1);
          same_id = ap (λ t. t.thread_id) (get_or-set_self s.threads j x blank_thread h);
        })
        | inr e ↦ subst (Result j cur s) (sym (if_false _ _ e)) (Readied-world j cur s r.1)
      ]
    where
      kept_pid :
          (p : Proc) (sz : ℕ)
          → (if p.freed == 0 then record p { sz = sz } else pop_stack p).pid ≡ p.pid
      kept_pid p sz = elim (Bool-cases (p.freed == 0)) [ inl e ↦ rw e refl | inr e ↦ rw e refl ]

      kept_idx :
          (p : Proc) (sz : ℕ)
          → (if p.freed == 0 then record p { sz = sz } else pop_stack p).thread_idx ≡ p.thread_idx
      kept_idx p sz = elim (Bool-cases (p.freed == 0)) [ inl e ↦ rw e refl | inr e ↦ rw e refl ]

  pub pthread_exec-Readied :
      (j routine arg cur : ℕ) (s : Sys World)
      → j < length s.threads
      → Result j cur s (pthread_exec v j routine arg cur s)
  unfolding pthread_exec
  pthread_exec-Readied j routine arg cur s h =
      let p = proc s cur in
      let base = stack_base p in
      let r = v.allocuvm p.pgdir base (stack_end base p.stacksz) s.world in
      elim (Bool-cases (exceeds p (stack_end base p.stacksz))) [
        | inl e ↦ subst (Result j cur s) (sym (if_true _ _ e)) (Readied-world j cur s s.world)
        | inr e ↦ subst (Result j cur s) (sym (if_false _ _ e)) (elim (Bool-cases (r.0 == 0)) [
          | inl f ↦ subst (Result j cur s) (sym (if_true _ _ f)) (Readied-world j cur s r.1)
          | inr f ↦ subst (Result j cur s) (sym (if_false _ _ f)) (
              after r.1 (start_stack v r.0 j routine arg cur (record s { world = r.1 }))
                (start_stack-Readied r.0 j routine arg cur (record s { world = r.1 }) h))
        ])
      ]
    where
      after :
          (w : World) (q : Bool × Sys World)
          → Result j cur (record s { world = w }) q
          → Result j cur s q
      after w (ok, t) d = record {
        touched = Touched-trans (Readied-world j cur s w).touched d.touched;
        same_id = d.same_id;
      }
