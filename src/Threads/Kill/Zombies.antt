-- ===== src/Threads/Kill/Zombies.antt =====
-- What `kill` and `exit` do to the threads of a process.
use hyu_ele3021_operating_sy.Prelude.{
  if_true, if_false, ℕ, zero, suc, ◌+◌, ◌<◌, ◌≡◌, refl, sym, ap, subst, ◌∙◌, inl, inr, true, false,
  ◌&&◌, Option, none, some, List, [], ◌∷◌, map, arith, ◌==◌, Bool-cases, length, get_or, length-set,
  get_or-set_self, get_or-set_cases,
}
use hyu_ele3021_operating_sy.Mlfq.Proc.{Chan, chan_of, chan_eq, ptr_eq}
use hyu_ele3021_operating_sy.Threads.Table.{
  Thread, Proc, Sys, proc, with_proc, thread, is_zombie, is_running, is_sleeping, zombie, th_zombie,
  blank_proc, blank_thread,
}
use hyu_ele3021_operating_sy.Threads.Switch.{away, panic, sched, wakeup1, wake}
use hyu_ele3021_operating_sy.Threads.Kill.{bury, adopt_one, adopt, exit_locked}

-- Threads keep their pids.
wake-pid : (c : Chan) (t : Thread) → (wake c t).pid ≡ t.pid
wake-pid c t = elim (Bool-cases (is_sleeping t.state && chan_eq t.chan c)) [
  | inl e ↦ rw e refl
  | inr e ↦ rw e refl
]

-- A change of each thread, slot by slot.
get_or-map :
    (f : Thread → Thread) (ts : List Thread) (j : ℕ)
    → j < length ts
    → get_or (map f ts) j blank_thread ≡ f (get_or ts j blank_thread)
get_or-map f [] j h = absurd (omega arith)
get_or-map f (t ∷ ts) zero h = refl
get_or-map f (t ∷ ts) (suc j) h = get_or-map f ts j (omega arith)

length-map : (f : Thread → Thread) (ts : List Thread) → length (map f ts) ≡ length ts
length-map f [] = refl
length-map f (t ∷ ts) = ap suc (length-map f ts)

-- Each slot of the table has the same pid in both.
record SamePids (ts us : List Thread) : Type 0 where
  as_long : length us ≡ length ts
  pids : (j : ℕ) → j < length ts → (get_or us j blank_thread).pid ≡ (get_or ts j blank_thread).pid

map-wake-SamePids : (c : Chan) (ts : List Thread) → SamePids ts (map (wake c) ts)
map-wake-SamePids c ts = record {
  as_long = length-map (wake c) ts;
  pids =
      λ j h. ap (λ t. t.pid) (get_or-map (wake c) ts j h) ∙ wake-pid c (get_or ts j blank_thread);
}

SamePids-trans : {ts us vs : List Thread} → SamePids ts us → SamePids us vs → SamePids ts vs
SamePids-trans a b = record {
  as_long = b.as_long ∙ a.as_long;
  pids = λ j h. b.pids j (omega (arith, h, a.as_long)) ∙ a.pids j h;
}

module _ {W : Type 0} where
  -- What the adoption of children leaves of the tables.
  record Adopted (cur : ℕ) (s t : Sys W) : Type 0 where
    same_pids : SamePids s.threads t.threads
    same_length : length t.procs ≡ length s.procs
    same_pid : (k : ℕ) → (proc t k).pid ≡ (proc s k).pid

  Adopted-trans : {cur : ℕ} {s t u : Sys W} → Adopted cur s t → Adopted cur t u → Adopted cur s u
  Adopted-trans a b = record {
    same_pids = SamePids-trans a.same_pids b.same_pids;
    same_length = b.same_length ∙ a.same_length;
    same_pid = λ k. b.same_pid k ∙ a.same_pid k;
  }

  Adopted-refl : {cur : ℕ} (s : Sys W) → Adopted cur s s
  Adopted-refl s = record {
    same_pids = record { as_long = refl; pids = λ j h. refl };
    same_length = refl;
    same_pid = λ k. refl;
  }

  Adopted-wakeup1 : {cur : ℕ} (c : Chan) (s : Sys W) → Adopted cur s (wakeup1 c s)
  unfolding wakeup1
  Adopted-wakeup1 c s = record {
    same_pids = map-wake-SamePids c s.threads;
    same_length = refl;
    same_pid = λ k. refl;
  }

  Adopted-with_proc :
      {cur : ℕ} (i : ℕ) (p : Proc) (s : Sys W)
      → p.pid ≡ (proc s i).pid
      → Adopted cur s (with_proc s i p)
  Adopted-with_proc i p s e = record {
    same_pids = record { as_long = refl; pids = λ j h. refl };
    same_length = length-set s.procs i p;
    same_pid = λ k. elim (get_or-set_cases s.procs i k p blank_proc) [
      | inl (q, f) ↦ ap (λ x. x.pid) f ∙ e ∙ ap (λ m. (proc s m).pid) q
      | inr f ↦ ap (λ x. x.pid) f
    ];
  }

  adopt_one-Adopted : (i cur : ℕ) (s : Sys W) → Adopted cur s (adopt_one i cur s)
  unfolding adopt_one
  adopt_one-Adopted i cur s =
      let p = proc s i in
      let s' = with_proc s i (record p { parent_proc = s.initproc }) in
      let heir = heir_of s' in
      let s'' = with_proc s' i (record (proc s' i) { parent_pthread = heir }) in
      let a : Adopted cur s s' =
        Adopted-with_proc i (record p { parent_proc = s.initproc }) s refl in
      let b : Adopted cur s' s'' =
        Adopted-with_proc i (record (proc s' i) { parent_pthread = heir }) s' refl in
      elim (Bool-cases (ptr_eq p.parent_proc (some cur))) [
        | inr e ↦ subst (Adopted cur s) (sym (if_false _ _ e)) (Adopted-refl s)
        | inl e ↦
            subst (Adopted cur s) (sym (if_true _ _ e)) (elim (Bool-cases (is_zombie p.state)) [
              | inl f ↦
                  subst (Adopted cur s) (sym (if_true _ _ f))
                    (Adopted-trans (Adopted-trans a b) (Adopted-wakeup1 (chan_of heir) s''))
              | inr f ↦ subst (Adopted cur s) (sym (if_false _ _ f)) (Adopted-trans a b)
            ])
      ]
    where
      heir_of : Sys W → Option ℕ
      heir_of s' = elim s.initproc [ none ↦ none | some k ↦ (proc s' k).parent_pthread ]

  adopt-Adopted : (n i cur : ℕ) (s : Sys W) → Adopted cur s (adopt n i cur s)
  unfolding adopt
  adopt-Adopted zero i cur s = Adopted-refl s
  adopt-Adopted (suc n) i cur s =
      Adopted-trans (adopt_one-Adopted i cur s) (adopt-Adopted n (i + 1) cur (adopt_one i cur s))

  -- If the caller's slot is in the process table, the locked part of `exit` always ends in the
  -- scheduler and never in the panic of `sched`, with the caller's process a ZOMBIE and every
  -- thread of its process, that of the caller included, a THZOMBIE.
  pub exit_locked-away :
      (n cur : ℕ) (s : Sys W)
      → cur < length s.procs
      → (t : Sys W) × (exit_locked n cur s ≡ away t)
        × ((proc t cur).state ≡ zombie)
        × ((j : ℕ)
            → j < length s.threads
            → (thread s j).pid ≡ (proc s cur).pid
            → (thread t j).state ≡ th_zombie)
  unfolding exit_locked sched
  exit_locked-away n cur s h =
      let s0 = wakeup1 (chan_of (proc s cur).parent_pthread) s in
      let s1 = adopt n 0 cur s0 in
      let a =
        Adopted-trans (Adopted-wakeup1 (chan_of (proc s cur).parent_pthread) s)
          (adopt-Adopted n 0 cur s0) in
      let p = record (proc s1 cur) { state = zombie } in
      let s2 = with_proc s1 cur p in
      let b = get_or-set_self s1.procs cur p blank_proc (omega (arith, h, a.same_length)) in
      let t = record s2 { threads = map (bury (proc s2 cur).pid) s2.threads } in
      (
        t,
        if_false panic (away t) (not_running (proc s2 cur) (ap (λ q. q.state) b)),
        ap (λ q. q.state) b,
        (λ j k e.
            let q = a.same_pids in
            let pid : (get_or s1.threads j blank_thread).pid ≡ (proc s2 cur).pid =
              q.pids j k ∙ e ∙ sym (a.same_pid cur) ∙ sym (ap (λ x. x.pid) b) in
            ap (λ x. x.state)
              (get_or-map (bury (proc s2 cur).pid) s1.threads j (omega (arith, k, q.as_long)))
            ∙ buried (proc s2 cur).pid (get_or s1.threads j blank_thread) pid),
      )
    where
      not_running : (p : Proc) → p.state ≡ zombie → is_running p.state ≡ false
      not_running p e = rw e refl

      buried : (pid : ℕ) (t : Thread) → t.pid ≡ pid → (bury pid t).state ≡ th_zombie
      buried pid t e = let f : (t.pid == pid) ≡ true = ground (arith, e) in rw f refl
