-- ===== src/Threads/Join/Found.antt =====
-- Which thread `thread_join` joins, and what becomes of its slot and of its stack; how `thread_exit`
-- ends.
use hyu_ele3021_operating_sy.Prelude.{
  if_true, if_false, ℕ, zero, suc, ◌+◌, ◌≤◌, ◌<◌, ◌≡◌, refl, sym, ap, subst, ◌∙◌, ◌≢◌, ◌⊎◌, inl,
  inr, Bool, true, false, ◌&&◌, ◌||◌, List, [], ◌∷◌, map, arith, ◌==◌, Bool-cases, length, get_or,
  get_or-set_self, get_or-set_ne, none, set, ◌%◌, pos,
}
use mathlib.Core.Bool.{false≢true}
use hyu_ele3021_operating_sy.Prelude.{from_next, or_false, and_true, and_false}
use hyu_ele3021_operating_sy.Mlfq.Proc.{null, Chan, chan_of, chan_eq}
use hyu_ele3021_operating_sy.Mlfq.Sleep.{is_pid}
use hyu_ele3021_operating_sy.Threads.Table.{
  Thread, Proc, Sys, proc, with_proc, thread, with_thread, running, is_running, is_th_zombie,
  is_sleeping, unused, th_zombie, main_th, nthrd, blank_proc, blank_thread,
}
use hyu_ele3021_operating_sy.Threads.Vm.{Vm, stack_start}
use hyu_ele3021_operating_sy.Threads.Switch.{away, panic, sched, wakeup1, wake}
use hyu_ele3021_operating_sy.Threads.Kill.{kill, kill_table, doomed}
use hyu_ele3021_operating_sy.Threads.Join.{
  push_stack, Joined, joined, refused, waits, is_wanted, collect, join_scan, thread_join,
  thread_exit,
}

module _ (v : Vm) where
  open v use {World}

  -- Slot `j` holds a thread that the caller may join.
  abbrev pub Wanted : ℕ → ℕ → Sys World → ℕ → Type 0
  Wanted id cur s j = is_wanted id (proc s cur) s.threads (thread s j) ≡ true

  abbrev pub Ready : ℕ → ℕ → Sys World → ℕ → Type 0
  Ready id cur s j = Wanted id cur s j × (is_th_zombie (thread s j).state ≡ true)

  -- Slot `j` is blank but for its trap frame and value, and the queue of freed stacks of process `cur`
  -- has the start of its stack at the back.
  pub record Collected (j cur : ℕ) (s t : Sys World) : Type 0 where
    pub slot : thread t j ≡ record (thread s j) {
      th_sz = 0;
      pid = 0;
      kstack = 0;
      state = unused;
      chan = null;
      ptable_idx = 0;
      thread_id = 0;
      joiner_pthread = none;
    }
    pub threads_kept : (l : ℕ) → j ≢ l → thread t l ≡ thread s l
    pub stack :
        (let p = proc s cur in
          proc t cur ≡ record p {
            freed_sz = set p.freed_sz p.back (stack_start (thread s j).th_sz p.stacksz);
            back = (p.back + 1) % nthrd;
            freed = p.freed + 1;
          })
    pub procs_kept : (l : ℕ) → cur ≢ l → proc t l ≡ proc s l

  collect-Collected :
      (j cur : ℕ) (s : Sys World)
      → j < length s.threads
      → cur < length s.procs
      → Collected j cur s (collect v j cur s)
  unfolding collect push_stack
  collect-Collected j cur s h k = record {
    slot = get_or-set_self s.threads j _ blank_thread h;
    threads_kept = λ l n. get_or-set_ne s.threads j l _ blank_thread n;
    stack = get_or-set_self s.procs cur _ blank_proc k;
    procs_kept = λ l n. get_or-set_ne s.procs cur l _ blank_proc n;
  }

  -- What `thread_join` says of the slots from `i` up to `e`, with one seen before if `kids` holds.
  pub data Scanned (i e id cur : ℕ) (kids : Bool) (s : Sys World) (r : Joined World) : Type 0 where
    one :
        (j : ℕ) (t : Sys World)
        → i ≤ j
        → j < e
        → Ready id cur s j
        → ((l : ℕ) → i ≤ l → l < j → ¬ Ready id cur s l)
        → r ≡ joined (thread s j).retval t
        → Collected j cur s t
        → Scanned i e id cur kids s r
    nobody :
        kids ≡ false
        → ((l : ℕ) → i ≤ l → l < e → ¬ Wanted id cur s l)
        → r ≡ refused s
        → Scanned i e id cur kids s r
    stopped :
        ((l : ℕ) → i ≤ l → l < e → ¬ Ready id cur s l)
        → (proc s cur).killed ≡ true
        → r ≡ refused s
        → Scanned i e id cur kids s r
    sleeps :
        ((l : ℕ) → i ≤ l → l < e → ¬ Ready id cur s l)
        → (kids ≡ true) ⊎ ((l : ℕ) × (i ≤ l) × (l < e) × Wanted id cur s l)
        → (proc s cur).killed ≡ false
        → r ≡ waits s
        → Scanned i e id cur kids s r

  Scanned-next :
      (i e id cur : ℕ) (kids : Bool) (s : Sys World) (r : Joined World)
      → i < e
      → ¬ Ready id cur s i
      → Scanned (i + 1) e id cur (is_wanted id (proc s cur) s.threads (thread s i) || kids) s r
      → Scanned i e id cur kids s r
  Scanned-next i e id cur kids s r h miss (one j t a b z f q x) =
      one j t (omega arith) b z (from_next i j miss f) q x
  Scanned-next i e id cur kids s r h miss (nobody x f q) =
      nobody ((or_false _ kids x).1)
        (from_next i e (λ y. false≢true (sym ((or_false _ kids x).0) ∙ y)) f) q
  Scanned-next i e id cur kids s r h miss (stopped f d q) = stopped (from_next i e miss f) d q
  Scanned-next i e id cur kids s r h miss (sleeps f (inr (l, a, b, c)) d q) =
      sleeps (from_next i e miss f) (inr (l, omega arith, b, c)) d q
  Scanned-next i e id cur kids s r h miss (sleeps f (inl x) d q) =
      elim (Bool-cases (is_wanted id (proc s cur) s.threads (thread s i))) [
        | inl c ↦ sleeps (from_next i e miss f) (inr (i, omega arith, h, c)) d q
        | inr c ↦ sleeps (from_next i e miss f) (inl (rest _ kids c x)) d q
      ]
    where
      rest : (a b : Bool) → a ≡ false → (a || b) ≡ true → b ≡ true
      rest a b h k = ground arith

  join_scan-Scanned :
      (n i e id cur : ℕ) (kids : Bool) (s : Sys World)
      → i + n ≡ e
      → e ≤ length s.threads
      → cur < length s.procs
      → Scanned i e id cur kids s (join_scan v n i id cur kids s)
  unfolding join_scan
  join_scan-Scanned zero i e id cur false s h l c = nobody refl (λ l a b. absurd (omega arith)) refl
  join_scan-Scanned zero i e id cur true s h l c = elim (Bool-cases (proc s cur).killed) [
    | inl d ↦ stopped (λ l a b. absurd (omega arith)) d (rw d)
    | inr d ↦ sleeps (λ l a b. absurd (omega arith)) (inl refl) d (rw d)
  ]
  join_scan-Scanned (suc n) i e id cur kids s h l c =
      let t = thread s i in
      let wanted = is_wanted id (proc s cur) s.threads t in
      let ih = join_scan-Scanned n (i + 1) e id cur (wanted || kids) s (omega arith) l c in
      elim (Bool-cases (wanted && is_th_zombie t.state)) [
        | inl z ↦
            one i (collect v i cur s) (omega arith) (omega arith)
              (and_true wanted (is_th_zombie t.state) z) (λ l a b. absurd (omega arith))
              (if_true _ _ z) (collect-Collected i cur s (omega arith) c)
        | inr z ↦ subst (Scanned i e id cur kids s) (sym (if_false _ _ z)) (
            Scanned-next i e id cur kids s _ (omega arith)
              (λ c. and_false wanted (is_th_zombie t.state) z c) ih)
      ]

  -- If the process table has the caller's slot and the thread table all its slots, a turn of
  -- `thread_join` fails at once for the id of a main thread. For another id it joins the first slot
  -- of the table with a thread of the caller's process that has this id, was created by a thread
  -- with the caller's id and has ended: it returns that thread's value, makes the slot UNUSED with
  -- its ids, stacks, channel and creator cleared, puts the start of the thread's stack at the back
  -- of the caller's queue of freed stacks, and leaves the other slots of both tables as they were.
  -- If there is none it fails when no slot has such a thread, or when the caller is killed, and
  -- otherwise sleeps; a turn that fails or sleeps changes nothing.
  pub thread_join-Scanned :
      (id cur : ℕ) (s : Sys World)
      → nthrd ≤ length s.threads
      → cur < length s.procs
      → ((id ≡ main_th) × (thread_join v id cur s ≡ refused s))
        ⊎ ((id ≢ main_th) × Scanned 0 nthrd id cur false s (thread_join v id cur s))
  unfolding thread_join
  thread_join-Scanned id cur s l c = elim (Bool-cases (id == main_th)) [
    | inl e ↦ inl (ground arith, if_true _ _ e)
    | inr e ↦ inr (
      (λ q. ground (arith, q, e)),
      subst (Scanned 0 nthrd id cur false s) (sym (if_false _ _ e))
          (join_scan-Scanned nthrd 0 nthrd id cur false s refl l c),
    )
  ]

kill_first :
    (pid : ℕ) (ps : List Proc) (i : ℕ)
    → is_running (get_or ps i blank_proc).state ≡ true
    → is_running (get_or (kill_table (pos pid) ps).1 i blank_proc).state ≡ true
unfolding kill_table
kill_first pid [] i h = h
kill_first pid (p ∷ ps) zero h = elim (Bool-cases (is_pid (pos pid) p.pid)) [
  | inl e ↦ rw e (keeps p h)
  | inr e ↦ rw e h
]
  where
    keeps : (p : Proc) → is_running p.state ≡ true → is_running (doomed p).state ≡ true
    keeps p h = ground arith
kill_first pid (p ∷ ps) (suc i) h = elim (Bool-cases (is_pid (pos pid) p.pid)) [
  | inl e ↦ rw e h
  | inr e ↦ rw e (kill_first pid ps i h)
]

not_running : (p : Proc) → p.state ≡ th_zombie → is_running p.state ≡ false
not_running p e = rw e refl

map-wake-retval :
    (c : Chan) (ts : List Thread) (j : ℕ)
    → (get_or (map (wake c) ts) j blank_thread).retval ≡ (get_or ts j blank_thread).retval
map-wake-retval c [] j = refl
map-wake-retval c (t ∷ ts) zero = elim (Bool-cases (is_sleeping t.state && chan_eq t.chan c)) [
  | inl e ↦ rw e refl
  | inr e ↦ rw e refl
]
map-wake-retval c (t ∷ ts) (suc j) = map-wake-retval c ts j

module _ {W : Type 0} where
  kill-running :
      (pid i : ℕ) (s : Sys W)
      → is_running (proc s i).state ≡ true
      → is_running (proc (kill (pos pid) s).1 i).state ≡ true
  unfolding kill
  kill-running pid i s h = elim (Bool-cases (kill_table (pos pid) s.procs).0) [
    | inl e ↦ rw e (kill_first pid s.procs i h)
    | inr e ↦ rw e h
  ]

  -- If a main thread that runs calls `thread_exit`, it always ends in the panic of `sched`.
  pub thread_exit-panic :
      (retval cur : ℕ) (s : Sys W)
      → (proc s cur).thread_id ≡ main_th
      → (proc s cur).state ≡ running
      → thread_exit retval cur s ≡ panic
  unfolding thread_exit sched wakeup1
  thread_exit-panic retval cur s m r =
      let main : ((proc s cur).thread_id == main_th) ≡ true = ground arith in
      rw main (if_true _ _ (kill-running (proc s cur).pid cur s (rw r refl)))

  -- Another thread ends in the scheduler as a THZOMBIE, with its value stored.
  pub thread_exit-away :
      (retval cur : ℕ) (s : Sys W)
      → (proc s cur).thread_id ≢ main_th
      → cur < length s.procs
      → (proc s cur).thread_idx < length s.threads
      → (t : Sys W) × (thread_exit retval cur s ≡ away t)
        × ((proc t cur).state ≡ th_zombie)
        × ((thread t (proc s cur).thread_idx).retval ≡ retval)
  unfolding thread_exit sched wakeup1
  thread_exit-away retval cur s m h k =
      let p = proc s cur in
      let j = p.thread_idx in
      let other : (p.thread_id == main_th) ≡ false = ground (arith, m) in
      let p' = record p { state = th_zombie } in
      let s1 = with_proc (with_thread s j (record (thread s j) { retval = retval })) cur p' in
      let c = chan_of (proc s1 cur).joiner_pthread in
      let e : proc s1 cur ≡ p' = get_or-set_self s.procs cur p' blank_proc h in
      let f =
        get_or-set_self s.threads j (record (thread s j) { retval = retval }) blank_thread k in
      (
        wakeup1 c s1,
        rw other (
            if_false panic (away (wakeup1 c s1)) (not_running (proc s1 cur) (ap (λ q. q.state) e))),
        ap (λ q. q.state) e,
        map-wake-retval c s1.threads j ∙ ap (λ q. q.retval) f,
      )
