-- ===== src/Mlfq/Invariant/Gentle.antt =====
-- Changes of the process table that no queue notices: `wakeup1`, `kill`, `allocproc`, the adoption
-- of children and the reaping of zombies.
use hyu_ele3021_operating_sy.Prelude.{
  ℕ, zero, suc, ◌+◌, ◌≤◌, ◌≡◌, refl, sym, ap, subst, ◌∙◌, inl, inr, true, some, List, [], ◌∷◌, map,
  arith, Bool-cases, length, get_or, length-set, get_or-set_cases, ℤ,
}
use hyu_ele3021_operating_sy.Mlfq.Queue.{Index}
use hyu_ele3021_operating_sy.Mlfq.Proc.{
  Proc, proc_at, running, blank, Chan, chan_of, ptr_eq, is_zombie,
}
use hyu_ele3021_operating_sy.Mlfq.State.{Sys, proc, with_proc}
use hyu_ele3021_operating_sy.Mlfq.Sleep.{wake, wakeup1, doom, kill_table, kill, is_pid}
use hyu_ele3021_operating_sy.Mlfq.Life.{adopt, adopt_one}
use hyu_ele3021_operating_sy.Mlfq.Invariant.{Inv, can_wait, max_priority}
use hyu_ele3021_operating_sy.Mlfq.Invariant.Dispatch.{Running, AtRest, free, ruled}

-- A process keeps its right to wait, goes on running, and keeps a priority in range.
pub record Keeps (p q : Proc) : Type 0 where
  pub waits : can_wait p.state ≡ true → can_wait q.state ≡ true
  pub runs : p.state ≡ running → q.state ≡ running
  pub rank : p.priority ≤ max_priority → q.priority ≤ max_priority

Keeps-refl : (p : Proc) → Keeps p p
Keeps-refl p = record { waits = λ h. h; runs = λ h. h; rank = λ h. h }

Keeps-trans : {p q r : Proc} → Keeps p q → Keeps q r → Keeps p r
Keeps-trans a b = record {
  waits = λ h. b.waits (a.waits h);
  runs = λ h. b.runs (a.runs h);
  rank = λ h. b.rank (a.rank h);
}

pub record Gentle {W : Type 0} (s t : Sys W) : Type 0 where
  pub queues : t.mlfq ≡ s.mlfq
  pub size : length t.procs ≡ length s.procs
  pub slots : (i : ℕ) → Keeps (proc s i) (proc t i)
  pub dictated : t.is_dictated ≡ s.is_dictated
  pub dictator : t.scheduler_dictator ≡ s.scheduler_dictator

module _ {W : Type 0} where
  pub Gentle-trans : {s t u : Sys W} → Gentle s t → Gentle t u → Gentle s u
  Gentle-trans a b = record {
    queues = b.queues ∙ a.queues;
    size = b.size ∙ a.size;
    slots = λ i. Keeps-trans (a.slots i) (b.slots i);
    dictated = b.dictated ∙ a.dictated;
    dictator = b.dictator ∙ a.dictator;
  }

  pub Gentle-Inv : (held : List Index) {s t : Sys W} → Gentle s t → Inv held s → Inv held t
  Gentle-Inv held g v = record {
    table = g.size ∙ v.table;
    levels = rw g.queues v.levels;
    rings = rw g.queues v.rings;
    out = v.out;
    once = λ i. rw g.queues (v.once i);
    live = λ i h. (g.slots i).waits (v.live i (rw g.queues at h));
    ranks = λ i. (g.slots i).rank (v.ranks i);
  }

  pub Gentle-Running : (cur : ℕ) {s t : Sys W} → Gentle s t → Running cur s → Running cur t
  Gentle-Running cur g r = record {
    inv = Gentle-Inv (some cur ∷ []) g r.inv;
    state = (g.slots cur).runs r.state;
    rule = λ e. g.dictator ∙ r.rule (sym g.dictated ∙ e);
  }

  pub Gentle-AtRest : {s t : Sys W} → Gentle s t → AtRest s → AtRest t
  Gentle-AtRest g (free e v) = free (g.dictated ∙ e) (Gentle-Inv [] g v)
  Gentle-AtRest g (ruled j e d w v) =
      ruled j (g.dictated ∙ e) (g.dictator ∙ d) ((g.slots j).waits w) (Gentle-Inv (some j ∷ []) g v)

  pub Gentle-refl : (s : Sys W) → Gentle s s
  Gentle-refl s = record {
    queues = refl;
    size = refl;
    slots = λ i. Keeps-refl (proc s i);
    dictated = refl;
    dictator = refl;
  }

  -- What else changes does not matter.
  pub Gentle-same :
      {s t : Sys W} (u : Sys W)
      → Gentle s t
      → u.procs ≡ t.procs
      → u.mlfq ≡ t.mlfq
      → u.is_dictated ≡ t.is_dictated
      → u.scheduler_dictator ≡ t.scheduler_dictator
      → Gentle s u
  Gentle-same u g p q d e = record {
    queues = q ∙ g.queues;
    size = ap length p ∙ g.size;
    slots = λ i. rw p (g.slots i);
    dictated = d ∙ g.dictated;
    dictator = e ∙ g.dictator;
  }

  -- A change of one slot.
  pub with_proc-Gentle :
      (s : Sys W) (j : ℕ) (p : Proc) → Keeps (proc s j) p → Gentle s (with_proc s (some j) p)
  with_proc-Gentle s j p k = record {
    queues = refl;
    size = length-set s.procs j p;
    slots = λ i. elim (get_or-set_cases s.procs j i p blank) [
      | inl (e, q) ↦ rw q (subst (λ n. Keeps (proc s n) p) e k)
      | inr q ↦ rw q (Keeps-refl (proc s i))
    ];
    dictated = refl;
    dictator = refl;
  }

  -- A change of the whole table, slot by slot.
  table-Gentle :
      (s : Sys W) (ps : List Proc)
      → length ps ≡ length s.procs
      → ((i : ℕ) → Keeps (proc s i) (proc_at ps (some i)))
      → Gentle s (record s { procs = ps })
  table-Gentle s ps e k = record {
    queues = refl;
    size = e;
    slots = k;
    dictated = refl;
    dictator = refl;
  }

Keeps-wake : (c : Chan) (p : Proc) → Keeps p (wake c p)
Keeps-wake c p = ground arith

Keeps-doom : (p : Proc) → Keeps p (doom p)
Keeps-doom p = ground arith

length-map-wake : (c : Chan) (ps : List Proc) → length (map (wake c) ps) ≡ length ps
length-map-wake c [] = refl
length-map-wake c (p ∷ ps) = ap suc (length-map-wake c ps)

Keeps-map-wake :
    (c : Chan) (ps : List Proc) (i : ℕ)
    → Keeps (get_or ps i blank) (get_or (map (wake c) ps) i blank)
Keeps-map-wake c [] i = Keeps-refl blank
Keeps-map-wake c (p ∷ ps) zero = Keeps-wake c p
Keeps-map-wake c (p ∷ ps) (suc i) = Keeps-map-wake c ps i

length-kill_table : (pid : ℤ) (ps : List Proc) → length (kill_table pid ps).1 ≡ length ps
unfolding kill_table
length-kill_table pid [] = refl
length-kill_table pid (p ∷ ps) = elim (Bool-cases (is_pid pid p.pid)) [
  | inl e ↦ rw e
  | inr e ↦ rw e (ap suc (length-kill_table pid ps))
]

Keeps-kill_table :
    (pid : ℤ) (ps : List Proc) (i : ℕ)
    → Keeps (get_or ps i blank) (get_or (kill_table pid ps).1 i blank)
unfolding kill_table
Keeps-kill_table pid [] i = Keeps-refl blank
Keeps-kill_table pid (p ∷ ps) zero = elim (Bool-cases (is_pid pid p.pid)) [
  | inl e ↦ rw e (Keeps-doom p)
  | inr e ↦ rw e (Keeps-refl p)
]
Keeps-kill_table pid (p ∷ ps) (suc i) = elim (Bool-cases (is_pid pid p.pid)) [
  | inl e ↦ rw e (Keeps-refl (get_or ps i blank))
  | inr e ↦ rw e (Keeps-kill_table pid ps i)
]

module _ {W : Type 0} where
  pub wakeup1-Gentle : (c : Chan) (s : Sys W) → Gentle s (wakeup1 c s)
  unfolding wakeup1
  wakeup1-Gentle c s =
      table-Gentle s (map (wake c) s.procs) (length-map-wake c s.procs) (Keeps-map-wake c s.procs)

  -- `kill` with any pid leaves the queues and the dictator as they were, and no process loses its
  -- right to wait, stops running, or leaves the range of priorities.
  pub kill-Gentle : (pid : ℤ) (s : Sys W) → Gentle s (kill pid s).1
  unfolding kill
  kill-Gentle pid s =
      table-Gentle s (kill_table pid s.procs).1 (length-kill_table pid s.procs)
        (Keeps-kill_table pid s.procs)

  adopt_one-Gentle : (i cur : ℕ) (s : Sys W) → Gentle s (adopt_one i cur s)
  unfolding adopt_one
  adopt_one-Gentle i cur s =
      let p = proc s i in
      let s' = with_proc s (some i) (record p { parent = s.initproc }) in
      let g = with_proc-Gentle s i (record p { parent = s.initproc }) (ground arith) in
      elim (Bool-cases (ptr_eq p.parent (some cur))) [
        | inr other ↦ rw other (Gentle-refl s)
        | inl child ↦ elim (Bool-cases (is_zombie p.state)) [
          | inl dead ↦ rw (child, dead) (Gentle-trans g (wakeup1-Gentle (chan_of s.initproc) s'))
          | inr alive ↦ rw (child, alive) g
        ]
      ]

  pub adopt-Gentle : (n i cur : ℕ) (s : Sys W) → Gentle s (adopt n i cur s)
  unfolding adopt
  adopt-Gentle zero i cur s = Gentle-refl s
  adopt-Gentle (suc n) i cur s =
      Gentle-trans (adopt_one-Gentle i cur s) (adopt-Gentle n (i + 1) cur (adopt_one i cur s))
