-- ===== src/Threads/Limit/Bound.antt =====
-- The memory limit of each process holds.
use hyu_ele3021_operating_sy.Prelude.{
  if_true, if_false, ℕ, zero, suc, ◌≤◌, ◌<◌, ◌≡◌, sym, subst, ◌⊎◌, inl, inr, false, Option, List,
  [], ◌∷◌, arith, ltb, ◌==◌, Bool-cases, get_or, get_or-set_cases, ℤ, pos, negsuc,
}
use hyu_ele3021_operating_sy.Mlfq.Sleep.{is_pid}
use hyu_ele3021_operating_sy.Threads.Table.{Proc, Sys, proc, with_proc, blank_proc}
use hyu_ele3021_operating_sy.Threads.Vm.{Vm, Sizes, kernbase, add_int}
use hyu_ele3021_operating_sy.Threads.Paging.{Pages, paged}
use hyu_ele3021_operating_sy.Threads.Paging.Sized.{paged-Sizes}
use hyu_ele3021_operating_sy.Threads.Limit.{limit_table, setmemorylimit, exceeds, resize, growproc}

-- The process stays within its limit, if it has one, and below the kernel.
pub record Within (p : Proc) : Type 0 where
  pub limit : (p.memlimit ≡ 0) ⊎ (p.sz ≤ p.memlimit)
  pub low : p.sz < kernbase

abbrev pub AllWithin : {W : Type 0} → Sys W → Type 0
AllWithin s = (i : ℕ) → Within (proc s i)

-- One process changes.
pub with_proc-AllWithin :
    {W : Type 0} (s : Sys W) (i : ℕ) (p : Proc)
    → AllWithin s
    → Within p
    → AllWithin (with_proc s i p)
with_proc-AllWithin s i p a w k = elim (get_or-set_cases s.procs i k p blank_proc) [
  | inl (_, e) ↦ rw e w
  | inr e ↦ rw e (a k)
]

limit_table-Within :
    (pid : ℤ) (limit : ℕ) (ps : List Proc)
    → ((i : ℕ) → Within (get_or ps i blank_proc))
    → (i : ℕ) → Within (get_or (limit_table pid limit ps).1 i blank_proc)
unfolding limit_table
limit_table-Within pid limit [] a i = a i
limit_table-Within pid limit (p ∷ ps) a zero =
    let w = a zero in
    elim (Bool-cases (is_pid pid p.pid)) [
      | inr e ↦ rw e w
      | inl e ↦ elim (Bool-cases (ltb limit p.sz)) [
        | inl k ↦ rw (e, k) w
        | inr k ↦ rw (e, k) (record { limit = inr (ground arith); low = w.low })
      ]
    ]
limit_table-Within pid limit (p ∷ ps) a (suc i) =
    let w = a (suc i) in
    elim (Bool-cases (is_pid pid p.pid)) [
      | inr e ↦ rw e (limit_table-Within pid limit ps (λ j. a (suc j)) i)
      | inl e ↦ elim (Bool-cases (ltb limit p.sz)) [ inl k ↦ rw (e, k) w | inr k ↦ rw (e, k) w ]
    ]

-- `setmemorylimit` keeps every process within its limit.
pub setmemorylimit-AllWithin :
    {W : Type 0} (pid limit : ℤ) (s : Sys W)
    → AllWithin s
    → AllWithin (setmemorylimit pid limit s).1
unfolding setmemorylimit
setmemorylimit-AllWithin pid (negsuc n) s a = a
setmemorylimit-AllWithin pid (pos n) s a = limit_table-Within pid n s.procs a

exceeds_not : (p : Proc) (sz : ℕ) → exceeds p sz ≡ false → (p.memlimit ≡ 0) ⊎ (sz ≤ p.memlimit)
exceeds_not p sz h = ground arith

module _ (v : Vm) (sizes : Sizes v) where
  open v use {World}

  resize-Within :
      (n : ℤ) (p : Proc) (w : World)
      → Within p
      → exceeds p (add_int p.sz n) ≡ false
      → Within (record p { sz = (resize v n p w).0 })
  unfolding resize
  resize-Within (pos zero) p w a h = a
  resize-Within (pos (suc m)) p w a h =
      let new = add_int p.sz (pos (suc m)) in
      let b = exceeds_not p new h in
      elim (sizes.grown p.pgdir p.sz new w) [
        | inl (e, k) ↦ record { limit = rw e b; low = rw e k }
        | inr (inl e) ↦ record { limit = inr (rw e (omega arith)); low = rw e (omega arith) }
        | inr (inr (e, k)) ↦ record { limit = rw e a.limit; low = rw e a.low }
      ]
  resize-Within (negsuc m) p w a h =
      let new = add_int p.sz (negsuc m) in
      let b = exceeds_not p new h in
      elim (sizes.shrunk p.pgdir p.sz new w) [
        | inl (e, k) ↦ record { limit = rw e b; low = rw e (omega (arith, a.low, k)) }
        | inr (e, k) ↦ record { limit = rw e a.limit; low = rw e a.low }
      ]

  -- `growproc` over functions that return these sizes keeps every process within its limit.
  pub growproc-AllWithin :
      (n : ℤ) (cur : ℕ) (s : Sys World) → AllWithin s → AllWithin (growproc v n cur s).1
  unfolding growproc
  growproc-AllWithin n cur s a =
      elim (Bool-cases (exceeds (proc s cur) (add_int (proc s cur).sz n))) [
        | inl e ↦ subst (λ (r : Option ℕ × Sys World). AllWithin r.1) (sym (if_true _ _ e)) a
        | inr e ↦
            subst (λ (r : Option ℕ × Sys World). AllWithin r.1) (sym (if_false _ _ e))
              (elim (Bool-cases (elim n [ pos zero ↦ false | _ ↦ r.0 == 0 ])) [
                | inl f ↦
                    subst (λ (r : Option ℕ × Sys World). AllWithin r.1) (sym (if_true _ _ f)) a
                | inr f ↦
                    subst (λ (r : Option ℕ × Sys World). AllWithin r.1) (sym (if_false _ _ f))
                      (with_proc-AllWithin s cur (record (proc s cur) { sz = r.0 }) a
                        (resize-Within n (proc s cur) s.world (a cur) e))
              ])
      ]
    where
      r : ℕ × World
      r = resize v n (proc s cur) s.world

-- Whatever the page tables do, `growproc` by any signed amount keeps every process within its
-- memory limit, where it has one, and below the kernel.
pub growproc-AllWithin-paged :
    (v : Vm) (g : Pages v) (n : ℤ) (cur : ℕ) (s : Sys v.World)
    → AllWithin s
    → AllWithin (growproc (paged v g) n cur s).1
growproc-AllWithin-paged v g n cur s = growproc-AllWithin (paged v g) (paged-Sizes v g) n cur s
