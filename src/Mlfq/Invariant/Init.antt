-- ===== src/Mlfq/Invariant/Init.antt =====
-- The state at boot, and `userinit`.
use hyu_ele3021_operating_sy.Prelude.{
  if_true, if_false, ℕ, zero, suc, ◌<◌, ◌≡◌, refl, sym, ap, subst, ◌∙◌, inl, inr, false, Option,
  none, some, [], arith, ◌==◌, Bool-cases, get_or, replicate, length-replicate,
}
use hyu_ele3021_operating_sy.Mlfq.Queue.{nproc}
use hyu_ele3021_operating_sy.Mlfq.Queue.Refine.{empty_fq-IsRing}
use hyu_ele3021_operating_sy.Mlfq.Proc.{Proc, blank, embryo}
use hyu_ele3021_operating_sy.Mlfq.Kernel.{Kernel}
use hyu_ele3021_operating_sy.Mlfq.State.{Sys, proc, with_proc, en_q, boot}
use hyu_ele3021_operating_sy.Mlfq.Life.{allocproc, first_proc, userinit, admit}
use hyu_ele3021_operating_sy.Mlfq.Invariant.{Inv, Inv-same}
use hyu_ele3021_operating_sy.Mlfq.Invariant.Dispatch.{AtRest, free}
use hyu_ele3021_operating_sy.Mlfq.Invariant.Gentle.{Gentle-Inv}
use hyu_ele3021_operating_sy.Mlfq.Invariant.Life.{Alloc, refused, made, allocproc-Alloc, admit-Inv}

get_or-replicate-blank : (n i : ℕ) → get_or (replicate n blank) i blank ≡ blank
get_or-replicate-blank zero i = refl
get_or-replicate-blank (suc n) zero = refl
get_or-replicate-blank (suc n) (suc i) = get_or-replicate-blank n i

-- Nothing is queued at boot.
pub boot-Inv : {W : Type 0} (w : W) → Inv [] (boot w)
boot-Inv w = record {
  table = length-replicate nproc blank;
  levels = refl;
  rings = ((empty_fq-IsRing, tt), ((empty_fq-IsRing, tt), ((empty_fq-IsRing, tt), tt)));
  out = tt;
  once = λ i. omega arith;
  live = λ i h. absurd (omega (arith, h));
  ranks = λ i. rw (get_or-replicate-blank nproc i) (omega arith);
}

module _ (k : Kernel) where
  open k use {World, setupkvm, inituvm, root_inode}

  userinit_eq : (s : Sys World) → userinit k s ≡ first_proc k (allocproc k s).0 (allocproc k s).1
  unfolding userinit
  userinit_eq s = refl

  first_proc-AtRest :
      (i : ℕ) (s t : Sys World)
      → s.is_dictated ≡ false
      → Inv [] s
      → i < nproc
      → (proc s i).state ≡ embryo
      → first_proc k (some i) s ≡ some t
      → AtRest t
  unfolding first_proc
  first_proc-AtRest i s t d v h u e = elim (Bool-cases ((setupkvm s.world).0 == 0)) [
    | inl z ↦ absurd (option_differ (sym (if_true _ _ z) ∙ e))
    | inr z ↦ subst AtRest (inside (sym (if_false _ _ z) ∙ e)) (
        free (dictated-en_q (record (with_proc s' (some i) (admit p)) { world = w }) ∙ d)
          (admit-Inv k [] i s' p w (Inv-same [] s s' v refl refl) h u refl))
  ]
    where
      s' : Sys World
      s' = record s { initproc = some i }

      r : ℕ × World
      r = root_inode (inituvm (setupkvm s.world).0 (setupkvm s.world).1)

      w : World
      w = r.1

      p : Proc
      p = record (proc s i) { pgdir = (setupkvm s.world).0; sz = 4096; cwd = r.0 }

      inside : {a b : Sys World} → some a ≡ some b → a ≡ b
      inside z = cc

      option_differ : {a : Sys World} → none ≡ some a → ⊥
      option_differ z = cc

      dictated-en_q : (t : Sys World) → (en_q 0 (some i) t).is_dictated ≡ t.is_dictated
      dictated-en_q t = unfold en_q in refl

  first_proc-none : (s : Sys World) → first_proc k none s ≡ none
  unfolding first_proc
  first_proc-none s = refl

  -- If `userinit` succeeds in a state with nobody dictating in which the invariant holds, it leaves
  -- the scheduler at rest.
  pub userinit-AtRest :
      (s t : Sys World) → s.is_dictated ≡ false → Inv [] s → userinit k s ≡ some t → AtRest t
  userinit-AtRest s t d v e = step (allocproc-Alloc k s) (sym (userinit_eq s) ∙ e)
    where
      a : Option ℕ × Sys World
      a = allocproc k s

      step : Alloc k s a → first_proc k a.0 a.1 ≡ some t → AtRest t
      step (refused z g) f =
          absurd (differ (sym (first_proc-none a.1) ∙ ap (λ o. first_proc k o a.1) (sym z) ∙ f))
        where
          differ : none ≡ some t → ⊥
          differ q = cc
      step (made i z h em un g) f =
          first_proc-AtRest i a.1 t (g.dictated ∙ d) (Gentle-Inv [] g v) (omega (arith, h, v.table))
            em (ap (λ o. first_proc k o a.1) (sym z) ∙ f)
