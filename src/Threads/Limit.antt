-- ===== src/Threads/Limit.antt =====
-- Project02-Thread/proc.c: `setmemorylimit` and `growproc`.
pub mod Bound
use hyu_ele3021_operating_sy.Prelude.{
  ℕ, zero, suc, Bool, true, false, not, ◌&&◌, Option, none, some, List, [], ◌∷◌, ltb, ◌==◌,
  if◌then◌else◌, ℤ, pos, negsuc,
}
use hyu_ele3021_operating_sy.Mlfq.Sleep.{is_pid}
use hyu_ele3021_operating_sy.Threads.Table.{Proc, Sys, proc, with_proc}
use hyu_ele3021_operating_sy.Threads.Vm.{Vm, add_int}

-- The loop over the table; false for -1.
unfoldable pub limit_table : ℤ → ℕ → List Proc → Bool × List Proc
limit_table pid limit [] = (false, [])
limit_table pid limit (p ∷ ps) =
    let (done, ps') = limit_table pid limit ps in
    if is_pid pid p.pid
    then (if ltb limit p.sz then (false, p ∷ ps) else (true, record p { memlimit = limit } ∷ ps))
    else (done, p ∷ ps')

unfoldable pub setmemorylimit : {W : Type 0} → ℤ → ℤ → Sys W → Bool × Sys W
unfolding limit_table
setmemorylimit pid (negsuc n) s = (false, s)
setmemorylimit pid (pos limit) s =
    let (done, ps) = limit_table pid limit s.procs in (done, record s { procs = ps })

-- Does a size exceed the limit of the process?
abbrev pub exceeds : Proc → ℕ → Bool
exceeds p sz = not (p.memlimit == 0) && ltb p.memlimit sz

module _ (v : Vm) where
  open v use {World, allocuvm, deallocuvm}

  unfoldable pub resize : ℤ → Proc → World → ℕ × World
  resize (pos zero) p w = (p.sz, w)
  resize (pos (suc m)) p w = allocuvm p.pgdir p.sz (add_int p.sz (pos (suc m))) w
  resize (negsuc m) p w = deallocuvm p.pgdir p.sz (add_int p.sz (negsuc m)) w

  -- The old size, or `none` for -1.
  unfoldable pub growproc : ℤ → ℕ → Sys World → Option ℕ × Sys World
  unfolding resize
  growproc n cur s =
      let p = proc s cur in
      let (sz, w) = resize n p s.world in
      let failed : Bool = elim n [ pos zero ↦ false | _ ↦ sz == 0 ] in
      if exceeds p (add_int p.sz n)
      then (none, s)
      else (if failed
          then (none, record s { world = w })
          else (some p.sz, record (with_proc s cur (record p { sz = sz })) { world = w }))
