-- ===== src/Mlfq/Count.antt =====
-- The entries of all levels together, counted slot by slot.
mod Occurs
pub use Occurs.*
use hyu_ele3021_operating_sy.Prelude.{
  ℕ, zero, suc, ◌+◌, ◌≤◌, ◌<◌, ◌≡◌, refl, ap, List, [], ◌∷◌, ◌++◌, arith, length, length-append,
  get_or, set,
}
use hyu_ele3021_operating_sy.Mlfq.Queue.{Fq, Index, nproc, push_back, empty_fq}
use hyu_ele3021_operating_sy.Mlfq.Queue.Refine.{
  contents, IsRing, push_back-IsRing, contents-push_back, length-contents,
}

-- A ring whose entries are slots of the process table.
abbrev pub Fine : Fq → Type 0
Fine q = IsRing q × Inside nproc (contents q)

abbrev pub AllFine : List Fq → Type 0
AllFine [] = Unit {0}
AllFine (q ∷ qs) = Fine q × AllFine qs

pub AllFine-get :
    (qs : List Fq) (lv : ℕ) → lv < length qs → AllFine qs → Fine (get_or qs lv empty_fq)
AllFine-get [] lv h a = elim h [ ]
AllFine-get (q ∷ qs) zero h a = a.0
AllFine-get (q ∷ qs) (suc lv) h a = AllFine-get qs lv (omega arith) a.1

pub AllFine-set : (qs : List Fq) (lv : ℕ) (q : Fq) → AllFine qs → Fine q → AllFine (set qs lv q)
AllFine-set [] lv q a f = tt
AllFine-set (p ∷ qs) zero q a f = (f, a.1)
AllFine-set (p ∷ qs) (suc lv) q a f = (a.0, AllFine-set qs lv q a.1 f)

-- How often slot `i` stands in the queues.
abbrev pub total : ℕ → List Fq → ℕ
total i [] = 0
total i (q ∷ qs) = occurs i (contents q) + total i qs

pub total-set :
    (i : ℕ) (qs : List Fq) (lv : ℕ) (q : Fq)
    → lv < length qs
    → total i (set qs lv q) + occurs i (contents (get_or qs lv empty_fq))
      ≡ total i qs + occurs i (contents q)
total-set i [] lv q h = elim h [ ]
total-set i (p ∷ qs) zero q h = omega arith
total-set i (p ∷ qs) (suc lv) q h = omega (arith, total-set i qs lv q (omega arith))

-- All entries, level by level.
abbrev entries : List Fq → List Index
entries [] = []
entries (q ∷ qs) = contents q ++ entries qs

occurs-entries : (i : ℕ) (qs : List Fq) → occurs i (entries qs) ≡ total i qs
occurs-entries i [] = refl
occurs-entries i (q ∷ qs) =
    omega (arith, occurs-append i (contents q) (entries qs), occurs-entries i qs)

Inside-entries : (qs : List Fq) → AllFine qs → Inside nproc (entries qs)
Inside-entries [] a = tt
Inside-entries (q ∷ qs) a =
    Inside-append nproc (contents q) (entries qs) a.0.1 (Inside-entries qs a.1)

size-le-entries :
    (qs : List Fq) (lv : ℕ) → lv < length qs → (get_or qs lv empty_fq).size ≤ length (entries qs)
size-le-entries [] lv h = elim h [ ]
size-le-entries (q ∷ qs) zero h =
    omega (arith, length-append (contents q) (entries qs), length-contents q)
size-le-entries (q ∷ qs) (suc lv) h =
    omega (arith, length-append (contents q) (entries qs), size-le-entries qs lv (omega arith))

-- While no slot stands in two places, and the processes of `held` stand in no queue, every queue
-- has room for all of these.
pub room :
    (held : List Index) (qs : List Fq) (lv : ℕ)
    → lv < length qs
    → AllFine qs
    → Inside nproc held
    → ((i : ℕ) → total i qs + occurs i held ≤ 1)
    → (get_or qs lv empty_fq).size + length held ≤ nproc
room held qs lv h a out once =
    let le =
      length-le_of_once nproc (held ++ entries qs)
        (Inside-append nproc held (entries qs) out (Inside-entries qs a))
        (λ i. omega (arith, once i, occurs-append i held (entries qs), occurs-entries i qs)) in
    omega (arith, le, length-append held (entries qs), size-le-entries qs lv h)

-- `enQ` of a slot, while there is room.
pub push_back-Fine :
    (q : Fq) (x : Index) → Fine q → q.size < nproc → IsSlot nproc x → Fine (push_back q x)
push_back-Fine q x f r s = (
  push_back-IsRing q x f.0 r,
  rw (contents-push_back q x f.0 r) (Inside-append nproc (contents q) (x ∷ []) f.1 (s, tt)),
)

pub occurs-push_back :
    (i : ℕ) (q : Fq) (x : Index)
    → IsRing q
    → q.size < nproc
    → occurs i (contents (push_back q x)) ≡ occurs i (contents q) + hit i x
occurs-push_back i q x v r =
    omega (arith, ap (occurs i) (contents-push_back q x v r), occurs-append i (contents q) (x ∷ []))
