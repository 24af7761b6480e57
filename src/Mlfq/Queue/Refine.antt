-- ===== src/Mlfq/Queue/Refine.antt =====
-- A valid ring holds a sequence of at most `nproc` indices: `enQ` appends to it and `deQ` takes
-- its head.
use hyu_ele3021_operating_sy.Prelude.{
  ℕ, zero, suc, ◌+◌, ◌-◌, ◌%◌, ◌≤◌, ◌<◌, ◌≡◌, ◌≢◌, refl, ap, ap₂, ◌∙◌, none, List, [], ◌∷◌, ◌++◌,
  arith, length, length-set, get_or, get_or-set_self, get_or-set_ne, set,
}
use hyu_ele3021_operating_sy.Mlfq.Queue.{Fq, Index, nproc, push_back, pop_front, empty_fq}

-- The `n` entries from position `h` on, going round at `nproc`.
abbrev window : List Index → ℕ → ℕ → List Index
window buf h zero = []
window buf h (suc n) = get_or buf h none ∷ window buf ((h + 1) % nproc) n

-- The abstract queue, oldest entry first.
abbrev pub contents : Fq → List Index
contents q = window q.proc_idx q.front q.size

pub record IsRing (q : Fq) : Type 0 where
  pub storage : length q.proc_idx ≡ nproc
  pub front_in : q.front < nproc
  pub size_in : q.size ≤ nproc
  pub back_at : q.back ≡ (q.front + q.size) % nproc

length-window : (buf : List Index) (h n : ℕ) → length (window buf h n) ≡ n
length-window buf h zero = refl
length-window buf h (suc n) = ap suc (length-window buf ((h + 1) % nproc) n)

pub length-contents : (q : Fq) → length (contents q) ≡ q.size
length-contents q = length-window q.proc_idx q.front q.size

-- `window` matches on `suc`, the code tests `size == 0`.
window_of_ne_zero :
    (buf : List Index) (h n : ℕ)
    → n ≢ 0
    → window buf h n ≡ get_or buf h none ∷ window buf ((h + 1) % nproc) (n - 1)
window_of_ne_zero buf h zero p = absurd (p refl)
window_of_ne_zero buf h (suc n) p = ap (λ k. window buf h (suc k)) (omega arith)

-- Writing just past a window extends it.
window-set :
    (buf : List Index) (x : Index) (n h i : ℕ)
    → length buf ≡ nproc
    → h < nproc
    → n < nproc
    → i ≡ (h + n) % nproc
    → window (set buf i x) h (suc n) ≡ window buf h n ++ (x ∷ [])
window-set buf x zero h i hs hh hn e =
    let e' : i ≡ h = omega arith in
    rw e' (ap (λ y. y ∷ []) (get_or-set_self buf h x none (omega arith)))
window-set buf x (suc n) h i hs hh hn e =
    ap₂ ◌∷◌ (get_or-set_ne buf i h x none (omega arith))
      (window-set buf x n ((h + 1) % nproc) i hs (omega arith) (omega arith) (omega arith))

pub push_back-IsRing : (q : Fq) (x : Index) → IsRing q → q.size < nproc → IsRing (push_back q x)
unfolding push_back
push_back-IsRing q x v room = record {
  storage = length-set q.proc_idx q.back x ∙ v.storage;
  front_in = v.front_in;
  size_in = omega arith;
  back_at = omega arith;
}

-- On a well-formed queue with fewer than `NPROC` entries `enQ` adds the entry behind the others.
pub contents-push_back :
    (q : Fq) (x : Index)
    → IsRing q
    → q.size < nproc
    → contents (push_back q x) ≡ contents q ++ (x ∷ [])
unfolding push_back
contents-push_back q x v room =
    let e : q.size + 1 ≡ suc q.size = omega arith in
    rw e (window-set q.proc_idx x q.size q.front q.back v.storage v.front_in room v.back_at)

-- On a well-formed queue with `NPROC` entries `enQ` overwrites the oldest entry and counts one
-- entry more than the array holds.
pub push_back_full :
    (q : Fq) (x : Index)
    → IsRing q
    → q.size ≡ nproc
    → (get_or (push_back q x).proc_idx q.front none ≡ x) × ((push_back q x).size ≡ nproc + 1)
unfolding push_back
push_back_full q x v full =
    let e : q.back ≡ q.front = omega arith in
    (rw e (get_or-set_self q.proc_idx q.front x none (omega arith)), omega arith)

pub pop_front-IsRing : (q : Fq) → IsRing q → IsRing (pop_front q).1
unfolding pop_front
pop_front-IsRing q v = ground arith

-- `deQ` returns -1 and changes nothing on an empty queue; otherwise it splits off the oldest entry.
pop_front_nil : (q : Fq) → contents q ≡ [] → pop_front q ≡ (none, q)
unfolding pop_front
pop_front_nil q e = ground (arith, length-contents q)

-- On a queue that is not empty `deQ` returns the oldest entry and leaves the others in their order.
pub pop_front_cons :
    (q : Fq) (x : Index) (xs : List Index)
    → contents q ≡ x ∷ xs
    → ((pop_front q).0 ≡ x) × (contents (pop_front q).1 ≡ xs)
unfolding pop_front
pop_front_cons q x xs e =
    ground (arith, length-contents q, window_of_ne_zero q.proc_idx q.front q.size)

pub empty_fq-IsRing : IsRing empty_fq
empty_fq-IsRing = omega arith
