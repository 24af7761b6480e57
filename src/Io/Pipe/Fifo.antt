-- ===== src/Io/Pipe/Fifo.antt =====
-- A pipe is a queue of bytes: `pipewrite` appends to it, and `piperead` takes from its front.
use hyu_ele3021_operating_sy.Prelude.{
  if_true, if_false, ℕ, zero, suc, ◌+◌, ◌%◌, ◌^◌, ◌≤◌, ◌<◌, ◌≡◌, refl, sym, ap, ap₂, subst, ◌∙◌,
  ◌↔◌, ◌⊎◌, inl, inr, Bool, true, false, not, ◌&&◌, ◌||◌, List, [], ◌∷◌, ◌++◌, append-nil,
  append_assoc, arith, ◌==◌, if◌then◌else◌, ==_iff, Bool-cases, length, get_or, take, drop,
  length-append, length-set,
}
use hyu_ele3021_operating_sy.Prelude.{ring, ring-set}
use mathlib.Core.Bool.{true≢false}
use hyu_ele3021_operating_sy.Io.Pipe.{
  Pipe, pipesize, uint_add, is_full, push, Written, done, failed, sleeps, pipewrite, read_loop, got,
  refused, waits, piperead,
}

-- The pipe holds the bytes `xs`, oldest first.
pub record Holds (xs : List ℕ) (p : Pipe) : Type 0 where
  pub storage : length p.data_buf ≡ pipesize
  pub nread_in : p.nread < 2 ^ 32
  pub room : length xs ≤ pipesize
  pub nwrite_at : p.nwrite ≡ (p.nread + length xs) % 2 ^ 32
  pub items : ring pipesize 0 p.data_buf (p.nread % pipesize) (length xs) ≡ xs

push-Holds :
    (c : ℕ) (xs : List ℕ) (p : Pipe)
    → Holds xs p
    → length xs < pipesize
    → Holds (xs ++ (c ∷ [])) (push c p)
unfolding push
push-Holds c xs p h room =
    let n = length-append xs (c ∷ []) in
    let e : length (xs ++ (c ∷ [])) ≡ suc (length xs) = omega (arith, n) in
    record {
      storage = length-set p.data_buf (p.nwrite % pipesize) c ∙ h.storage;
      nread_in = h.nread_in;
      room = omega (arith, e);
      nwrite_at = omega (arith, e, h.nwrite_at);
      items = rw e (
          ring-set pipesize 0 p.data_buf c (length xs) (p.nread % pipesize) (p.nwrite % pipesize)
            h.storage (omega arith) room (omega (arith, h.nwrite_at))
          ∙ ap (λ ys. ys ++ (c ∷ [])) h.items);
    }

is_full_iff : (xs : List ℕ) (p : Pipe) → Holds xs p → (is_full p ≡ true) ↔ (length xs ≡ pipesize)
is_full_iff xs p h = (
  (λ e.
      omega (
        arith,
        (==_iff p.nwrite (uint_add p.nread pipesize)).0 e,
        h.nwrite_at,
        h.nread_in,
        h.room,
      )),
  (λ e. (==_iff p.nwrite (uint_add p.nread pipesize)).1 (h.nwrite_at ∙ ap (uint_add p.nread) e)),
)

-- What `pipewrite` of `cs` makes of a pipe that holds `xs`.
pub data Sent (xs cs : List ℕ) (stop : Bool) : Written → Type 0 where
  all : {q : Pipe} → Holds (xs ++ cs) q → Sent xs cs stop (done q)
  part :
      {q : Pipe} {cs' : List ℕ} (sent : List ℕ)
      → cs ≡ sent ++ cs'
      → 0 < length cs'
      → length (xs ++ sent) ≡ pipesize
      → Holds (xs ++ sent) q
      → stop ≡ false
      → Sent xs cs stop (sleeps cs' q)
  broken :
      {q : Pipe} (sent : List ℕ)
      → length sent < length cs
      → length (xs ++ sent) ≡ pipesize
      → Holds (xs ++ sent) q
      → stop ≡ true
      → Sent xs cs stop (failed q)

Sent-next :
    (c : ℕ) (xs cs : List ℕ) (stop : Bool) (r : Written)
    → Sent (xs ++ (c ∷ [])) cs stop r
    → Sent xs (c ∷ cs) stop r
Sent-next c xs cs stop r (all {q = q} h) =
    all (subst (λ ys. Holds ys q) (append_assoc xs (c ∷ []) cs) h)
Sent-next c xs cs stop r (part {q = q} sent e l n h f) =
    let a = append_assoc xs (c ∷ []) sent in
    part (c ∷ sent) (ap (◌∷◌ c) e) l (sym (ap length a) ∙ n) (subst (λ ys. Holds ys q) a h) f
Sent-next c xs cs stop r (broken {q = q} sent l n h f) =
    let a = append_assoc xs (c ∷ []) sent in
    broken (c ∷ sent) (omega arith) (sym (ap length a) ∙ n) (subst (λ ys. Holds ys q) a h) f

-- If a pipe holds the bytes `xs`, then `pipewrite` up to its next sleep has appended all of its
-- bytes; or has appended those that fit and sleeps with the rest, if the pipe's reader is open and
-- the caller is not killed; or has appended those that fit and fails, if not so. In the last two
-- cases the pipe is full and bytes are left.
pub pipewrite-Sent :
    (killed : Bool) (cs xs : List ℕ) (p : Pipe)
    → Holds xs p
    → Sent xs cs (not p.readopen || killed) (pipewrite killed cs p)
unfolding pipewrite push
pipewrite-Sent killed [] xs p h = all (subst (λ ys. Holds ys p) (sym (append-nil xs)) h)
pipewrite-Sent killed (c ∷ cs) xs p h =
    let stop = not p.readopen || killed in
    elim (Bool-cases (is_full p)) [
      | inl e ↦
          let n = ap length (append-nil xs) ∙ (is_full_iff xs p h).0 e in
          let h' = subst (λ ys. Holds ys p) (sym (append-nil xs)) h in
          subst (Sent xs (c ∷ cs) stop) (sym (if_true _ _ e)) (elim (Bool-cases stop) [
            | inl f ↦
                subst (Sent xs (c ∷ cs) stop) (sym (if_true _ _ f)) (broken [] (omega arith) n h' f)
            | inr f ↦
                subst (Sent xs (c ∷ cs) stop) (sym (if_false _ _ f))
                  (part [] refl (omega arith) n h' f)
          ])
      | inr e ↦
          let n : length xs < pipesize = elim (Bool-cases (length xs == pipesize)) [
            | inl f ↦ absurd (true≢false (sym ((is_full_iff xs p h).1 (ground arith)) ∙ e))
            | inr f ↦ ground (arith, f, h.room)
          ] in
          subst (Sent xs (c ∷ cs) stop) (sym (if_false _ _ e)) (
            Sent-next c xs cs stop _
              (pipewrite-Sent killed cs (xs ++ (c ∷ [])) (push c p) (push-Holds c xs p h n)))
    ]

-- The first byte is read.
read_one :
    (x : ℕ) (xs : List ℕ) (p : Pipe)
    → Holds (x ∷ xs) p
    → (get_or p.data_buf (p.nread % pipesize) 0 ≡ x)
      × Holds xs (record p { nread = uint_add p.nread 1 })
read_one x xs p h =
    let e : (p.nread % pipesize + 1) % pipesize ≡ (uint_add p.nread 1) % pipesize = omega arith in
    (
      ap head_or_zero h.items,
      record {
        storage = h.storage;
        nread_in = omega arith;
        room = omega (arith, h.room);
        nwrite_at = omega (arith, h.nwrite_at);
        items = rw (sym e) (ap tail h.items);
      },
    )
  where
    head_or_zero : List ℕ → ℕ
    head_or_zero [] = 0
    head_or_zero (y ∷ ys) = y

    tail : List ℕ → List ℕ
    tail [] = []
    tail (y ∷ ys) = ys

is_empty : (p : Pipe) → Holds [] p → (p.nread == p.nwrite) ≡ true
is_empty p h = (==_iff p.nread p.nwrite).1 (omega (arith, h.nwrite_at, h.nread_in))

not_empty : (x : ℕ) (xs : List ℕ) (p : Pipe) → Holds (x ∷ xs) p → (p.nread == p.nwrite) ≡ false
not_empty x xs p h = elim (Bool-cases (p.nread == p.nwrite)) [
  | inl e ↦ absurd (omega (arith, (==_iff p.nread p.nwrite).0 e, h.nwrite_at, h.nread_in, h.room))
  | inr e ↦ e
]

-- The loop of `piperead` takes the first bytes.
pub read_loop-Holds :
    (n : ℕ) (xs : List ℕ) (p : Pipe)
    → Holds xs p
    → ((read_loop n p).0 ≡ take n xs) × Holds (drop n xs) (read_loop n p).1
unfolding read_loop
read_loop-Holds zero xs p h = (refl, h)
read_loop-Holds (suc n) [] p h = let e = is_empty p h in rw e (refl, h)
read_loop-Holds (suc n) (x ∷ xs) p h =
    let e = not_empty x xs p h in
    let (a, b) = read_one x xs p h in
    let ih = read_loop-Holds n xs (record p { nread = uint_add p.nread 1 }) b in
    rw e (ap₂ (◌∷◌) a ih.0, ih.1)

-- If a pipe holds the bytes `xs`, then `piperead` of at most `n` bytes returns the first `n` of
-- them, or all if there are fewer, and leaves the others; or the pipe is empty with its writer
-- open, and it fails or sleeps as the caller is killed or not.
pub piperead-Holds :
    (killed : Bool) (n : ℕ) (xs : List ℕ) (p : Pipe)
    → Holds xs p
    → ((q : Pipe) × (piperead killed n p ≡ got (take n xs) q) × Holds (drop n xs) q)
      ⊎ ((xs ≡ [])
          × (p.writeopen ≡ true)
          × (piperead killed n p ≡ (if killed then refused else waits)))
unfolding piperead
piperead-Holds killed n [] p h =
    let e = is_empty p h in
    let (a, b) = read_loop-Holds n [] p h in
    elim (Bool-cases p.writeopen) [
      | inl f ↦ inr (refl, f, if_true _ _ (both _ _ e f))
      | inr f ↦ inl (
        (read_loop n p).1,
        if_false _ _ (not_both _ _ f) ∙ ap (λ ys. got ys (read_loop n p).1) a,
        b,
      )
    ]
  where
    both : (a b : Bool) → a ≡ true → b ≡ true → (a && b) ≡ true
    both a b e f = ground arith

    not_both : (a b : Bool) → b ≡ false → (a && b) ≡ false
    not_both a b f = ground arith
piperead-Holds killed n (x ∷ xs) p h =
    let e = not_empty x xs p h in
    let (a, b) = read_loop-Holds n (x ∷ xs) p h in
    inl ((read_loop n p).1, rw e (ap (λ ys. got ys (read_loop n p).1) a), b)
