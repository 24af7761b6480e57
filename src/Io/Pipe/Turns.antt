-- ===== src/Io/Pipe/Turns.antt =====
-- A writer and a reader of a pipe that take turns, each up to its next sleep.
use hyu_ele3021_operating_sy.Prelude.{
  length-drop, if_true, if_false, ℕ, zero, suc, ◌+◌, ◌-◌, ◌≤◌, ◌<◌, ◌≡◌, refl, sym, ap, ap₂, ◌∙◌,
  ◌⊎◌, inl, inr, Bool, true, false, not, ◌&&◌, ◌||◌, List, [], ◌∷◌, ◌++◌, append-nil, append_assoc,
  arith, ◌==◌, if◌then◌else◌, Bool-cases, length, take, drop, length-append, take-append-drop,
}
use mathlib.Core.Bool.{false≢true}
use hyu_ele3021_operating_sy.Io.Pipe.{
  Pipe, push, is_full, Written, done, failed, sleeps, pipewrite, Received, got, refused, waits,
  read_loop, piperead, uint_add,
}
use hyu_ele3021_operating_sy.Io.Pipe.Fifo.{
  Holds, Sent, all, part, broken, pipewrite-Sent, piperead-Holds,
}

-- What a turn of `pipewrite` leaves.
abbrev pub left : Written → List ℕ × Pipe
left (done q) = ([], q)
left (failed q) = ([], q)
left (sleeps cs q) = (cs, q)

-- The bytes of a turn of `piperead`, and those of the turns behind it.
abbrev pub read_turn : (List ℕ → Pipe → List ℕ) → List ℕ → Received → List ℕ
read_turn next cs (got ds q) = ds ++ next cs q
read_turn next cs refused = []
read_turn next cs waits = []

-- The bytes that are read in `t` turns each of a writer that has the bytes `cs` to write and of a
-- reader that asks for `n` bytes.
unfoldable pub exchange : ℕ → ℕ → List ℕ → Pipe → List ℕ
exchange zero n cs p = []
exchange (suc t) n cs p =
    read_turn (exchange t n) (left (pipewrite false cs p)).0
      (piperead false n (left (pipewrite false cs p)).1)

-- The reader's end stays open.
readopen_written : (cs : List ℕ) (p : Pipe) → (left (pipewrite false cs p)).1.readopen ≡ p.readopen
unfolding pipewrite push
readopen_written [] p = refl
readopen_written (c ∷ cs) p = elim (Bool-cases (is_full p)) [
  | inl e ↦ ap (λ w. (left w).1.readopen) (if_true _ _ e) ∙ stopped (not p.readopen || false)
  | inr e ↦ ap (λ w. (left w).1.readopen) (if_false _ _ e) ∙ readopen_written cs (push c p)
]
  where
    stopped :
        (s : Bool) → (left (if s then failed p else sleeps (c ∷ cs) p)).1.readopen ≡ p.readopen
    stopped true = refl
    stopped false = refl

readopen_loop : (n : ℕ) (p : Pipe) → (read_loop n p).1.readopen ≡ p.readopen
unfolding read_loop
readopen_loop zero p = refl
readopen_loop (suc n) p = elim (Bool-cases (p.nread == p.nwrite)) [
  | inl e ↦ rw e refl
  | inr e ↦ rw e (readopen_loop n (record p { nread = uint_add p.nread 1 }))
]

readopen_read :
    (n : ℕ) (p q : Pipe) (ds : List ℕ) → piperead false n p ≡ got ds q → q.readopen ≡ p.readopen
unfolding piperead
readopen_read n p q ds h = elim (Bool-cases (p.nread == p.nwrite && p.writeopen)) [
  | inl e ↦ no_wait (sym (if_true _ _ e) ∙ h)
  | inr e ↦ ap (λ x. x.readopen) (sym (pipe_of (sym (if_false _ _ e) ∙ h))) ∙ readopen_loop n p
]
  where
    no_wait : {W : Type 0} → waits ≡ got ds q → W
    no_wait h = absurd cc

    pipe_of : {a b : List ℕ} {x y : Pipe} → got a x ≡ got b y → x ≡ y
    pipe_of h = cc

-- A turn of the reader, where the turns behind it deliver what is left.
read_turn_lem :
    (t n : ℕ) (xs cs : List ℕ) (q : Pipe)
    → 0 < n
    → Holds xs q
    → q.readopen ≡ true
    → length xs + length cs ≤ suc t
    → (xs ≡ [] → cs ≡ [])
    → ((ys : List ℕ) (r : Pipe)
        → Holds ys r
        → r.readopen ≡ true
        → length ys + length cs ≤ t
        → exchange t n cs r ≡ ys ++ cs)
    → read_turn (exchange t n) cs (piperead false n q) ≡ xs ++ cs
read_turn_lem t n xs cs q g h o l none_left rest = go (piperead-Holds false n xs q h)
  where
    go :
        ((r : Pipe) × (piperead false n q ≡ got (take n xs) r) × Holds (drop n xs) r)
          ⊎ ((xs ≡ [])
              × (q.writeopen ≡ true)
              × (piperead false n q ≡ (if false then refused else waits)))
        → read_turn (exchange t n) cs (piperead false n q) ≡ xs ++ cs
    go (inl (r, e, k)) =
        let d = length-drop n xs in
        let later = rest (drop n xs) r k (readopen_read n q r (take n xs) e ∙ o) (fewer d) in
        ap (read_turn (exchange t n) cs) e
        ∙ ap (λ ys. take n xs ++ ys) later
        ∙ sym (append_assoc (take n xs) (drop n xs) cs)
        ∙ ap (λ ys. ys ++ cs) (take-append-drop n xs)
      where
        fewer : length (drop n xs) ≡ length xs - n → length (drop n xs) + length cs ≤ t
        fewer d = few xs none_left l d
          where
            few :
                (zs : List ℕ)
                → (zs ≡ [] → cs ≡ [])
                → length zs + length cs ≤ suc t
                → length (drop n xs) ≡ length zs - n
                → length (drop n xs) + length cs ≤ t
            few [] f m d = let z = ap length (f refl) in omega (arith, d, z)
            few (z ∷ zs) f m d = omega (arith, d, m, g)
    go (inr (e, w, f)) =
        ap (read_turn (exchange t n) cs) f ∙ sym (ap₂ (λ a b. a ++ b) e (none_left e))

-- If a pipe with its reader open holds the bytes `xs`, a writer that is not killed with the bytes
-- `cs` and a reader that asks for at least one byte take turns, each up to its next sleep, and
-- there are as many turns as bytes, then the reader gets all of `xs` and `cs`, in this order,
-- however often the pipe is full.
pub exchange-append :
    (t n : ℕ) (cs xs : List ℕ) (p : Pipe)
    → 0 < n
    → Holds xs p
    → p.readopen ≡ true
    → length xs + length cs ≤ t
    → exchange t n cs p ≡ xs ++ cs
unfolding exchange
exchange-append zero n [] [] p g h o l = refl
exchange-append zero n (c ∷ cs) [] p g h o l = absurd (omega (arith, l))
exchange-append zero n cs (x ∷ xs) p g h o l = absurd (omega (arith, l))
exchange-append (suc t) n cs xs p g h o l =
    sent (pipewrite false cs p) (pipewrite-Sent false cs xs p h) (readopen_written cs p ∙ o)
      (λ ds ys r k q m. exchange-append t n ds ys r g k q m)
  where
    sent :
        (w : Written)
        → Sent xs cs (not p.readopen || false) w
        → (left w).1.readopen ≡ true
        → ((ds ys : List ℕ) (r : Pipe)
            → Holds ys r
            → r.readopen ≡ true
            → length ys + length ds ≤ t
            → exchange t n ds r ≡ ys ++ ds)
        → read_turn (exchange t n) (left w).0 (piperead false n (left w).1) ≡ xs ++ cs
    sent w (all {q = q} k) o' rest =
        let m = length-append xs cs in
        read_turn_lem t n (xs ++ cs) [] q g k o' (omega (arith, m, l)) (λ e. refl) (rest [])
        ∙ append-nil (xs ++ cs)
    sent w (part {q = q} {cs' = cs'} ds e more full k f) o' rest =
        let m = length-append xs ds in
        let c = ap length e ∙ length-append ds cs' in
        read_turn_lem t n (xs ++ ds) cs' q g k o' (omega (arith, m, c, l))
          (λ z. absurd (omega (arith, full, ap length z))) (rest cs')
        ∙ append_assoc xs ds cs'
        ∙ ap (λ ys. xs ++ ys) (sym e)
    sent w (broken ds more full k f) o' rest = absurd (false≢true (sym (opened p.readopen o) ∙ f))
      where
        opened : (b : Bool) → b ≡ true → (not b || false) ≡ false
        opened b e = ground (arith, e)
