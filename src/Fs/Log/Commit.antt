-- ===== src/Fs/Log/Commit.antt =====
-- What `write_log` and `install_trans` write, with power for all of it or for a part.
use hyu_ele3021_operating_sy.Prelude.{
  if_true, if_false, ℕ, ◌+◌, ◌-◌, ◌≤◌, ◌<◌, ◌≡◌, refl, sym, ap, ◌∙◌, ◌≢◌, ◌⊎◌, inl, inr, Bool, true,
  false, ◌||◌, List, [], ◌∷◌, arith, ◌==◌, if◌then◌else◌, Bool-cases, length,
}
use hyu_ele3021_operating_sy.Fs.Buffer.{
  Block, Store, bread, put, power-put, bread-put_self, bread-put_ne, disk-put_self, disk-put_ne,
  disk-put_dead,
}
use hyu_ele3021_operating_sy.Fs.Log.{install_trans, write_log}

-- Block `c` is none of the `n` log blocks behind the header block `start`, nor the header.
abbrev pub IsHome : ℕ → ℕ → ℕ → Type 0
IsHome start n c = (c < start) ⊎ (start + n < c)

abbrev pub AllHome : ℕ → ℕ → List ℕ → Type 0
AllHome start n [] = Unit {0}
AllHome start n (b ∷ bs) = IsHome start n b × AllHome start n bs

abbrev pub has : ℕ → List ℕ → Bool
has c [] = false
has c (b ∷ bs) = c == b || has c bs

-- The log blocks from `tail` on, read by `f`, hold the new contents of the blocks `bs`.
abbrev pub Holds : ℕ → (ℕ → Block) → (ℕ → Block) → ℕ → List ℕ → Type 0
Holds start f new tail [] = Unit {0}
Holds start f new tail (b ∷ bs) = (f (start + tail + 1) ≡ new b) × Holds start f new (tail + 1) bs

-- Only the log blocks matter.
pub Holds-same :
    (start : ℕ) (f g new : ℕ → Block) (tail n : ℕ) (bs : List ℕ)
    → tail + length bs ≤ n
    → ((c : ℕ) → start + tail < c → c ≤ start + n → g c ≡ f c)
    → Holds start f new tail bs
    → Holds start g new tail bs
Holds-same start f g new tail n [] h e k = tt
Holds-same start f g new tail n (b ∷ bs) h e (k, ks) = (
  e (start + tail + 1) (omega arith) (omega arith) ∙ k,
  Holds-same start f g new (tail + 1) n bs (omega arith) (λ c a d. e c (omega arith) d) ks,
)

-- The new contents where there are some.
abbrev pub updated : (ℕ → Block) → (ℕ → Block) → List ℕ → ℕ → Block
updated new old bs c = if has c bs then new c else old c

pub power-write_log :
    (start tail : ℕ) (bs : List ℕ) (s : Store)
    → (write_log start tail bs s).power ≡ s.power - length bs
unfolding write_log
power-write_log start tail [] s = omega arith
power-write_log start tail (b ∷ bs) s =
    let t = put (start + tail + 1) (bread b s) s in
    omega (arith, power-write_log start (tail + 1) bs t, power-put (start + tail + 1) (bread b s) s)

-- Blocks before the log block `tail + 1` or behind the log stay.
pub bread-write_log :
    (start tail : ℕ) (bs : List ℕ) (s : Store) (c : ℕ)
    → (c ≤ start + tail) ⊎ (start + tail + length bs < c)
    → (bread c (write_log start tail bs s) ≡ bread c s)
      × ((write_log start tail bs s).disk c ≡ s.disk c)
unfolding write_log
bread-write_log start tail [] s c h = (refl, refl)
bread-write_log start tail (b ∷ bs) s c h =
    let t = put (start + tail + 1) (bread b s) s in
    let n : c ≢ start + tail + 1 = omega arith in
    let ih = bread-write_log start (tail + 1) bs t c (omega arith) in
    (
      ih.0 ∙ bread-put_ne (start + tail + 1) c (bread b s) s n,
      ih.1 ∙ disk-put_ne (start + tail + 1) c (bread b s) s n,
    )

-- With enough power the whole log reaches the disk.
pub disk-write_log :
    (start tail n : ℕ) (bs : List ℕ) (s : Store) (new : ℕ → Block)
    → tail + length bs ≡ n
    → length bs ≤ s.power
    → AllHome start n bs
    → ((c : ℕ) → IsHome start n c → bread c s ≡ new c)
    → Holds start (write_log start tail bs s).disk new tail bs
      × Holds start (λ c. bread c (write_log start tail bs s)) new tail bs
unfolding write_log
disk-write_log start tail n [] s new e p h g = (tt, tt)
disk-write_log start tail n (b ∷ bs) s new e p (h, hs) g =
    let x = bread b s in
    let t = put (start + tail + 1) x s in
    let ih =
      disk-write_log start (tail + 1) n bs t new (omega arith)
        (omega (arith, power-put (start + tail + 1) x s)) hs
        (λ c z. bread-put_ne (start + tail + 1) c x s (omega arith) ∙ g c z) in
    let same = bread-write_log start (tail + 1) bs t (start + tail + 1) (inl (omega arith)) in
    (
      (same.1 ∙ disk-put_self (start + tail + 1) x s (omega arith) ∙ g b h, ih.0),
      (same.0 ∙ bread-put_self (start + tail + 1) x s ∙ g b h, ih.1),
    )

-- Blocks that the log does not name stay.
pub install_trans-other :
    (start tail : ℕ) (bs : List ℕ) (s : Store) (c : ℕ)
    → has c bs ≡ false
    → (bread c (install_trans start tail bs s) ≡ bread c s)
      × ((install_trans start tail bs s).disk c ≡ s.disk c)
unfolding install_trans
install_trans-other start tail [] s c h = (refl, refl)
install_trans-other start tail (b ∷ bs) s c h =
    let x = bread (start + tail + 1) s in
    let n : c ≢ b = ground arith in
    let ih = install_trans-other start (tail + 1) bs (put b x s) c (ground arith) in
    (ih.0 ∙ bread-put_ne b c x s n, ih.1 ∙ disk-put_ne b c x s n)

pub power-install_trans :
    (start tail : ℕ) (bs : List ℕ) (s : Store)
    → (install_trans start tail bs s).power ≡ s.power - length bs
unfolding install_trans
power-install_trans start tail [] s = omega arith
power-install_trans start tail (b ∷ bs) s =
    let x = bread (start + tail + 1) s in
    omega (arith, power-install_trans start (tail + 1) bs (put b x s), power-put b x s)

-- A block of the log is none that the log names.
pub has-AllHome :
    (start n : ℕ) (bs : List ℕ) (c : ℕ)
    → AllHome start n bs
    → start ≤ c
    → c ≤ start + n
    → has c bs ≡ false
has-AllHome start n [] c h a b = refl
has-AllHome start n (x ∷ bs) c (h, hs) a b =
    let e : (c == x) ≡ false = ground arith in rw e (has-AllHome start n bs c hs a b)

-- With enough power the new contents reach their homes.
pub install_trans-updated :
    (start tail n : ℕ) (bs : List ℕ) (s : Store) (new : ℕ → Block) (c : ℕ)
    → tail + length bs ≡ n
    → length bs ≤ s.power
    → AllHome start n bs
    → Holds start (λ d. bread d s) new tail bs
    → (install_trans start tail bs s).disk c ≡ updated new s.disk bs c
unfolding install_trans
install_trans-updated start tail n [] s new c e p h k = refl
install_trans-updated start tail n (b ∷ bs) s new c e p (h, hs) (k, ks) =
    let x = bread (start + tail + 1) s in
    let t = put b x s in
    let ih =
      install_trans-updated start (tail + 1) n bs t new c (omega arith)
        (omega (arith, power-put b x s)) hs
        (Holds-same start (λ d. bread d s) (λ d. bread d t) new (tail + 1) n bs (omega arith)
          (λ d a z. bread-put_ne b d x s (omega arith)) ks) in
    elim (Bool-cases (has c bs)) [
      | inl y ↦ rw y (ih ∙ if_true _ _ y ∙ first (c == b))
      | inr y ↦ elim (Bool-cases (c == b)) [
        | inl z ↦
            let z' : c ≡ b = ground arith in
            rw (y, z)
              (ih
                ∙ if_false _ _ y
                ∙ ap t.disk z'
                ∙ disk-put_self b x s (omega arith)
                ∙ k
                ∙ ap new (sym z'))
        | inr z ↦ rw (y, z) (ih ∙ if_false _ _ y ∙ disk-put_ne b c x s (ground arith))
      ]
    ]
  where
    first : (q : Bool) → new c ≡ (if q || true then new c else s.disk c)
    first true = refl
    first false = refl

-- Without power nothing changes on the disk.
pub install_trans-dead :
    (start tail : ℕ) (bs : List ℕ) (s : Store) (c : ℕ)
    → s.power ≡ 0
    → (install_trans start tail bs s).disk c ≡ s.disk c
unfolding install_trans
install_trans-dead start tail [] s c h = refl
install_trans-dead start tail (b ∷ bs) s c h =
    let x = bread (start + tail + 1) s in
    install_trans-dead start (tail + 1) bs (put b x s) c (omega (arith, power-put b x s))
    ∙ disk-put_dead b c x s h
