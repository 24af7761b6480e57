-- ===== src/Fs/Inode/Cache.antt =====
-- `iget`: the cache holds an inode at most once.
use hyu_ele3021_operating_sy.Prelude.{
  if_true, if_false, ℕ, zero, suc, ◌+◌, ◌<◌, ◌≡◌, refl, sym, ap, ap₂, subst, ◌∙◌, ◌≢◌, ◌⊎◌, inl,
  inr, true, false, Option, none, some, List, [], ◌∷◌, arith, ◌==◌, ==_self, Bool-cases, length,
  set, get_or-set_self, get_or-set_cases,
}
use mathlib.Core.Bool.{false≢true}
use hyu_ele3021_operating_sy.Fs.Inode.{
  Inode, blank_inode, Sought, cached, empty, is_inode, remember, look, inode, take_slot, iget,
}

-- Slots in use hold different inodes.
abbrev pub Distinct : List Inode → Type 0
Distinct ips =
    (i j dev inum : ℕ)
    → is_inode dev inum (inode ips i) ≡ true
    → is_inode dev inum (inode ips j) ≡ true
    → i ≡ j

-- What the search of `iget` finds from slot `i` on, where `e` is remembered.
data Looked (dev inum i : ℕ) (e : Option ℕ) (ips : List Inode) : Sought → Type 0 where
  hit :
      (j l : ℕ)
      → i + j ≡ l
      → j < length ips
      → is_inode dev inum (inode ips j) ≡ true
      → Looked dev inum i e ips (cached l)
  full :
      ((j : ℕ) → is_inode dev inum (inode ips j) ≡ false)
      → e ≡ none
      → ((j : ℕ) → j < length ips → ((inode ips j).ref == 0) ≡ false)
      → Looked dev inum i e ips (empty none)
  kept :
      (j : ℕ)
      → ((j : ℕ) → is_inode dev inum (inode ips j) ≡ false)
      → e ≡ some j
      → Looked dev inum i e ips (empty (some j))
  free :
      (j l : ℕ)
      → i + j ≡ l
      → ((j : ℕ) → is_inode dev inum (inode ips j) ≡ false)
      → e ≡ none
      → j < length ips
      → (inode ips j).ref ≡ 0
      → Looked dev inum i e ips (empty (some l))

none_next :
    (dev inum : ℕ) (ip : Inode) (ips : List Inode)
    → is_inode dev inum ip ≡ false
    → ((j : ℕ) → is_inode dev inum (inode ips j) ≡ false)
    → (j : ℕ) → is_inode dev inum (inode (ip ∷ ips) j) ≡ false
none_next dev inum ip ips e h zero = e
none_next dev inum ip ips e h (suc j) = h j

used : (ip : Inode) (i : ℕ) → remember i ip none ≡ none → (ip.ref == 0) ≡ false
used ip i h = elim (Bool-cases (ip.ref == 0)) [
  | inl e ↦ absurd (some≢none (sym (if_true (some i) none e) ∙ h))
  | inr e ↦ e
]
  where
    some≢none : {a : ℕ} → some a ≢ none
    some≢none h = cc

taken : (ip : Inode) (i j : ℕ) → remember i ip none ≡ some j → (ip.ref ≡ 0) × (i ≡ j)
taken ip i j h = elim (Bool-cases (ip.ref == 0)) [
  | inl e ↦ (ground arith, inside (sym (if_true (some i) none e) ∙ h))
  | inr e ↦ absurd (none≢some (sym (if_false (some i) none e) ∙ h))
]
  where
    inside : {a b : ℕ} → some a ≡ some b → a ≡ b
    inside h = cc

    none≢some : {a : ℕ} → none ≢ some a
    none≢some h = cc

in_use :
    (ip : Inode) (ips : List Inode)
    → (ip.ref == 0) ≡ false
    → ((j : ℕ) → j < length ips → ((inode ips j).ref == 0) ≡ false)
    → (j : ℕ) → j < length (ip ∷ ips)
    → ((inode (ip ∷ ips) j).ref == 0) ≡ false
in_use ip ips e h zero k = e
in_use ip ips e h (suc j) k = h j (omega arith)

look-Looked :
    (dev inum i : ℕ) (e : Option ℕ) (ips : List Inode)
    → Looked dev inum i e ips (look dev inum i e ips)
unfolding look
look-Looked dev inum i none [] = full (λ j. refl) refl (λ j h. absurd (omega arith))
look-Looked dev inum i (some j) [] = kept j (λ j. refl) refl
look-Looked dev inum i e (ip ∷ ips) = elim (Bool-cases (is_inode dev inum ip)) [
  | inl x ↦
      subst (Looked dev inum i e (ip ∷ ips)) (sym (if_true _ _ x))
        (hit 0 i (omega arith) (omega arith) x)
  | inr x ↦
      subst (Looked dev inum i e (ip ∷ ips)) (sym (if_false _ _ x))
        (later e (remember i ip e) refl x (look-Looked dev inum (i + 1) (remember i ip e) ips))
]
  where
    later :
        {r : Sought} (e e' : Option ℕ)
        → remember i ip e ≡ e'
        → is_inode dev inum ip ≡ false
        → Looked dev inum (i + 1) e' ips r
        → Looked dev inum i e (ip ∷ ips) r
    later e e' q x (hit j l a h y) = hit (suc j) l (omega arith) (omega arith) y
    later none e' q x (full h n k) =
        full (none_next dev inum ip ips x h) refl (in_use ip ips (used ip i (q ∙ n)) k)
    later (some m) e' q x (full h n k) = absurd cc
    later none e' q x (kept j h n) =
        let (z, y) = taken ip i j (q ∙ n) in
        free 0 j (omega (arith, y)) (none_next dev inum ip ips x h) refl (omega arith) z
    later (some m) e' q x (kept j h n) = kept j (none_next dev inum ip ips x h) (q ∙ n)
    later none e' q x (free j l a h n k z) =
        free (suc j) l (omega arith) (none_next dev inum ip ips x h) refl (omega arith) z
    later (some m) e' q x (free j l a h n k z) = absurd cc

-- What a slot holds that has one more reference.
held_again :
    (i l d n : ℕ) (ips : List Inode)
    → 0 < (inode ips i).ref
    → is_inode d n (inode (set ips i (record (inode ips i) { ref = (inode ips i).ref + 1 })) l)
      ≡ true
    → is_inode d n (inode ips l) ≡ true
held_again i l d n ips z h =
    elim (get_or-set_cases ips i l (record (inode ips i) { ref = (inode ips i).ref + 1 })
      blank_inode) [
        | inr e ↦ ap (is_inode d n) (sym e) ∙ h
        | inl (q, e) ↦
            subst (λ m. is_inode d n (inode ips m) ≡ true) q
              (same (inode ips i) z (ap (is_inode d n) (sym e) ∙ h))
      ]
  where
    same :
        (ip : Inode)
        → 0 < ip.ref
        → is_inode d n (record ip { ref = ip.ref + 1 }) ≡ true
        → is_inode d n ip ≡ true
    same ip z h = ground arith

-- What a slot holds once slot `i` has been recycled for an inode.
held_new :
    (i l dev inum d n : ℕ) (ips : List Inode)
    → is_inode d n (
        inode
          (set ips i (record (inode ips i) { dev = dev; inum = inum; ref = 1; valid = false }))
          l)
      ≡ true
    → ((l ≡ i) × (d ≡ dev) × (n ≡ inum)) ⊎ (is_inode d n (inode ips l) ≡ true)
held_new i l dev inum d n ips h =
    let new = record (inode ips i) { dev = dev; inum = inum; ref = 1; valid = false } in
    elim (get_or-set_cases ips i l new blank_inode) [
      | inr e ↦ inr (ap (is_inode d n) (sym e) ∙ h)
      | inl (q, e) ↦
          let t : is_inode d n new ≡ true = ap (is_inode d n) (sym e) ∙ h in
          inl (sym q, ground (arith, t), ground (arith, t))
    ]

-- If the slots of the inode cache that are in use hold different inodes, then so they do after an
-- `iget` that returns a slot, and that slot is in use for the inode that was asked for.
pub iget-Distinct :
    (dev inum i : ℕ) (ips ips' : List Inode)
    → Distinct ips
    → iget dev inum ips ≡ some (i, ips')
    → Distinct ips' × (is_inode dev inum (inode ips' i) ≡ true)
unfolding iget take_slot
iget-Distinct dev inum i ips ips' u h =
    go (look dev inum 0 none ips) (look-Looked dev inum 0 none ips) h
  where
    Kept : ℕ × List Inode → Type 0
    Kept (m, is) = Distinct is × (is_inode dev inum (inode is m) ≡ true)

    Result : Type 0
    Result = Kept (i, ips')

    inside : {a b : ℕ × List Inode} → some a ≡ some b → a ≡ b
    inside h = cc

    is_live : (ip : Inode) → is_inode dev inum ip ≡ true → 0 < ip.ref
    is_live ip y = ground arith

    again :
        (ip : Inode)
        → is_inode dev inum ip ≡ true
        → is_inode dev inum (record ip { ref = ip.ref + 1 }) ≡ true
    again ip y = ground arith

    is_inode_new :
        (d n j : ℕ)
        → is_inode d n (record (inode ips j) { dev = d; inum = n; ref = 1; valid = false }) ≡ true
    is_inode_new d n j = ground (arith, ==_self d, ==_self n)

    absent :
        {d n : ℕ} (a : ℕ)
        → ((j : ℕ) → is_inode dev inum (inode ips j) ≡ false)
        → d ≡ dev
        → n ≡ inum
        → ¬ (is_inode d n (inode ips a) ≡ true)
    absent a x p q y =
        false≢true (sym (x a) ∙ ap₂ (λ d n. is_inode d n (inode ips a)) (sym p) (sym q) ∙ y)

    apart :
        {a b d n : ℕ} (j : ℕ)
        → ((j : ℕ) → is_inode dev inum (inode ips j) ≡ false)
        → ((a ≡ j) × (d ≡ dev) × (n ≡ inum)) ⊎ (is_inode d n (inode ips a) ≡ true)
        → ((b ≡ j) × (d ≡ dev) × (n ≡ inum)) ⊎ (is_inode d n (inode ips b) ≡ true)
        → a ≡ b
    apart j x (inl (p, _, _)) (inl (q, _, _)) = p ∙ sym q
    apart {b = b} j x (inl (_, p, q)) (inr t) = absurd (absent b x p q t)
    apart {a = a} j x (inr s) (inl (_, p, q)) = absurd (absent a x p q s)
    apart {a = a} {b = b} {d = d} {n = n} j x (inr s) (inr t) = u a b d n s t

    -- The inode is in slot `j`, or goes there.
    found_in :
        (j : ℕ)
        → j < length ips
        → is_inode dev inum (inode ips j) ≡ true
        → take_slot dev inum ips (cached j) ≡ some (i, ips')
        → Result
    found_in j l y h =
        let new = record (inode ips j) { ref = (inode ips j).ref + 1 } in
        let z = is_live (inode ips j) y in
        subst Kept (inside h) (
          (λ a b d n s t. u a b d n (held_again j a d n ips z s) (held_again j b d n ips z t)),
          ap (is_inode dev inum) (get_or-set_self ips j new blank_inode l) ∙ again (inode ips j) y,
        )

    put_in :
        (j : ℕ)
        → j < length ips
        → ((j : ℕ) → is_inode dev inum (inode ips j) ≡ false)
        → take_slot dev inum ips (empty (some j)) ≡ some (i, ips')
        → Result
    put_in j l x h =
        let new = record (inode ips j) { dev = dev; inum = inum; ref = 1; valid = false } in
        subst Kept (inside h) (
          (λ a b d n s t.
              apart j x (held_new j a dev inum d n ips s) (held_new j b dev inum d n ips t)),
          ap (is_inode dev inum) (get_or-set_self ips j new blank_inode l)
              ∙ is_inode_new dev inum j,
        )

    go :
        (r : Sought)
        → Looked dev inum 0 none ips r
        → take_slot dev inum ips r ≡ some (i, ips')
        → Result
    go r (hit j l a k y) h =
        let e : l ≡ j = omega arith in
        found_in l (omega arith) (ap (λ m. is_inode dev inum (inode ips m)) e ∙ y) h
    go r (full x e f) h = absurd cc
    go r (kept j x e) h = absurd cc
    go r (free j l a x e k z) h = put_in l (omega arith) x h
