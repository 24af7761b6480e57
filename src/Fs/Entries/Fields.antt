-- ===== src/Fs/Entries/Fields.antt =====
-- Reading a directory keeps its type and its size.
use hyu_ele3021_operating_sy.Prelude.{
  if_true, if_false, ℕ, zero, suc, ◌+◌, ◌-◌, ◌/◌, ◌%◌, ◌^◌, ◌≡◌, refl, sym, subst, ◌∙◌, inl, inr,
  Bool, true, false, ◌||◌, Option, none, some, List, [], ◌++◌, ltb, ◌==◌, if◌then◌else◌, Bool-cases,
  get_or, set, take, drop,
}
use hyu_ele3021_operating_sy.Fs.Buffer.{bread}
use hyu_ele3021_operating_sy.Fs.Blocks.{Superblock, Kern, balloc}
use hyu_ele3021_operating_sy.Fs.Inode.{Meta}
use hyu_ele3021_operating_sy.Fs.Bmap.{inode_slot, follow, route, bmap}
use hyu_ele3021_operating_sy.Fs.Content.{
  bsize, bytes, part, Looped, ended, halted, out_of_rounds, read_loop, Contents, got, refused,
  panic, unfinished, readi,
}

-- The two fields are the same.
pub record Same (m m' : Meta) : Type 0 where
  pub type : m'.type ≡ m.type
  pub size : m'.size ≡ m.size

Same-refl : (m : Meta) → Same m m
Same-refl m = record { type = refl; size = refl }

Same-trans : (a b c : Meta) → Same a b → Same b c → Same a c
Same-trans a b c f g = record { type = g.type ∙ f.type; size = g.size ∙ f.size }

inside : {A : Type 0} {a b : A} → some a ≡ some b → a ≡ b
inside h = cc

inode_slot-Same :
    (sb : Superblock) (i : ℕ) (m : Meta) (k : Kern) (b : ℕ) (m' : Meta) (k' : Kern)
    → inode_slot sb i m k ≡ some (b, m', k')
    → Same m m'
unfolding inode_slot
inode_slot-Same sb i m k b m' k' h = elim (Bool-cases (get_or m.addrs i 0 == 0)) [
  | inl e ↦ fresh (balloc sb k) (sym (if_true _ _ e) ∙ h)
  | inr e ↦ ended (inside (sym (if_false _ _ e) ∙ h)) (Same-refl m)
]
  where
    ended : {x y : ℕ × Meta × Kern} → x ≡ y → Same m x.1 → Same m y.1
    ended e s = subst (λ (x : ℕ × Meta × Kern). Same m x.1) e s

    fresh :
        (o : Option (ℕ × Kern))
        → elim o as (λ x. Option (ℕ × Meta × Kern)) [
          | none ↦ none
          | some (c, l) ↦ some (c, record m { addrs = set m.addrs i c }, l)
        ]
          ≡ some (b, m', k')
        → Same m m'
    fresh none h = absurd cc
    fresh (some (c, l)) h = ended (inside h) (record { type = refl; size = refl })

bmap-Same :
    (sb : Superblock) (bn : ℕ) (m : Meta) (k : Kern) (b : ℕ) (m' : Meta) (k' : Kern)
    → bmap sb bn m k ≡ some (b, m', k')
    → Same m m'
unfolding bmap
bmap-Same sb bn m k b m' k' h = routed (route bn) h
  where
    ended : {x y : ℕ × Meta × Kern} → x ≡ y → Same m x.1 → Same m y.1
    ended e s = subst (λ (x : ℕ × Meta × Kern). Same m x.1) e s

    followed :
        (m1 : Meta) (o : Option (ℕ × Kern))
        → Same m m1
        → elim o as (λ x. Option (ℕ × Meta × Kern)) [
          | none ↦ none
          | some (c, k2) ↦ some (c, m1, k2)
        ]
          ≡ some (b, m', k')
        → Same m m'
    followed m1 none s h = absurd cc
    followed m1 (some (c, k2)) s h = ended (inside h) s

    slotted :
        (i : ℕ) (js : List ℕ) (o : Option (ℕ × Meta × Kern))
        → inode_slot sb i m k ≡ o
        → elim o as (λ x. Option (ℕ × Meta × Kern)) [
          | none ↦ none
          | some (c, m1, k1) ↦ elim (follow sb js c k1) as (λ x. Option (ℕ × Meta × Kern)) [
            | none ↦ none
            | some (d, k2) ↦ some (d, m1, k2)
          ]
        ]
          ≡ some (b, m', k')
        → Same m m'
    slotted i js none e h = absurd cc
    slotted i js (some (c, m1, k1)) e h =
        followed m1 (follow sb js c k1) (inode_slot-Same sb i m k c m1 k1 e) h

    routed :
        (o : Option (ℕ × List ℕ))
        → elim o as (λ x. Option (ℕ × Meta × Kern)) [
          | none ↦ none
          | some (i, js) ↦ elim (inode_slot sb i m k) as (λ x. Option (ℕ × Meta × Kern)) [
            | none ↦ none
            | some (c, m1, k1) ↦ elim (follow sb js c k1) as (λ x. Option (ℕ × Meta × Kern)) [
              | none ↦ none
              | some (d, k2) ↦ some (d, m1, k2)
            ]
          ]
        ]
          ≡ some (b, m', k')
        → Same m m'
    routed none h = absurd cc
    routed (some (i, js)) h = slotted i js (inode_slot sb i m k) refl h

inside_ended : {A : Type 0} {a b : A} → ended a ≡ ended b → a ≡ b
inside_ended h = cc

-- What the loop of `readi` returns.
read_loop-Same :
    (sb : Superblock) (r off n : ℕ) (m : Meta) (k : Kern) (cs : List ℕ) (m' : Meta) (k' : Kern)
    → read_loop sb r off n m k ≡ ended (cs, m', k')
    → Same m m'
unfolding read_loop
read_loop-Same sb zero off n m k cs m' k' h = test (n == 0) h
  where
    test :
        (c : Bool)
        → elim c as (λ x. Looped (List ℕ × Meta × Kern)) [
          | true ↦ ended ([], m, k)
          | false ↦ out_of_rounds
        ]
          ≡ ended (cs, m', k')
        → Same m m'
    test true h = subst (λ (x : List ℕ × Meta × Kern). Same m x.1) (inside_ended h) (Same-refl m)
    test false h = absurd cc
read_loop-Same sb (suc r) off n m k cs m' k' h = test (n == 0) (read_loop-Same sb r) h
  where
    same_end : {x y : List ℕ × Meta × Kern} → x ≡ y → Same m x.1 → Same m y.1
    same_end e s = subst (λ (x : List ℕ × Meta × Kern). Same m x.1) e s

    Rest : Type 0
    Rest =
        (off n : ℕ) (m : Meta) (k : Kern) (cs : List ℕ) (m' : Meta) (k' : Kern)
        → read_loop sb r off n m k ≡ ended (cs, m', k')
        → Same m m'

    rest_read :
        (xs : List ℕ) (m1 : Meta) (k1 : Kern) (o : Looped (List ℕ × Meta × Kern))
        → Rest
        → read_loop sb r (off + part off n) (n - part off n) m1 k1 ≡ o
        → Same m m1
        → elim o as (λ x. Looped (List ℕ × Meta × Kern)) [
          | halted ↦ halted
          | out_of_rounds ↦ out_of_rounds
          | ended (ds, m2, k2) ↦ ended (xs ++ ds, m2, k2)
        ]
          ≡ ended (cs, m', k')
        → Same m m'
    rest_read xs m1 k1 halted f e s h = absurd cc
    rest_read xs m1 k1 out_of_rounds f e s h = absurd cc
    rest_read xs m1 k1 (ended (ds, m2, k2)) f e s h =
        same_end (inside_ended h)
          (Same-trans m m1 m2 s (f (off + part off n) (n - part off n) m1 k1 ds m2 k2 e))

    mapped :
        (o : Option (ℕ × Meta × Kern))
        → Rest
        → bmap sb (off / bsize) m k ≡ o
        → elim o as (λ x. Looped (List ℕ × Meta × Kern)) [
          | none ↦ halted
          | some (b, m1, k1) ↦
              elim (read_loop sb r (off + part off n) (n - part off n) m1 k1)
                as (λ x. Looped (List ℕ × Meta × Kern)) [
                  | halted ↦ halted
                  | out_of_rounds ↦ out_of_rounds
                  | ended (ds, m2, k2) ↦ ended (
                    take (part off n) (drop (off % bsize) (bytes (bread b k1.store))) ++ ds,
                    m2,
                    k2,
                  )
                ]
        ]
          ≡ ended (cs, m', k')
        → Same m m'
    mapped none f e h = absurd cc
    mapped (some (b, m1, k1)) f e h =
        rest_read (take (part off n) (drop (off % bsize) (bytes (bread b k1.store)))) m1 k1
          (read_loop sb r (off + part off n) (n - part off n) m1 k1) f refl
          (bmap-Same sb (off / bsize) m k b m1 k1 e) h

    test :
        (c : Bool)
        → Rest
        → elim c as (λ x. Looped (List ℕ × Meta × Kern)) [
          | true ↦ ended ([], m, k)
          | false ↦ elim (bmap sb (off / bsize) m k) as (λ x. Looped (List ℕ × Meta × Kern)) [
            | none ↦ halted
            | some (b, m1, k1) ↦
                elim (read_loop sb r (off + part off n) (n - part off n) m1 k1)
                  as (λ x. Looped (List ℕ × Meta × Kern)) [
                    | halted ↦ halted
                    | out_of_rounds ↦ out_of_rounds
                    | ended (ds, m2, k2) ↦ ended (
                      take (part off n) (drop (off % bsize) (bytes (bread b k1.store))) ++ ds,
                      m2,
                      k2,
                    )
                  ]
          ]
        ]
          ≡ ended (cs, m', k')
        → Same m m'
    test true f h = same_end (inside_ended h) (Same-refl m)
    test false f h = mapped (bmap sb (off / bsize) m k) f refl h

pub readi-Same :
    (sb : Superblock) (off n : ℕ) (m : Meta) (k : Kern) (cs : List ℕ) (m' : Meta) (k' : Kern)
    → readi sb off n m k ≡ got cs m' k'
    → Same m m'
unfolding readi
readi-Same sb off n m k cs m' k' h =
    let c = if ltb m.size (off + n) then m.size - off else n in
    elim (Bool-cases (ltb m.size off || ltb ((off + n) % 2 ^ 32) off)) [
      | inl e ↦ no_refusal (sym (if_true _ _ e) ∙ h)
      | inr e ↦ looped c (read_loop sb c off c m k) refl (sym (if_false _ _ e) ∙ h)
    ]
  where
    no_refusal : {W : Type 0} → refused ≡ got cs m' k' → W
    no_refusal h = absurd cc

    same_meta : {a b : List ℕ} {x y : Meta} {k1 k2 : Kern} → got a x k1 ≡ got b y k2 → x ≡ y
    same_meta h = cc

    looped :
        (c : ℕ) (o : Looped (List ℕ × Meta × Kern))
        → read_loop sb c off c m k ≡ o
        → elim o as (λ x. Contents) [
          | halted ↦ panic
          | out_of_rounds ↦ unfinished
          | ended (ds, m1, k1) ↦ got ds m1 k1
        ]
          ≡ got cs m' k'
        → Same m m'
    looped c halted e h = absurd cc
    looped c out_of_rounds e h = absurd cc
    looped c (ended (ds, m1, k1)) e h =
        subst (Same m) (same_meta h) (read_loop-Same sb c off c m k ds m1 k1 e)
