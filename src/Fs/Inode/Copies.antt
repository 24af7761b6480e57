-- ===== src/Fs/Inode/Copies.antt =====
-- An inode written by `iupdate` is the one that `ilock` reads.
use hyu_ele3021_operating_sy.Prelude.{
  if_true, if_false, ℕ, zero, suc, ◌+◌, ◌*◌, ◌%◌, ◌^◌, ◌≤◌, ◌<◌, ◌≡◌, refl, ap, subst, ◌∙◌, ◌≢◌,
  true, false, none, some, List, [], ◌∷◌, ◌++◌, arith, ltb, ◌==◌, ==_self, length, take, drop,
}
use hyu_ele3021_operating_sy.Fs.Buffer.{Block, bread}
use hyu_ele3021_operating_sy.Fs.Blocks.{Superblock, Kern}
use hyu_ele3021_operating_sy.Fs.Blocks.Marks.{bread-update}
use hyu_ele3021_operating_sy.Fs.Inode.{
  Meta, Inode, ipb, iblock, to_words, from_words, put_at, dinode, iupdate, locks, ilock,
}

-- What fits the fields of a `struct dinode`.
pub record Fits (m : Meta) : Type 0 where
  pub type_fits : m.type < 2 ^ 16
  pub minor_fits : m.minor < 2 ^ 16
  pub all_addrs : length m.addrs ≡ 13

from_words-to_words : (m : Meta) → Fits m → from_words (to_words m) ≡ m
from_words-to_words m f =
    same (omega (arith, f.type_fits)) (omega (arith, f.type_fits)) (omega (arith, f.minor_fits))
      (omega (arith, f.minor_fits))
  where
    fields : ℕ → ℕ → ℕ → ℕ → Meta
    fields a b c d = record {
      type = a;
      major = b;
      minor = c;
      nlink = d;
      size = m.size;
      addrs = m.addrs;
    }

    same : {a b c d : ℕ} → a ≡ m.type → b ≡ m.major → c ≡ m.minor → d ≡ m.nlink → fields a b c d ≡ m
    same p q r s = rw (p, q, r, s) refl

-- The words put in a block are found there.
take-drop-put_at :
    (o : ℕ) (ws : List ℕ) (x : Block)
    → o + length ws ≤ length x
    → take (length ws) (drop o (put_at o ws x)) ≡ ws
unfolding put_at
take-drop-put_at zero [] x h = refl
take-drop-put_at zero (w ∷ ws) [] h = absurd (omega arith)
take-drop-put_at zero (w ∷ ws) (y ∷ x) h = ap (◌∷◌ w) (take-append ws (drop (length ws) x))
  where
    take-append : (xs ys : List ℕ) → take (length xs) (xs ++ ys) ≡ xs
    take-append [] ys = refl
    take-append (z ∷ xs) ys = ap (◌∷◌ z) (take-append xs ys)
take-drop-put_at (suc o) ws [] h = absurd (omega arith)
take-drop-put_at (suc o) ws (y ∷ x) h = take-drop-put_at o ws x (omega arith)

copy_of :
    (sb : Superblock) (ip : Inode) (k k' : Kern)
    → Fits ip.meta
    → length (bread (iblock sb ip.inum) k.store) ≡ 128
    → iupdate sb ip k ≡ some k'
    → dinode ip.inum (bread (iblock sb ip.inum) k'.store) ≡ ip.meta
unfolding iupdate
copy_of sb ip k k' f n u =
    let o = ip.inum % ipb * 16 in
    let ws = to_words ip.meta in
    let x = bread (iblock sb ip.inum) k.store in
    let l : length ws ≡ 16 = omega (arith, f.all_addrs) in
    let at =
      bread-update (iblock sb ip.inum) (iblock sb ip.inum) (put_at o ws x) k k' u
      ∙ if_true _ _ (==_self (iblock sb ip.inum)) in
    rw at (
      subst (λ j. from_words (take j (drop o (put_at o ws x))) ≡ ip.meta) l
        (ap from_words (take-drop-put_at o ws x (omega (arith, l, n)))
          ∙ from_words-to_words ip.meta f))

-- If the fields of an inode with a type other than 0 fit a `struct dinode`, its block has 128 words
-- and `iupdate` has written it, then `ilock` of an unlocked reference to the inode that has not
-- been read yet finds these fields and locks it.
pub ilock-iupdate :
    (sb : Superblock) (pid : ℕ) (ip jp : Inode) (k k' : Kern)
    → Fits ip.meta
    → ip.meta.type ≢ 0
    → length (bread (iblock sb ip.inum) k.store) ≡ 128
    → iupdate sb ip k ≡ some k'
    → jp.inum ≡ ip.inum
    → 1 ≤ jp.ref
    → jp.locked ≡ none
    → jp.valid ≡ false
    → ilock sb pid jp k' ≡ locks (record jp { locked = some pid; meta = ip.meta; valid = true })
unfolding ilock iupdate
ilock-iupdate sb pid ip jp k k' f t n u e r l v =
    let here : dinode jp.inum (bread (iblock sb jp.inum) k'.store) ≡ ip.meta =
      rw e (copy_of sb ip k k' f n u) in
    let live : ltb jp.ref 1 ≡ false = ground arith in
    let typed : (ip.meta.type == 0) ≡ false = ground (arith, t) in
    rw (live, l, v, here) (if_false _ _ (ap (λ m. m.type == 0) here ∙ typed))
