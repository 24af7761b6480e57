-- ===== src/Fs/Log/Writes.antt =====
-- What stands on the disk after `commit` when the power fails at one of its writes, and what
-- `recover_from_log` makes of a log.
use hyu_ele3021_operating_sy.Prelude.{
  ℕ, ◌≤◌, ◌<◌, ◌≡◌, refl, ap, ◌∙◌, ◌≢◌, ◌⊎◌, inl, inr, false, List, [], ◌∷◌, arith, if◌then◌else◌,
  Bool-cases, length, set, length-set,
}
use hyu_ele3021_operating_sy.Fs.Buffer.{
  Block, Store, bread, put, power-put, bread-put_self, bread-put_ne, disk-put_self, disk-put_ne,
  disk-put_dead,
}
use hyu_ele3021_operating_sy.Fs.Log.{
  install_trans, write_log, commit, recover_from_log, read_head, write_head,
}
use hyu_ele3021_operating_sy.Fs.Log.Header.{encode, decode, decode-encode, length-put_words}
use hyu_ele3021_operating_sy.Fs.Log.Commit.{
  IsHome, AllHome, has, Holds, Holds-same, updated, power-write_log, bread-write_log,
  disk-write_log, install_trans-other, power-install_trans, has-AllHome, install_trans-updated,
  install_trans-dead,
}

recover_eq :
    (start : ℕ) (s : Store)
    → let t = install_trans start 0 (decode (bread start s)) s in
      recover_from_log start s ≡ put start (encode [] (bread start t)) t
unfolding recover_from_log write_head read_head
recover_eq start s = refl

-- With an empty log recovery changes no other block than the header.
pub recover_empty :
    (start c : ℕ) (s : Store)
    → decode (bread start s) ≡ []
    → c ≢ start
    → (recover_from_log start s).disk c ≡ s.disk c
recover_empty start c s e h = rw (recover_eq start s) (
    disk-put_ne start c _ (install_trans start 0 (decode (bread start s)) s) h
    ∙ (install_trans-other start 0 (decode (bread start s)) s c (rw e refl)).1)

pub recover_full :
    (start c : ℕ) (bs : List ℕ) (s : Store) (new : ℕ → Block)
    → decode (bread start s) ≡ bs
    → c ≢ start
    → length bs ≤ s.power
    → AllHome start (length bs) bs
    → Holds start (λ d. bread d s) new 0 bs
    → (recover_from_log start s).disk c ≡ updated new s.disk bs c
recover_full start c bs s new e h p a k = rw (recover_eq start s) (
    disk-put_ne start c _ (install_trans start 0 (decode (bread start s)) s) h
    ∙ rw e (install_trans-updated start 0 (length bs) bs s new c (omega arith) p a k))

-- The four parts of a commit.
module _ (start : ℕ) (bs : List ℕ) (s : Store) where
  abbrev pub logged : Store
  logged = write_log start 0 bs s

  abbrev pub headed : Store
  headed = put start (encode bs (bread start logged)) logged

  abbrev pub installed : Store
  installed = install_trans start 0 bs headed

  abbrev pub cleared : Store
  cleared = put start (encode [] (bread start installed)) installed

-- `commit` of a log that is not empty.
pub commit_eq :
    (start b : ℕ) (bs : List ℕ) (s : Store) → commit start (b ∷ bs) s ≡ cleared start (b ∷ bs) s
unfolding commit write_head
commit_eq start b bs s = refl

pub home_ne : (start n c : ℕ) → IsHome start n c → c ≢ start
home_ne start n c h = omega arith

module _ (start : ℕ) (bs : List ℕ) (s : Store) (home : AllHome start (length bs) bs)
    (fits : length bs < length (bread start s)) where
  away : (c : ℕ) → IsHome start (length bs) c → (logged start bs s).disk c ≡ s.disk c
  away c h = (bread-write_log start 0 bs s c (omega arith)).1

  -- The power fails before the header is written.
  pub dead :
      s.power ≤ length bs
      → (c : ℕ) → (c ≡ start) ⊎ IsHome start (length bs) c
      → (cleared start bs s).disk c ≡ s.disk c
  dead p c h =
      let p1 = power-write_log start 0 bs s in
      let p2 = power-put start (encode bs (bread start (logged start bs s))) (logged start bs s) in
      let p3 = power-install_trans start 0 bs (headed start bs s) in
      disk-put_dead start c _ (installed start bs s) (omega (arith, p1, p2, p3, p))
      ∙ install_trans-dead start 0 bs (headed start bs s) c (omega (arith, p1, p2, p))
      ∙ disk-put_dead start c _ (logged start bs s) (omega (arith, p1, p))
      ∙ (bread-write_log start 0 bs s c (omega (arith, h))).1

  header : bread start (logged start bs s) ≡ bread start s
  header = (bread-write_log start 0 bs s start (inl (omega arith))).0

  header_free : has start bs ≡ false
  header_free = has-AllHome start (length bs) bs start home (omega arith) (omega arith)

  -- The header has been written.
  live :
      length bs < s.power
      → ((headed start bs s).disk start ≡ encode bs (bread start s))
        × Holds start (headed start bs s).disk (λ b. bread b s) 0 bs
        × Holds start (λ c. bread c (headed start bs s)) (λ b. bread b s) 0 bs
  live p =
      let x = encode bs (bread start (logged start bs s)) in
      let w =
        disk-write_log start 0 (length bs) bs s (λ b. bread b s) (omega arith) (omega (arith, p))
          home (λ c h. refl) in
      (
        disk-put_self start x (logged start bs s) (omega (arith, power-write_log start 0 bs s, p))
            ∙ ap (encode bs) header,
        Holds-same start (logged start bs s).disk (headed start bs s).disk (λ b. bread b s) 0
            (length bs) bs (omega arith)
            (λ c a b. disk-put_ne start c x (logged start bs s) (omega arith)) w.0,
        Holds-same start (λ c. bread c (logged start bs s)) (λ c. bread c (headed start bs s))
            (λ b. bread b s) 0 (length bs) bs (omega arith)
            (λ c a b. bread-put_ne start c x (logged start bs s) (omega arith)) w.1,
      )

  headed_away : (c : ℕ) → IsHome start (length bs) c → (headed start bs s).disk c ≡ s.disk c
  headed_away c h =
      disk-put_ne start c _ (logged start bs s) (home_ne start (length bs) c h) ∙ away c h

  -- The power fails before the header is erased, or does not.
  pub erased :
      length bs < s.power
      → 0 < (installed start bs s).power
      → (decode ((cleared start bs s).disk start) ≡ [])
        × ((c : ℕ)
            → IsHome start (length bs) c
            → (cleared start bs s).disk c ≡ updated (λ b. bread b s) s.disk bs c)
  erased p q = (
    ap decode (disk-put_self start _ (installed start bs s) q)
        ∙ decode-encode [] (bread start (installed start bs s)) (omega (arith, long, fits)),
    (λ c h.
        disk-put_ne start c _ (installed start bs s) (home_ne start (length bs) c h)
        ∙ install_trans-updated start 0 (length bs) bs (headed start bs s) (λ b. bread b s) c
            (omega arith) (omega (arith, power-install_trans start 0 bs (headed start bs s), q))
            home (live p).2
        ∙ ap (λ x. if has c bs then bread c s else x) (headed_away c h)),
  )
    where
      long : length (bread start (installed start bs s)) ≡ length (bread start s)
      long =
          ap length (install_trans-other start 0 bs (headed start bs s) start header_free).0
          ∙ ap length (
              bread-put_self start (encode bs (bread start (logged start bs s)))
                (logged start bs s))
          ∙ length-put_words 0 bs (set (bread start (logged start bs s)) 0 (length bs))
          ∙ length-set (bread start (logged start bs s)) 0 (length bs)
          ∙ ap length header

  pub unerased :
      length bs < s.power
      → (installed start bs s).power ≡ 0
      → (decode ((cleared start bs s).disk start) ≡ bs)
        × Holds start (cleared start bs s).disk (λ b. bread b s) 0 bs
        × ((c : ℕ)
            → IsHome start (length bs) c
            → updated (λ b. bread b s) (cleared start bs s).disk bs c
              ≡ updated (λ b. bread b s) s.disk bs c)
  unerased p q =
      let off : (c : ℕ) → (cleared start bs s).disk c ≡ (installed start bs s).disk c =
        λ c. disk-put_dead start c _ (installed start bs s) q in
      let other : (c : ℕ)
          → has c bs ≡ false
          → (cleared start bs s).disk c ≡ (headed start bs s).disk c =
        λ c h. off c ∙ (install_trans-other start 0 bs (headed start bs s) c h).1 in
      (
        ap decode (other start header_free ∙ (live p).0) ∙ decode-encode bs (bread start s) fits,
        Holds-same start (headed start bs s).disk (cleared start bs s).disk (λ b. bread b s) 0
            (length bs) bs (omega arith)
            (λ c a b. other c (has-AllHome start (length bs) bs c home (omega arith) b)) (live p).1,
        (λ c h. elim (Bool-cases (has c bs)) [
          | inl y ↦ rw y refl
          | inr y ↦ rw y (other c y ∙ headed_away c h)
        ]),
      )
