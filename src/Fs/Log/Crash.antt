-- ===== src/Fs/Log/Crash.antt =====
-- A crash at any write of `commit`, followed by `recover_from_log`.
use hyu_ele3021_operating_sy.Prelude.{
  ℕ, ◌+◌, ◌*◌, ◌≤◌, ◌<◌, ◌≡◌, refl, ap, ◌∙◌, ◌⊎◌, inl, inr, List, [], ◌∷◌, arith, leb, ◌==◌,
  if◌then◌else◌, Bool-cases, length,
}
use hyu_ele3021_operating_sy.Fs.Buffer.{Store, bread, reboot, bread-reboot}
use hyu_ele3021_operating_sy.Fs.Log.{commit, recover_from_log}
use hyu_ele3021_operating_sy.Fs.Log.Header.{decode, encode}
use hyu_ele3021_operating_sy.Fs.Log.Commit.{
  IsHome, AllHome, has, Holds-same, updated, power-write_log, power-install_trans,
}
use hyu_ele3021_operating_sy.Fs.Buffer.{power-put}
use hyu_ele3021_operating_sy.Fs.Log.Writes.{
  recover_empty, recover_full, home_ne, commit_eq, logged, headed, installed, cleared, dead, erased,
  unerased,
}

disk-reboot : (p c : ℕ) (s : Store) → (reboot p s).disk c ≡ s.disk c
unfolding reboot
disk-reboot p c s = refl

module _ (start : ℕ) (bs : List ℕ) (s : Store) (home : AllHome start (length bs) bs)
    (fits : length bs < length (bread start s)) where
  -- Recovery after a crash of `commit`.
  recovered :
      (p : ℕ)
      → decode (s.disk start) ≡ []
      → length bs ≤ p
      → let r = recover_from_log start (reboot p (cleared start bs s)) in
        ((c : ℕ) → IsHome start (length bs) c → r.disk c ≡ s.disk c)
        ⊎ ((c : ℕ) → IsHome start (length bs) c → r.disk c ≡ updated (λ b. bread b s) s.disk bs c)
  recovered p clean enough = elim (Bool-cases (leb s.power (length bs))) [
    | inl e ↦ inl (λ c h.
        recover_empty start c t
          (ap decode (view start ∙ dead start bs s home fits (ground arith) start (inl refl))
            ∙ clean)
          (home_ne start (length bs) c h)
        ∙ disk_of c
        ∙ dead start bs s home fits (ground arith) c (inr h))
    | inr e ↦
        let q : length bs < s.power = ground arith in
        inr (λ c h. elim (Bool-cases ((installed start bs s).power == 0)) [
          | inl z ↦
              let u = unerased start bs s home fits q (ground arith) in
              recover_full start c bs t (λ b. bread b s) (ap decode (view start) ∙ u.0)
                (home_ne start (length bs) c h) (rw power_of enough) home
                (Holds-same start (cleared start bs s).disk (λ d. bread d t) (λ b. bread b s) 0
                  (length bs) bs (omega arith) (λ d a b. view d) u.1)
              ∙ ap (λ x. if has c bs then bread c s else x) (disk_of c)
              ∙ u.2 c h
          | inr z ↦
              let u = erased start bs s home fits q (ground arith) in
              recover_empty start c t (ap decode (view start) ∙ u.0) (home_ne start (length bs) c h)
              ∙ disk_of c
              ∙ u.1 c h
        ])
  ]
    where
      t : Store
      t = reboot p (cleared start bs s)

      view : (c : ℕ) → bread c t ≡ (cleared start bs s).disk c
      view c = bread-reboot p c (cleared start bs s)

      disk_of : (c : ℕ) → t.disk c ≡ (cleared start bs s).disk c
      disk_of c = disk-reboot p c (cleared start bs s)

      power_of : t.power ≡ p
      power_of = unfold reboot in refl

commit_nil : (start : ℕ) (s : Store) → commit start [] s ≡ s
unfolding commit
commit_nil start s = refl

-- If the blocks of a log stand outside the log on the disk, the log fits its header block, and the
-- header on the disk is empty, then after a `commit` whose power fails at any write, a restart and
-- `recover_from_log` with power for the log, either every block outside the log is as before the
-- commit, or every such block that the log names has its new contents and the others are as before.
pub commit_atomic :
    (start p : ℕ) (bs : List ℕ) (s : Store)
    → AllHome start (length bs) bs
    → length bs < length (bread start s)
    → decode (s.disk start) ≡ []
    → length bs ≤ p
    → let r = recover_from_log start (reboot p (commit start bs s)) in
      ((c : ℕ) → IsHome start (length bs) c → r.disk c ≡ s.disk c)
      ⊎ ((c : ℕ) → IsHome start (length bs) c → r.disk c ≡ updated (λ b. bread b s) s.disk bs c)
commit_atomic start p [] s home fits clean enough = inl (λ c h.
    recover_empty start c (reboot p (commit start [] s))
      (ap decode (
          bread-reboot p start (commit start [] s)
          ∙ ap (λ (t : Store). t.disk start) (commit_nil start s))
        ∙ clean)
      (home_ne start 0 c h)
    ∙ disk-reboot p c (commit start [] s)
    ∙ ap (λ (t : Store). t.disk c) (commit_nil start s))
commit_atomic start p (b ∷ bs) s home fits clean enough =
    rw (commit_eq start b bs s) (recovered start (b ∷ bs) s home fits p clean enough)

-- If the blocks of a log with at least one block stand outside the log on the disk, the log fits
-- its header block, and there is power for all its writes, `commit` leaves an empty header on the
-- disk, every block that the log names with its new contents, and every other block outside the log
-- as before.
pub commit_complete :
    (start b : ℕ) (bs : List ℕ) (s : Store)
    → AllHome start (length (b ∷ bs)) (b ∷ bs)
    → length (b ∷ bs) < length (bread start s)
    → 2 * length (b ∷ bs) + 2 ≤ s.power
    → let t = commit start (b ∷ bs) s in
      (decode (t.disk start) ≡ [])
      × ((c : ℕ)
          → IsHome start (length (b ∷ bs)) c
          → t.disk c ≡ updated (λ d. bread d s) s.disk (b ∷ bs) c)
commit_complete start b bs s home fits enough =
    let all = b ∷ bs in
    rw (commit_eq start b bs s) (
      erased start all s home fits (omega arith) (
        omega (
          arith,
          power-install_trans start 0 all (headed start all s),
          power-put start (encode all (bread start (logged start all s))) (logged start all s),
          power-write_log start 0 all s,
        )))
