-- ===== src/Fs/Run/Ends.antt =====
-- What holds where a call ends.
use hyu_ele3021_operating_sy.Prelude.{◌≡◌, refl, subst}
use hyu_ele3021_operating_sy.Fs.Run.{
  Run, ok, sleeps, panics, overruns, unfinished, Cmd, pure, modify, and_then, ◌>>=◌,
}

-- From a state in which `P` holds, `m` ends, if it returns, with `Q`.
abbrev pub Ends : {S A : Type 0} → (S → Type 0) → Cmd S A → (A → S → Type 0) → Type 0
Ends {S} {A} P m Q = (s : S) → P s → (a : A) (t : S) → m s ≡ ok a t → Q a t

module _ {S A : Type 0} where
  same_value : {a b : A} {s t : S} → ok a s ≡ ok b t → a ≡ b
  same_value h = cc

  same_state : {a b : A} {s t : S} → ok a s ≡ ok b t → s ≡ t
  same_state h = cc

  -- A command that has returned.
  pub returned : (Q : A → S → Type 0) (a b : A) (s t : S) → Q a s → ok a s ≡ ok b t → Q b t
  returned Q a b s t q h = subst (λ c. Q c t) (same_value h) (subst (Q a) (same_state h) q)

  pub no_sleep : {W : Type 0} {a : A} {s : S} → sleeps ≡ ok a s → W
  no_sleep h = absurd cc

  pub no_panic : {W : Type 0} {a : A} {s : S} → panics ≡ ok a s → W
  no_panic h = absurd cc

  pub no_overrun : {W : Type 0} {a : A} {s : S} → overruns ≡ ok a s → W
  no_overrun h = absurd cc

  pub no_rounds : {W : Type 0} {a : A} {s : S} → unfinished ≡ ok a s → W
  no_rounds h = absurd cc

  pub pure-Ends :
      {P : S → Type 0} (Q : A → S → Type 0) (a : A) → ((s : S) → P s → Q a s) → Ends P (pure a) Q
  pure-Ends Q a f s p b t h = returned Q a b s t (f s p) h

module _ {S A B : Type 0} where
  pub bind-Ends :
      {P : S → Type 0} (Q : A → S → Type 0) {R : B → S → Type 0} (m : Cmd S A) (k : A → Cmd S B)
      → Ends P m Q
      → ((a : A) → Ends (Q a) (k a) R)
      → Ends P (m >>= k) R
  bind-Ends Q {R} m k f g s p b t h = go (m s) refl h
    where
      go : (x : Run S A) → m s ≡ x → and_then x k ≡ ok b t → R b t
      go (ok a u) e h = g a u (f s p a u e) b t h
      go sleeps e h = no_sleep h
      go panics e h = no_panic h
      go overruns e h = no_overrun h
      go unfinished e h = no_rounds h

pub modify-Ends :
    {S : Type 0} {P : S → Type 0} (Q : S → Type 0) (g : S → S)
    → ((s : S) → P s → Q (g s))
    → Ends P (modify g) (λ _. Q)
modify-Ends Q g f s p a t h = returned (λ _. Q) tt a (g s) t (f s p) h
