-- ===== src/Fs/Run/Outcomes.antt =====
-- How a call can end: it returns with `Q`, waits or stops, but its loops have rounds enough.
use hyu_ele3021_operating_sy.Prelude.{◌≢◌}
use hyu_ele3021_operating_sy.Fs.Run.{
  Run, ok, sleeps, panics, overruns, unfinished, Cmd, pure, and_then, ◌>>=◌,
}

pub data Outcome {S A : Type 0} (Q : A → S → Type 0) : Run S A → Type 0 where
  returns : {a : A} {s : S} → Q a s → Outcome Q (ok a s)
  waits : Outcome Q sleeps
  stops : Outcome Q panics
  leaves : Outcome Q overruns

-- From a state with `P`, `m` ends, with `Q` if it returns.
abbrev pub Completes : {S A : Type 0} → (S → Type 0) → Cmd S A → (A → S → Type 0) → Type 0
Completes {S} {A} P m Q = (s : S) → P s → Outcome Q (m s)

-- `m` ends from every state.
abbrev pub IsTotal : {S A : Type 0} → Cmd S A → Type 0
IsTotal {S} {A} m = (s : S) → Outcome (λ (a : A) (t : S). Unit {0}) (m s)

module _ {S A B : Type 0} where
  pub outcome_then :
      {Q : A → S → Type 0} {R : B → S → Type 0} {r : Run S A} (k : A → Cmd S B)
      → Outcome Q r
      → ((a : A) (t : S) → Q a t → Outcome R (k a t))
      → Outcome R (and_then r k)
  outcome_then k (returns {a} {s} q) f = f a s q
  outcome_then k waits f = waits
  outcome_then k stops f = stops
  outcome_then k leaves f = leaves

  pub then-IsTotal :
      (m : Cmd S A) (k : A → Cmd S B) → IsTotal m → ((a : A) → IsTotal (k a)) → IsTotal (m >>= k)
  then-IsTotal m k f g s = outcome_then k (f s) (λ a t _. g a t)

module _ {S A : Type 0} where
  pub outcome_weaker :
      {Q R : A → S → Type 0} {r : Run S A}
      → Outcome Q r
      → ((a : A) (t : S) → Q a t → R a t)
      → Outcome R r
  outcome_weaker (returns {a} {s} q) f = returns (f a s q)
  outcome_weaker waits f = waits
  outcome_weaker stops f = stops
  outcome_weaker leaves f = leaves

  pub pure-IsTotal : (a : A) → IsTotal {S = S} (pure a)
  pure-IsTotal a s = returns tt

  pub not_unfinished : {Q : A → S → Type 0} {r : Run S A} → Outcome Q r → r ≢ unfinished
  not_unfinished (returns q) = λ e. absurd cc
  not_unfinished waits = λ e. absurd cc
  not_unfinished stops = λ e. absurd cc
  not_unfinished leaves = λ e. absurd cc
