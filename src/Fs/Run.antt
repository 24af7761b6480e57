-- ===== src/Fs/Run.antt =====
-- Project03-FileSystem: how a call of the file system ends, over a state `S`. A call that waits for a
-- lock, for the log or on a pipe ends in `sleeps`, and a panic in `panics`; `overruns` is an access
-- beyond an array, and `unfinished` stands for a loop whose rounds ran out.
pub mod Ends
pub mod Outcomes
use hyu_ele3021_operating_sy.Prelude.{Bool, if◌then◌else◌}

pub data Run (S A : Type 0) : Type 0 where
  ok : A → S → Run S A
  sleeps : Run S A
  panics : Run S A
  overruns : Run S A
  unfinished : Run S A

abbrev pub Cmd : Type 0 → Type 0 → Type 0
Cmd S A = S → Run S A

abbrev pub pure : {S A : Type 0} → A → Cmd S A
pure = ok

abbrev pub stop : {S A : Type 0} → Cmd S A
stop s = panics

module _ {S A B : Type 0} where
  abbrev pub and_then : Run S A → (A → Cmd S B) → Run S B
  and_then (ok a s) k = k a s
  and_then sleeps k = sleeps
  and_then panics k = panics
  and_then overruns k = overruns
  and_then unfinished k = unfinished

  infixl 5 ◌>>=◌ ◌>>◌
  abbrev pub ◌>>=◌ : Cmd S A → (A → Cmd S B) → Cmd S B
  m >>= k = λ s. and_then (m s) k

  abbrev pub ◌>>◌ : Cmd S A → Cmd S B → Cmd S B
  m >> n = m >>= λ _. n

-- A change of the state.
abbrev pub modify : {S : Type 0} → (S → S) → Cmd S (Unit {0})
modify g s = ok tt (g s)

-- The state itself.
abbrev pub get_state : {S : Type 0} → Cmd S S
get_state s = ok s s

-- A command run only if the test holds.
abbrev pub when : {S : Type 0} → Bool → Cmd S (Unit {0}) → Cmd S (Unit {0})
when c m = if c then m else pure tt
