-- ===== src/Exec.antt =====
-- Effects: a C function as a function of the state, which returns, returns with its `error` set, or
-- stops the process.
-- main() makes critical messages fatal (src/rauc-hawkbit-updater.c), so a failed
-- `g_return_val_if_fail`, here or in a library, ends the process as an assertion does.
use rauc_hawkbit_updater.GError.{GError, Result, ok, err}

pub data Crash : Type 0 where
  -- g_return_val_if_fail, g_critical, g_assert
  critical assertion : Crash
  -- a NULL pointer is read
  null_pointer : Crash
  -- the thread locks a mutex that it holds, or waits and is not woken
  self_deadlock blocked : Crash

pub data Outcome {ℓ} (A : Type ℓ) : Type ℓ where
  done : A → Outcome A
  fail : GError → Outcome A
  crash : Crash → Outcome A

abbrev pub Exec {ℓ} : Type ℓ → Type ℓ → Type ℓ
Exec S A = S → Outcome A × S

abbrev pub attempted {ℓ} : {A : Type ℓ} → Outcome A → Outcome (Result A)
attempted (done a) = done (ok a)
attempted (fail e) = done (err e)
attempted (crash c) = crash c

module _ {ℓ} {S A : Type ℓ} where
  unfoldable pub pure : A → Exec S A
  pure a s = (done a, s)

  unfoldable pub stop : Crash → Exec S A
  stop c s = (crash c, s)

  -- g_set_error, and the return of FALSE or NULL
  unfoldable pub throw : GError → Exec S A
  throw e s = (fail e, s)

  unfoldable pub of_result : Result A → Exec S A
  of_result (ok a) s = (done a, s)
  of_result (err e) s = (fail e, s)

  -- A call whose failure the caller looks at.
  unfoldable pub attempt : Exec S A → Exec S (Result A)
  attempt m s = let (r, s') = m s in (attempted r, s')

  unfoldable pub gets : (S → A) → Exec S A
  gets f s = (done (f s), s)

unfoldable pub modify : {S : Type 0} → (S → S) → Exec S (Unit {0})
modify f s = (done tt, f s)

unfoldable pub lift {ℓ} : {S A : Type ℓ} → Outcome A → Exec S A
lift r s = (r, s)

module _ {ℓ} {S A B : Type ℓ} where
  abbrev pub continue : Outcome A → (A → Exec S B) → Exec S B
  continue (done a) f s = f a s
  continue (fail e) f s = (fail e, s)
  continue (crash c) f s = (crash c, s)

  infixl 5 ◌>>=◌ ◌>>◌
  -- Opening this opens the actions above it too.
  unfoldable pub ◌>>=◌ : Exec S A → (A → Exec S B) → Exec S B
  unfolding pure stop throw of_result attempt gets modify lift
  ◌>>=◌ m f s = let (r, s') = m s in continue r f s'

  abbrev pub ◌>>◌ : Exec S A → Exec S B → Exec S B
  m >> n = m >>= λ _. n
