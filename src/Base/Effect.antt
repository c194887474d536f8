-- ===== src/Base/Effect.antt =====
-- Handlers: a state that is passed along, and exceptions. A write made before an exception stays,
-- except inside `transaction`, which puts the state back (Prisma's `$transaction`).
use mathlib.Core.Bool.{Bool, true, false}
use mathlib.Core.Option.{Option, none, some}
use academia_backend_api.Base.Http.{Exception}

pub data Run {ℓ κ} (S : Type ℓ) (A : Type κ) : Type (ℓ ⊔ κ) where
  ok : A → S → Run S A
  err : Exception → S → Run S A

abbrev pub M {ℓ κ} : Type ℓ → Type κ → Type (ℓ ⊔ κ)
M S A = S → Run S A

module _ {ℓ} {S : Type ℓ} where
  abbrev pub run_next {κ μ} : {A : Type κ} {B : Type μ} → Run S A → (A → M S B) → Run S B
  run_next (ok a s) f = f a s
  run_next (err e s) f = err e s

  abbrev pub roll_back {κ} : {A : Type κ} → S → Run S A → Run S A
  roll_back s (ok a s') = ok a s'
  roll_back s (err e s') = err e s

  -- The state that a run leaves, whether it returned or threw.
  abbrev pub after {κ} : {A : Type κ} → Run S A → S
  after (ok a s) = s
  after (err e s) = s

  infixl 5 ◌>>=◌ ◌>>◌
  unfoldable pub ◌>>=◌ {κ μ} : {A : Type κ} {B : Type μ} → M S A → (A → M S B) → M S B
  ◌>>=◌ m f s = run_next (m s) f

  unfoldable pub ◌>>◌ {κ} : {B : Type κ} → M S (Unit {0}) → M S B → M S B
  ◌>>◌ m k s = run_next (m s) (λ _. k)

  unfoldable pub pure {κ} : {A : Type κ} → A → M S A
  pure a s = ok a s

  unfoldable pub throw {κ} : {A : Type κ} → Exception → M S A
  throw e s = err e s

  -- `if (test) throw e;`
  unfoldable pub throw_if : Bool → Exception → M S (Unit {0})
  throw_if true e s = err e s
  throw_if false e s = ok tt s

  -- `if (test) throw e;` for a test that reads the state
  unfoldable pub throw_when : (S → Bool) → Exception → M S (Unit {0})
  unfolding throw_if
  throw_when f e s = throw_if (f s) e s

  -- `if (!value) throw e;` and the value after it
  unfoldable pub require {κ} : {A : Type κ} → Option A → Exception → M S A
  require none e s = err e s
  require (some a) e s = ok a s

  -- `const row = await query; if (!row) throw e;`
  unfoldable pub require_row {κ} : {A : Type κ} → (S → Option A) → Exception → M S A
  unfolding require
  require_row f e s = require (f s) e s

  unfoldable pub read {κ} : {A : Type κ} → (S → A) → M S A
  read f s = ok (f s) s

  unfoldable pub write : (S → S) → M S (Unit {0})
  write f s = ok tt (f s)

  write_and_throw : Bool → (S → S) → Exception → M S (Unit {0})
  write_and_throw true f e s = err e (f s)
  write_and_throw false f e s = ok tt s

  -- `if (test) { await update; throw e; }`
  unfoldable pub when_then_throw : (S → Bool) → (S → S) → Exception → M S (Unit {0})
  unfolding write_and_throw
  when_then_throw test f e s = write_and_throw (test s) f e s

  -- `if (test) return …;` and what follows it
  unfoldable pub return_if {κ} : {A : Type κ} → Bool → M S A → M S A → M S A
  return_if true m k s = m s
  return_if false m k s = k s

  unfoldable pub transaction {κ} : {A : Type κ} → M S A → M S A
  transaction m s = roll_back s (m s)

-- Names all of the above, for the `unfolding` line of a declaration that runs handlers.
unfoldable pub effects : Unit {0}
unfolding ◌>>=◌ ◌>>◌ pure throw throw_if throw_when require require_row read write when_then_throw
    return_if transaction
effects = tt
