-- ===== src/Base/Outcome.antt =====
-- Reasoning about a run by its outcome: `Post Q E r` says that `Q` holds of the result and the
-- state where `r` returns, and `E` of the state where it throws. There is one rule for each way in
-- which a handler goes on.
use mathlib.Core.Path.{◌≡◌, refl, sym, ap, subst}
use mathlib.Core.Bool.{Bool, true, false}
use mathlib.Core.Option.{Option, none, some}
use academia_backend_api.Base.Http.{Exception}
use academia_backend_api.Base.Effect.{
  Run, ok, err, M, run_next, after, ◌>>=◌, ◌>>◌, pure, throw, throw_if, throw_when, require,
  require_row, read, write, when_then_throw, return_if,
}

pub data Post {ℓ κ} {S : Type ℓ} {A : Type κ} (Q : A → S → Type 0) (E : S → Type 0)
    : Run S A → Type (ℓ ⊔ κ) where
  returns : {a : A} {s : S} → Q a s → Post Q E (ok a s)
  throws : {e : Exception} {s : S} → E s → Post Q E (err e s)

module _ {ℓ κ} {S : Type ℓ} {A : Type κ} {Q : A → S → Type 0} {E : S → Type 0} where
  pub Post-pure : (a : A) (s : S) → Q a s → Post Q E (pure a s)
  unfolding pure
  Post-pure a s h = returns h

  pub Post-throw : (e : Exception) (s : S) → E s → Post Q E (throw e s)
  unfolding throw
  Post-throw e s h = throws h

  require-next {μ} :
      {B : Type μ} (o : Option B) (e : Exception) (s : S) (f : B → M S A)
      → E s
      → ((b : B) → o ≡ some b → Post Q E (f b s))
      → Post Q E (run_next (require o e s) f)
  unfolding require
  require-next none e s f h k = throws h
  require-next (some b) e s f h k = k b refl

  pub Post-require {μ} :
      {B : Type μ} {o : Option B} (e : Exception) {s : S} (f : B → M S A)
      → E s
      → ((b : B) → o ≡ some b → Post Q E (f b s))
      → Post Q E ((require o e >>= f) s)
  unfolding ◌>>=◌
  Post-require {o = o} e {s = s} f h k = require-next o e s f h k

  require_else-next {μ} :
      {B : Type μ} (o : Option B) (e : Exception) (s : S) (f : B → M S A)
      → (o ≡ none → E s)
      → ((b : B) → o ≡ some b → Post Q E (f b s))
      → Post Q E (run_next (require o e s) f)
  unfolding require
  require_else-next none e s f h k = throws (h refl)
  require_else-next (some b) e s f h k = k b refl

  -- Where what is promised of the throw depends on the missing value.
  pub Post-require_else {μ} :
      {B : Type μ} {o : Option B} (e : Exception) {s : S} (f : B → M S A)
      → (o ≡ none → E s)
      → ((b : B) → o ≡ some b → Post Q E (f b s))
      → Post Q E ((require o e >>= f) s)
  unfolding ◌>>=◌
  Post-require_else {o = o} e {s = s} f h k = require_else-next o e s f h k

  pub Post-require_row {μ} :
      {B : Type μ} (g : S → Option B) (e : Exception) {s : S} (f : B → M S A)
      → E s
      → ((b : B) → g s ≡ some b → Post Q E (f b s))
      → Post Q E ((require_row g e >>= f) s)
  unfolding ◌>>=◌ require_row
  Post-require_row g e {s = s} f h k = require-next (g s) e s f h k

  throw_if-next :
      (b : Bool) (e : Exception) (s : S) (m : M S A)
      → E s
      → (b ≡ false → Post Q E (m s))
      → Post Q E (run_next (throw_if b e s) (λ _. m))
  unfolding throw_if
  throw_if-next true e s m h k = throws h
  throw_if-next false e s m h k = k refl

  pub Post-throw_if :
      {b : Bool} (e : Exception) {s : S} (m : M S A)
      → E s
      → (b ≡ false → Post Q E (m s))
      → Post Q E ((throw_if b e >> m) s)
  unfolding ◌>>◌
  Post-throw_if {b = b} e {s = s} m h k = throw_if-next b e s m h k

  pub Post-throw_when :
      (test : S → Bool) (e : Exception) {s : S} (m : M S A)
      → E s
      → (test s ≡ false → Post Q E (m s))
      → Post Q E ((throw_when test e >> m) s)
  unfolding ◌>>◌ throw_when
  Post-throw_when test e {s = s} m h k = throw_if-next (test s) e s m h k

  pub Post-read {μ} :
      {B : Type μ} (g : S → B) (s : S) (f : B → M S A)
      → Post Q E (f (g s) s)
      → Post Q E ((read g >>= f) s)
  unfolding ◌>>=◌ read
  Post-read g s f h = h

  pub Post-write :
      (g : S → S) (s : S) (m : M S A) → Post Q E (m (g s)) → Post Q E ((write g >> m) s)
  unfolding ◌>>◌ write
  Post-write g s m h = h

  when_then_throw-next :
      (test : S → Bool) (g : S → S) (e : Exception) (s : S) (m : M S A) (b : Bool)
      → test s ≡ b
      → (b ≡ true → E (g s))
      → (b ≡ false → Post Q E (m s))
      → Post Q E (run_next (when_then_throw test g e s) (λ _. m))
  unfolding when_then_throw
  when_then_throw-next test g e s m true same h k = rw same (throws (h refl))
  when_then_throw-next test g e s m false same h k = rw same (k refl)

  pub Post-when_then_throw :
      (test : S → Bool) (g : S → S) (e : Exception) (s : S) (m : M S A)
      → (test s ≡ true → E (g s))
      → (test s ≡ false → Post Q E (m s))
      → Post Q E ((when_then_throw test g e >> m) s)
  unfolding ◌>>◌
  Post-when_then_throw test g e s m h k = when_then_throw-next test g e s m (test s) refl h k

  pub Post-return_if :
      (b : Bool) (m k : M S A) (s : S)
      → (b ≡ true → Post Q E (m s))
      → (b ≡ false → Post Q E (k s))
      → Post Q E (return_if b m k s)
  unfolding return_if
  Post-return_if true m k s h l = h refl
  Post-return_if false m k s h l = l refl

  guard-next {μ} :
      {B : Type μ} (r : Run S B) (s : S) (f : B → M S A)
      → after r ≡ s
      → E s
      → ((b : B) → r ≡ ok b s → Post Q E (f b s))
      → Post Q E (run_next r f)
  guard-next (ok b t) s f same h k = subst (λ u. Post Q E (f b u)) (sym same) (k b (ap (ok b) same))
  guard-next (err e t) s f same h k = throws (subst E (sym same) h)

  -- A first part that leaves the state alone, such as a guard.
  pub Post-guard {μ} :
      {B : Type μ} (m : M S B) (f : B → M S A) {s : S}
      → after (m s) ≡ s
      → E s
      → ((b : B) → m s ≡ ok b s → Post Q E (f b s))
      → Post Q E ((m >>= f) s)
  unfolding ◌>>=◌
  Post-guard m f {s = s} same h k = guard-next (m s) s f same h k

  guard_then-next :
      (r : Run S (Unit {0})) (s : S) (f : M S A)
      → after r ≡ s
      → E s
      → (r ≡ ok tt s → Post Q E (f s))
      → Post Q E (run_next r (λ _. f))
  guard_then-next (ok b t) s f same h k =
      subst (λ u. Post Q E (f u)) (sym same) (k (ap (ok b) same))
  guard_then-next (err e t) s f same h k = throws (subst E (sym same) h)

  pub Post-guard_then :
      (m : M S (Unit {0})) (f : M S A) {s : S}
      → after (m s) ≡ s
      → E s
      → (m s ≡ ok tt s → Post Q E (f s))
      → Post Q E ((m >> f) s)
  unfolding ◌>>◌
  Post-guard_then m f {s = s} same h k = guard_then-next (m s) s f same h k

-- The last write of a handler.
pub Post-write_last {ℓ} :
    {S : Type ℓ} {Q : Unit {0} → S → Type 0} {E : S → Type 0} (g : S → S) (s : S)
    → Q tt (g s)
    → Post Q E (write g s)
unfolding write
Post-write_last g s h = returns h

-- A guard that ends a handler.
pub Post-throw_if_last {ℓ} :
    {S : Type ℓ} {Q : Unit {0} → S → Type 0} {E : S → Type 0} {b : Bool} (e : Exception) (s : S)
    → E s
    → (b ≡ false → Q tt s)
    → Post Q E (throw_if b e s)
unfolding throw_if
Post-throw_if_last {b = true} e s h k = throws h
Post-throw_if_last {b = false} e s h k = returns (k refl)

-- What every outcome satisfies holds of the state that is left.
pub Post-after {ℓ κ} :
    {S : Type ℓ} {A : Type κ} {E : S → Type 0} {r : Run S A} → Post (λ a s. E s) E r → E (after r)
Post-after (returns h) = h
Post-after (throws h) = h

abbrev OkOf {ℓ κ} : {S : Type ℓ} {A : Type κ} → (A → S → Type 0) → Run S A → Type 0
OkOf Q (ok a s) = Q a s
OkOf Q (err e s) = Unit

OkOf-Post {ℓ κ} :
    {S : Type ℓ} {A : Type κ} {Q : A → S → Type 0} {E : S → Type 0} {r : Run S A}
    → Post Q E r
    → OkOf Q r
OkOf-Post (returns q) = q
OkOf-Post (throws h) = tt

-- What a contract says of a run that returned.
pub Post-ok {ℓ κ} :
    {S : Type ℓ} {A : Type κ} {Q : A → S → Type 0} {E : S → Type 0} {r : Run S A} {a : A} {s : S}
    → Post Q E r
    → r ≡ ok a s
    → Q a s
Post-ok {Q = Q} h e = subst (OkOf Q) e (OkOf-Post h)
