-- ===== src/Base/Compose.antt =====
-- Reasoning about a handler by its parts: transactions, and parts with a contract of their own.
use mathlib.Core.Path.{◌≡◌}
use academia_backend_api.Base.Effect.{Run, ok, M, run_next, roll_back, ◌>>=◌, ◌>>◌, transaction}
use academia_backend_api.Base.Outcome.{Post, returns, throws}

module _ {ℓ κ} {S : Type ℓ} {A : Type κ} {Q : A → S → Type 0} {E : S → Type 0} where
  roll_back-next :
      {F : S → Type 0} {r : Run S A} (s : S) → E s → Post Q F r → Post Q E (roll_back s r)
  roll_back-next s h (returns q) = returns q
  roll_back-next s h (throws f) = throws h

  -- A transaction that throws leaves the state that it began with.
  pub Post-transaction :
      (F : S → Type 0) (m : M S A) {s : S} → E s → Post Q F (m s) → Post Q E (transaction m s)
  unfolding transaction
  Post-transaction F m {s = s} h k = roll_back-next s h k

  pub Post-map :
      {R : A → S → Type 0} {F : S → Type 0} {r : Run S A}
      → Post Q E r
      → ((a : A) (s : S) → Q a s → R a s)
      → ((s : S) → E s → F s)
      → Post R F r
  Post-map (returns q) k l = returns (k _ _ q)
  Post-map (throws e) k l = throws (l _ e)

  bind-next {μ} :
      {B : Type μ} {P : B → S → Type 0} {r : Run S B} (f : B → M S A)
      → Post P E r
      → ((b : B) (t : S) → P b t → Post Q E (f b t))
      → Post Q E (run_next r f)
  bind-next f (returns p) k = k _ _ p
  bind-next f (throws h) k = throws h

  -- A first part with a contract of its own.
  pub Post-bind {μ} :
      {B : Type μ} {P : B → S → Type 0} (m : M S B) (f : B → M S A) (s : S)
      → Post P E (m s)
      → ((b : B) (t : S) → P b t → Post Q E (f b t))
      → Post Q E ((m >>= f) s)
  unfolding ◌>>=◌
  Post-bind m f s h k = bind-next f h k

  pub Post-then :
      {P : Unit {0} → S → Type 0} (m : M S (Unit {0})) (n : M S A) (s : S)
      → Post P E (m s)
      → ((t : S) → P tt t → Post Q E (n t))
      → Post Q E ((m >> n) s)
  unfolding ◌>>◌
  Post-then m n s h k = bind-next (λ _. n) h (λ b t p. k t p)

  -- A first part whose run is known.
  pub Post-then_ok :
      (m : M S (Unit {0})) (n : M S A) {s t : S}
      → m s ≡ ok tt t
      → Post Q E (n t)
      → Post Q E ((m >> n) s)
  unfolding ◌>>◌
  Post-then_ok m n e h = rw e h
