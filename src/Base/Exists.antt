-- ===== src/Base/Exists.antt =====
-- Whether a table has a row that satisfies a condition, and how many it has.
use Prim.Native.Nat.{◌≤◌}
use mathlib.Core.Path.{◌≡◌, refl}
use mathlib.Core.Bool.{Bool, true, false}
use mathlib.Core.Logic.{inl, inr}
use mathlib.Core.Option.{some}
use mathlib.Core.List.{List, [], ◌∷◌, ◌++◌}
use native.Mathlib.Omega.{arith}
use academia_backend_api.Base.Tests.{Bool-cases}
use academia_backend_api.Base.Table.{find, count, update, exists, All}

pub exists-none {ℓ} :
    {A : Type ℓ} (p : A → Bool) (xs : List A) → exists p xs ≡ false → All (λ x. p x ≡ false) xs
unfolding find
exists-none p [] e = tt
exists-none p (x ∷ xs) e = elim (Bool-cases (p x)) [
  | inl t ↦ absurd (ground arith)
  | inr t ↦ (t, exists-none p xs (rw (exists, t) at e))
]

pub exists-append {ℓ} :
    {A : Type ℓ} (p : A → Bool) (xs : List A) (y : A)
    → p y ≡ true
    → exists p (xs ++ (y ∷ [])) ≡ true
unfolding find
exists-append p [] y e = rw (exists, e) refl
exists-append p (x ∷ xs) y e = elim (Bool-cases (p x)) [
  | inl t ↦ rw (exists, t) refl
  | inr t ↦ rw (exists, t) (exists-append p xs y e)
]

pub exists-update {ℓ} :
    {A : Type ℓ} (p q : A → Bool) (f : A → A) (xs : List A)
    → ((x : A) → p (f x) ≡ p x)
    → exists p (update q f xs) ≡ exists p xs
unfolding find update
exists-update p q f [] k = refl
exists-update p q f (x ∷ xs) k = ground (arith, k x, exists-update p q f xs k)

pub exists-found {ℓ} :
    {A : Type ℓ} (p q : A → Bool) (xs : List A) {x : A}
    → find p xs ≡ some x
    → q x ≡ true
    → exists q xs ≡ true
unfolding find
exists-found p q [] e h = cc
exists-found p q (y ∷ xs) {x} e h = elim (Bool-cases (p y)) [
  | inl t ↦
      let same : some y ≡ some x = rw t at e in let is : q y ≡ true = cc in rw (exists, is) refl
  | inr t ↦ let rest = exists-found p q xs (rw t at e) h in ground (arith, rest)
]

pub count-none {ℓ} :
    {A : Type ℓ} (p : A → Bool) (xs : List A) → All (λ x. p x ≡ false) xs → count p xs ≡ 0
unfolding count
count-none p [] h = refl
count-none p (x ∷ xs) (e, h) = rw e (count-none p xs h)

-- An update after which no more rows satisfy a condition.
pub count-update_le {ℓ} :
    {A : Type ℓ} (q p : A → Bool) (f : A → A)
    → ((x : A) → q (f x) ≡ true → q x ≡ true)
    → (xs : List A) → count q (update p f xs) ≤ count q xs
unfolding count update
count-update_le q p f k [] = omega arith
count-update_le q p f k (x ∷ xs) = ground (arith, k x, count-update_le q p f k xs)
