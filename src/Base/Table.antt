-- ===== src/Base/Table.antt =====
-- A database table as the list of its rows: the reading and writing of rows that satisfy a
-- condition, and what each of them keeps.
use Prim.Native.Nat.{ℕ, suc, ◌≤◌}
use mathlib.Core.Path.{◌≡◌, refl, sym, ap, subst, ◌∙◌}
use mathlib.Core.Bool.{Bool, true, false}
use mathlib.Core.Logic.{inl, inr}
use mathlib.Core.Option.{Option, none, some}
use mathlib.Core.List.{List, [], ◌∷◌, ◌++◌}
use native.Mathlib.Omega.{arith}
use academia_backend_api.Base.Tests.{◌==◌, if◌then◌else◌, Bool-cases}

module _ {ℓ} {A : Type ℓ} where
  -- The first row that satisfies the condition (`findUnique`, `findFirst`).
  unfoldable pub find : (A → Bool) → List A → Option A
  find p [] = none
  find p (x ∷ xs) = if p x then some x else find p xs

  unfoldable pub count : (A → Bool) → List A → ℕ
  count p [] = 0
  count p (x ∷ xs) = if p x then suc (count p xs) else count p xs

  -- Rewrite every row that satisfies the condition (`update`, `updateMany`).
  unfoldable pub update : (A → Bool) → (A → A) → List A → List A
  update p f [] = []
  update p f (x ∷ xs) = (if p x then f x else x) ∷ update p f xs

  abbrev pub exists : (A → Bool) → List A → Bool
  exists p xs = elim (find p xs) [ none ↦ false | some _ ↦ true ]

  unfoldable pub filter : (A → Bool) → List A → List A
  filter p [] = []
  filter p (x ∷ xs) = if p x then x ∷ filter p xs else filter p xs

  abbrev pub mapped : (A → A) → Option A → Option A
  mapped g none = none
  mapped g (some x) = some (g x)

  -- What an update makes of one row.
  abbrev pub rewritten : (A → Bool) → (A → A) → A → A
  rewritten q f x = if q x then f x else x

  unfoldable pub length : List A → ℕ
  length [] = 0
  length (x ∷ xs) = suc (length xs)

  abbrev pub All {κ} : (A → Type κ) → List A → Type κ
  All P [] = Unit
  All P (x ∷ xs) = P x × All P xs

  pub All-map {κ μ} :
      (P : A → Type κ) (Q : A → Type μ)
      → ((x : A) → P x → Q x)
      → (xs : List A) → All P xs
      → All Q xs
  All-map P Q f [] h = tt
  All-map P Q f (x ∷ xs) (p, h) = (f x p, All-map P Q f xs h)

  pub All-zip {κ μ ν} :
      (P : A → Type κ) (Q : A → Type μ) (R : A → Type ν)
      → ((x : A) → P x → Q x → R x)
      → (xs : List A) → All P xs
      → All Q xs
      → All R xs
  All-zip P Q R f [] h k = tt
  All-zip P Q R f (x ∷ xs) (p, h) (q, k) = (f x p q, All-zip P Q R f xs h k)

  -- What an update establishes of the rows, from what held of them before.
  pub All-update {κ μ} :
      (P : A → Type κ) (Q : A → Type μ) (p : A → Bool) (f : A → A)
      → ((x : A) → P x → p x ≡ true → Q (f x))
      → ((x : A) → P x → p x ≡ false → Q x)
      → (xs : List A) → All P xs
      → All Q (update p f xs)
  unfolding update
  All-update P Q p f k l [] h = tt
  All-update P Q p f k l (x ∷ xs) (px, h) = elim (Bool-cases (p x)) [
    | inl e ↦ rw e (k x px e, All-update P Q p f k l xs h)
    | inr e ↦ rw e (l x px e, All-update P Q p f k l xs h)
  ]

  -- The same where nothing needs to be known of the rows.
  pub All-updated {κ} :
      (Q : A → Type κ) (p : A → Bool) (f : A → A)
      → ((x : A) → p x ≡ true → Q (f x))
      → ((x : A) → p x ≡ false → Q x)
      → (xs : List A) → All Q (update p f xs)
  unfolding update
  All-updated Q p f k l [] = tt
  All-updated Q p f k l (x ∷ xs) = elim (Bool-cases (p x)) [
    | inl e ↦ rw e (k x e, All-updated Q p f k l xs)
    | inr e ↦ rw e (l x e, All-updated Q p f k l xs)
  ]

  find-head :
      (p : A → Bool) (y : A) (xs : List A) {x : A} → p y ≡ true → find p (y ∷ xs) ≡ some x → y ≡ x
  unfolding find
  find-head p y xs t e = ground arith

  pub find-All {κ} :
      (P : A → Type κ) (p : A → Bool) (xs : List A) {x : A} → All P xs → find p xs ≡ some x → P x
  unfolding find
  find-All P p [] h e = cc
  find-All P p (y ∷ xs) (py, h) e = elim (Bool-cases (p y)) [
    | inl t ↦ subst P (find-head p y xs t e) py
    | inr t ↦ find-All P p xs h (rw t at e)
  ]

  -- A row that is found satisfies the condition that it was sought by.
  pub find-condition : (p : A → Bool) (xs : List A) {x : A} → find p xs ≡ some x → p x ≡ true
  unfolding find
  find-condition p [] e = cc
  find-condition p (y ∷ xs) e = elim (Bool-cases (p y)) [
    | inl t ↦ subst (λ z. p z ≡ true) (find-head p y xs t e) t
    | inr t ↦ find-condition p xs (rw t at e)
  ]

  -- What is found nowhere is counted nowhere, and the other way round.
  pub count-find-none : (p : A → Bool) (xs : List A) → find p xs ≡ none → count p xs ≡ 0
  unfolding find count
  count-find-none p [] e = refl
  count-find-none p (y ∷ xs) e = ground (arith, count-find-none p xs)

  -- Where at most one row satisfies the condition, every row that does is the one found.
  count_zero-All :
      (p : A → Bool) (xs : List A) (x : A) → count p xs ≡ 0 → All (λ y. p y ≡ true → y ≡ x) xs
  unfolding count
  count_zero-All p [] x e = tt
  count_zero-All p (y ∷ xs) x e = elim (Bool-cases (p y)) [
    | inl t ↦ absurd (ground arith)
    | inr t ↦ (λ h. cc, count_zero-All p xs x (ground arith))
  ]

  pub find_unique :
      (p : A → Bool) (xs : List A) {x : A}
      → count p xs ≤ 1
      → find p xs ≡ some x
      → All (λ y. p y ≡ true → y ≡ x) xs
  unfolding find count
  find_unique p [] u e = tt
  find_unique p (y ∷ xs) {x} u e = elim (Bool-cases (p y)) [
    | inl t ↦ (λ h. find-head p y xs t e, count_zero-All p xs x (ground arith))
    | inr t ↦ (λ h. cc, find_unique p xs (ground arith) (rw t at e))
  ]

  pub find-append :
      (p : A → Bool) (xs ys : List A) {x : A} → find p xs ≡ some x → find p (xs ++ ys) ≡ some x
  unfolding find
  find-append p [] ys e = cc
  find-append p (y ∷ xs) ys e = elim (Bool-cases (p y)) [
    | inl t ↦ rw t (rw t at e)
    | inr t ↦ rw t (find-append p xs ys (rw t at e))
  ]

  -- What an update with `f` leaves alone in every row.
  pub rewritten-same {κ} :
      {B : Type κ} (q : A → Bool) (f : A → A) (r : A → B)
      → ((x : A) → r (f x) ≡ r x)
      → (x : A) → r (rewritten q f x) ≡ r x
  rewritten-same q f r k x = elim (Bool-cases (q x)) [ inl t ↦ rw t (k x) | inr t ↦ rw t refl ]

  pub All-append {κ} : (P : A → Type κ) (xs ys : List A) → All P xs → All P ys → All P (xs ++ ys)
  All-append P [] ys h k = k
  All-append P (x ∷ xs) ys (px, h) k = (px, All-append P xs ys h k)

  -- An update that does not touch what a condition reads leaves the count alone.
  pub count-update :
      (q p : A → Bool) (f : A → A)
      → ((x : A) → q (f x) ≡ q x)
      → (xs : List A) → count q (update p f xs) ≡ count q xs
  unfolding count update
  count-update q p f k [] = refl
  count-update q p f k (x ∷ xs) = ground (arith, k x, count-update q p f k xs)

  -- A row that is found by one condition is found by any other that it alone satisfies.
  count-pos :
      (p q : A → Bool) (xs : List A) {x : A} → find p xs ≡ some x → q x ≡ true → 1 ≤ count q xs
  unfolding find count
  count-pos p q [] e h = cc
  count-pos p q (y ∷ xs) {x} e h = elim (Bool-cases (p y)) [
    | inl t ↦
        let same : q y ≡ true = subst (λ z. q z ≡ true) (sym (find-head p y xs t e)) h in
        rw same (omega arith)
    | inr t ↦ let tail : 1 ≤ count q xs = count-pos p q xs (rw t at e) h in ground arith
  ]

  pub find_of_unique :
      (p q : A → Bool) (xs : List A) {x : A}
      → count q xs ≤ 1
      → find p xs ≡ some x
      → q x ≡ true
      → find q xs ≡ some x
  unfolding find count
  find_of_unique p q [] u e h = cc
  find_of_unique p q (y ∷ xs) {x} u e h = elim (Bool-cases (p y)) [
    | inl t ↦
        let same : q y ≡ true = subst (λ z. q z ≡ true) (sym (find-head p y xs t e)) h in
        rw same (ap some (find-head p y xs t e))
    | inr t ↦
        let tail : 1 ≤ count q xs = count-pos p q xs (rw t at e) h in
        let rest : count q xs ≤ 1 → find q xs ≡ some x =
          λ v. find_of_unique p q xs v (rw t at e) h in
        ground arith
  ]

  -- The rows that an update leaves alone are found as before.
  pub find-update_ne :
      (q p : A → Bool) (f : A → A)
      → ((x : A) → q (f x) ≡ q x)
      → ((x : A) → p x ≡ true → q x ≡ false)
      → (xs : List A) → find q (update p f xs) ≡ find q xs
  unfolding find update
  find-update_ne q p f k l [] = refl
  find-update_ne q p f k l (x ∷ xs) = ground (arith, k x, l x, find-update_ne q p f k l xs)

  -- A row sought by what the update leaves alone is the updated row.
  pub find-rewritten :
      (p q : A → Bool) (f : A → A)
      → ((x : A) → p (f x) ≡ p x)
      → (xs : List A) → find p (update q f xs) ≡ mapped (rewritten q f) (find p xs)
  unfolding find update
  find-rewritten p q f k [] = refl
  find-rewritten p q f k (x ∷ xs) =
      let sought = rewritten-same q f p k x in
      let rest = find-rewritten p q f k xs in
      elim (Bool-cases (p x)) [ inl t ↦ rw (sought, t) refl | inr t ↦ rw (sought, t) rest ]

  -- What an update makes of a row that is found, where it keeps what the row is found by.
  pub find-update :
      (q p : A → Bool) (f : A → A) (xs : List A) {x : A}
      → ((y : A) → q (f y) ≡ q y)
      → find q xs ≡ some x
      → find q (update p f xs) ≡ some (rewritten p f x)
  find-update q p f xs k e = find-rewritten q p f k xs ∙ ap (mapped (rewritten p f)) e

  -- A row that an update leaves alone is found afterwards as it was.
  pub find-spared :
      (q p : A → Bool) (f : A → A) (xs : List A) {x : A}
      → ((y : A) → q (f y) ≡ q y)
      → find q xs ≡ some x
      → p x ≡ false
      → find q (update p f xs) ≡ some x
  find-spared q p f xs {x} k e h =
      subst (λ b. find q (update p f xs) ≡ some (if b then f x else x)) h (find-update q p f xs k e)

  pub count-append :
      (p : A → Bool) (xs : List A) (y : A)
      → count p (xs ++ (y ∷ [])) ≡ (if p y then suc (count p xs) else count p xs)
  unfolding count
  count-append p [] y = refl
  count-append p (x ∷ xs) y = ground (arith, count-append p xs y)

-- `ids.includes(id)`
abbrev pub member : ℕ → List ℕ → Bool
member id ids = exists (λ i. i == id) ids
