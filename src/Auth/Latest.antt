-- ===== src/Auth/Latest.antt =====
-- The most recent code of a table after one of its codes was rewritten, or after a new one was added.
use academia_backend_api.Base.{
  ◌<◌, Bool, true, Option, none, some, List, [], ◌∷◌, ◌++◌, ◌≡◌, refl, inl, inr, arith, Bool-cases,
  ltb, update, All, ap, ◌∙◌, mapped, rewritten, rewritten-same, eq→==,
}
use academia_backend_api.Auth.Schema.{Otp}
use academia_backend_api.Auth.Codes.{later, find_latest, has_id}

later-mapped :
    (g : Otp → Otp)
    → ((x : Otp) → (g x).created_at ≡ x.created_at)
    → (x : Otp) (o : Option Otp) → later (g x) (mapped g o) ≡ mapped g (later x o)
later-mapped g k x none = refl
later-mapped g k x (some y) =
    let same : ltb (g x).created_at (g y).created_at ≡ ltb x.created_at y.created_at =
      rw (k x, k y) refl in
    elim (Bool-cases (ltb x.created_at y.created_at)) [
      | inl t ↦ rw (same, t) refl
      | inr t ↦ rw (same, t) refl
    ]

-- A rewriting that keeps the times of creation and what is sought keeps which code is the latest.
pub find_latest-update :
    (p q : Otp → Bool) (f : Otp → Otp)
    → ((x : Otp) → p (f x) ≡ p x)
    → ((x : Otp) → (f x).created_at ≡ x.created_at)
    → (os : List Otp) → find_latest p (update q f os) ≡ mapped (rewritten q f) (find_latest p os)
unfolding find_latest update
find_latest-update p q f s k [] = refl
find_latest-update p q f s k (x ∷ xs) =
    let rest = find_latest-update p q f s k xs in
    let sought = rewritten-same q f p s x in
    elim (Bool-cases (p x)) [
      | inl t ↦
          rw (sought, t)
            (ap (later (rewritten q f x)) rest
              ∙ later-mapped (rewritten q f) (rewritten-same q f (λ o. o.created_at) k) x
                  (find_latest p xs))
      | inr t ↦ rw (sought, t) rest
    ]

-- Codes that were all created earlier, and a new one behind them.
pub find_latest-newest :
    (p : Otp → Bool) (os : List Otp) (new : Otp)
    → All (λ o. o.created_at < new.created_at) os
    → p new ≡ true
    → find_latest p (os ++ (new ∷ [])) ≡ some new
unfolding find_latest
find_latest-newest p [] new h t = rw t refl
find_latest-newest p (x ∷ xs) new (older, h) t =
    let rest = find_latest-newest p xs new h t in
    elim (Bool-cases (p x)) [ inl e ↦ rw (e, rest) (ground arith) | inr e ↦ rw e rest ]

-- The latest code after it was rewritten itself.
pub latest-rewritten :
    (p : Otp → Bool) (f : Otp → Otp)
    → ((x : Otp) → p (f x) ≡ p x)
    → ((x : Otp) → (f x).created_at ≡ x.created_at)
    → (os : List Otp) {o : Otp} → find_latest p os ≡ some o
    → find_latest p (update (has_id o.id) f os) ≡ some (f o)
latest-rewritten p f s k os {o} latest =
    find_latest-update p (has_id o.id) f s k os
    ∙ ap (mapped (rewritten (has_id o.id) f)) latest
    ∙ rw (eq→== o.id o.id refl) refl
