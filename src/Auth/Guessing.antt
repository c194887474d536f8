-- ===== src/Auth/Guessing.antt =====
-- How often a one-time code can be guessed. The children show it for all requests.
pub mod Steps
pub mod Reachable
use academia_backend_api.Base.{
  ℕ, ◌+◌, ◌≤◌, suc, Bool, true, false, not, ◌&&◌, Option, none, some, List, [], ◌∷◌, ◌++◌, ◌≡◌,
  refl, inl, inr, arith, Bool-cases, ==→eq, Option-cases, ltb, if◌then◌else◌, ◌==◌, filter, update,
  All, All-append, All-map, All-update, subst,
}
use academia_backend_api.Auth.Schema.{Db, Otp, Outside}
use academia_backend_api.Auth.Codes.{
  later, find_latest, replace_otp, new_otp, is_locked, is_expired, next_lock, missed, used, has_id,
  sent_to, is_unused, max_attempts, lock_time, otp_lifetime,
}

-- At most five wrong codes were counted; after five, the lock ends no earlier than the code; and no
-- code outlives its time.
pub record Bounded (clock : ℕ) (o : Otp) : Type 0 where
  pub guesses : o.attempts ≤ max_attempts
  pub spent : o.attempts ≡ max_attempts → (l : ℕ) × (o.locked_until ≡ some l) × (o.expires_at ≤ l)
  pub lives : o.expires_at ≤ clock + otp_lifetime

pub record Inv (clock : ℕ) (db : Db) : Type 0 where
  pub reset : All (Bounded clock) db.reset_otps
  pub verification : All (Bounded clock) db.verification_otps

Bounded-later : (a b : ℕ) (o : Otp) → a ≤ b → Bounded a o → Bounded b o
Bounded-later a b o h v = record {
  guesses = v.guesses;
  spent = v.spent;
  lives = omega (arith, v.lives);
}

pub Inv-later : (a b : ℕ) (db : Db) → a ≤ b → Inv a db → Inv b db
Inv-later a b db h v = record {
  reset = All-map (Bounded a) (Bounded b) (λ o k. Bounded-later a b o h k) db.reset_otps v.reset;
  verification =
      All-map (Bounded a) (Bounded b) (λ o k. Bounded-later a b o h k) db.verification_otps
        v.verification;
}

later-All :
    (P : Otp → Type 0) (x : Otp) (o : Option Otp) {r : Otp}
    → P x
    → ((y : Otp) → o ≡ some y → P y)
    → later x o ≡ some r
    → P r
later-All P x none h k e = subst P (cc) h
later-All P x (some y) h k e = elim (Bool-cases (ltb x.created_at y.created_at)) [
  | inl t ↦ let same : some y ≡ some _ = rw t at e in subst P (cc) (k y refl)
  | inr t ↦ let same : some x ≡ some _ = rw t at e in subst P (cc) h
]

pub find_latest-All :
    (P : Otp → Type 0) (p : Otp → Bool) (os : List Otp) {r : Otp}
    → All P os
    → find_latest p os ≡ some r
    → P r
unfolding find_latest
find_latest-All P p [] h e = cc
find_latest-All P p (x ∷ xs) (px, h) e = elim (Bool-cases (p x)) [
  | inl t ↦ later-All P x (find_latest p xs) px (λ y k. find_latest-All P p xs h k) (rw t at e)
  | inr t ↦ find_latest-All P p xs h (rw t at e)
]

pub filter-All :
    (P : Otp → Type 0) (p : Otp → Bool) (os : List Otp) → All P os → All P (filter p os)
unfolding filter
filter-All P p [] h = tt
filter-All P p (x ∷ xs) (px, h) = elim (Bool-cases (p x)) [
  | inl t ↦ rw t (px, filter-All P p xs h)
  | inr t ↦ rw t (filter-All P p xs h)
]

-- A code that is neither locked nor expired has been missed less than five times.
pub guesses_left :
    (now : ℕ) (o : Otp)
    → Bounded now o
    → is_locked now o ≡ false
    → is_expired now o ≡ false
    → suc o.attempts ≤ max_attempts
guesses_left now o v l e = elim (Bool-cases (o.attempts == max_attempts)) [
  | inl q ↦
      let (until, is, past) = v.spent (==→eq _ _ q) in
      let locked : ltb now until ≡ false = ground arith in absurd (ground arith)
  | inr q ↦ ground (arith, v.guesses)
]

pub missed-Bounded :
    (now : ℕ) (o x : Otp)
    → Bounded now o
    → is_locked now o ≡ false
    → is_expired now o ≡ false
    → Bounded now x
    → Bounded now (missed (suc o.attempts) (next_lock now o) x)
missed-Bounded now o x v l e w =
    let left = guesses_left now o v l e in
    record {
      guesses = left;
      spent = λ q. (now + lock_time, ground arith, omega (arith, w.lives));
      lives = w.lives;
    }
