-- ===== src/Calls/Sets.antt =====
-- Sets as lists without repetition: what `SADD` and `SREM` do to membership and size.
use academia_backend_api.Base.{
  ℕ, suc, ◌+◌, ◌≤◌, Bool, true, false, List, [], ◌∷◌, ◌++◌, ◌==◌, if◌then◌else◌, ◌≡◌, refl, inl,
  inr, arith, Bool-cases, ==→eq, subst, find, count, filter, length, member,
}
use academia_backend_api.Calls.Store.{sadd, srem}

abbrev pub is_empty {ℓ} : {A : Type ℓ} → List A → Bool
is_empty [] = true
is_empty (x ∷ xs) = false

abbrev pub occurrences : ℕ → List ℕ → ℕ
occurrences x xs = count (λ y. y == x) xs

-- No element occurs twice.
abbrev pub IsDistinct : List ℕ → Type 0
IsDistinct xs = (x : ℕ) → occurrences x xs ≤ 1

member-append :
    (x y : ℕ) (xs : List ℕ) → member x (xs ++ (y ∷ [])) ≡ (if y == x then true else member x xs)
unfolding find
member-append x y [] = ground arith
member-append x y (z ∷ xs) = ground (arith, member-append x y xs)

pub member-sadd :
    (x y : ℕ) (xs : List ℕ) → member x (sadd y xs) ≡ (if y == x then true else member x xs)
member-sadd x y xs = elim (Bool-cases (member y xs)) [
  | inl h ↦ rw h (elim (Bool-cases (y == x)) [
    | inl e ↦ rw e (subst (λ z. member z xs ≡ true) (==→eq y x e) h)
    | inr e ↦ rw e refl
  ])
  | inr h ↦ rw h (member-append x y xs)
]

pub member-srem :
    (x y : ℕ) (xs : List ℕ) → member x (srem y xs) ≡ (if y == x then false else member x xs)
unfolding find filter
member-srem x y [] = ground arith
member-srem x y (z ∷ xs) = ground (arith, member-srem x y xs)

pub occurrences-srem : (x y : ℕ) (xs : List ℕ) → occurrences x (srem y xs) ≤ occurrences x xs
unfolding count filter
occurrences-srem x y [] = omega arith
occurrences-srem x y (z ∷ xs) = ground (arith, occurrences-srem x y xs)

occurrences-append :
    (x y : ℕ) (xs : List ℕ)
    → occurrences x (xs ++ (y ∷ [])) ≡ (if y == x then suc (occurrences x xs) else occurrences x xs)
unfolding count
occurrences-append x y [] = refl
occurrences-append x y (z ∷ xs) = ground (arith, occurrences-append x y xs)

pub not_member : (x : ℕ) (xs : List ℕ) → member x xs ≡ false → occurrences x xs ≡ 0
unfolding find count
not_member x [] h = refl
not_member x (z ∷ xs) h = ground (arith, not_member x xs)

pub member-occurs : (x : ℕ) (xs : List ℕ) → member x xs ≡ true → 1 ≤ occurrences x xs
unfolding find count
member-occurs x [] h = cc
member-occurs x (z ∷ xs) h = ground (arith, member-occurs x xs)

pub sadd-IsDistinct : (y : ℕ) (xs : List ℕ) → IsDistinct xs → IsDistinct (sadd y xs)
sadd-IsDistinct y xs h x = elim (Bool-cases (member y xs)) [
  | inl e ↦ rw e (h x)
  | inr e ↦
      rw (e, occurrences-append x y xs)
        (elim (Bool-cases (y == x)) [
          | inl k ↦ rw k (
              let none_yet : occurrences x xs ≡ 0 =
                subst (λ z. occurrences z xs ≡ 0) (==→eq y x k) (not_member y xs e) in
              omega (arith, none_yet))
          | inr k ↦ rw k (h x)
        ])
]

pub srem-IsDistinct : (y : ℕ) (xs : List ℕ) → IsDistinct xs → IsDistinct (srem y xs)
srem-IsDistinct y xs h x = omega (arith, occurrences-srem x y xs, h x)

pub length-srem : (y : ℕ) (xs : List ℕ) → length (srem y xs) + occurrences y xs ≡ length xs
unfolding count filter length
length-srem y [] = refl
length-srem y (z ∷ xs) = ground (arith, length-srem y xs)

length-append : (y : ℕ) (xs : List ℕ) → length (xs ++ (y ∷ [])) ≡ suc (length xs)
unfolding length
length-append y [] = refl
length-append y (z ∷ xs) = omega (arith, length-append y xs)

pub length-sadd :
    (y : ℕ) (xs : List ℕ) → length (sadd y xs) ≡ length xs + (if member y xs then 0 else 1)
length-sadd y xs = ground (arith, length-append y xs)

pub member-empty : (x : ℕ) (xs : List ℕ) → length xs ≡ 0 → member x xs ≡ false
unfolding find length
member-empty x [] h = refl
member-empty x (z ∷ xs) h = absurd (omega arith)

pub member_nil : (x : ℕ) → member x [] ≡ false
unfolding find
member_nil x = refl

pub member_cons :
    (x y : ℕ) (ys : List ℕ) → member x (y ∷ ys) ≡ (if y == x then true else member x ys)
unfolding find
member_cons x y ys = ground arith

pub nil-IsDistinct : IsDistinct []
unfolding count
nil-IsDistinct x = omega arith

pub is_empty-length : (xs : List ℕ) → is_empty xs ≡ (length xs == 0)
unfolding length
is_empty-length [] = refl
is_empty-length (x ∷ xs) = ground arith
