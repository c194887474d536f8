-- ===== src/Calls/Attempts.antt =====
-- The optimistic retries run one plan once, or none.
use academia_backend_api.Base.{
  ℕ, zero, suc, ◌+◌, ◌≤◌, ◌<◌, true, false, none, some, List, ◌≡◌, ◌⊎◌, refl, sym, ap, ◌∙◌, inl,
  inr, subst, arith, Bool-cases, Option-cases, Run, ok, err, after, Post, returns, throws, Post-map,
  Post-after,
}
use academia_backend_api.Calls.Store.{Store, Command, exec}
use academia_backend_api.Calls.Operations.{Plan}
use academia_backend_api.Calls.Retry.{
  Meanwhile, attempts, transaction_retries, execute_with_optimistic_retry, run_plan,
}

-- After the first `n` attempts, each answered with `null`, others have made `t` of the store.
pub data Discarded (env : ℕ → Meanwhile) (s : Store) : ℕ → Store → Type 0 where
  begun : Discarded env s zero s
  again :
      {n : ℕ} {t : Store}
      → Discarded env s n t
      → (env n).discarded ≡ true
      → Discarded env s (suc n) ((env n).change t)

-- The attempts before number `tried` were discarded; in that one, others make their change and then
-- the plan of what was seen is run as it stands, which gives the answer `a` and the store `s'`.
pub record Once {A : Type 0} (env : ℕ → Meanwhile) (operation : Store → Plan A) (s : Store) (a : A)
    (s' : Store) : Type 0 where
  pub tried : ℕ
  pub in_time : tried < transaction_retries
  pub met : Store
  pub before : Discarded env s tried met
  pub accepted :
      ((operation ((env tried).seen met)).transaction ≡ none) ⊎ ((env tried).discarded ≡ false)
  pub ran : run_plan (operation ((env tried).seen met)) ((env tried).change met) ≡ ok a s'

run_none :
    {A : Type 0} (p : Plan A) (s : Store) → p.transaction ≡ none → run_plan p s ≡ ok p.result s
run_none p s e = rw e refl

run_some :
    {A : Type 0} (p : Plan A) (cs : List Command) (s : Store)
    → p.transaction ≡ some cs
    → run_plan p s ≡ ok p.result (exec cs s)
run_some p cs s e = rw e refl

module _ {A : Type 0} (env : ℕ → Meanwhile) (operation : Store → Plan A) (s : Store) where
  attempts-Once :
      (k n : ℕ) (t : Store)
      → n + k ≡ transaction_retries
      → Discarded env s n t
      → Post
          (λ a s'. Once env operation s a s')
          (λ s'. Discarded env s transaction_retries s')
          (attempts k n env operation t)
  unfolding attempts
  attempts-Once zero n t all d = throws (subst (λ i. Discarded env s i t) (omega (arith, all)) d)
  attempts-Once (suc k) n t all d =
      let p = operation ((env n).seen t) in
      elim (Option-cases p.transaction) [
        | inl e ↦ rw e (
            returns (record {
              tried = n;
              in_time = omega (arith, all);
              met = t;
              before = d;
              accepted = inl e;
              ran = run_none p ((env n).change t) e;
            }))
        | inr (cs, e) ↦ rw e (elim (Bool-cases (env n).discarded) [
          | inl u ↦
              rw u (attempts-Once k (suc n) ((env n).change t) (omega (arith, all)) (again d u))
          | inr u ↦ rw u (
              returns (record {
                tried = n;
                in_time = omega (arith, all);
                met = t;
                before = d;
                accepted = inr u;
                ran = run_some p cs ((env n).change t) e;
              }))
        ])
      ]

-- However reads, changes of others and answers of `EXEC` fall: a call that returns has run one plan of
-- its operation, once and as a whole, in one of its three attempts, and answers with the result of
-- that plan; a discarded attempt leaves nothing behind; and a call that gives up has had three attempts
-- discarded and changed nothing itself.
pub execute_with_optimistic_retry-Once :
    {A : Type 0} (env : ℕ → Meanwhile) (operation : Store → Plan A) (s : Store)
    → Post
        (λ a s'. Once env operation s a s')
        (λ s'. Discarded env s transaction_retries s')
        (execute_with_optimistic_retry env operation s)
unfolding execute_with_optimistic_retry
execute_with_optimistic_retry-Once env operation s =
    attempts-Once env operation s transaction_retries 0 s refl begun

abbrev pub Returns : {A : Type 0} → Run Store A → Type 0
Returns (ok a s) = Unit
Returns (err e s) = ⊥

attempts_return :
    {A : Type 0} (env : ℕ → Meanwhile) (operation : Store → Plan A) (k first n : ℕ) (s : Store)
    → first ≤ n
    → n < first + k
    → (env n).discarded ≡ false
    → Returns (attempts k first env operation s)
unfolding attempts
attempts_return env operation zero first n s h l u = omega arith
attempts_return env operation (suc k) first n s h l u =
    elim (Option-cases (operation ((env first).seen s)).transaction) [
      | inl e ↦ rw e tt
      | inr (cs, e) ↦ rw e (elim (Bool-cases (env first).discarded) [
        | inl t ↦ rw t (
            let other : first ≡ n → true ≡ false =
              λ same. sym t ∙ ap (λ i. (env i).discarded) same ∙ u in
            attempts_return env operation k (suc first) n ((env first).change s)
              (ground (arith, other)) (omega arith) u)
        | inr t ↦ rw t tt
      ])
    ]

-- A call in which the `EXEC` of one of the three attempts is not answered with `null` does not give
-- up.
pub execute_with_optimistic_retry-Returns :
    {A : Type 0} (env : ℕ → Meanwhile) (operation : Store → Plan A) (n : ℕ) (s : Store)
    → n < transaction_retries
    → (env n).discarded ≡ false
    → Returns (execute_with_optimistic_retry env operation s)
unfolding execute_with_optimistic_retry
execute_with_optimistic_retry-Returns env operation n s h u =
    attempts_return env operation transaction_retries 0 n s (omega arith) (omega arith) u

module _ {A : Type 0} (P : Store → Type 0) (env : ℕ → Meanwhile) (operation : Store → Plan A)
    (others : (n : ℕ) (t : Store) → P t → P ((env n).change t)) where
  pub Discarded-keeps : {s t : Store} {n : ℕ} → P s → Discarded env s n t → P t
  Discarded-keeps h begun = h
  Discarded-keeps h (again d u) = others _ _ (Discarded-keeps h d)

  -- What the others keep, and every plan of the operation keeps whatever it was made from, a call keeps.
  pub execute-keeps :
      ((n : ℕ) (t u : Store) → P u → P (after (run_plan (operation ((env n).seen t)) u)))
      → (s : Store) → P s
      → P (after (execute_with_optimistic_retry env operation s))
  execute-keeps own s h = Post-after (
      Post-map (execute_with_optimistic_retry-Once env operation s)
        (λ a s' o.
          subst P (ap after o.ran)
            (own o.tried o.met _ (others o.tried o.met (Discarded-keeps h o.before))))
        (λ s' d. Discarded-keeps h d))
