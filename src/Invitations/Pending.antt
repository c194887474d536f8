-- ===== src/Invitations/Pending.antt =====
-- At most one pending invitation for each role at each address, and no token twice.
use text.Mathlib.TextEquality.{eq_iff}
use academia_backend_api.Base.{
  ℕ, ◌≤◌, String, Bool, true, false, Option, none, some, List, [], ◌∷◌, ◌++◌, ◌≡◌, refl, inl, inr,
  arith, ap, sym, subst, ==→eq, Bool-cases, same_option, count, update, exists, All-updated,
  exists-none, count-none, count-update, count-update_le, count-append,
}
use academia_backend_api.Invitations.Schema.{
  Invitation, is_pending, has_token, pending_for, revoke_by,
}

pub record Inv (is : List Invitation) : Type 0 where
  pub one :
      (tenant_id : ℕ) (email : String) (role_id : ℕ) (department_id : Option ℕ)
      → count (pending_for tenant_id email role_id department_id) is ≤ 1
  pub tokens : (token : String) → count (has_token token) is ≤ 1

-- A rewriting that keeps the tokens and makes no further invitation pending.
pub update-Inv :
    (p : Invitation → Bool) (f : Invitation → Invitation) (is : List Invitation)
    → ((x : Invitation) → (f x).token ≡ x.token)
    → ((t : ℕ) (e : String) (r : ℕ) (d : Option ℕ) (x : Invitation)
        → pending_for t e r d (f x) ≡ true
        → pending_for t e r d x ≡ true)
    → Inv is
    → Inv (update p f is)
update-Inv p f is k l v = record {
  one = λ t e r d.
      omega (arith, v.one t e r d, count-update_le (pending_for t e r d) p f (l t e r d) is);
  tokens = λ token.
      subst (λ n. n ≤ 1) (sym (count-update (has_token token) p f (λ x. rw (k x) refl) is))
        (v.tokens token);
}

-- The status of a rewritten invitation is not pending.
pub closing :
    (f : Invitation → Invitation)
    → ((x : Invitation) → is_pending (f x).status ≡ false)
    → (t : ℕ) (e : String) (r : ℕ) (d : Option ℕ) (x : Invitation)
    → pending_for t e r d (f x) ≡ true
    → pending_for t e r d x ≡ true
closing f k t e r d x h = let shut = k x in absurd (ground arith)

same_option-eq : (a b : Option ℕ) → same_option a b ≡ true → a ≡ b
same_option-eq none none h = refl
same_option-eq none (some b) h = absurd (cc)
same_option-eq (some a) none h = absurd (cc)
same_option-eq (some a) (some b) h = ap some (==→eq a b h)

-- Two pending offers of one kind.
same_offer :
    (t : ℕ) (e : String) (r : ℕ) (d : Option ℕ) (x y : Invitation)
    → pending_for t e r d x ≡ true
    → pending_for t e r d y ≡ true
    → pending_for y.tenant_id y.email y.role_id y.department_id x ≡ true
same_offer t e r d x y h k =
    let ty : y.tenant_id ≡ t = ==→eq _ _ (ground arith) in
    let ey : y.email ≡ e = (eq_iff y.email e).0 (ground arith) in
    let ry : y.role_id ≡ r = ==→eq _ _ (ground arith) in
    let dy : y.department_id ≡ d = same_option-eq _ _ (ground arith) in rw (ty, ey, ry, dy) h

-- After the pending offers of its kind were revoked, there is none of that kind.
none_pending :
    (now : ℕ) (new : Invitation) (is : List Invitation) (t : ℕ) (e : String) (r : ℕ) (d : Option ℕ)
    → pending_for t e r d new ≡ true
    → count (pending_for t e r d) (
        update
          (pending_for new.tenant_id new.email new.role_id new.department_id)
          (revoke_by now new.invited_by_id)
          is)
      ≡ 0
none_pending now new is t e r d h = count-none _ _ (
    All-updated _ (pending_for new.tenant_id new.email new.role_id new.department_id)
      (revoke_by now new.invited_by_id) (λ x k. ground arith)
      (λ x k. elim (Bool-cases (pending_for t e r d x)) [
        | inl p ↦ let twice = same_offer t e r d x new p h in absurd (cc)
        | inr p ↦ p
      ])
      is)

-- The table with the offers of the new one's kind revoked, and then the new one.
pub replaced-Inv :
    (now : ℕ) (new : Invitation) (is : List Invitation)
    → let cleared =
        update
          (pending_for new.tenant_id new.email new.role_id new.department_id)
          (revoke_by now new.invited_by_id)
          is in
      exists (has_token new.token) cleared ≡ false → Inv is → Inv (cleared ++ (new ∷ []))
replaced-Inv now new is unused v =
    let cleared =
      update (pending_for new.tenant_id new.email new.role_id new.department_id)
        (revoke_by now new.invited_by_id) is in
    let kept : Inv cleared =
      update-Inv _ (revoke_by now new.invited_by_id) is (λ x. refl)
        (closing (revoke_by now new.invited_by_id) (λ x. refl)) v in
    record {
      one = λ t e r d. elim (Bool-cases (pending_for t e r d new)) [
        | inl p ↦
            rw
              (count-append (pending_for t e r d) cleared new, p, none_pending now new is t e r d p)
              (omega arith)
        | inr p ↦ rw (count-append (pending_for t e r d) cleared new, p) (kept.one t e r d)
      ];
      tokens = λ token. elim (Bool-cases (has_token token new)) [
        | inl p ↦
            let same : new.token ≡ token = (eq_iff new.token token).0 p in
            let fresh : count (has_token token) cleared ≡ 0 =
              subst (λ u. count (has_token u) cleared ≡ 0) same
                (count-none _ cleared (exists-none (has_token new.token) cleared unused)) in
            rw (count-append (has_token token) cleared new, p, fresh) (omega arith)
        | inr p ↦ rw (count-append (has_token token) cleared new, p) (kept.tokens token)
      ];
    }
