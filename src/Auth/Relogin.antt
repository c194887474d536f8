-- ===== src/Auth/Relogin.antt =====
-- The login, and the login after a password was reset.
use text.Mathlib.Text.{◌==◌ as str_eq}
use academia_backend_api.Base.{
  ℕ, String, Bool, true, false, not, ◌&&◌, Option, none, some, ◌≡◌, refl, arith, ap, sym, ◌∙◌,
  eq→==, ◌==◌, mapped, rewritten, rewritten-same, find-update, find-condition, find-rewritten, ok,
  Post, Post-pure, Post-require, Post-require_row, Post-throw_if, Post-ok, subst, ==→eq, effects,
}
use academia_backend_api.Auth.Schema.{
  Db, Account, Tenant, Outside, ResetPayload, find_tenant, find_by_email, find_by_email_and_tenant,
  update_user, user_active, tenant_active,
}
use academia_backend_api.Auth.Recovery.{reset_forgotten_password, with_password}
use academia_backend_api.Auth.Verification.{resolve_tenant, tenant_of}
use academia_backend_api.Auth.Login.{validate_user}
use academia_backend_api.Accounts.{platform_admin, includes}
use academia_backend_api.Auth.Reset.{reset_forgotten_password_lem}

-- What a login asks of the tables and of the password.
pub record Admitted (out : Outside) (email password : String) (domain : Option String) (db : Db)
    (user : Account) : Type 0 where
  pub tenant : Tenant
  pub hashed : String
  pub resolved : resolve_tenant out (out.trim email) domain db ≡ some tenant
  pub found : find_by_email_and_tenant (out.trim email) tenant.id db ≡ some user
  pub known : user.hashed_password ≡ some hashed
  pub right : out.compare_password password hashed ≡ true
  pub active : user_active user.status ≡ true
  pub open_ : (not (str_eq tenant.domain "system") && not (tenant_active tenant.status)) ≡ false
  pub inside : (str_eq tenant.domain "system" && not (includes platform_admin user.roles)) ≡ false

-- `validateUser` answers with an account only where the tenant is resolved and active (or the system's,
-- and the account a platform administrator's), the account is the active one with that address in that
-- tenant, and the password compares with its hash; it changes nothing.
pub validate_user_lem :
    (out : Outside) (email password : String) (domain : Option String) (db : Db)
    → Post
        (λ user s. Admitted out email password domain db user × (s ≡ db))
        (λ s. s ≡ db)
        (validate_user out email password domain db)
unfolding validate_user
validate_user_lem out email password domain db = Post-require_row _ _ _ refl λ tenant resolved.
    Post-require_row _ _ _ refl λ user found. Post-require _ _ refl λ hashed known.
      Post-throw_if _ _ refl λ right. Post-throw_if _ _ refl λ active.
        Post-throw_if _ _ refl λ open_. Post-throw_if _ _ refl λ inside. Post-pure _ _ (
          record {
            tenant = tenant;
            hashed = hashed;
            resolved = resolved;
            found = found;
            known = known;
            right = ground arith;
            active = ground arith;
            open_ = open_;
            inside = inside;
          },
          refl,
        )

Admitted-validate_user :
    (out : Outside) (email password : String) (domain : Option String) (db : Db) {user : Account}
    → Admitted out email password domain db user
    → validate_user out email password domain db ≡ ok user db
unfolding validate_user effects
Admitted-validate_user out email password domain db a =
    rw (a.resolved, a.found, a.known, a.right, a.active, a.open_, a.inside) refl

module _ (id : ℕ) (f : Account → Account) (db : Db)
    (address : (u : Account) → (f u).email ≡ u.email)
    (home : (u : Account) → (f u).tenant_id ≡ u.tenant_id) where
  email-update_user :
      (email : String)
      → find_by_email email (update_user id f db)
        ≡ mapped (rewritten (λ u. u.id == id) f) (find_by_email email db)
  unfolding update_user
  email-update_user email =
      find-rewritten (λ u. str_eq u.email email) (λ u. u.id == id) f (λ u. rw (address u) refl)
        db.users

  tenant-update_user :
      (out : Outside) (o : Option Account)
      → tenant_of out (update_user id f db) (mapped (rewritten (λ u. u.id == id) f) o)
        ≡ tenant_of out db o
  unfolding update_user
  tenant-update_user out none = refl
  tenant-update_user out (some u) =
      rw (rewritten-same (λ u. u.id == id) f (λ u. u.tenant_id) home u) refl

  domain-update_user :
      (out : Outside) (email domain : String) (blank : Bool)
      → (elim blank [
        | true ↦ tenant_of out (update_user id f db) (find_by_email email (update_user id f db))
        | false ↦ find_tenant (λ t. str_eq t.domain (out.lower domain)) (update_user id f db)
      ])
        ≡ (elim blank [
          | true ↦ tenant_of out db (find_by_email email db)
          | false ↦ find_tenant (λ t. str_eq t.domain (out.lower domain)) db
        ])
  unfolding update_user
  domain-update_user out email domain true =
      ap (tenant_of out (update_user id f db)) (email-update_user email)
      ∙ tenant-update_user out (find_by_email email db)
  domain-update_user out email domain false = refl

  -- An update of an account that keeps its address and its tenant changes no resolution.
  resolve_tenant-update_user :
      (out : Outside) (email : String) (domain : Option String)
      → resolve_tenant out email domain (update_user id f db) ≡ resolve_tenant out email domain db
  unfolding resolve_tenant update_user
  resolve_tenant-update_user out email none =
      ap (tenant_of out (update_user id f db)) (email-update_user email)
      ∙ tenant-update_user out (find_by_email email db)
  resolve_tenant-update_user out email (some domain) =
      domain-update_user out email (out.trim domain) (str_eq (out.trim domain) "")

reset-Admitted :
    (out : Outside) (old password email : String) (domain : Option String) (db : Db)
    {user : Account}
    → out.compare_password password (out.hash_password password) ≡ true
    → Admitted out email old domain db user
    → Admitted out email password domain
        (update_user user.id (with_password out password) db)
        (with_password out password user)
unfolding update_user
reset-Admitted out old password email domain db {user} bcrypt a = record {
  tenant = a.tenant;
  hashed = out.hash_password password;
  resolved =
      resolve_tenant-update_user user.id (with_password out password) db (λ u. refl) (λ u. refl) out
        (out.trim email) domain
      ∙ a.resolved;
  found =
      find-update _ (λ u. u.id == user.id) (with_password out password) db.users (λ u. refl) a.found
      ∙ rw (eq→== user.id user.id refl) refl;
  known = refl;
  right = bcrypt;
  active = a.active;
  open_ = a.open_;
  inside = a.inside;
}

-- An account that could log in with an old password can log in with the new one, in the same place, once
-- `resetForgottenPassword` returned for a token of that account, if bcrypt accepts the password against
-- its own hash.
pub reset_forgotten_password-login :
    (out : Outside) (now min_length : ℕ) (token old password email : String)
    (domain : Option String) (db : Db) {user : Account} {payload : ResetPayload} {s : Db}
    → out.compare_password password (out.hash_password password) ≡ true
    → validate_user out email old domain db ≡ ok user db
    → out.verify now token ≡ some payload
    → payload.sub ≡ user.id
    → reset_forgotten_password out now min_length token password db ≡ ok tt s
    → validate_user out email password domain s ≡ ok (with_password out password user) s
reset_forgotten_password-login out now min_length token old password email domain db {user}
      {payload} {s} bcrypt could verified owner e =
    let done = Post-ok (reset_forgotten_password_lem out now min_length token password db) e in
    let (a, _) = Post-ok (validate_user_lem out email old domain db) could in
    let who =
      find-condition (λ u. u.id == done.entitled.payload.sub) db.users done.entitled.found in
    let same : done.entitled.payload ≡ payload = cc in
    let is : done.entitled.user.id ≡ user.id = ==→eq _ _ who ∙ ap (λ p. p.sub) same ∙ owner in
    let kept = done.changed ∙ ap (λ i. update_user i (with_password out password) db) is in
    subst (λ t. validate_user out email password domain t ≡ ok (with_password out password user) t)
      (sym kept)
      (Admitted-validate_user out email password domain _
        (reset-Admitted out old password email domain db bcrypt a))
