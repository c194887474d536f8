-- ===== src/Auth/Reset.antt =====
-- What the reset of a password promises.
use text.Mathlib.Text.{◌==◌ as str_eq}
use academia_backend_api.Base.{
  ℕ, ◌≤◌, String, true, false, some, ◌≡◌, refl, arith, sym, ◌∙◌, eq→==, ◌==◌, find-update, ok, Post,
  returns, Post-require, Post-require_row, Post-throw_if, Post-write_last, Post-ok, subst, ==→eq,
  effects,
}
use academia_backend_api.Auth.Schema.{Db, Account, Outside, ResetPayload, find_account, update_user}
use academia_backend_api.Auth.Recovery.{reset_forgotten_password, with_password}

-- The token names a user as it was when the code was sent to it, and the password is long enough.
pub record Entitled (out : Outside) (now min_length : ℕ) (token password : String) (db : Db)
    : Type 0 where
  pub payload : ResetPayload
  pub user : Account
  pub verified : out.verify now token ≡ some payload
  pub purpose : str_eq payload.purpose "password-reset" ≡ true
  pub found : find_account payload.sub db ≡ some user
  pub tenant : user.tenant_id ≡ payload.tenant_id
  pub address : str_eq user.email payload.email ≡ true
  pub given : str_eq password "" ≡ false
  pub long : min_length ≤ out.length_of password

pub record ResetDone (out : Outside) (now min_length : ℕ) (token password : String) (db after_ : Db)
    : Type 0 where
  pub entitled : Entitled out now min_length token password db
  pub changed : after_ ≡ update_user entitled.user.id (with_password out password) db

-- `resetForgottenPassword` changes a password only for a verified token of that purpose, whose user
-- still has the tenant and the address of the token, and only to one that is long enough; it changes that
-- user alone. Where it throws it changes nothing.
pub reset_forgotten_password_lem :
    (out : Outside) (now min_length : ℕ) (token password : String) (db : Db)
    → Post
        (λ u s. ResetDone out now min_length token password db s)
        (λ s. s ≡ db)
        (reset_forgotten_password out now min_length token password db)
unfolding reset_forgotten_password
reset_forgotten_password_lem out now min_length token password db =
    Post-require _ _ refl λ payload verified. Post-throw_if _ _ refl λ purpose.
      Post-require_row _ _ _ refl λ user found. Post-throw_if _ _ refl λ tenant.
        Post-throw_if _ _ refl λ address. Post-throw_if _ _ refl λ long.
          Post-write_last _ _ (record {
            entitled = record {
              payload = payload;
              user = user;
              verified = verified;
              purpose = ground arith;
              found = found;
              tenant = ==→eq _ _ (ground arith);
              address = ground arith;
              given = ground arith;
              long = ground arith;
            };
            changed = refl;
          })

-- Whoever is entitled gets the reset.
reset-Entitled :
    (out : Outside) (now min_length : ℕ) (token password : String) (db : Db)
    (e : Entitled out now min_length token password db)
    → reset_forgotten_password out now min_length token password db
      ≡ ok tt (update_user e.user.id (with_password out password) db)
unfolding reset_forgotten_password effects
reset-Entitled out now min_length token password db e =
    rw (e.verified, e.purpose, e.found, eq→== _ _ e.tenant, e.address, e.given)
      (ground (arith, e.long))

still-Entitled :
    (out : Outside) (now later_ min_length : ℕ) (token password next : String) (db : Db)
    (e : Entitled out now min_length token password db)
    → out.verify later_ token ≡ out.verify now token
    → str_eq next "" ≡ false
    → min_length ≤ out.length_of next
    → Entitled out later_ min_length token next
        (update_user e.user.id (with_password out password) db)
unfolding update_user
still-Entitled out now later_ min_length token password next db e verified given long = record {
  payload = e.payload;
  user = with_password out password e.user;
  verified = verified ∙ e.verified;
  purpose = e.purpose;
  found =
      find-update (λ u. u.id == e.payload.sub) (λ u. u.id == e.user.id) (with_password out password)
        db.users (λ u. refl) e.found
      ∙ rw (eq→== e.user.id e.user.id refl) refl;
  tenant = e.tenant;
  address = e.address;
  given = given;
  long = long;
}

-- The token of a reset serves again: `resetForgottenPassword` never looks up the code that the token
-- names, so that after a reset the same token, while it verifies, sets any further password that is long
-- enough.
pub reset_forgotten_password-again :
    (out : Outside) (now later_ min_length : ℕ) (token password next : String) (db : Db) {s : Db}
    → reset_forgotten_password out now min_length token password db ≡ ok tt s
    → out.verify later_ token ≡ out.verify now token
    → str_eq next "" ≡ false
    → min_length ≤ out.length_of next
    → Post
        (λ u t. ResetDone out later_ min_length token next s t)
        (λ t. ⊥)
        (reset_forgotten_password out later_ min_length token next s)
reset_forgotten_password-again out now later_ min_length token password next db {s} e verified given
      long =
    let done = Post-ok (reset_forgotten_password_lem out now min_length token password db) e in
    let entitled =
      still-Entitled out now later_ min_length token password next db done.entitled verified given
        long in
    subst
      (λ t.
        Post (λ u w. ResetDone out later_ min_length token next t w) (λ w. ⊥)
          (reset_forgotten_password out later_ min_length token next t))
      (sym done.changed)
      (rw (reset-Entitled out later_ min_length token next _ entitled)
        (returns (record { entitled = entitled; changed = refl })))
