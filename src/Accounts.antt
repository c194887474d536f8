-- ===== src/Accounts.antt =====
-- The caller of a handler and the user rows that the guards read: `common/constants`, the JWT
-- principal that the controllers hand to the services, and the model `User` of `prisma/schema.prisma`.
use academia_backend_api.Base.{
  ℕ, String, Bool, true, false, ◌||◌, Option, List, [], ◌∷◌, ◌==◌, if◌then◌else◌,
}

pub data Role : Type 0 where
  platform_admin department_head advisor coordinator department_committee student : Role

abbrev pub same_role : Role → Role → Bool
same_role platform_admin platform_admin = true
same_role department_head department_head = true
same_role advisor advisor = true
same_role coordinator coordinator = true
same_role department_committee department_committee = true
same_role student student = true
same_role _ _ = false

-- `roles.includes(role)`
unfoldable pub includes : Role → List Role → Bool
includes role [] = false
includes role (r ∷ rs) = same_role r role || includes role rs

-- The `tenantId` of a token: missing, the text `system`, or a tenant.
pub data TenantClaim : Type 0 where
  absent system : TenantClaim
  tenant : ℕ → TenantClaim

pub record Principal : Type 0 where
  pub sub : Option ℕ
  pub tenant_id : TenantClaim
  pub roles : List Role

pub data UserStatus : Type 0 where
  pending active suspended inactive : UserStatus

-- `roles` holds the roles that are not revoked.
pub record User : Type 0 where
  pub id : ℕ
  pub tenant_id : ℕ
  pub department_id : Option ℕ
  pub email : String
  pub deleted_at : Option ℕ
  pub roles : List Role

-- `user.tenantId && user.tenantId !== 'system' && dbUser.tenantId !== user.tenantId`
abbrev pub claim_differs : TenantClaim → ℕ → Bool
claim_differs absent t = false
claim_differs system t = false
claim_differs (tenant claimed) t = if t == claimed then false else true
