-- ===== src/Http/Access.antt =====
-- internal/httpapi/middleware.go: who reaches a handler.
pub mod Grants
use ai_website_builder.Common.{
  ℕ, String, Bool, true, false, not, ◌&&◌, ◌||◌, ◌==◌, Option, none, some, find?, if◌then◌else◌,
}
use ai_website_builder.Common.Strings.{cut_prefix}
use ai_website_builder.Db.{Db, User, Tenant, TenantUser}
use ai_website_builder.Models.Roles.{role_at_least, tenant_admin}
use ai_website_builder.Http.Reply.{Request, Response, AuthInfo, Handler, refuse}

-- The claims of an access token.
pub record Claims : Type 0 where
  pub user_id : String
  pub is_platform_admin : Bool

-- SELECT status, is_platform_admin FROM users WHERE id = $1
abbrev pub user_by_id : Db → String → Option User
user_by_id db id = find? (λ u. u.id == id) db.users

abbrev pub tenant_by_id : Db → String → Option Tenant
tenant_by_id db id = find? (λ t. t.id == id) db.tenants

abbrev pub membership : Db → String → String → Option TenantUser
membership db tenant user = find? (λ m. m.tenant_id == tenant && m.user_id == user) db.tenant_users

-- The role, or the text of the error.
pub data RoleResult : Type 0 where
  role : String → RoleResult
  denied : String → RoleResult

member_role : Bool → Option TenantUser → RoleResult
member_role true m = denied "authorization check failed"
member_role false none = denied "not a member of this tenant"
member_role false (some m) = role m.role

tenant_role : Request → AuthInfo → Db → Option Tenant → RoleResult
unfolding member_role
tenant_role req ai db none = denied "tenant not found"
tenant_role req ai db (some t) =
    if ai.is_platform_admin
    then role tenant_admin
    else if not (t.status == "active")
    then denied "tenant is disabled"
    else member_role (req.fails 2) (membership db req.tenant ai.user_id)

unfoldable pub resolve_tenant_role : Request → AuthInfo → Db → RoleResult
unfolding tenant_role
resolve_tenant_role req ai db =
    tenant_role req ai db (if req.fails 1 then none else tenant_by_id db req.tenant)

-- The library that checks a token's signature and expiry; `none` is an error.
module _ (parse_access_token : String → Option Claims) where
  account : Claims → (AuthInfo → Handler) → Option User → Handler
  account claims next none = refuse 401 "account unavailable"
  account claims next (some u) =
      if not (u.status == "active")
      then refuse 401 "account unavailable"
      else next (record {
        user_id = claims.user_id;
        is_platform_admin = u.is_platform_admin;
        tenant_id = "";
        role = "";
      })

  with_claims : Request → (AuthInfo → Handler) → Option Claims → Handler
  unfolding account
  with_claims req next none = refuse 401 "invalid or expired token"
  with_claims req next (some claims) =
      λ db. account claims next (if req.fails 0 then none else user_by_id db claims.user_id) db

  with_token : Request → (AuthInfo → Handler) → Option String → Handler
  unfolding with_claims
  with_token req next none = refuse 401 "missing bearer token"
  with_token req next (some token) =
      if token == ""
      then refuse 401 "missing bearer token"
      else with_claims req next (parse_access_token token)

  unfoldable pub require_auth : Request → (AuthInfo → Handler) → Handler
  unfolding with_token
  require_auth req next = with_token req next (cut_prefix req.authorization "Bearer ")

  unfoldable pub require_platform_admin : Request → (AuthInfo → Handler) → Handler
  require_platform_admin req next =
      require_auth req
        λ ai. if not ai.is_platform_admin then refuse 403 "platform admin required" else next ai

  with_role : String → (AuthInfo → Handler) → Request → AuthInfo → RoleResult → Handler
  with_role min_role next req ai (denied text) = refuse 403 text
  with_role min_role next req ai (role r) =
      if not (role_at_least r min_role)
      then refuse 403 "insufficient role"
      else next (record ai { tenant_id = req.tenant; role = r })

  unfoldable pub tenant_route : String → Request → (AuthInfo → Handler) → Handler
  unfolding with_role
  tenant_route min_role req next =
      require_auth req λ ai db. with_role min_role next req ai (resolve_tenant_role req ai db) db
