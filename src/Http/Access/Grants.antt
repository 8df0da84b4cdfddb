-- ===== src/Http/Access/Grants.antt =====
-- Who may enter a tenant, said as facts on the tables, and that the middleware of
-- internal/httpapi/middleware.go lets in exactly those.
use ai_website_builder.Common.{
  ℕ, String, Bool, true, false, ◌==◌, ◌≡◌, refl, ◌⊎◌, inl, inr, Option, none, some, if◌then◌else◌,
  arith, Bool-cases, not, ap, subst, ◌∙◌, Option-cases,
}
use ai_website_builder.Common.Strings.{cut_prefix}
use ai_website_builder.Db.{Db, User, Tenant, TenantUser}
use ai_website_builder.Models.Roles.{role_at_least, tenant_admin}
use ai_website_builder.Http.Reply.{Request, Response, AuthInfo, Handler, refuse}
use ai_website_builder.Http.Access.{
  Claims, user_by_id, tenant_by_id, membership, RoleResult, role, denied, member_role, tenant_role,
  resolve_tenant_role, account, with_claims, with_token, require_auth, with_role, tenant_route,
  require_platform_admin,
}

-- The role that a user has in a tenant.
pub data Grants (db : Db) (tenant user : String) (admin : Bool) (r : String) : Type 0 where
  as_platform_admin :
      (t : Tenant)
      → tenant_by_id db tenant ≡ some t
      → admin ≡ true
      → r ≡ tenant_admin
      → Grants db tenant user admin r
  as_member :
      (t : Tenant) (m : TenantUser)
      → tenant_by_id db tenant ≡ some t
      → admin ≡ false
      → (t.status == "active") ≡ true
      → membership db tenant user ≡ some m
      → r ≡ m.role
      → Grants db tenant user admin r

-- A bearer token of an active user.
pub record IsCaller (parse : String → Option Claims) (req : Request) (db : Db) (id : String)
    (admin : Bool) : Type 0 where
  pub token : String
  pub bearer : cut_prefix req.authorization "Bearer " ≡ some token
  pub present : (token == "") ≡ false
  pub claims : Claims
  pub parsed : parse token ≡ some claims
  pub user : User
  pub known : user_by_id db claims.user_id ≡ some user
  pub active : (user.status == "active") ≡ true
  pub same_id : id ≡ claims.user_id
  pub same_flag : admin ≡ user.is_platform_admin

pub record CanEnter (parse : String → Option Claims) (min_role : String) (req : Request) (db : Db)
    (ai : AuthInfo) : Type 0 where
  pub caller : IsCaller parse req db ai.user_id ai.is_platform_admin
  pub this_tenant : ai.tenant_id ≡ req.tenant
  pub grants : Grants db req.tenant ai.user_id ai.is_platform_admin ai.role
  pub enough : role_at_least ai.role min_role ≡ true

-- An error reply that leaves the database as it was.
abbrev pub IsRefused : Db → Response × Db → Type 0
IsRefused db (r, db') = ((r.status ≡ 401) ⊎ (r.status ≡ 403)) × (db' ≡ db)

member_role_sound :
    (fails : Bool) (m : Option TenantUser) (r : String)
    → member_role fails m ≡ role r
    → (row : TenantUser) × (m ≡ some row) × (r ≡ row.role)
unfolding member_role
member_role_sound true m r h = cc
member_role_sound false none r h = cc
member_role_sound false (some row) r h = (row, refl, ground arith)

tenant_role_sound :
    (req : Request) (ai : AuthInfo) (db : Db) (o : Option Tenant) (r : String)
    → tenant_by_id db req.tenant ≡ o
    → tenant_role req ai db o ≡ role r
    → Grants db req.tenant ai.user_id ai.is_platform_admin r
unfolding tenant_role
tenant_role_sound req ai db none r e h = cc
tenant_role_sound req ai db (some t) r e h = elim (Bool-cases ai.is_platform_admin) [
  | inl admin ↦ as_platform_admin t e admin (ground (arith, admin))
  | inr plain ↦
      let (m, found, same) =
        member_role_sound (req.fails 2) (membership db req.tenant ai.user_id) r
          (ground (arith, plain)) in
      as_member t m e plain (ground (arith, plain)) found same
]

resolve_sound :
    (req : Request) (ai : AuthInfo) (db : Db) (r : String)
    → resolve_tenant_role req ai db ≡ role r
    → Grants db req.tenant ai.user_id ai.is_platform_admin r
unfolding resolve_tenant_role
resolve_sound req ai db r h = elim (Bool-cases (req.fails 1)) [
  | inl down ↦ absurd (ground (arith, down))
  | inr up ↦ tenant_role_sound req ai db (tenant_by_id db req.tenant) r refl (rw up at h)
]

resolve_complete :
    (req : Request) (ai : AuthInfo) (db : Db) (r : String)
    → req.fails 1 ≡ false
    → req.fails 2 ≡ false
    → Grants db req.tenant ai.user_id ai.is_platform_admin r
    → resolve_tenant_role req ai db ≡ role r
unfolding resolve_tenant_role member_role
resolve_complete req ai db r up up' (as_platform_admin t known admin e) =
    rw (up, known, tenant_role, admin, e)
resolve_complete req ai db r up up' (as_member t m known plain active member e) =
    rw (up, known, tenant_role, plain, active, up', member, e)

module _ (parse : String → Option Claims) (req : Request) (next : AuthInfo → Handler)
    (db : Db) where
  -- The caller reaches the handler under the id and the flag of the account, or is refused.
  abbrev Authenticates : Response × Db → Type 0
  Authenticates out =
      IsRefused db out
      ⊎ ((ai : AuthInfo) × IsCaller parse req db ai.user_id ai.is_platform_admin
          × (out ≡ next ai db))

  abbrev pub bare_info : String → Bool → AuthInfo
  bare_info id admin = record { user_id = id; is_platform_admin = admin; tenant_id = ""; role = "" }

  account_sound :
      (token : String) (claims : Claims) (o : Option User)
      → cut_prefix req.authorization "Bearer " ≡ some token
      → (token == "") ≡ false
      → parse token ≡ some claims
      → ((u : User) → o ≡ some u → user_by_id db claims.user_id ≡ some u)
      → Authenticates (account parse claims next o db)
  unfolding account
  account_sound token claims none e p c known = inl (inl refl, refl)
  account_sound token claims (some u) e p c known = elim (Bool-cases (u.status == "active")) [
    | inr off ↦ rw off (inl (inl refl, refl))
    | inl on ↦ rw on (
        inr (
          bare_info claims.user_id u.is_platform_admin,
          record {
            token = token;
            bearer = e;
            present = p;
            claims = claims;
            parsed = c;
            user = u;
            known = known u refl;
            active = on;
            same_id = refl;
            same_flag = refl;
          },
          refl,
        ))
  ]

  claims_sound :
      (token : String)
      → cut_prefix req.authorization "Bearer " ≡ some token
      → (token == "") ≡ false
      → (o : Option Claims) → parse token ≡ o
      → Authenticates (with_claims parse req next o db)
  unfolding with_claims
  claims_sound token e p none c = inl (inl refl, refl)
  claims_sound token e p (some claims) c =
      account_sound token claims (if req.fails 0 then none else user_by_id db claims.user_id) e p c
        (λ u q. ground (arith, q))

  require_auth_sound : Authenticates (require_auth parse req next db)
  unfolding require_auth
  require_auth_sound = elim (Option-cases (cut_prefix req.authorization "Bearer ")) [
    | inl e ↦ rw (e, with_token) (inl (inl refl, refl))
    | inr (token, e) ↦ elim (Bool-cases (token == "")) [
      | inl empty ↦ rw (e, with_token, empty) (inl (inl refl, refl))
      | inr p ↦ rw (e, with_token, p) (claims_sound token e p (parse token) refl)
    ]
  ]

  pub require_auth_complete :
      (id : String) (admin : Bool)
      → req.fails 0 ≡ false
      → IsCaller parse req db id admin
      → require_auth parse req next db ≡ next (bare_info id admin) db
  unfolding require_auth account with_claims
  require_auth_complete id admin up c =
      rw (c.bearer, with_token, c.present, c.parsed, up, c.known, c.active, c.same_id, c.same_flag)

-- A route of the platform answers 401 or 403 and leaves the database as it was, or runs its
-- handler for an active user whose account has the flag of a platform admin.
pub require_platform_admin_sound :
    (parse : String → Option Claims) (req : Request) (next : AuthInfo → Handler) (db : Db)
    → IsRefused db (require_platform_admin parse req next db)
      ⊎ ((ai : AuthInfo) × IsCaller parse req db ai.user_id true
          × (require_platform_admin parse req next db ≡ next ai db))
unfolding require_platform_admin
require_platform_admin_sound parse req next db =
    let only : AuthInfo → Handler =
      λ ai. if not ai.is_platform_admin then refuse 403 "platform admin required" else next ai in
    elim (require_auth_sound parse req only db) [
      | inl bad ↦ inl bad
      | inr (ai, caller, e) ↦ elim (Bool-cases ai.is_platform_admin) [
        | inl admin ↦
            inr (ai, subst (IsCaller parse req db ai.user_id) admin caller, e ∙ (rw admin refl))
        | inr n ↦
            let refused : only ai db ≡ refuse 403 "platform admin required" db = rw n refl in
            inl (
              inr (ap (λ (r : Response × Db). r.0.status) (e ∙ refused)),
              ap (λ (r : Response × Db). r.1) (e ∙ refused),
            )
      ]
    ]

module _ (parse : String → Option Claims) (min : String) (req : Request) (next : AuthInfo → Handler)
    (db : Db) where
  abbrev pub LetsIn : Response × Db → Type 0
  LetsIn out =
      IsRefused db out ⊎ ((ai : AuthInfo) × CanEnter parse min req db ai × (out ≡ next ai db))

  with_role_sound :
      (ai : AuthInfo)
      → IsCaller parse req db ai.user_id ai.is_platform_admin
      → (res : RoleResult) → resolve_tenant_role req ai db ≡ res
      → LetsIn (with_role parse min next req ai res db)
  unfolding with_role
  with_role_sound ai c (denied text) e = inl (inr refl, refl)
  with_role_sound ai c (role r) e = elim (Bool-cases (role_at_least r min)) [
    | inr low ↦ rw low (inl (inr refl, refl))
    | inl enough ↦ rw enough (
        inr (
          record ai { tenant_id = req.tenant; role = r },
          record {
            caller = c;
            this_tenant = refl;
            grants = resolve_sound req ai db r e;
            enough = enough;
          },
          refl,
        ))
  ]

  -- A tenant route runs its handler for a caller who can enter the path's tenant with enough
  -- privilege, under that tenant and role, and otherwise answers 401 or 403 and changes nothing.
  pub tenant_route_sound : LetsIn (tenant_route parse min req next db)
  unfolding tenant_route
  tenant_route_sound =
      elim (require_auth_sound parse req
        (λ ai d. with_role parse min next req ai (resolve_tenant_role req ai d) d) db) [
          | inl refused ↦ inl refused
          | inr (ai, c, e) ↦ rw e (with_role_sound ai c (resolve_tenant_role req ai db) refl)
        ]

  -- When no database call fails, a tenant route runs its handler for everyone who can enter the
  -- tenant with enough privilege, under that user, tenant and role.
  pub tenant_route_complete :
      (ai : AuthInfo)
      → ((n : ℕ) → req.fails n ≡ false)
      → CanEnter parse min req db ai
      → tenant_route parse min req next db ≡ next ai db
  unfolding tenant_route with_role
  tenant_route_complete ai up c =
      rw
        (
          require_auth_complete parse req
              (λ a d. with_role parse min next req a (resolve_tenant_role req a d) d) db ai.user_id
              ai.is_platform_admin (up 0) c.caller,
          resolve_complete req (record ai { tenant_id = ""; role = "" }) db ai.role (up 1) (up 2)
              c.grants,
          c.enough,
          ← c.this_tenant,
        )
        refl
