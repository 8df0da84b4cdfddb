-- ===== src/Http/Staff/Closed.antt =====
-- A disabled tenant is closed to its members.
use ai_website_builder.Common.{
  ℕ, String, Bool, true, false, ◌==◌, ◌≡◌, ◌∙◌, refl, sym, ap, subst, Option, none, some, [], ◌∷◌,
  arith, Bool-cases, inl, inr,
}
use ai_website_builder.Common.Dict.{Dict}
use ai_website_builder.Models.Json.{Json, str}
use ai_website_builder.Db.{Db, Tenant, record_audit}
use ai_website_builder.Http.Reply.{Request, Response, AuthInfo, Handler}
use ai_website_builder.Http.Access.{tenant_by_id, tenant_route, Claims}
use ai_website_builder.Http.Access.Grants.{
  Grants, as_platform_admin, as_member, IsCaller, IsRefused,
}
use ai_website_builder.Http.Tenants.{
  TenantUpdate, bad_activity, updated_tenant, save_tenant, handle_update_tenant,
}
use ai_website_builder.Http.Staff.Invited.{find?-update_rows, nobody}

audited-tenant :
    (fails : Bool) (now : ℕ) (t user action entity id : String) (meta : Dict Json) (db : Db)
    (home : String)
    → tenant_by_id (record_audit fails now t user action entity id meta db) home
      ≡ tenant_by_id db home
unfolding record_audit
audited-tenant true now t user action entity id meta db home = refl
audited-tenant false now t user action entity id meta db home = refl

disabled :
    (req : Request) (ai : AuthInfo) (id : String) (u : TenantUpdate) (o : Option Tenant) (db : Db)
    → tenant_by_id db id ≡ o
    → u.status ≡ some "disabled"
    → (save_tenant req ai id u o db).0.status ≡ 200
    → (t : Tenant) × (tenant_by_id (save_tenant req ai id u o db).1 id ≡ some t)
      × (t.status ≡ "disabled")
unfolding save_tenant
disabled req ai id u none db e off ok = absurd (omega (arith, ok))
disabled req ai id u (some t) db e off ok = (
  updated_tenant req.now u t,
  audited-tenant (req.fails 1) req.now t.id ai.user_id "tenant.updated" "tenant" t.id
        (("status", str (updated_tenant req.now u t).status) ∷ []) _ id
      ∙ find?-update_rows (λ t. t.id == id) (updated_tenant req.now u) db.tenants t (λ y. refl) e,
  rw off refl,
)

disabling :
    (req : Request) (ai : AuthInfo) (id : String) (u : TenantUpdate) (db : Db)
    → u.status ≡ some "disabled"
    → (handle_update_tenant req ai id (some u) db).0.status ≡ 200
    → (t : Tenant) × (tenant_by_id (handle_update_tenant req ai id (some u) db).1 id ≡ some t)
      × (t.status ≡ "disabled")
unfolding handle_update_tenant
disabling req ai id u db off ok = elim (Bool-cases (bad_activity u.status)) [
  | inl bad ↦ absurd (ground (arith, bad, ok))
  | inr good ↦ elim (Bool-cases (req.fails 0)) [
    | inl down ↦ absurd (ground (arith, good, down, ok))
    | inr up ↦
        let e : handle_update_tenant req ai id (some u) db
            ≡ save_tenant req ai id u (tenant_by_id db id) db =
          unfold handle_update_tenant in rw (good, up) refl in
        let out =
          disabled req ai id u (tenant_by_id db id) db refl off
            (ap (λ (r : Response × Db). r.0.status) (sym e) ∙ ok) in
        subst
          (λ (r : Response × Db).
            (t : Tenant) × (tenant_by_id r.1 id ≡ some t) × (t.status ≡ "disabled"))
          (sym e) out
  ]
]

closed :
    (db : Db) (home user role : String) (t : Tenant)
    → tenant_by_id db home ≡ some t
    → t.status ≡ "disabled"
    → Grants db home user false role
    → ⊥
closed db home user role t known off (as_platform_admin s seen admin e) = ground (arith, admin)
closed db home user role t known off (as_member s m seen plain active member e) =
    let same : t ≡ s = ground (arith, sym known ∙ seen) in
    let disabled_too : s.status ≡ "disabled" =
      subst (λ (s : Tenant). s.status ≡ "disabled") same off in
    ground (arith, subst (λ status. (status == "active") ≡ true) disabled_too active)

-- Once a tenant is disabled by a request that answered 200, every route of the tenant answers 401
-- or 403 and changes nothing, for every caller who is no platform admin.
pub handle_update_tenant-closed :
    (req later : Request) (ai : AuthInfo) (id min : String) (u : TenantUpdate)
    (parse : String → Option Claims) (next : AuthInfo → Handler) (db : Db)
    → u.status ≡ some "disabled"
    → (handle_update_tenant req ai id (some u) db).0.status ≡ 200
    → later.tenant ≡ id
    → ((user : String) (admin : Bool)
        → IsCaller parse later (handle_update_tenant req ai id (some u) db).1 user admin
        → admin ≡ false)
    → let after = (handle_update_tenant req ai id (some u) db).1 in
      IsRefused after (tenant_route parse min later next after)
handle_update_tenant-closed req later ai id min u parse next db off ok same plain =
    let after = (handle_update_tenant req ai id (some u) db).1 in
    let (t, known, state) = disabling req ai id u db off ok in
    nobody parse min later next after (λ who can.
      closed after id who.user_id who.role t known state (
        subst (λ home. Grants after home who.user_id false who.role) same
          (subst (λ a. Grants after later.tenant who.user_id a who.role)
            (plain who.user_id who.is_platform_admin can.caller) can.grants)))
