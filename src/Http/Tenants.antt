-- ===== src/Http/Tenants.antt =====
-- internal/httpapi/handlers_tenants.go: the handlers of tenants.
use ai_website_builder.Common.{
  ℕ, String, Bool, true, false, not, ◌&&◌, ◌||◌, ◌==◌, Option, none, some, [], ◌∷◌, ◌++◌, find?,
  any, update_rows, if◌then◌else◌, coalesce, leb,
}
use ai_website_builder.Common.Sort.{sort_by}
use ai_website_builder.Common.Strings.{trim_space}
use ai_website_builder.Models.Json.{str}
use ai_website_builder.Db.{Db, Tenant, record_audit}
use ai_website_builder.Seed.{seed_section_types}
use ai_website_builder.Http.Reply.{
  Request, Response, tenant, tenants, AuthInfo, Handler, refuse, internal_error, reply,
}

abbrev pub new_tenant : Request → String → Tenant
new_tenant req name = record {
  id = req.new_id;
  name = name;
  status = "active";
  created_at = req.now;
  updated_at = req.now;
}

-- After the seeding, whose nine inserts are the calls 1 to 9.
unfoldable pub tenant_created : Request → AuthInfo → Tenant → Bool × Db → Response × Db
tenant_created req ai t (false, db) = internal_error db
tenant_created req ai t (true, db) = reply 201 (tenant t) (
    record_audit (req.fails 10) req.now t.id ai.user_id "tenant.created" "tenant" t.id
      (("name", str t.name) ∷ []) db)

-- `ids` are the ids of the seeded block types.
unfoldable pub insert_tenant : Request → (ℕ → String) → AuthInfo → String → Handler
unfolding tenant_created
insert_tenant req ids ai name db =
    if req.fails 0 || any (λ t. t.id == req.new_id) db.tenants
    then internal_error db
    else (let t = new_tenant req name in
        tenant_created req ai t (
          seed_section_types req.fails ids req.now 1 t.id
            (record db { tenants = db.tenants ++ t ∷ [] })))

unfoldable pub handle_create_tenant : Request → (ℕ → String) → AuthInfo → Option String → Handler
unfolding insert_tenant
handle_create_tenant req ids ai none db = refuse 400 "name is required" db
handle_create_tenant req ids ai (some name) db =
    if trim_space name == ""
    then refuse 400 "name is required" db
    else insert_tenant req ids ai (trim_space name) db

unfoldable pub handle_list_tenants : Request → AuthInfo → Handler
handle_list_tenants req ai db =
    if req.fails 0
    then internal_error db
    else reply 200 (tenants (sort_by (λ s t. leb s.created_at t.created_at) db.tenants)) db

unfoldable pub found_tenant : Option Tenant → Handler
found_tenant none = refuse 404 "not found"
found_tenant (some t) = reply 200 (tenant t)

unfoldable pub handle_get_tenant : Request → AuthInfo → Handler
unfolding found_tenant
handle_get_tenant req ai db =
    if req.fails 0
    then internal_error db
    else found_tenant (find? (λ t. t.id == ai.tenant_id) db.tenants) db

pub record TenantUpdate : Type 0 where
  pub name : Option String
  pub status : Option String

abbrev pub bad_activity : Option String → Bool
bad_activity none = false
bad_activity (some status) = not (status == "active") && not (status == "disabled")

abbrev pub updated_tenant : ℕ → TenantUpdate → Tenant → Tenant
updated_tenant now u t = record t {
  name = coalesce u.name t.name;
  status = coalesce u.status t.status;
  updated_at = now;
}

unfoldable pub save_tenant : Request → AuthInfo → String → TenantUpdate → Option Tenant → Handler
save_tenant req ai id u none = refuse 404 "not found"
save_tenant req ai id u (some t) = λ db. reply 200 (tenant (updated_tenant req.now u t)) (
    record_audit (req.fails 1) req.now t.id ai.user_id "tenant.updated" "tenant" t.id
      (("status", str (updated_tenant req.now u t).status) ∷ [])
      (record db { tenants = update_rows (λ t. t.id == id) (updated_tenant req.now u) db.tenants }))

-- The id is the tenant of the path.
unfoldable pub handle_update_tenant : Request → AuthInfo → String → Option TenantUpdate → Handler
unfolding save_tenant
handle_update_tenant req ai id none db = refuse 400 "invalid request body" db
handle_update_tenant req ai id (some u) db =
    if bad_activity u.status
    then refuse 400 "status must be active or disabled" db
    else if req.fails 0
    then internal_error db
    else save_tenant req ai id u (find? (λ t. t.id == id) db.tenants) db
