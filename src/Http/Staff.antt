-- ===== src/Http/Staff.antt =====
-- What the handlers of tenants, users and websites keep true of their tables, with the keys and the
-- checks of internal/db/migrations/001_init.sql.
pub mod Keeps
pub mod Handlers
pub mod Desk
pub mod Sites
pub mod Run
pub mod Invited
pub mod Closed
pub mod Tests
use ai_website_builder.Common.{
  ℕ, String, Bool, true, false, not, ◌&&◌, ◌||◌, ◌==◌, ◌≡◌, refl, List, [], ◌∷◌, ◌++◌, All,
  All-append, All-where_rows, any, where_rows, update_rows, coalesce, append_assoc, append-nil, ◌∙◌,
  sym, Option,
}
use ai_website_builder.Common.Tables.{
  Apart, any-false, All-pure, All-update_rows, Apart-append, Apart-where_rows,
  Apart-update_rows_same,
}
use ai_website_builder.Models.Roles.{valid_role}
use ai_website_builder.Db.{Db, Tenant, User, TenantUser, Website}
use ai_website_builder.Http.Invariant.{IsSound}
use ai_website_builder.Http.Isolation.{where_rows-append, where_rows-update_rows}

abbrev pub same_tenant : Tenant → Tenant → Bool
same_tenant s t = s.id == t.id

-- The primary key and UNIQUE (email).
abbrev pub same_user : User → User → Bool
same_user u v = u.id == v.id || u.email == v.email

abbrev pub same_member_id : TenantUser → TenantUser → Bool
same_member_id m n = m.id == n.id

-- UNIQUE (tenant_id, user_id)
abbrev pub same_member : TenantUser → TenantUser → Bool
same_member m n = m.tenant_id == n.tenant_id && m.user_id == n.user_id

abbrev pub same_website : Website → Website → Bool
same_website v w = v.id == w.id

-- CHECK (status IN ('active', 'disabled'))
abbrev pub is_activity : String → Bool
is_activity status = status == "active" || status == "disabled"

pub record IsStaffed (db : Db) : Type 0 where
  pub tenant_ids : Apart same_tenant db.tenants
  pub tenant_states : All (λ t. is_activity t.status ≡ true) db.tenants
  pub user_keys : Apart same_user db.users
  pub member_ids : Apart same_member_id db.tenant_users
  pub member_keys : Apart same_member db.tenant_users
  pub member_roles : All (λ m. valid_role m.role ≡ true) db.tenant_users
  pub website_ids : Apart same_website db.websites
  pub website_states : All (λ w. is_activity w.status ≡ true) db.websites

-- The four tables are the same.
pub record SameStaff (db db' : Db) : Type 0 where
  pub tenants : db'.tenants ≡ db.tenants
  pub users : db'.users ≡ db.users
  pub tenant_users : db'.tenant_users ≡ db.tenant_users
  pub websites : db'.websites ≡ db.websites

-- What a request may do to the tables when its tenant is `tenant`.
pub data Change (tenant : String) : Db → Db → Type 0 where
  rests : {db db' : Db} → SameStaff db db' → (IsSound db → IsSound db') → Change tenant db db'
  adds_tenant :
      {db : Db} (t : Tenant)
      → any (λ s. s.id == t.id) db.tenants ≡ false
      → is_activity t.status ≡ true
      → Change tenant db (record db { tenants = db.tenants ++ t ∷ [] })
  sets_tenants :
      {db : Db} (p : Tenant → Bool) (f : Tenant → Tenant)
      → ((t : Tenant)
          → ((f t).id ≡ t.id) × (is_activity t.status ≡ true → is_activity (f t).status ≡ true))
      → Change tenant db (record db { tenants = update_rows p f db.tenants })
  adds_user :
      {db : Db} (u : User)
      → any (λ v. v.id == u.id || v.email == u.email) db.users ≡ false
      → Change tenant db (record db { users = db.users ++ u ∷ [] })
  adds_member :
      {db : Db} (m : TenantUser)
      → (m.tenant_id == tenant) ≡ true
      → any (λ n. n.id == m.id) db.tenant_users ≡ false
      → any (λ n. n.tenant_id == m.tenant_id && n.user_id == m.user_id) db.tenant_users ≡ false
      → valid_role m.role ≡ true
      → Change tenant db (record db { tenant_users = db.tenant_users ++ m ∷ [] })
  sets_role :
      {db : Db} (p : TenantUser → Bool) (role : String)
      → ((m : TenantUser) → p m ≡ true → (m.tenant_id == tenant) ≡ true)
      → valid_role role ≡ true
      → Change tenant db (record db {
        tenant_users = update_rows p (λ m. record m { role = role }) db.tenant_users;
      })
  removes_members :
      {db : Db} (keep : TenantUser → Bool)
      → ((m : TenantUser) → (m.tenant_id == tenant) ≡ false → keep m ≡ true)
      → Change tenant db (record db { tenant_users = where_rows keep db.tenant_users })
  adds_website :
      {db : Db} (w : Website)
      → (w.tenant_id == tenant) ≡ true
      → any (λ v. v.id == w.id) db.websites ≡ false
      → is_activity w.status ≡ true
      → Change tenant db (record db { websites = db.websites ++ w ∷ [] })
  sets_websites :
      {db : Db} (p : Website → Bool) (f : Website → Website)
      → ((w : Website) → p w ≡ true → (w.tenant_id == tenant) ≡ true)
      → ((w : Website)
          → ((f w).id ≡ w.id)
            × ((f w).tenant_id ≡ w.tenant_id)
            × (is_activity w.status ≡ true → is_activity (f w).status ≡ true))
      → Change tenant db (record db { websites = update_rows p f db.websites })
  joins : {a b c : Db} → Change tenant a b → Change tenant b c → Change tenant a c
