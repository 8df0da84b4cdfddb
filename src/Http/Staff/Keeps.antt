-- ===== src/Http/Staff/Keeps.antt =====
-- A change keeps the invariants, and leaves the members and websites of other tenants alone.
use ai_website_builder.Common.{
  String, Bool, true, not, ◌==◌, ◌≡◌, refl, List, [], ◌∷◌, ◌++◌, All, All-append, All-where_rows,
  where_rows, append_assoc, append-nil, ◌∙◌, sym, arith, ap,
}
use ai_website_builder.Common.Tables.{
  any-false, All-pure, All-update_rows, Apart, Apart-append, Apart-where_rows,
  Apart-update_rows_same,
}
use ai_website_builder.Models.Roles.{valid_role}
use ai_website_builder.Db.{Db, Tenant, User, TenantUser, Website}
use ai_website_builder.Http.Invariant.{IsSound}
use ai_website_builder.Http.Isolation.{
  where_rows-append, where_rows-update_rows, where_rows-where_rows,
}
use ai_website_builder.Http.Staff.{
  same_tenant, same_user, same_member_id, same_member, same_website, is_activity, IsStaffed,
  SameStaff, Change, rests, adds_tenant, sets_tenants, adds_user, adds_member, sets_role,
  removes_members, adds_website, sets_websites, joins,
}

-- The invariant of pages, sections and block types does not look at the other tables.
pub same-IsSound :
    {db db' : Db}
    → db'.pages ≡ db.pages
    → db'.sections ≡ db.sections
    → db'.section_types ≡ db.section_types
    → IsSound db
    → IsSound db'
same-IsSound e f g h = record {
  page_ids = rw e h.page_ids;
  page_slugs = rw e h.page_slugs;
  valid_slugs = rw e h.valid_slugs;
  type_ids = rw g h.type_ids;
  type_keys = rw g h.type_keys;
  schemas = rw g h.schemas;
  typed = rw (f, g) h.typed;
  housed = rw (f, e) h.housed;
}

-- Every change keeps the invariant of pages, sections and block types.
pub Change-IsSound :
    {tenant : String} {db db' : Db} → Change tenant db db' → IsSound db → IsSound db'
Change-IsSound (rests same keeps) h = keeps h
Change-IsSound (adds_tenant t free ok) h = same-IsSound refl refl refl h
Change-IsSound (sets_tenants p f ok) h = same-IsSound refl refl refl h
Change-IsSound (adds_user u free) h = same-IsSound refl refl refl h
Change-IsSound (adds_member m mine free fresh ok) h = same-IsSound refl refl refl h
Change-IsSound (sets_role p role mine ok) h = same-IsSound refl refl refl h
Change-IsSound (removes_members keep mine) h = same-IsSound refl refl refl h
Change-IsSound (adds_website w mine free ok) h = same-IsSound refl refl refl h
Change-IsSound (sets_websites p f mine ok) h = same-IsSound refl refl refl h
Change-IsSound (joins c d) h = Change-IsSound d (Change-IsSound c h)

module _ (db : Db) (h : IsStaffed db) where
  with_tenants :
      (ts : List Tenant)
      → Apart same_tenant ts
      → All (λ t. is_activity t.status ≡ true) ts
      → IsStaffed (record db { tenants = ts })
  with_tenants ts ids states = record {
    tenant_ids = ids;
    tenant_states = states;
    user_keys = h.user_keys;
    member_ids = h.member_ids;
    member_keys = h.member_keys;
    member_roles = h.member_roles;
    website_ids = h.website_ids;
    website_states = h.website_states;
  }

  with_users : (us : List User) → Apart same_user us → IsStaffed (record db { users = us })
  with_users us keys = record {
    tenant_ids = h.tenant_ids;
    tenant_states = h.tenant_states;
    user_keys = keys;
    member_ids = h.member_ids;
    member_keys = h.member_keys;
    member_roles = h.member_roles;
    website_ids = h.website_ids;
    website_states = h.website_states;
  }

  with_members :
      (ms : List TenantUser)
      → Apart same_member_id ms
      → Apart same_member ms
      → All (λ m. valid_role m.role ≡ true) ms
      → IsStaffed (record db { tenant_users = ms })
  with_members ms ids keys roles = record {
    tenant_ids = h.tenant_ids;
    tenant_states = h.tenant_states;
    user_keys = h.user_keys;
    member_ids = ids;
    member_keys = keys;
    member_roles = roles;
    website_ids = h.website_ids;
    website_states = h.website_states;
  }

  with_websites :
      (ws : List Website)
      → Apart same_website ws
      → All (λ w. is_activity w.status ≡ true) ws
      → IsStaffed (record db { websites = ws })
  with_websites ws ids states = record {
    tenant_ids = h.tenant_ids;
    tenant_states = h.tenant_states;
    user_keys = h.user_keys;
    member_ids = h.member_ids;
    member_keys = h.member_keys;
    member_roles = h.member_roles;
    website_ids = ids;
    website_states = states;
  }

pub same-IsStaffed : {db db' : Db} → SameStaff db db' → IsStaffed db → IsStaffed db'
same-IsStaffed s h = record {
  tenant_ids = rw (s.tenants) h.tenant_ids;
  tenant_states = rw (s.tenants) h.tenant_states;
  user_keys = rw (s.users) h.user_keys;
  member_ids = rw (s.tenant_users) h.member_ids;
  member_keys = rw (s.tenant_users) h.member_keys;
  member_roles = rw (s.tenant_users) h.member_roles;
  website_ids = rw (s.websites) h.website_ids;
  website_states = rw (s.websites) h.website_states;
}

-- Every change keeps the keys and the checks of tenants, users, members and websites.
pub Change-IsStaffed :
    {tenant : String} {db db' : Db} → Change tenant db db' → IsStaffed db → IsStaffed db'
Change-IsStaffed (rests same keeps) h = same-IsStaffed same h
Change-IsStaffed (adds_tenant {db} t free ok) h =
    with_tenants db h _ (Apart-append same_tenant db.tenants t h.tenant_ids (any-false _ _ free))
      (All-append _ db.tenants _ h.tenant_states (ok, tt))
Change-IsStaffed (sets_tenants {db} p f ok) h =
    with_tenants db h _
      (Apart-update_rows_same same_tenant p f db.tenants (λ s t. rw (ok s).0 refl)
        (λ s t. rw (ok t).0 refl) h.tenant_ids)
      (All-update_rows _ p f db.tenants h.tenant_states (All-pure _ (λ t sel. (ok t).1) db.tenants))
Change-IsStaffed (adds_user {db} u free) h =
    with_users db h _ (Apart-append same_user db.users u h.user_keys (any-false _ _ free))
Change-IsStaffed (adds_member {db} m mine free fresh ok) h =
    with_members db h _
      (Apart-append same_member_id db.tenant_users m h.member_ids (any-false _ _ free))
      (Apart-append same_member db.tenant_users m h.member_keys (any-false _ _ fresh))
      (All-append _ db.tenant_users _ h.member_roles (ok, tt))
Change-IsStaffed (sets_role {db} p role mine ok) h =
    with_members db h _
      (Apart-update_rows_same same_member_id p _ db.tenant_users (λ m n. refl) (λ m n. refl)
        h.member_ids)
      (Apart-update_rows_same same_member p _ db.tenant_users (λ m n. refl) (λ m n. refl)
        h.member_keys)
      (All-update_rows _ p _ db.tenant_users h.member_roles
        (All-pure _ (λ m sel old. ok) db.tenant_users))
Change-IsStaffed (removes_members {db} keep mine) h =
    with_members db h _ (Apart-where_rows same_member_id keep db.tenant_users h.member_ids)
      (Apart-where_rows same_member keep db.tenant_users h.member_keys)
      (All-where_rows _ keep db.tenant_users h.member_roles)
Change-IsStaffed (adds_website {db} w mine free ok) h =
    with_websites db h _
      (Apart-append same_website db.websites w h.website_ids (any-false _ _ free))
      (All-append _ db.websites _ h.website_states (ok, tt))
Change-IsStaffed (sets_websites {db} p f mine ok) h =
    with_websites db h _
      (Apart-update_rows_same same_website p f db.websites (λ v w. rw (ok v).0 refl)
        (λ v w. rw (ok w).0 refl) h.website_ids)
      (All-update_rows _ p f db.websites h.website_states
        (All-pure _ (λ w sel. (ok w).2) db.websites))
Change-IsStaffed (joins c d) h = Change-IsStaffed d (Change-IsStaffed c h)

abbrev pub other_member : String → TenantUser → Bool
other_member tenant m = not (m.tenant_id == tenant)

abbrev pub other_website : String → Website → Bool
other_website tenant w = not (w.tenant_id == tenant)

-- The memberships and websites of other tenants are as they were, and so is every account.
pub record IsLocal (tenant : String) (db db' : Db) : Type 0 where
  pub members :
      where_rows (other_member tenant) db'.tenant_users
      ≡ where_rows (other_member tenant) db.tenant_users
  pub websites :
      where_rows (other_website tenant) db'.websites ≡ where_rows (other_website tenant) db.websites
  pub new_users : List User
  pub users : db'.users ≡ db.users ++ new_users

module _ {tenant : String} {db : Db} where
  local :
      (db' : Db)
      → where_rows (other_member tenant) db'.tenant_users
        ≡ where_rows (other_member tenant) db.tenant_users
      → where_rows (other_website tenant) db'.websites
        ≡ where_rows (other_website tenant) db.websites
      → db'.users ≡ db.users
      → IsLocal tenant db db'
  local db' m w e = record {
    members = m;
    websites = w;
    new_users = [];
    users = e ∙ sym (append-nil db.users);
  }

-- Every change is within its tenant.
pub Change-IsLocal : {tenant : String} {db db' : Db} → Change tenant db db' → IsLocal tenant db db'
Change-IsLocal {tenant} (rests {db} {db'} s keeps) =
    local db' (ap (where_rows (other_member tenant)) s.tenant_users)
      (ap (where_rows (other_website tenant)) s.websites) s.users
Change-IsLocal (adds_tenant t free ok) = local _ refl refl refl
Change-IsLocal (sets_tenants p f ok) = local _ refl refl refl
Change-IsLocal (adds_user u free) = record {
  members = refl;
  websites = refl;
  new_users = u ∷ [];
  users = refl;
}
Change-IsLocal {tenant} (adds_member {db} m mine free fresh ok) =
    local _ (where_rows-append (other_member tenant) db.tenant_users m (rw mine refl)) refl refl
Change-IsLocal {tenant} (sets_role {db} p role mine ok) =
    local _
      (where_rows-update_rows (other_member tenant) p _ db.tenant_users
        (λ m sel. (rw (mine m sel) refl, rw (mine m sel) refl)))
      refl refl
Change-IsLocal {tenant} (removes_members {db} keep mine) =
    local _
      (where_rows-where_rows (other_member tenant) keep db.tenant_users
        (All-pure _ (λ m other. mine m (ground (arith, other))) db.tenant_users))
      refl refl
Change-IsLocal {tenant} (adds_website {db} w mine free ok) =
    local _ refl (where_rows-append (other_website tenant) db.websites w (rw mine refl)) refl
Change-IsLocal {tenant} (sets_websites {db} p f mine ok) =
    local _ refl
      (where_rows-update_rows (other_website tenant) p f db.websites
        (λ w sel. (rw (mine w sel) refl, rw ((ok w).1, mine w sel) refl)))
      refl
Change-IsLocal (joins {a} c d) =
    let first = Change-IsLocal c in
    let second = Change-IsLocal d in
    record {
      members = second.members ∙ first.members;
      websites = second.websites ∙ first.websites;
      new_users = first.new_users ++ second.new_users;
      users =
          second.users
          ∙ ap (λ us. us ++ second.new_users) first.users
          ∙ append_assoc a.users first.new_users second.new_users;
    }
