-- ===== src/Http/Staff/Handlers.antt =====
-- Each handler of tenants, users and websites is a change within the tenant of the request.
use ai_website_builder.Common.{
  ℕ, String, Bool, true, false, ◌||◌, ◌==◌, ◌≡◌, refl, List, [], ◌∷◌, any, find?, if_cases,
  coalesce, Option, none, some, arith, suc, ◌∙◌, Bool-cases, inl, inr, or_false_right, sym, subst,
}
use ai_website_builder.Common.Dict.{Dict}
use ai_website_builder.Common.Strings.{trim_space}
use ai_website_builder.Models.Json.{Json}
use ai_website_builder.Db.{Db, Tenant, SectionType, record_audit}
use ai_website_builder.Seed.{insert_type, seed_types, seed_section_types, starter_section_types}
use ai_website_builder.Seed.Sound.{seed_section_types-IsSound}
use ai_website_builder.Http.Invariant.{record_audit-IsSound}
use ai_website_builder.Http.Reply.{Request, Response, AuthInfo}
use ai_website_builder.Http.Tenants.{
  TenantUpdate, new_tenant, tenant_created, insert_tenant, handle_create_tenant,
  handle_list_tenants, found_tenant, handle_get_tenant, bad_activity, updated_tenant, save_tenant,
  handle_update_tenant,
}
use ai_website_builder.Http.Staff.{
  is_activity, SameStaff, Change, rests, adds_tenant, sets_tenants, joins,
}

same-SameStaff : (db : Db) → SameStaff db db
same-SameStaff db = record { tenants = refl; users = refl; tenant_users = refl; websites = refl }

-- A reply that leaves the tables as they are.
pub still : (tenant : String) (db : Db) → Change tenant db db
still tenant db = rests (same-SameStaff db) (λ h. h)

audit-SameStaff :
    (fails : Bool) (now : ℕ) (t user action entity id : String) (meta : Dict Json) (db : Db)
    → SameStaff db (record_audit fails now t user action entity id meta db)
unfolding record_audit
audit-SameStaff true now t user action entity id meta db = same-SameStaff db
audit-SameStaff false now t user action entity id meta db = record {
  tenants = refl;
  users = refl;
  tenant_users = refl;
  websites = refl;
}

pub audits :
    (tenant : String) (fails : Bool) (now : ℕ) (t user action entity id : String) (meta : Dict Json)
    (db db' : Db)
    → Change tenant db db'
    → Change tenant db (record_audit fails now t user action entity id meta db')
audits tenant fails now t user action entity id meta db db' c = joins c (
    rests (audit-SameStaff fails now t user action entity id meta db')
      (record_audit-IsSound fails now t user action entity id meta db'))

seed_types-SameStaff :
    (fails : ℕ → Bool) (ids : ℕ → String) (now n : ℕ) (tenant : String) (sts : List SectionType)
    (db : Db)
    → SameStaff db (seed_types fails ids now n tenant sts db).1
unfolding seed_types
seed_types-SameStaff fails ids now n tenant [] db = same-SameStaff db
seed_types-SameStaff fails ids now n tenant (st ∷ sts) db =
    let one = insert_type-SameStaff in
    elim (Bool-cases (insert_type (fails n) now (ids n) tenant st db).0) [
      | inr bad ↦ rw bad one
      | inl ok ↦
          let rest =
            seed_types-SameStaff fails ids now (suc n) tenant sts
              (insert_type (fails n) now (ids n) tenant st db).1 in
          rw ok (record {
            tenants = rest.tenants ∙ one.tenants;
            users = rest.users ∙ one.users;
            tenant_users = rest.tenant_users ∙ one.tenant_users;
            websites = rest.websites ∙ one.websites;
          })
    ]
  where
    insert_type-SameStaff : SameStaff db (insert_type (fails n) now (ids n) tenant st db).1
    insert_type-SameStaff = record {
      tenants = unfold insert_type in ground arith;
      users = unfold insert_type in ground arith;
      tenant_users = unfold insert_type in ground arith;
      websites = unfold insert_type in ground arith;
    }

seeding-SameStaff :
    (fails : ℕ → Bool) (ids : ℕ → String) (now n : ℕ) (tenant : String) (db : Db)
    → SameStaff db (seed_section_types fails ids now n tenant db).1
unfolding seed_section_types
seeding-SameStaff fails ids now n tenant db =
    seed_types-SameStaff fails ids now n tenant starter_section_types db

pub record Does (tenant : String) (db : Db) (r : Response × Db) : Type 0 where
  pub changed : Change tenant db r.1

pub refused : (tenant : String) (db : Db) (r : Response × Db) → r.1 ≡ db → Does tenant db r
refused tenant db r e = record { changed = subst (Change tenant db) (sym e) (still tenant db) }

pub activity :
    (status : Option String) (old : String)
    → bad_activity status ≡ false
    → is_activity old ≡ true
    → is_activity (coalesce status old) ≡ true
activity none old b h = h
activity (some s) old b h = ground (arith, b)

module _ (tenant : String) (req : Request) (ai : AuthInfo) (db : Db) where
  tenant_created-Does :
      (t : Tenant) (r : Bool × Db)
      → Change tenant db r.1
      → Does tenant db (tenant_created req ai t r)
  unfolding tenant_created
  tenant_created-Does t (false, db') c = record { changed = c }
  tenant_created-Does t (true, db') c = record { changed = audits tenant _ _ _ _ _ _ _ _ db db' c }

  seeded :
      (ids : ℕ → String) (n : ℕ) (t : String) (db' : Db)
      → Change tenant db db'
      → Change tenant db (seed_section_types req.fails ids req.now n t db').1
  seeded ids n t db' c = joins c (
      rests (seeding-SameStaff req.fails ids req.now n t db')
        (seed_section_types-IsSound req.fails ids req.now n t db'))

  insert_tenant-Does :
      (ids : ℕ → String) (name : String) → Does tenant db (insert_tenant req ids ai name db)
  unfolding insert_tenant
  insert_tenant-Does ids name =
      if_cases (Does tenant db) (req.fails 0 || any (λ t. t.id == req.new_id) db.tenants) _ _
        (λ _. refused tenant db _ refl)
        λ n. tenant_created-Does (new_tenant req name) _ (
          seeded ids 1 req.new_id _
            (adds_tenant (new_tenant req name) (or_false_right (req.fails 0) _ n) refl))

  pub create_tenant-Does :
      (ids : ℕ → String) (body : Option String)
      → Does tenant db (handle_create_tenant req ids ai body db)
  unfolding handle_create_tenant
  create_tenant-Does ids none = refused tenant db _ refl
  create_tenant-Does ids (some name) =
      if_cases (Does tenant db) (trim_space name == "") _ _ (λ _. refused tenant db _ refl)
        (λ _. insert_tenant-Does ids (trim_space name))

  save_tenant-Does :
      (id : String) (u : TenantUpdate) (o : Option Tenant)
      → bad_activity u.status ≡ false
      → Does tenant db (save_tenant req ai id u o db)
  unfolding save_tenant
  save_tenant-Does id u none ok = refused tenant db _ refl
  save_tenant-Does id u (some t) ok = record {
    changed = audits tenant _ _ _ _ _ _ _ _ db _ (
        sets_tenants (λ t. t.id == id) (updated_tenant req.now u)
          (λ t. (refl, activity u.status t.status ok)));
  }

  pub update_tenant-Does :
      (id : String) (body : Option TenantUpdate)
      → Does tenant db (handle_update_tenant req ai id body db)
  unfolding handle_update_tenant
  update_tenant-Does id none = refused tenant db _ refl
  update_tenant-Does id (some u) =
      if_cases (Does tenant db) (bad_activity u.status) _ _ (λ _. refused tenant db _ refl)
        λ ok.
          if_cases (Does tenant db) (req.fails 0) _ _ (λ _. refused tenant db _ refl)
            λ _. save_tenant-Does id u (find? (λ t. t.id == id) db.tenants) ok

  pub get_tenant-Does : Does tenant db (handle_get_tenant req ai db)
  unfolding handle_get_tenant
  get_tenant-Does =
      if_cases (Does tenant db) (req.fails 0) _ _ (λ _. refused tenant db _ refl)
        (λ _. found (find? (λ t. t.id == ai.tenant_id) db.tenants))
    where
      found : (o : Option Tenant) → Does tenant db (found_tenant o db)
      found none = refused tenant db _ refl
      found (some t) = refused tenant db _ refl

  pub list_tenants-Does : Does tenant db (handle_list_tenants req ai db)
  unfolding handle_list_tenants
  list_tenants-Does =
      if_cases (Does tenant db) (req.fails 0) _ _ (λ _. refused tenant db _ refl)
        (λ _. refused tenant db _ refl)
