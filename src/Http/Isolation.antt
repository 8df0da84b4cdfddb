-- ===== src/Http/Isolation.antt =====
-- Tenant isolation (the comment on tenantRoute in internal/httpapi/middleware.go): what a request
-- to one tenant leaves alone of the others.
pub mod Pages
pub mod Sections
pub mod Run
use ai_website_builder.Common.{
  ℕ, String, Bool, true, false, not, ◌&&◌, ◌||◌, ◌==◌, ◌≡◌, refl, ◌∙◌, List, [], ◌∷◌, ◌++◌, All,
  where_rows, update_rows, if◌then◌else◌, arith, Bool-cases, inl, inr, ap, subst, sym, eq_iff,
}
use ai_website_builder.Common.Dict.{Dict}
use ai_website_builder.Models.Json.{Json}
use ai_website_builder.Db.{Db, Page, Section, SectionType, record_audit}

module _ {A : Type 0} where
  pub where_rows-append :
      (p : A → Bool) (xs : List A) (z : A)
      → p z ≡ false
      → where_rows p (xs ++ z ∷ []) ≡ where_rows p xs
  unfolding where_rows
  where_rows-append p [] z h = ground (arith, h)
  where_rows-append p (x ∷ xs) z h = ground (arith, where_rows-append p xs z h)

  pub where_rows-update_rows :
      (p q : A → Bool) (f : A → A) (xs : List A)
      → ((x : A) → q x ≡ true → (p x ≡ false) × (p (f x) ≡ false))
      → where_rows p (update_rows q f xs) ≡ where_rows p xs
  unfolding where_rows update_rows
  where_rows-update_rows p q f [] h = refl
  where_rows-update_rows p q f (x ∷ xs) h = elim (Bool-cases (q x)) [
    | inl t ↦ rw (t, (h x t).0, (h x t).1) (where_rows-update_rows p q f xs h)
    | inr n ↦ rw (n, where_rows-update_rows p q f xs h) refl
  ]

  pub where_rows-where_rows :
      (p keep : A → Bool) (xs : List A)
      → All (λ x. p x ≡ true → keep x ≡ true) xs
      → where_rows p (where_rows keep xs) ≡ where_rows p xs
  unfolding where_rows
  where_rows-where_rows p keep [] h = refl
  where_rows-where_rows p keep (x ∷ xs) h =
      let rest = where_rows-where_rows p keep xs h.1 in
      elim (Bool-cases (p x)) [
        | inl t ↦ rw (h.0 t, t, rest) refl
        | inr n ↦ elim (Bool-cases (keep x)) [ inl k ↦ rw (k, n) rest | inr k ↦ rw (k, n) rest ]
      ]

abbrev pub other_page : String → Page → Bool
other_page tenant p = not (p.tenant_id == tenant)

abbrev pub other_section : String → Section → Bool
other_section tenant s = not (s.tenant_id == tenant)

abbrev pub other_type : String → SectionType → Bool
other_type tenant t = not (t.tenant_id == tenant)

-- The rows of all other tenants are as they were, and so are the tables that say who may do what.
pub record IsIsolated (tenant : String) (db db' : Db) : Type 0 where
  pub pages : where_rows (other_page tenant) db'.pages ≡ where_rows (other_page tenant) db.pages
  pub sections :
      where_rows (other_section tenant) db'.sections ≡ where_rows (other_section tenant) db.sections
  pub section_types :
      where_rows (other_type tenant) db'.section_types
      ≡ where_rows (other_type tenant) db.section_types
  pub tenants : db'.tenants ≡ db.tenants
  pub users : db'.users ≡ db.users
  pub tenant_users : db'.tenant_users ≡ db.tenant_users
  pub websites : db'.websites ≡ db.websites
  pub media : db'.media ≡ db.media
  pub content_snapshots : db'.content_snapshots ≡ db.content_snapshots
  pub deployments : db'.deployments ≡ db.deployments

pub same-IsIsolated : (tenant : String) (db : Db) → IsIsolated tenant db db
same-IsIsolated tenant db = record {
  pages = refl;
  sections = refl;
  section_types = refl;
  tenants = refl;
  users = refl;
  tenant_users = refl;
  websites = refl;
  media = refl;
  content_snapshots = refl;
  deployments = refl;
}

pub unchanged : (tenant : String) (db db' : Db) → db' ≡ db → IsIsolated tenant db db'
unchanged tenant db db' e = subst (IsIsolated tenant db) (sym e) (same-IsIsolated tenant db)

-- A row with the tenant is no other tenant's.
pub own : (tenant : String) → not (tenant == tenant) ≡ false
own tenant = ground (arith, eq_iff tenant tenant)

pub record_audit-IsIsolated :
    (fails : Bool) (now : ℕ) (tenant user action entity id : String) (meta : Dict Json) (t : String)
    (db db' : Db)
    → IsIsolated t db db'
    → IsIsolated t db (record_audit fails now tenant user action entity id meta db')
unfolding record_audit
record_audit-IsIsolated true now tenant user action entity id meta t db db' h = h
record_audit-IsIsolated false now tenant user action entity id meta t db db' h = record {
  pages = h.pages;
  sections = h.sections;
  section_types = h.section_types;
  tenants = h.tenants;
  users = h.users;
  tenant_users = h.tenant_users;
  websites = h.websites;
  media = h.media;
  content_snapshots = h.content_snapshots;
  deployments = h.deployments;
}

module _ (tenant : String) (db : Db) where
  pub with_pages-IsIsolated :
      (ps : List Page)
      → where_rows (other_page tenant) ps ≡ where_rows (other_page tenant) db.pages
      → IsIsolated tenant db (record db { pages = ps })
  with_pages-IsIsolated ps e = record {
    pages = e;
    sections = refl;
    section_types = refl;
    tenants = refl;
    users = refl;
    tenant_users = refl;
    websites = refl;
    media = refl;
    content_snapshots = refl;
    deployments = refl;
  }

  pub with_sections-IsIsolated :
      (ss : List Section)
      → where_rows (other_section tenant) ss ≡ where_rows (other_section tenant) db.sections
      → IsIsolated tenant db (record db { sections = ss })
  with_sections-IsIsolated ss e = record {
    pages = refl;
    sections = e;
    section_types = refl;
    tenants = refl;
    users = refl;
    tenant_users = refl;
    websites = refl;
    media = refl;
    content_snapshots = refl;
    deployments = refl;
  }

  pub with_types-IsIsolated :
      (ts : List SectionType)
      → where_rows (other_type tenant) ts ≡ where_rows (other_type tenant) db.section_types
      → IsIsolated tenant db (record db { section_types = ts })
  with_types-IsIsolated ts e = record {
    pages = refl;
    sections = refl;
    section_types = e;
    tenants = refl;
    users = refl;
    tenant_users = refl;
    websites = refl;
    media = refl;
    content_snapshots = refl;
    deployments = refl;
  }
