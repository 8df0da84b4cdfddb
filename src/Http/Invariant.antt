-- ===== src/Http/Invariant.antt =====
-- What the handlers of pages, sections and block types keep true of the tables
-- (internal/httpapi, with the keys of internal/db/migrations).
pub mod Pages
pub mod PageOrder
pub mod Sections
pub mod SectionTypes
pub mod SectionUpdate
pub mod Archive
pub mod Run
use ai_website_builder.Common.{
  String, Bool, true, false, ◌&&◌, ◌==◌, ◌≡◌, refl, List, [], ◌∷◌, All, any, if◌then◌else◌,
}
use ai_website_builder.Common.Tables.{Apart}
use ai_website_builder.Models.Json.{Json}
use ai_website_builder.Models.Schema.{Checked, ok, validate_schema}
use ai_website_builder.Db.{Db, Page, Section, SectionType, record_audit}
use ai_website_builder.Common.Dict.{Dict}
use ai_website_builder.Common.{ℕ}
use ai_website_builder.Http.Text.{valid_slug}
use ai_website_builder.Http.SectionTypes.{is_active}
use ai_website_builder.Http.Reply.{Response}

abbrev pub same_page : Page → Page → Bool
same_page p q = p.id == q.id

-- UNIQUE (website_id, slug)
abbrev pub same_slug : Page → Page → Bool
same_slug p q = p.website_id == q.website_id && p.slug == q.slug

abbrev pub same_type : SectionType → SectionType → Bool
same_type s t = s.id == t.id

-- UNIQUE (tenant_id, type_key)
abbrev pub same_key : SectionType → SectionType → Bool
same_key s t = s.tenant_id == t.tenant_id && s.type_key == t.type_key

abbrev pub HasSchema : SectionType → Type 0
HasSchema t = validate_schema t.fields t.layout ≡ ok tt

-- The tenant has an active block type of the section's type.
abbrev pub type_of : Section → SectionType → Bool
type_of s t = is_active s.tenant_id t && t.type_key == s.section_type

abbrev pub IsTyped : List SectionType → Section → Type 0
IsTyped ts s = any (type_of s) ts ≡ true

-- The page of a section, in the section's tenant.
abbrev pub page_of : Section → Page → Bool
page_of s p = p.id == s.page_id && p.tenant_id == s.tenant_id

abbrev pub IsHoused : List Page → Section → Type 0
IsHoused ps s = any (page_of s) ps ≡ true

pub record IsSound (db : Db) : Type 0 where
  pub page_ids : Apart same_page db.pages
  pub page_slugs : Apart same_slug db.pages
  pub valid_slugs : All (λ p. valid_slug p.slug ≡ true) db.pages
  pub type_ids : Apart same_type db.section_types
  pub type_keys : Apart same_key db.section_types
  pub schemas : All HasSchema db.section_types
  pub typed : All (IsTyped db.section_types) db.sections
  pub housed : All (IsHoused db.pages) db.sections

-- The audit log is no concern of the invariant.
pub record_audit-IsSound :
    (fails : Bool) (now : ℕ) (tenant user action entity id : String) (meta : Dict Json) (db : Db)
    → IsSound db
    → IsSound (record_audit fails now tenant user action entity id meta db)
unfolding record_audit
record_audit-IsSound true now tenant user action entity id meta db h = h
record_audit-IsSound false now tenant user action entity id meta db h = record {
  page_ids = h.page_ids;
  page_slugs = h.page_slugs;
  valid_slugs = h.valid_slugs;
  type_ids = h.type_ids;
  type_keys = h.type_keys;
  schemas = h.schemas;
  typed = h.typed;
  housed = h.housed;
}

-- A test in a handler.
pub if-IsSound :
    (b : Bool) (m n : Response × Db)
    → (b ≡ true → IsSound m.1)
    → (b ≡ false → IsSound n.1)
    → IsSound (if b then m else n).1
if-IsSound true m n t f = t refl
if-IsSound false m n t f = f refl

-- Other sections, typed and housed, leave the rest sound.
pub with_sections :
    (db : Db) (ss : List Section)
    → IsSound db
    → All (IsTyped db.section_types) ss
    → All (IsHoused db.pages) ss
    → IsSound (record db { sections = ss })
with_sections db ss sound h k = record {
  page_ids = sound.page_ids;
  page_slugs = sound.page_slugs;
  valid_slugs = sound.valid_slugs;
  type_ids = sound.type_ids;
  type_keys = sound.type_keys;
  schemas = sound.schemas;
  typed = h;
  housed = k;
}
