-- ===== src/Http/SectionTypes.antt =====
-- internal/httpapi/handlers_sectiontypes.go: the tenant's library of block types.
use ai_website_builder.Common.{
  ℕ, String, Bool, not, ◌&&◌, ◌||◌, ◌==◌, Option, none, some, List, [], ◌∷◌, ◌++◌, find?, any,
  where_rows, update_rows, if◌then◌else◌, coalesce,
}
use ai_website_builder.Common.Strings.{trim_space, replace_char}
use ai_website_builder.Common.Sort.{sort_by}
use ai_website_builder.Common.{leb}
use ai_website_builder.Models.Json.{str}
use ai_website_builder.Models.Schema.{
  FieldSpecs, LayoutHints, Checked, ok, err, SchemaError, validate_schema,
}
use ai_website_builder.Db.{Db, Section, SectionType, record_audit}
use ai_website_builder.Http.Text.{valid_slug}
use ai_website_builder.Http.Reply.{
  Request, schema_error, section_type, section_types, done, AuthInfo, Handler, refuse,
  internal_error, reply,
}

abbrev pub is_active : String → SectionType → Bool
is_active tenant t = t.tenant_id == tenant && t.status == "active"

-- sectionTypeFields: the schema of an active block type.
fields_of : Option SectionType → Option FieldSpecs
fields_of none = none
fields_of (some t) = some t.fields

unfoldable pub section_type_fields : Bool → String → String → Db → Option FieldSpecs
unfolding fields_of
section_type_fields fails tenant type_key db =
    if fails
    then none
    else fields_of (find? (λ t. is_active tenant t && t.type_key == type_key) db.section_types)

unfoldable pub handle_list_section_types : Request → AuthInfo → Handler
handle_list_section_types req ai db =
    if req.fails 0
    then internal_error db
    else reply 200
        (section_types (
          sort_by (λ a b. leb a.created_at b.created_at)
            (where_rows (is_active ai.tenant_id) db.section_types)))
        db

pub record SectionTypeRequest : Type 0 where
  pub type_key : String
  pub label : String
  pub icon : String
  pub fields : FieldSpecs
  pub layout : Option LayoutHints

abbrev pub no_layout : LayoutHints
no_layout = record { variant = ""; background = ""; align = "" }

abbrev pub layout_of : Option LayoutHints → LayoutHints
layout_of o = coalesce o no_layout

-- writeError with err.Error()
abbrev bad_schema : SchemaError → Handler
bad_schema e = reply 400 (schema_error e)

-- UNIQUE (tenant_id, type_key), archived types included, and the primary key.
unfoldable pub key_taken : String → String → List SectionType → Bool
key_taken tenant type_key ts = any (λ t. t.tenant_id == tenant && t.type_key == type_key) ts

unfoldable pub type_id_taken : String → List SectionType → Bool
type_id_taken id ts = any (λ t. t.id == id) ts

abbrev pub new_section_type : Request → AuthInfo → SectionTypeRequest → SectionType
new_section_type req ai body = record {
  id = req.new_id;
  tenant_id = ai.tenant_id;
  type_key = body.type_key;
  label = trim_space body.label;
  icon = body.icon;
  fields = body.fields;
  layout = layout_of body.layout;
  status = "active";
  created_at = req.now;
  updated_at = req.now;
}

insert_section_type : Request → AuthInfo → SectionTypeRequest → Checked (Unit {0}) → Handler
insert_section_type req ai body (err e) = bad_schema e
insert_section_type req ai body (ok u) = λ db.
    if req.fails 0
    then internal_error db
    else if key_taken ai.tenant_id body.type_key db.section_types
        || type_id_taken req.new_id db.section_types
    then refuse 409 "a block type with this key already exists" db
    else (let t = new_section_type req ai body in
        reply 201 (section_type t) (
          record_audit (req.fails 1) req.now ai.tenant_id ai.user_id "section_type.created"
            "section_type" t.id (("type_key", str t.type_key) ∷ [])
            (record db { section_types = db.section_types ++ t ∷ [] })))

unfoldable pub handle_create_section_type : Request → AuthInfo → Option SectionTypeRequest → Handler
unfolding insert_section_type
handle_create_section_type req ai none db = refuse 400 "invalid request body" db
handle_create_section_type req ai (some body) db =
    if not (valid_slug (replace_char "_" "-" body.type_key))
    then refuse 400 "type_key must be lowercase letters, digits, hyphens or underscores" db
    else if trim_space body.label == ""
    then refuse 400 "label is required" db
    else insert_section_type req ai body (validate_schema body.fields (layout_of body.layout)) db

abbrev pub is_active_row : String → String → SectionType → Bool
is_active_row id tenant t = t.id == id && is_active tenant t

-- The key stays: sections refer to it.
abbrev pub updated_section_type : ℕ → SectionTypeRequest → SectionType → SectionType
updated_section_type now body t = record t {
  label = trim_space body.label;
  icon = body.icon;
  fields = body.fields;
  layout = layout_of body.layout;
  updated_at = now;
}

save_section_type : Request → AuthInfo → String → SectionTypeRequest → Option SectionType → Handler
save_section_type req ai id body none = refuse 404 "block type not found"
save_section_type req ai id body (some t) = λ db.
    reply 200 (section_type (updated_section_type req.now body t)) (
      record_audit (req.fails 1) req.now ai.tenant_id ai.user_id "section_type.updated"
        "section_type" t.id (("type_key", str t.type_key) ∷ [])
        (record db {
          section_types =
              update_rows (is_active_row id ai.tenant_id) (updated_section_type req.now body)
                db.section_types;
        }))

update_section_type :
    Request → AuthInfo → String → SectionTypeRequest → Checked (Unit {0}) → Handler
unfolding save_section_type
update_section_type req ai id body (err e) = bad_schema e
update_section_type req ai id body (ok u) = λ db.
    if req.fails 0
    then internal_error db
    else save_section_type req ai id body (find? (is_active_row id ai.tenant_id) db.section_types)
        db

unfoldable pub handle_update_section_type :
    Request → AuthInfo → String → Option SectionTypeRequest → Handler
unfolding update_section_type
handle_update_section_type req ai id none db = refuse 400 "invalid request body" db
handle_update_section_type req ai id (some body) db =
    if trim_space body.label == ""
    then refuse 400 "label is required" db
    else update_section_type req ai id body (validate_schema body.fields (layout_of body.layout)) db

abbrev pub archived : ℕ → SectionType → SectionType
archived now t = record t { status = "archived"; updated_at = now }

-- SELECT count(*) FROM sections WHERE tenant_id and section_type, compared with 0.
unfoldable pub in_use : String → String → List Section → Bool
in_use tenant type_key ss = any (λ s. s.tenant_id == tenant && s.section_type == type_key) ss

archive : Request → AuthInfo → String → Option SectionType → Handler
archive req ai id none = refuse 404 "block type not found"
archive req ai id (some t) = λ db.
    if req.fails 1
    then internal_error db
    else if in_use ai.tenant_id t.type_key db.sections
    then refuse 409 "this block type is used by existing sections; remove those blocks first" db
    else if req.fails 2
    then internal_error db
    else reply 200 done (
        record_audit (req.fails 3) req.now ai.tenant_id ai.user_id "section_type.archived"
          "section_type" id (("type_key", str t.type_key) ∷ [])
          (record db {
            section_types =
                update_rows (λ r. r.id == id && r.tenant_id == ai.tenant_id) (archived req.now)
                  db.section_types;
          }))

unfoldable pub handle_archive_section_type : Request → AuthInfo → String → Handler
unfolding archive
handle_archive_section_type req ai id db =
    if req.fails 0
    then internal_error db
    else archive req ai id (find? (is_active_row id ai.tenant_id) db.section_types) db
