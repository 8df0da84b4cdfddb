-- ===== src/Http/Sections.antt =====
-- internal/httpapi/handlers_pages.go: the handlers of a page's sections.
use Prim.Native.Nat.{max}
use ai_website_builder.Common.{
  ℕ, ◌+◌, String, Bool, true, false, not, ◌&&◌, ◌||◌, ◌==◌, Option, none, some, List, [], ◌∷◌, ◌++◌,
  find?, any, where_rows, update_rows, if◌then◌else◌, coalesce,
}
use ai_website_builder.Common.Sort.{sort_by, le_pair}
use ai_website_builder.Models.Json.{str, Raw, blank, malformed, parsed}
use ai_website_builder.Models.Schema.{FieldSpecs}
use ai_website_builder.Models.Content.{normalize_content}
use ai_website_builder.Db.{Db, Section, record_audit}
use ai_website_builder.Http.Pages.{is_page, bad_visibility, position}
use ai_website_builder.Http.SectionTypes.{section_type_fields}
use ai_website_builder.Http.Reply.{
  Request, section, sections, done, AuthInfo, Handler, refuse, internal_error, reply,
}

unfoldable pub page_in_tenant : Bool → String → String → Db → Bool
page_in_tenant fails id tenant db = not fails && any (is_page id tenant) db.pages

abbrev pub is_section : String → String → Section → Bool
is_section id tenant s = s.id == id && s.tenant_id == tenant

abbrev pub of_page : String → Section → Bool
of_page page_id s = s.page_id == page_id

-- COALESCE(MAX(sort_order), -1) + 1
abbrev pub next_section_order : List Section → ℕ
next_section_order [] = 0
next_section_order (s ∷ ss) = max (s.sort_order + 1) (next_section_order ss)

unfoldable pub handle_list_sections : Request → AuthInfo → String → Handler
handle_list_sections req ai page_id db =
    if req.fails 0
    then internal_error db
    else reply 200
        (sections (
          sort_by (λ a b. le_pair a.sort_order a.created_at b.sort_order b.created_at)
            (where_rows (λ s. of_page page_id s && s.tenant_id == ai.tenant_id) db.sections)))
        db

pub record SectionRequest : Type 0 where
  pub section_type : String
  pub content : Raw

abbrev pub new_section : Request → AuthInfo → String → String → Raw → Db → Section
new_section req ai page_id type_key content db = record {
  id = req.new_id;
  tenant_id = ai.tenant_id;
  page_id = page_id;
  section_type = type_key;
  sort_order = next_section_order (where_rows (of_page page_id) db.sections);
  content = content;
  status = "visible";
  created_at = req.now;
  updated_at = req.now;
}

-- The primary key.
unfoldable pub section_id_taken : String → List Section → Bool
section_id_taken id ss = any (λ s. s.id == id) ss

insert_section : Request → AuthInfo → String → String → Option Raw → Handler
insert_section req ai page_id type_key none = refuse 400 "content must be a valid JSON object"
insert_section req ai page_id type_key (some content) = λ db.
    if req.fails 2 || section_id_taken req.new_id db.sections
    then internal_error db
    else (let s = new_section req ai page_id type_key content db in
        reply 201 (section s) (
          record_audit (req.fails 3) req.now ai.tenant_id ai.user_id "section.created" "section"
            s.id (("type", str s.section_type) ∷ [])
            (record db { sections = db.sections ++ s ∷ [] })))

with_schema : Request → AuthInfo → String → SectionRequest → Option FieldSpecs → Handler
unfolding insert_section
with_schema req ai page_id body none = refuse 400 "unknown block type"
with_schema req ai page_id body (some fields) =
    insert_section req ai page_id body.section_type (normalize_content fields body.content)

create_section : Request → AuthInfo → String → Option SectionRequest → Handler
unfolding with_schema
create_section req ai page_id none db = refuse 400 "invalid request body" db
create_section req ai page_id (some body) db =
    with_schema req ai page_id body
      (section_type_fields (req.fails 1) ai.tenant_id body.section_type db) db

unfoldable pub handle_create_section : Request → AuthInfo → String → Option SectionRequest → Handler
unfolding create_section
handle_create_section req ai page_id body db =
    if not (page_in_tenant (req.fails 0) page_id ai.tenant_id db)
    then refuse 404 "page not found" db
    else create_section req ai page_id body db

pub record SectionUpdate : Type 0 where
  pub content : Raw
  pub status : Option String

abbrev pub updated_section : ℕ → Option Raw → Option String → Section → Section
updated_section now content status s = record s {
  content = coalesce content s.content;
  status = coalesce status s.status;
  updated_at = now;
}

save_section : Request → AuthInfo → String → Option Raw → Option String → Option Section → Handler
save_section req ai id content status none = refuse 404 "section not found"
save_section req ai id content status (some s) = λ db.
    reply 200 (section (updated_section req.now content status s)) (
      record_audit (req.fails 3) req.now ai.tenant_id ai.user_id "section.updated" "section" id []
        (record db {
          sections =
              update_rows (is_section id ai.tenant_id) (updated_section req.now content status)
                db.sections;
        }))

-- The UPDATE, with the content to store, if there is one.
write_section : Request → AuthInfo → String → Option Raw → Option String → Handler
unfolding save_section
write_section req ai id content status db =
    if req.fails 2
    then internal_error db
    else save_section req ai id content status (find? (is_section id ai.tenant_id) db.sections) db

write_normalized : Request → AuthInfo → String → Option String → Option Raw → Handler
unfolding write_section
write_normalized req ai id status none = refuse 400 "content must be a valid JSON object"
write_normalized req ai id status (some content) = write_section req ai id (some content) status

-- A type archived since the section was created: the content is stored as it is.
write_under : Request → AuthInfo → String → SectionUpdate → Option FieldSpecs → Handler
unfolding write_section write_normalized
write_under req ai id u none = write_section req ai id (some u.content) u.status
write_under req ai id u (some fields) =
    write_normalized req ai id u.status (normalize_content fields u.content)

update_content : Request → AuthInfo → String → SectionUpdate → Option Section → Handler
unfolding write_under
update_content req ai id u none = refuse 404 "section not found"
update_content req ai id u (some s) = λ db.
    write_under req ai id u (section_type_fields (req.fails 1) ai.tenant_id s.section_type db) db

abbrev pub is_blank : Raw → Bool
is_blank blank = true
is_blank malformed = false
is_blank (parsed v) = false

update_section : Request → AuthInfo → String → SectionUpdate → Handler
unfolding update_content write_section
update_section req ai id u db =
    if is_blank u.content
    then write_section req ai id none u.status db
    else if req.fails 0
    then internal_error db
    else update_content req ai id u (find? (is_section id ai.tenant_id) db.sections) db

unfoldable pub handle_update_section : Request → AuthInfo → String → Option SectionUpdate → Handler
unfolding update_section
handle_update_section req ai id none db = refuse 400 "invalid request body" db
handle_update_section req ai id (some u) db =
    if bad_visibility u.status
    then refuse 400 "status must be visible or hidden" db
    else update_section req ai id u db

unfoldable pub handle_delete_section : Request → AuthInfo → String → Handler
handle_delete_section req ai id db =
    if req.fails 0
    then internal_error db
    else if not (any (is_section id ai.tenant_id) db.sections)
    then refuse 404 "section not found" db
    else reply 200 done (
        record_audit (req.fails 1) req.now ai.tenant_id ai.user_id "section.deleted" "section" id []
          (record db {
            sections = where_rows (λ s. not (is_section id ai.tenant_id s)) db.sections;
          }))

abbrev pub place_section : ℕ → Section → Option ℕ → Section
place_section now s none = s
place_section now s (some n) = record s { sort_order = n; updated_at = now }

unfoldable pub reorder_sections : Request → AuthInfo → String → List String → Handler
reorder_sections req ai page_id ids db =
    if req.fails 0
    then internal_error db
    else reply 200 done (record db {
      sections =
          update_rows (λ s. of_page page_id s && s.tenant_id == ai.tenant_id)
            (λ s. place_section req.now s (position s.id ids)) db.sections;
    })

unfoldable pub handle_reorder_sections :
    Request → AuthInfo → String → Option (List String) → Handler
unfolding reorder_sections
handle_reorder_sections req ai page_id none db = refuse 400 "section_ids is required" db
handle_reorder_sections req ai page_id (some []) db = refuse 400 "section_ids is required" db
handle_reorder_sections req ai page_id (some (id ∷ ids)) db =
    reorder_sections req ai page_id (id ∷ ids) db
