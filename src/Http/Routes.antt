-- ===== src/Http/Routes.antt =====
-- internal/httpapi/server.go: the routes of pages, sections and block types, each with the least
-- role that may call it.
use ai_website_builder.Common.{◌+◌, String, Option, List, [], ◌∷◌}
use ai_website_builder.Models.Roles.{viewer, editor, tenant_admin}
use ai_website_builder.Db.{Db}
use ai_website_builder.Http.Reply.{Request, AuthInfo, Handler}
use ai_website_builder.Http.Access.{Claims, tenant_route}
use ai_website_builder.Http.Pages.{
  PageRequest, PageUpdate, handle_list_pages, handle_create_page, handle_update_page,
  handle_delete_page, handle_reorder_pages,
}
use ai_website_builder.Http.SectionTypes.{
  SectionTypeRequest, handle_list_section_types, handle_create_section_type,
  handle_update_section_type, handle_archive_section_type,
}
use ai_website_builder.Http.Sections.{
  SectionRequest, SectionUpdate, handle_list_sections, handle_create_section, handle_update_section,
  handle_delete_section, handle_reorder_sections,
}

-- A route with its path values and its decoded body; `none` is a body that does not decode.
pub data Route : Type 0 where
  list_section_types : Route
  create_section_type : Option SectionTypeRequest → Route
  update_section_type : String → Option SectionTypeRequest → Route
  archive_section_type : String → Route
  list_pages : String → Route
  create_page : String → Option PageRequest → Route
  order_pages : String → Option (List String) → Route
  update_page : String → Option PageUpdate → Route
  delete_page : String → Route
  list_sections : String → Route
  create_section : String → Option SectionRequest → Route
  order_sections : String → Option (List String) → Route
  update_section : String → Option SectionUpdate → Route
  delete_section : String → Route

unfoldable pub min_role : Route → String
min_role list_section_types = viewer
min_role (create_section_type body) = tenant_admin
min_role (update_section_type id body) = tenant_admin
min_role (archive_section_type id) = tenant_admin
min_role (list_pages website) = viewer
min_role (create_page website body) = editor
min_role (order_pages website body) = editor
min_role (update_page id body) = editor
min_role (delete_page id) = editor
min_role (list_sections page) = viewer
min_role (create_section page body) = editor
min_role (order_sections page body) = editor
min_role (update_section id body) = editor
min_role (delete_section id) = editor

unfoldable pub handler : Request → Route → AuthInfo → Handler
handler req list_section_types ai = handle_list_section_types req ai
handler req (create_section_type body) ai = handle_create_section_type req ai body
handler req (update_section_type id body) ai = handle_update_section_type req ai id body
handler req (archive_section_type id) ai = handle_archive_section_type req ai id
handler req (list_pages website) ai = handle_list_pages req ai website
handler req (create_page website body) ai = handle_create_page req ai website body
handler req (order_pages website body) ai = handle_reorder_pages req ai website body
handler req (update_page id body) ai = handle_update_page req ai id body
handler req (delete_page id) ai = handle_delete_page req ai id
handler req (list_sections page) ai = handle_list_sections req ai page
handler req (create_section page body) ai = handle_create_section req ai page body
handler req (order_sections page body) ai = handle_reorder_sections req ai page body
handler req (update_section id body) ai = handle_update_section req ai id body
handler req (delete_section id) ai = handle_delete_section req ai id

-- The handler's own database calls come after the three of the middleware.
abbrev pub past_middleware : Request → Request
past_middleware req = record req { fails = λ n. req.fails (n + 3) }

unfoldable pub serve : (String → Option Claims) → Request → Route → Handler
serve parse req route =
    tenant_route parse (min_role route) req (handler (past_middleware req) route)

-- Requests one after another, each on the tables that the one before it left.
unfoldable pub serve_all : (String → Option Claims) → List (Request × Route) → Db → Db
serve_all parse [] db = db
serve_all parse ((req, route) ∷ rest) db = serve_all parse rest (serve parse req route db).1
