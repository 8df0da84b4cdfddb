-- ===== src/Http/Invariant/Run.antt =====
-- Whatever requests come in, the tables stay sound.
use ai_website_builder.Common.{String, Option, List, [], ◌∷◌, ap, sym, subst, inl, inr}
use ai_website_builder.Db.{Db}
use ai_website_builder.Http.Reply.{Request, AuthInfo}
use ai_website_builder.Http.Access.{Claims}
use ai_website_builder.Http.Access.Grants.{tenant_route_sound}
use ai_website_builder.Http.Pages.{handle_list_pages}
use ai_website_builder.Http.Sections.{handle_list_sections}
use ai_website_builder.Http.SectionTypes.{handle_list_section_types}
use ai_website_builder.Http.Routes.{
  Route, min_role, handler, past_middleware, serve, serve_all, list_section_types,
  create_section_type, update_section_type, archive_section_type, list_pages, create_page,
  order_pages, update_page, delete_page, list_sections, create_section, order_sections,
  update_section, delete_section,
}
use ai_website_builder.Http.Invariant.{IsSound, if-IsSound}
use ai_website_builder.Http.Invariant.Pages.{create_page-IsSound, update_page-IsSound}
use ai_website_builder.Http.Invariant.PageOrder.{delete_page-IsSound, reorder_pages-IsSound}
use ai_website_builder.Http.Invariant.Sections.{
  create_section-IsSound, delete_section-IsSound, reorder_sections-IsSound,
}
use ai_website_builder.Http.Invariant.SectionTypes.{
  create_section_type-IsSound, update_section_type-IsSound,
}
use ai_website_builder.Http.Invariant.Archive.{archive_section_type-IsSound}
use ai_website_builder.Http.Invariant.SectionUpdate.{update_section-IsSound}

handler-IsSound :
    (req : Request) (route : Route) (ai : AuthInfo) (db : Db)
    → IsSound db
    → IsSound (handler req route ai db).1
unfolding handler handle_list_section_types handle_list_pages handle_list_sections
handler-IsSound req list_section_types ai db h = if-IsSound (req.fails 0) _ _ (λ e. h) (λ e. h)
handler-IsSound req (create_section_type body) ai db h =
    create_section_type-IsSound req ai db h body
handler-IsSound req (update_section_type id body) ai db h =
    update_section_type-IsSound req ai db h id body
handler-IsSound req (archive_section_type id) ai db h = archive_section_type-IsSound req ai db h id
handler-IsSound req (list_pages website) ai db h = if-IsSound (req.fails 0) _ _ (λ e. h) (λ e. h)
handler-IsSound req (create_page website body) ai db h =
    create_page-IsSound req ai db h website body
handler-IsSound req (order_pages website body) ai db h =
    reorder_pages-IsSound req ai db h website body
handler-IsSound req (update_page id body) ai db h = update_page-IsSound req ai db h id body
handler-IsSound req (delete_page id) ai db h = delete_page-IsSound req ai db h id
handler-IsSound req (list_sections page) ai db h = if-IsSound (req.fails 0) _ _ (λ e. h) (λ e. h)
handler-IsSound req (create_section page body) ai db h =
    create_section-IsSound req ai db h page body
handler-IsSound req (order_sections page body) ai db h =
    reorder_sections-IsSound req ai db h page body
handler-IsSound req (update_section id body) ai db h = update_section-IsSound req ai db h id body
handler-IsSound req (delete_section id) ai db h = delete_section-IsSound req ai db h id

pub serve-IsSound :
    (parse : String → Option Claims) (req : Request) (route : Route) (db : Db)
    → IsSound db
    → IsSound (serve parse req route db).1
unfolding serve
serve-IsSound parse req route db h =
    elim (tenant_route_sound parse (min_role route) req (handler (past_middleware req) route) db) [
      | inl (status, same) ↦ subst IsSound (sym same) h
      | inr (ai, can, e) ↦
          subst IsSound (sym (ap (λ out. out.1) e))
            (handler-IsSound (past_middleware req) route ai db h)
    ]

-- From sound tables, any sequence of requests to the routes of pages, sections and block types,
-- whoever sends them and whichever of their database calls fail, leaves sound tables: ids are
-- unique, slugs valid and unique in their website, type keys unique in their tenant, every schema
-- passes ValidateSchema, and every section has an active block type and a page of its tenant.
pub serve_all-IsSound :
    (parse : String → Option Claims) (requests : List (Request × Route)) (db : Db)
    → IsSound db
    → IsSound (serve_all parse requests db)
unfolding serve_all
serve_all-IsSound parse [] db h = h
serve_all-IsSound parse ((req, route) ∷ rest) db h =
    serve_all-IsSound parse rest _ (serve-IsSound parse req route db h)
