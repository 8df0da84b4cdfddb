-- ===== src/Http/Isolation/Run.antt =====
-- No request reaches the rows of another tenant.
use ai_website_builder.Common.{
  String, Bool, true, false, ap, sym, subst, inl, inr, Option, if◌then◌else◌,
}
use ai_website_builder.Db.{Db}
use ai_website_builder.Http.Reply.{Request, Response, AuthInfo}
use ai_website_builder.Http.Access.{Claims}
use ai_website_builder.Http.Access.Grants.{tenant_route_sound}
use ai_website_builder.Http.Pages.{handle_list_pages}
use ai_website_builder.Http.Sections.{handle_list_sections}
use ai_website_builder.Http.SectionTypes.{handle_list_section_types}
use ai_website_builder.Http.Routes.{
  Route, min_role, handler, past_middleware, serve, list_section_types, create_section_type,
  update_section_type, archive_section_type, list_pages, create_page, order_pages, update_page,
  delete_page, list_sections, create_section, order_sections, update_section, delete_section,
}
use ai_website_builder.Http.Invariant.{IsSound}
use ai_website_builder.Http.Isolation.{IsIsolated, same-IsIsolated, unchanged}
use ai_website_builder.Http.Isolation.Pages.{
  create_page-IsIsolated, update_page-IsIsolated, delete_page-IsIsolated, reorder_pages-IsIsolated,
  create_section_type-IsIsolated, update_section_type-IsIsolated, archive_section_type-IsIsolated,
}
use ai_website_builder.Http.Isolation.Sections.{
  create_section-IsIsolated, update_section-IsIsolated, delete_section-IsIsolated,
  reorder_sections-IsIsolated,
}

if-IsIsolated :
    (tenant : String) (db : Db) (b : Bool) (m n : Response × Db)
    → IsIsolated tenant db m.1
    → IsIsolated tenant db n.1
    → IsIsolated tenant db (if b then m else n).1
if-IsIsolated tenant db true m n h k = h
if-IsIsolated tenant db false m n h k = k

handler-IsIsolated :
    (req : Request) (route : Route) (ai : AuthInfo) (db : Db)
    → IsSound db
    → IsIsolated ai.tenant_id db (handler req route ai db).1
unfolding handler handle_list_section_types handle_list_pages handle_list_sections
handler-IsIsolated req list_section_types ai db h =
    if-IsIsolated ai.tenant_id db (req.fails 0) _ _ (same-IsIsolated ai.tenant_id db)
      (same-IsIsolated ai.tenant_id db)
handler-IsIsolated req (create_section_type body) ai db h =
    create_section_type-IsIsolated req ai db h body
handler-IsIsolated req (update_section_type id body) ai db h =
    update_section_type-IsIsolated req ai db h id body
handler-IsIsolated req (archive_section_type id) ai db h =
    archive_section_type-IsIsolated req ai db h id
handler-IsIsolated req (list_pages website) ai db h =
    if-IsIsolated ai.tenant_id db (req.fails 0) _ _ (same-IsIsolated ai.tenant_id db)
      (same-IsIsolated ai.tenant_id db)
handler-IsIsolated req (create_page website body) ai db h =
    create_page-IsIsolated req ai db h website body
handler-IsIsolated req (order_pages website body) ai db h =
    reorder_pages-IsIsolated req ai db h website body
handler-IsIsolated req (update_page id body) ai db h = update_page-IsIsolated req ai db h id body
handler-IsIsolated req (delete_page id) ai db h = delete_page-IsIsolated req ai db h id
handler-IsIsolated req (list_sections page) ai db h =
    if-IsIsolated ai.tenant_id db (req.fails 0) _ _ (same-IsIsolated ai.tenant_id db)
      (same-IsIsolated ai.tenant_id db)
handler-IsIsolated req (create_section page body) ai db h =
    create_section-IsIsolated req ai db h page body
handler-IsIsolated req (order_sections page body) ai db h =
    reorder_sections-IsIsolated req ai db h page body
handler-IsIsolated req (update_section id body) ai db h =
    update_section-IsIsolated req ai db h id body
handler-IsIsolated req (delete_section id) ai db h = delete_section-IsIsolated req ai db h id

-- On sound tables, a request to a tenant's routes of pages, sections and block types leaves every
-- page, section and block type of all other tenants as it was, and the tables of tenants, users,
-- members, websites, media, snapshots and deployments entirely, whoever sends it and whichever ids it names.
pub serve-IsIsolated :
    (parse : String → Option Claims) (req : Request) (route : Route) (db : Db)
    → IsSound db
    → IsIsolated req.tenant db (serve parse req route db).1
unfolding serve
serve-IsIsolated parse req route db h =
    elim (tenant_route_sound parse (min_role route) req (handler (past_middleware req) route) db) [
      | inl (status, same) ↦ unchanged req.tenant db _ same
      | inr (ai, can, e) ↦
          subst (λ tenant. IsIsolated tenant db (serve parse req route db).1) can.this_tenant
            (subst (IsIsolated ai.tenant_id db) (sym (ap (λ out. out.1) e))
              (handler-IsIsolated (past_middleware req) route ai db h))
    ]
