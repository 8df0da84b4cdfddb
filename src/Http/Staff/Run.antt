-- ===== src/Http/Staff/Run.antt =====
-- Requests to all modelled routes of internal/httpapi, one after another.
use ai_website_builder.Common.{String, Option, ap, sym, subst, inl, inr, List, [], ◌∷◌}
use ai_website_builder.Db.{Db}
use ai_website_builder.Auth.{Crypto}
use ai_website_builder.Http.Reply.{Request, Response, AuthInfo}
use ai_website_builder.Http.Access.{Claims}
use ai_website_builder.Http.Access.Grants.{tenant_route_sound, require_platform_admin_sound}
use ai_website_builder.Http.Routes.{Route, serve, past_middleware}
use ai_website_builder.Http.AdminRoutes.{
  PlatformRoute, OfficeRoute, platform_handler, office_handler, office_role, past_auth,
  serve_platform, serve_office, create_tenant, list_tenants, update_tenant, get_tenant, list_users,
  invite_user, update_user, remove_user, create_website, list_websites, get_website, update_website,
}
use ai_website_builder.Http.Invariant.{IsSound}
use ai_website_builder.Http.Invariant.Run.{serve-IsSound}
use ai_website_builder.Http.Isolation.Run.{serve-IsIsolated}
use ai_website_builder.Http.Staff.{IsStaffed, Change}
use ai_website_builder.Http.Staff.Keeps.{
  Change-IsSound, Change-IsStaffed, Change-IsLocal, IsLocal, same-IsStaffed,
}
use ai_website_builder.Http.Staff.Handlers.{
  Does, still, create_tenant-Does, update_tenant-Does, get_tenant-Does, list_tenants-Does,
}
use ai_website_builder.Http.Staff.Desk.{
  invite_user_route-Does, list_users-Does, update_user-Does, remove_user-Does,
}
use ai_website_builder.Http.Staff.Sites.{
  create_website-Does, list_websites-Does, get_website-Does, update_website-Does,
}

platform_handler-Does :
    (tenant : String) (req : Request) (route : PlatformRoute) (ai : AuthInfo) (db : Db)
    → Does tenant db (platform_handler req route ai db)
unfolding platform_handler
platform_handler-Does tenant req (create_tenant ids body) ai db =
    create_tenant-Does tenant req ai db ids body
platform_handler-Does tenant req list_tenants ai db = list_tenants-Does tenant req ai db
platform_handler-Does tenant req (update_tenant id body) ai db =
    update_tenant-Does tenant req ai db id body

serve_platform-Change :
    (tenant : String) (parse : String → Option Claims) (req : Request) (route : PlatformRoute)
    (db : Db)
    → Change tenant db (serve_platform parse req route db).1
unfolding serve_platform
serve_platform-Change tenant parse req route db =
    elim (require_platform_admin_sound parse req (platform_handler (past_auth req) route) db) [
      | inl (status, same) ↦ subst (Change tenant db) (sym same) (still tenant db)
      | inr (ai, caller, e) ↦
          subst (Change tenant db) (sym (ap (λ (out : Response × Db). out.1) e))
            (platform_handler-Does tenant (past_auth req) route ai db).changed
    ]

-- The two invariants of the tables together.
abbrev pub IsWell : Db → Type 0
IsWell db = IsSound db × IsStaffed db

-- A request to any of the modelled routes.
pub data AnyRoute : Type 0 where
  content : Route → AnyRoute
  office : OfficeRoute → AnyRoute
  platform : PlatformRoute → AnyRoute

module _ (c : Crypto) (to_lower : String → String) where
  office_handler-Does :
      (req : Request) (route : OfficeRoute) (ai : AuthInfo) (db : Db)
      → Does ai.tenant_id db (office_handler c to_lower req route ai db)
  unfolding office_handler
  office_handler-Does req get_tenant ai db = get_tenant-Does ai.tenant_id req ai db
  office_handler-Does req list_users ai db = list_users-Does req ai db
  office_handler-Does req (invite_user d body) ai db =
      invite_user_route-Does req ai db c to_lower d body
  office_handler-Does req (update_user user body) ai db = update_user-Does req ai db user body
  office_handler-Does req (remove_user user) ai db = remove_user-Does req ai db user
  office_handler-Does req (create_website body) ai db = create_website-Does req ai db body
  office_handler-Does req list_websites ai db = list_websites-Does req ai db
  office_handler-Does req (get_website id) ai db = get_website-Does req ai db id
  office_handler-Does req (update_website id why body) ai db =
      update_website-Does req ai db id why body

  serve_office-Change :
      (parse : String → Option Claims) (req : Request) (route : OfficeRoute) (db : Db)
      → Change req.tenant db (serve_office c to_lower parse req route db).1
  unfolding serve_office
  serve_office-Change parse req route db =
      let handler = office_handler c to_lower (past_middleware req) route in
      elim (tenant_route_sound parse (office_role route) req handler db) [
        | inl (status, same) ↦ subst (Change req.tenant db) (sym same) (still req.tenant db)
        | inr (ai, can, e) ↦
            subst (Change req.tenant db) (sym (ap (λ (out : Response × Db). out.1) e)) (
              subst (λ tenant. Change tenant db (handler ai db).1) can.this_tenant
                (office_handler-Does (past_middleware req) route ai db).changed)
      ]

  -- A request to a tenant's routes of users and websites leaves the memberships and websites of
  -- all other tenants as they were, and every account that there was; it may only add accounts.
  pub serve_office-IsLocal :
      (parse : String → Option Claims) (req : Request) (route : OfficeRoute) (db : Db)
      → IsLocal req.tenant db (serve_office c to_lower parse req route db).1
  serve_office-IsLocal parse req route db = Change-IsLocal (serve_office-Change parse req route db)

  unfoldable pub serve_any : (String → Option Claims) → Request → AnyRoute → Db → Response × Db
  serve_any parse req (content route) db = serve parse req route db
  serve_any parse req (office route) db = serve_office c to_lower parse req route db
  serve_any parse req (platform route) db = serve_platform parse req route db

  unfoldable pub serve_requests : (String → Option Claims) → List (Request × AnyRoute) → Db → Db
  unfolding serve_any
  serve_requests parse [] db = db
  serve_requests parse ((req, route) ∷ rest) db =
      serve_requests parse rest (serve_any parse req route db).1

  serve_any-IsWell :
      (parse : String → Option Claims) (req : Request) (route : AnyRoute) (db : Db)
      → IsWell db
      → IsWell (serve_any parse req route db).1
  unfolding serve_any
  serve_any-IsWell parse req (content route) db (sound, staffed) =
      let iso = serve-IsIsolated parse req route db sound in
      (
        serve-IsSound parse req route db sound,
        same-IsStaffed
            (record {
              tenants = iso.tenants;
              users = iso.users;
              tenant_users = iso.tenant_users;
              websites = iso.websites;
            })
            staffed,
      )
  serve_any-IsWell parse req (office route) db (sound, staffed) =
      let c = serve_office-Change parse req route db in
      (Change-IsSound c sound, Change-IsStaffed c staffed)
  serve_any-IsWell parse req (platform route) db (sound, staffed) =
      let c = serve_platform-Change "" parse req route db in
      (Change-IsSound c sound, Change-IsStaffed c staffed)

  -- From tables that keep their rules, any sequence of requests to the routes of tenants, users,
  -- websites, pages, sections and block types, whoever sends them and whichever of their database
  -- calls fail, leaves tables that keep them: besides those of pages, sections and block types,
  -- the ids of tenants, users, memberships and websites are unique, no two accounts have one
  -- email, no user has two memberships in a tenant, every role is one of the three, and every
  -- tenant and website is active or disabled.
  pub serve_requests-IsWell :
      (parse : String → Option Claims) (requests : List (Request × AnyRoute)) (db : Db)
      → IsWell db
      → IsWell (serve_requests parse requests db)
  unfolding serve_requests
  serve_requests-IsWell parse [] db h = h
  serve_requests-IsWell parse ((req, route) ∷ rest) db h =
      serve_requests-IsWell parse rest _ (serve_any-IsWell parse req route db h)
