-- ===== src/Http/AdminRoutes.antt =====
-- internal/httpapi/server.go: the routes of tenants, their users and their websites.
use ai_website_builder.Common.{ℕ, ◌+◌, String, Option}
use ai_website_builder.Models.Roles.{viewer, tenant_admin}
use ai_website_builder.Auth.{Crypto}
use ai_website_builder.Http.Reply.{Request, AuthInfo, Handler}
use ai_website_builder.Http.Access.{Claims, require_platform_admin, tenant_route}
use ai_website_builder.Http.Tenants.{
  TenantUpdate, handle_create_tenant, handle_list_tenants, handle_update_tenant, handle_get_tenant,
}
use ai_website_builder.Http.Members.{
  InviteRequest, Draw, handle_list_tenant_users, handle_invite_user, handle_update_tenant_user,
  handle_remove_tenant_user,
}
use ai_website_builder.Http.Websites.{
  WebsiteRequest, WebsiteUpdate, handle_create_website, handle_list_websites, handle_get_website,
  handle_update_website,
}
use ai_website_builder.Http.Routes.{past_middleware}

-- The routes for platform admins; `create_tenant` has the ids of the block types that it seeds.
pub data PlatformRoute : Type 0 where
  create_tenant : (ℕ → String) → Option String → PlatformRoute
  list_tenants : PlatformRoute
  update_tenant : String → Option TenantUpdate → PlatformRoute

-- The routes of one tenant.
pub data OfficeRoute : Type 0 where
  get_tenant : OfficeRoute
  list_users : OfficeRoute
  invite_user : Draw → Option InviteRequest → OfficeRoute
  update_user : String → Option String → OfficeRoute
  remove_user : String → OfficeRoute
  create_website : Option WebsiteRequest → OfficeRoute
  list_websites : OfficeRoute
  get_website : String → OfficeRoute
  update_website : String → String → Option WebsiteUpdate → OfficeRoute

unfoldable pub office_role : OfficeRoute → String
office_role get_tenant = viewer
office_role list_users = tenant_admin
office_role (invite_user d body) = tenant_admin
office_role (update_user user body) = tenant_admin
office_role (remove_user user) = tenant_admin
office_role (create_website body) = tenant_admin
office_role list_websites = viewer
office_role (get_website id) = viewer
office_role (update_website id why body) = tenant_admin

unfoldable pub platform_handler : Request → PlatformRoute → AuthInfo → Handler
platform_handler req (create_tenant ids body) ai = handle_create_tenant req ids ai body
platform_handler req list_tenants ai = handle_list_tenants req ai
platform_handler req (update_tenant id body) ai = handle_update_tenant req ai id body

-- Past the one database call of requireAuth.
abbrev pub past_auth : Request → Request
past_auth req = record req { fails = λ n. req.fails (n + 1) }

unfoldable pub serve_platform : (String → Option Claims) → Request → PlatformRoute → Handler
serve_platform parse req route =
    require_platform_admin parse req (platform_handler (past_auth req) route)

module _ (c : Crypto) (to_lower : String → String) where
  unfoldable pub office_handler : Request → OfficeRoute → AuthInfo → Handler
  office_handler req get_tenant ai = handle_get_tenant req ai
  office_handler req list_users ai = handle_list_tenant_users req ai
  office_handler req (invite_user d body) ai = handle_invite_user c to_lower req ai d body
  office_handler req (update_user user body) ai = handle_update_tenant_user req ai user body
  office_handler req (remove_user user) ai = handle_remove_tenant_user req ai user
  office_handler req (create_website body) ai = handle_create_website req ai body
  office_handler req list_websites ai = handle_list_websites req ai
  office_handler req (get_website id) ai = handle_get_website req ai id
  office_handler req (update_website id why body) ai = handle_update_website req ai id why body

  unfoldable pub serve_office : (String → Option Claims) → Request → OfficeRoute → Handler
  serve_office parse req route =
      tenant_route parse (office_role route) req (office_handler (past_middleware req) route)
