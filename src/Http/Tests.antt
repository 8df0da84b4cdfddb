-- ===== src/Http/Tests.antt =====
-- Requests to internal/httpapi on a small database.
use ai_website_builder.Common.{
  ◌≡◌, refl, String, false, ◌==◌, Option, none, some, List, [], ◌∷◌, if◌then◌else◌,
}
use ai_website_builder.Common.Strings.{cut_prefix}
use ai_website_builder.Models.Json.{blank}
use ai_website_builder.Models.Roles.{role_at_least, viewer, editor, tenant_admin}
use ai_website_builder.Http.Reply.{Request, AuthInfo, Handler, reply, done}
use ai_website_builder.Http.Access.{Claims, tenant_route}
use ai_website_builder.Http.Access.Grants.{
  CanEnter, LetsIn, as_member, tenant_route_sound, tenant_route_complete,
}
use ai_website_builder.Http.Routes.{
  Route, serve, serve_all, create_page, create_section, update_page, archive_section_type,
  delete_page,
}
use ai_website_builder.Http.Fixtures.{small_db, small_db-IsSound, eve, acme, eve_edits}
use ai_website_builder.Http.Invariant.{IsSound}
use ai_website_builder.Http.Isolation.{IsIsolated}
use ai_website_builder.Http.Isolation.Run.{serve-IsIsolated}
use ai_website_builder.Http.Invariant.Run.{serve_all-IsSound}

-- A token that is the user's id.
abbrev parse_id : String → Option Claims
parse_id token =
    if token == "bad" then none else some (record { user_id = token; is_platform_admin = false })

abbrev from_eve : String → Request
from_eve new_id = record {
  authorization = "Bearer u1";
  tenant = "t1";
  now = 50;
  new_id = new_id;
  fails = λ n. false;
}

abbrev answers_done : AuthInfo → Handler
answers_done ai = reply 200 done

abbrev eve_in : AuthInfo
eve_in = record { user_id = "u1"; is_platform_admin = false; tenant_id = "t1"; role = editor }

eve-CanEnter : CanEnter parse_id viewer (from_eve "n") small_db eve_in
unfolding cut_prefix role_at_least
eve-CanEnter = record {
  caller = record {
    token = "u1";
    bearer = refl;
    present = refl;
    claims = record { user_id = "u1"; is_platform_admin = false };
    parsed = refl;
    user = eve;
    known = refl;
    active = refl;
    same_id = refl;
    same_flag = refl;
  };
  this_tenant = refl;
  grants = as_member acme eve_edits refl refl refl refl refl;
  enough = refl;
}

tenant_route_sound_example :
    LetsIn parse_id tenant_admin
      (from_eve "n")
      answers_done
      small_db
      (tenant_route parse_id tenant_admin (from_eve "n") answers_done small_db)
tenant_route_sound_example =
    tenant_route_sound parse_id tenant_admin (from_eve "n") answers_done small_db

tenant_route_complete_example :
    tenant_route parse_id viewer (from_eve "n") answers_done small_db ≡ answers_done eve_in small_db
tenant_route_complete_example =
    tenant_route_complete parse_id viewer (from_eve "n") answers_done small_db eve_in (λ n. refl)
      eve-CanEnter

-- A new page, a slug that is taken, a section under an unknown type, a type that is in use.
abbrev requests : List (Request × Route)
requests =
    (
      from_eve "p3",
      create_page "w1"
          (some (record { title = " Menu "; slug = "menu"; seo_title = ""; seo_description = "" })),
    )
    ∷ (
      from_eve "x",
      update_page "p3" (
          some (record {
            title = none;
            slug = some "home";
            status = none;
            seo_title = none;
            seo_description = none;
          })),
    )
    ∷ (from_eve "s2", create_section "p3" (some (record { section_type = "faq"; content = blank })))
    ∷ (
      from_eve "s3",
      create_section "p3" (some (record { section_type = "hero"; content = blank })),
    )
    ∷ (from_eve "x", archive_section_type "st1")
    ∷ (from_eve "x", delete_page "p2")
    ∷ []

serve_all-IsSound_example : IsSound (serve_all parse_id requests small_db)
serve_all-IsSound_example = serve_all-IsSound parse_id requests small_db small_db-IsSound

serve-IsIsolated_example :
    IsIsolated "t1" small_db (serve parse_id (from_eve "x") (delete_page "p1") small_db).1
serve-IsIsolated_example =
    serve-IsIsolated parse_id (from_eve "x") (delete_page "p1") small_db small_db-IsSound
