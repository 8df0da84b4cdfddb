-- ===== src/Http/Staff/Tests.antt =====
-- Requests to the routes of tenants, users and websites on the small database.
use ai_website_builder.Common.{
  String, ◌<>◌, Bool, true, false, ◌==◌, ◌≡◌, refl, Option, none, some, List, [], ◌∷◌, arith, find?,
  ap, subst, sym, ◌∙◌, ap, subst, sym, ◌∙◌,
}
use ai_website_builder.Common.Strings.{cut_prefix, trim_space}
use ai_website_builder.Models.Roles.{valid_role, viewer, tenant_admin}
use ai_website_builder.Db.{Db, User, TenantUser, record_audit}
use ai_website_builder.Auth.{Crypto}
use ai_website_builder.Http.Text.{valid_email}
use ai_website_builder.Http.Reply.{Request, AuthInfo, Handler, reply, done, invited}
use ai_website_builder.Http.Access.{Claims, tenant_route, membership}
use ai_website_builder.Http.Access.Grants.{IsRefused, IsCaller}
use ai_website_builder.Http.Fixtures.{small_db, small_db-IsSound, eve, eve_edits}
use ai_website_builder.Http.Invariant.{IsSound}
use ai_website_builder.Http.Members.{
  handle_remove_tenant_user, handle_invite_user, InviteRequest, Draw,
}
use ai_website_builder.Http.Tenants.{TenantUpdate, handle_update_tenant}
use ai_website_builder.Http.AdminRoutes.{
  create_tenant, invite_user, remove_user, create_website, serve_office,
}
use ai_website_builder.Http.Routes.{delete_page}
use ai_website_builder.Http.Staff.{IsStaffed}
use ai_website_builder.Http.Staff.Keeps.{IsLocal}
use ai_website_builder.Http.Staff.Invited.{
  Invitee, handle_invite_user-membership, handle_remove_tenant_user-IsRefused,
}
use ai_website_builder.Http.Staff.Closed.{handle_update_tenant-closed}
use ai_website_builder.Http.Staff.Run.{
  AnyRoute, content, office, platform, IsWell, serve_requests, serve_requests-IsWell,
  serve_office-IsLocal,
}

abbrev plain : Crypto
plain = record {
  hash_token = λ t. t;
  check_password = λ hash pw. hash == pw;
  hash_password = λ salt pw. some pw;
  sign = λ s. some s.user_id;
  sql_lower = λ s. s;
  sql_le = λ a b. true;
}

-- The small database with an admin of the tenant, and one of the platform.
abbrev ada : User
ada = record eve { id = "u2"; email = "ada@x.org" }

abbrev root : User
root = record eve { id = "u3"; email = "root@x.org"; is_platform_admin = true }

abbrev ada_leads : TenantUser
ada_leads = record eve_edits { id = "m2"; user_id = "u2"; role = tenant_admin }

abbrev db : Db
db = record small_db { users = eve ∷ ada ∷ root ∷ []; tenant_users = eve_edits ∷ ada_leads ∷ [] }

db-IsStaffed : IsStaffed db
unfolding valid_role
db-IsStaffed = record {
  tenant_ids = (tt, tt);
  tenant_states = (refl, tt);
  user_keys = ((refl, (refl, tt)), ((refl, tt), (tt, tt)));
  member_ids = ((refl, tt), (tt, tt));
  member_keys = ((refl, tt), (tt, tt));
  member_roles = (refl, (refl, tt));
  website_ids = (tt, tt);
  website_states = (refl, tt);
}

db-IsSound : IsSound db
db-IsSound = record {
  page_ids = small_db-IsSound.page_ids;
  page_slugs = small_db-IsSound.page_slugs;
  valid_slugs = small_db-IsSound.valid_slugs;
  type_ids = small_db-IsSound.type_ids;
  type_keys = small_db-IsSound.type_keys;
  schemas = small_db-IsSound.schemas;
  typed = small_db-IsSound.typed;
  housed = small_db-IsSound.housed;
}

abbrev parse_id : String → Option Claims
parse_id token = some (record { user_id = token; is_platform_admin = false })

abbrev from : String → String → Request
from user new_id = record {
  authorization = "Bearer " <> user;
  tenant = "t1";
  now = 50;
  new_id = new_id;
  fails = λ n. false;
}

abbrev draw : Draw
draw = record { user_id = "u9"; random = some "secret"; salt = "" }

abbrev bob : InviteRequest
bob = record { name = "Bob"; email = " bob@x.org"; role = viewer }

abbrev requests : List (Request × AnyRoute)
requests =
    (from "u2" "m9", office (invite_user draw (some bob)))
    ∷ (from "u3" "t5", platform (create_tenant (λ n. "st") (some "Next")))
    ∷ (
      from "u2" "w5",
      office (create_website (some (record { name = "Shop"; domain = ""; template_id = "" }))),
    )
    ∷ (from "u1" "x", content (delete_page "p2"))
    ∷ (from "u2" "x", office (remove_user "u1"))
    ∷ []

serve_requests-IsWell_example : IsWell (serve_requests plain (λ s. s) parse_id requests db)
serve_requests-IsWell_example =
    serve_requests-IsWell plain (λ s. s) parse_id requests db (db-IsSound, db-IsStaffed)

serve_office-IsLocal_example :
    IsLocal "t1" db (serve_office plain (λ s. s) parse_id (from "u2" "x") (remove_user "u1") db).1
serve_office-IsLocal_example =
    serve_office-IsLocal plain (λ s. s) parse_id (from "u2" "x") (remove_user "u1") db

abbrev ada_in : AuthInfo
ada_in = record { user_id = "u2"; is_platform_admin = false; tenant_id = "t1"; role = tenant_admin }

handle_invite_user-membership_example :
    let out = handle_invite_user plain (λ s. s) (from "u2" "m9") ada_in draw (some bob) db in
    (u : User) × (password : String) × (m : TenantUser) × Invitee plain draw "bob@x.org" db.users
      out.1.users u password
    × (out.0.body ≡ invited m password)
    × (membership out.1 "t1" u.id ≡ some m)
    × (m.role ≡ viewer)
unfolding handle_invite_user valid_email valid_role trim_space
handle_invite_user-membership_example =
    handle_invite_user-membership plain (λ s. s) (from "u2" "m9") ada_in draw bob db refl

abbrev answers_done : AuthInfo → Handler
answers_done ai = reply 200 done

-- A caller with eve's token is eve, in tables with her account.
eves :
    (after : Db) (id : String) (admin : Bool)
    → after.users ≡ db.users
    → IsCaller parse_id (from "u1" "x") after id admin
    → (id ≡ "u1") × (admin ≡ false)
unfolding cut_prefix
eves after id admin same c =
    let token : "u1" ≡ c.token = ground (arith, c.bearer) in
    let claims : c.claims.user_id ≡ c.token = ground (arith, c.parsed) in
    let known : find? (λ u. u.id == "u1") db.users ≡ some c.user =
      subst (λ us. find? (λ u. u.id == "u1") us ≡ some c.user) same
        (subst (λ id. find? (λ u. u.id == id) after.users ≡ some c.user) (claims ∙ sym token)
          c.known) in
    (c.same_id ∙ claims ∙ sym token, c.same_flag ∙ sym (ap (λ o. flag o) known))
  where
    flag : Option User → Bool
    flag none = false
    flag (some u) = u.is_platform_admin

handle_remove_tenant_user-IsRefused_example :
    let after = (handle_remove_tenant_user (from "u2" "x") ada_in "u1" db).1 in
    IsRefused after (tenant_route parse_id viewer (from "u1" "x") answers_done after)
unfolding handle_remove_tenant_user record_audit
handle_remove_tenant_user-IsRefused_example =
    handle_remove_tenant_user-IsRefused (from "u2" "x") (from "u1" "x") ada_in "u1" viewer parse_id
      answers_done db refl refl (λ id admin c. eves _ id admin refl c)

abbrev off : TenantUpdate
off = record { name = none; status = some "disabled" }

abbrev root_in : AuthInfo
root_in = record { user_id = "u3"; is_platform_admin = true; tenant_id = ""; role = "" }

handle_update_tenant-closed_example :
    let after = (handle_update_tenant (from "u3" "x") root_in "t1" (some off) db).1 in
    IsRefused after (tenant_route parse_id viewer (from "u1" "x") answers_done after)
unfolding handle_update_tenant record_audit
handle_update_tenant-closed_example =
    handle_update_tenant-closed (from "u3" "x") (from "u1" "x") root_in "t1" viewer off parse_id
      answers_done db refl refl refl (λ id admin c. (eves _ id admin refl c).1)
