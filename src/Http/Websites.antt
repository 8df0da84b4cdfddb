-- ===== src/Http/Websites.antt =====
-- internal/httpapi/handlers_websites.go: the handlers of websites.
use ai_website_builder.Common.{
  ℕ, String, Bool, ◌&&◌, ◌||◌, ◌==◌, ◌<>◌, Option, none, some, [], ◌∷◌, ◌++◌, find?, any,
  where_rows, update_rows, if◌then◌else◌, coalesce, leb,
}
use ai_website_builder.Common.Sort.{sort_by}
use ai_website_builder.Common.Strings.{trim_space}
use ai_website_builder.Models.Json.{str}
use ai_website_builder.Models.Settings.{WebsiteSettings}
use ai_website_builder.Db.{Website, record_audit}
use ai_website_builder.Http.Tenants.{bad_activity}
use ai_website_builder.Http.Reply.{
  Request, website, websites, AuthInfo, Handler, refuse, internal_error, reply,
}

-- What '{}' decodes to.
abbrev pub empty_settings : WebsiteSettings
empty_settings = record {
  logo_media_id = "";
  primary_color = "";
  contact_phone = "";
  contact_email = "";
  whatsapp_number = "";
  address = "";
  social_links = [];
  footer_text = "";
  seo_title = "";
  seo_description = "";
  github_repo = "";
  cloudflare_project = "";
}

pub record WebsiteRequest : Type 0 where
  pub name : String
  pub domain : String
  pub template_id : String

abbrev pub new_website : Request → AuthInfo → WebsiteRequest → Website
new_website req ai body = record {
  id = req.new_id;
  tenant_id = ai.tenant_id;
  name = trim_space body.name;
  domain = trim_space body.domain;
  template_id = if body.template_id == "" then "business" else body.template_id;
  status = "active";
  settings = empty_settings;
  created_at = req.now;
  updated_at = req.now;
}

unfoldable pub handle_create_website : Request → AuthInfo → Option WebsiteRequest → Handler
handle_create_website req ai none db = refuse 400 "name is required" db
handle_create_website req ai (some body) db =
    if trim_space body.name == ""
    then refuse 400 "name is required" db
    else if req.fails 0 || any (λ w. w.id == req.new_id) db.websites
    then internal_error db
    else (let w = new_website req ai body in
        reply 201 (website w) (
          record_audit (req.fails 1) req.now ai.tenant_id ai.user_id "website.created" "website"
            w.id (("name", str w.name) ∷ []) (record db { websites = db.websites ++ w ∷ [] })))

unfoldable pub handle_list_websites : Request → AuthInfo → Handler
handle_list_websites req ai db =
    if req.fails 0
    then internal_error db
    else reply 200
        (websites (
          sort_by (λ v w. leb v.created_at w.created_at)
            (where_rows (λ w. w.tenant_id == ai.tenant_id) db.websites)))
        db

abbrev pub is_website : String → String → Website → Bool
is_website id tenant w = w.id == id && w.tenant_id == tenant

unfoldable pub found_website : Option Website → Handler
found_website none = refuse 404 "not found"
found_website (some w) = reply 200 (website w)

unfoldable pub handle_get_website : Request → AuthInfo → String → Handler
unfolding found_website
handle_get_website req ai id db =
    if req.fails 0
    then internal_error db
    else found_website (find? (is_website id ai.tenant_id) db.websites) db

pub record WebsiteUpdate : Type 0 where
  pub name : Option String
  pub domain : Option String
  pub template_id : Option String
  pub status : Option String
  pub settings : Option WebsiteSettings

abbrev pub updated_website : ℕ → WebsiteUpdate → Website → Website
updated_website now u w = record w {
  name = coalesce u.name w.name;
  domain = coalesce u.domain w.domain;
  template_id = coalesce u.template_id w.template_id;
  status = coalesce u.status w.status;
  settings = coalesce u.settings w.settings;
  updated_at = now;
}

unfoldable pub save_website : Request → AuthInfo → String → WebsiteUpdate → Option Website → Handler
save_website req ai id u none = refuse 404 "not found"
save_website req ai id u (some w) = λ db. reply 200 (website (updated_website req.now u w)) (
    record_audit (req.fails 1) req.now ai.tenant_id ai.user_id "website.updated" "website" w.id []
      (record db {
        websites = update_rows (is_website id ai.tenant_id) (updated_website req.now u) db.websites;
      }))

-- `why` is the decoder's error; the settings of a decoded body always encode.
unfoldable pub handle_update_website :
    Request → AuthInfo → String → String → Option WebsiteUpdate → Handler
unfolding save_website
handle_update_website req ai id why none db = refuse 400 ("invalid request body: " <> why) db
handle_update_website req ai id why (some u) db =
    if bad_activity u.status
    then refuse 400 "status must be active or disabled" db
    else if req.fails 0
    then internal_error db
    else save_website req ai id u (find? (is_website id ai.tenant_id) db.websites) db
