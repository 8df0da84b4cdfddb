-- ===== src/Http/Fixtures.antt =====
-- A small database of two tenants, for trying out the handlers of internal/httpapi.
use ai_website_builder.Common.{refl, String, false, [], ◌∷◌}
use ai_website_builder.Models.Json.{obj, end, parsed}
use ai_website_builder.Models.Schema
use ai_website_builder.Models.Schema.{FieldSpec, FieldSpecs, spec, validate_schema}
use ai_website_builder.Models.Roles.{editor}
use ai_website_builder.Db.{Db, Tenant, User, TenantUser, Website, Page, Section, SectionType}
use ai_website_builder.Models.Settings.{WebsiteSettings}
use ai_website_builder.Http.Text.{valid_slug}
use ai_website_builder.Http.Invariant.{IsSound}

abbrev pub hero_fields : FieldSpecs
hero_fields = Schema.cons (spec "heading" "Heading" "heading" [] Schema.nil) Schema.nil

abbrev pub hero : SectionType
hero = record {
  id = "st1";
  tenant_id = "t1";
  type_key = "hero";
  label = "Hero";
  icon = "";
  fields = hero_fields;
  layout = record { variant = "banner"; background = ""; align = "" };
  status = "active";
  created_at = 1;
  updated_at = 1;
}

abbrev pub no_settings : WebsiteSettings
no_settings = record {
  logo_media_id = "";
  primary_color = "";
  contact_phone = "";
  contact_email = "";
  whatsapp_number = "";
  address = "";
  social_links = [];
  footer_text = "";
  seo_title = "";
  seo_description = "";
  github_repo = "";
  cloudflare_project = "";
}

abbrev pub site : Website
site = record {
  id = "w1";
  tenant_id = "t1";
  name = "Site";
  domain = "";
  template_id = "business";
  status = "active";
  settings = no_settings;
  created_at = 1;
  updated_at = 1;
}

abbrev pub a_page : String → String → String → String → Page
a_page id tenant website slug = record {
  id = id;
  tenant_id = tenant;
  website_id = website;
  title = "Title";
  slug = slug;
  status = "visible";
  sort_order = 0;
  seo_title = "";
  seo_description = "";
  created_at = 1;
  updated_at = 1;
}

abbrev pub a_section : Section
a_section = record {
  id = "s1";
  tenant_id = "t1";
  page_id = "p1";
  section_type = "hero";
  sort_order = 0;
  content = parsed (obj end);
  status = "visible";
  created_at = 1;
  updated_at = 1;
}

abbrev pub eve : User
eve = record {
  id = "u1";
  name = "Eve";
  email = "eve@x.org";
  password_hash = "h";
  is_platform_admin = false;
  status = "active";
  created_at = 1;
  updated_at = 1;
}

abbrev pub acme : Tenant
acme = record { id = "t1"; name = "Acme"; status = "active"; created_at = 1; updated_at = 1 }

abbrev pub eve_edits : TenantUser
eve_edits = record { id = "m1"; tenant_id = "t1"; user_id = "u1"; role = editor; created_at = 1 }

abbrev pub small_db : Db
small_db = record {
  tenants = acme ∷ [];
  users = eve ∷ [];
  tenant_users = eve_edits ∷ [];
  websites = site ∷ [];
  pages =
      a_page "p1" "t1" "w1" "home"
      ∷ a_page "p2" "t1" "w1" "about-us"
      ∷ a_page "p9" "t9" "w9" "home"
      ∷ [];
  sections = a_section ∷ [];
  section_types = hero ∷ [];
  media = [];
  content_snapshots = [];
  deployments = [];
  audit_logs = [];
}

pub small_db-IsSound : IsSound small_db
unfolding valid_slug validate_schema Schema.contains Schema.key_matches
small_db-IsSound = record {
  page_ids = ((refl, (refl, tt)), ((refl, tt), (tt, tt)));
  page_slugs = ((refl, (refl, tt)), ((refl, tt), (tt, tt)));
  valid_slugs = (refl, (refl, (refl, tt)));
  type_ids = (tt, tt);
  type_keys = (tt, tt);
  schemas = (refl, tt);
  typed = (refl, tt);
  housed = (refl, tt);
}
