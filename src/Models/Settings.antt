-- ===== src/Models/Settings.antt =====
-- The settings of a website in internal/models/models.go.
use ai_website_builder.Common.{String}
use ai_website_builder.Common.Dict.{Dict}

-- The fields of settings_json that the site and the publisher read.
pub record WebsiteSettings : Type 0 where
  pub logo_media_id : String
  pub primary_color : String
  pub contact_phone : String
  pub contact_email : String
  pub whatsapp_number : String
  pub address : String
  pub social_links : Dict String
  pub footer_text : String
  pub seo_title : String
  pub seo_description : String
  pub github_repo : String
  pub cloudflare_project : String
