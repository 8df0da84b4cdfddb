-- ===== src/Models/Snapshot.antt =====
-- internal/models/models.go: the content bundle that the publisher hands to the generator.
use ai_website_builder.Common.{ℕ, String, List}
use ai_website_builder.Common.Dict.{Dict}
use ai_website_builder.Models.Json.{Raw}
use ai_website_builder.Models.Schema.{FieldSpecs, LayoutHints}
use ai_website_builder.Models.Settings.{WebsiteSettings}

pub record SnapshotSectionType : Type 0 where
  pub label : String
  pub fields : FieldSpecs
  pub layout : LayoutHints

pub record SnapshotWebsite : Type 0 where
  pub name : String
  pub domain : String
  pub template_id : String
  pub settings : WebsiteSettings

pub record SnapshotSection : Type 0 where
  pub section_type : String
  pub content : Raw

pub record SnapshotPage : Type 0 where
  pub title : String
  pub slug : String
  pub seo_title : String
  pub seo_description : String
  pub sections : List SnapshotSection

pub record SnapshotMedia : Type 0 where
  pub url : String
  pub alt : String

pub record Snapshot : Type 0 where
  pub website : SnapshotWebsite
  pub pages : List SnapshotPage
  pub media : Dict SnapshotMedia
  pub section_types : Dict SnapshotSectionType
  pub version : ℕ
  pub built_at : ℕ
