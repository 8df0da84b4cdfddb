-- ===== src/Db.antt =====
-- The tables of internal/db/migrations as the rows of internal/models/models.go: a table is the
-- list of its rows, oldest first. Ids are the texts of the uuids, times are numbers.
use ai_website_builder.Common.{
  ℕ, String, Bool, Option, none, some, List, [], ◌∷◌, ◌++◌, ◌==◌, if◌then◌else◌,
}
use ai_website_builder.Common.Dict.{Dict}
use ai_website_builder.Models.Json.{Json, Raw}
use ai_website_builder.Models.Settings.{WebsiteSettings}
use ai_website_builder.Models.Snapshot.{Snapshot}
use ai_website_builder.Models.Schema.{FieldSpecs, LayoutHints}

pub record Tenant : Type 0 where
  pub id : String
  pub name : String
  pub status : String
  pub created_at : ℕ
  pub updated_at : ℕ

pub record User : Type 0 where
  pub id : String
  pub name : String
  pub email : String
  pub password_hash : String
  pub is_platform_admin : Bool
  pub status : String
  pub created_at : ℕ
  pub updated_at : ℕ

pub record TenantUser : Type 0 where
  pub id : String
  pub tenant_id : String
  pub user_id : String
  pub role : String
  pub created_at : ℕ

pub record Website : Type 0 where
  pub id : String
  pub tenant_id : String
  pub name : String
  pub domain : String
  pub template_id : String
  pub status : String
  pub settings : WebsiteSettings
  pub created_at : ℕ
  pub updated_at : ℕ

pub record Page : Type 0 where
  pub id : String
  pub tenant_id : String
  pub website_id : String
  pub title : String
  pub slug : String
  pub status : String
  pub sort_order : ℕ
  pub seo_title : String
  pub seo_description : String
  pub created_at : ℕ
  pub updated_at : ℕ

pub record Section : Type 0 where
  pub id : String
  pub tenant_id : String
  pub page_id : String
  pub section_type : String
  pub sort_order : ℕ
  pub content : Raw
  pub status : String
  pub created_at : ℕ
  pub updated_at : ℕ

pub record SectionType : Type 0 where
  pub id : String
  pub tenant_id : String
  pub type_key : String
  pub label : String
  pub icon : String
  pub fields : FieldSpecs
  pub layout : LayoutHints
  pub status : String
  pub created_at : ℕ
  pub updated_at : ℕ

pub record Media : Type 0 where
  pub id : String
  pub tenant_id : String
  pub file_name : String
  pub file_type : String
  pub file_size : ℕ
  pub storage_key : String
  pub public_url : String
  pub alt_text : String
  pub created_at : ℕ
  pub updated_at : ℕ

pub record ContentSnapshot : Type 0 where
  pub id : String
  pub tenant_id : String
  pub website_id : String
  pub snapshot_json : Snapshot
  pub created_by_user_id : Option String
  pub created_at : ℕ

pub record Deployment : Type 0 where
  pub id : String
  pub tenant_id : String
  pub website_id : String
  pub snapshot_id : String
  pub triggered_by_user_id : Option String
  pub status : String
  pub github_repo : String
  pub git_commit_hash : String
  pub cloudflare_project_id : String
  pub cloudflare_deployment_id : String
  pub error_message : String
  pub created_at : ℕ
  pub completed_at : Option ℕ

pub record AuditLog : Type 0 where
  pub tenant_id : Option String
  pub user_id : Option String
  pub action : String
  pub entity_type : String
  pub entity_id : String
  pub metadata : Dict Json
  pub created_at : ℕ

pub record Db : Type 0 where
  pub tenants : List Tenant
  pub users : List User
  pub tenant_users : List TenantUser
  pub websites : List Website
  pub pages : List Page
  pub sections : List Section
  pub section_types : List SectionType
  pub media : List Media
  pub content_snapshots : List ContentSnapshot
  pub deployments : List Deployment
  pub audit_logs : List AuditLog

-- NULLIF($1, '')
abbrev pub nullif : String → Option String
nullif s = if s == "" then none else some s

-- internal/audit/audit.go, `Record`: a failed insert is logged and changes nothing else.
unfoldable pub record_audit :
    Bool → ℕ → String → String → String → String → String → Dict Json → Db → Db
record_audit fails now tenant user action entity_type entity_id metadata db =
    if fails then db else record db { audit_logs = db.audit_logs ++ entry ∷ [] }
  where
    entry : AuditLog
    entry = record {
      tenant_id = nullif tenant;
      user_id = nullif user;
      action = action;
      entity_type = entity_type;
      entity_id = entity_id;
      metadata = metadata;
      created_at = now;
    }
