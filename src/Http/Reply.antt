-- ===== src/Http/Reply.antt =====
-- Requests and replies of internal/httpapi. A request says which of the handler's database calls
-- fail: `fails n` is the outcome of the n-th one, counted in the order of the source.
use ai_website_builder.Common.{ℕ, String, Bool, List}
use ai_website_builder.Models.Schema.{SchemaError}
use ai_website_builder.Db.{
  Db, Tenant, User, TenantUser, Website, Page, Section, SectionType, Media, Deployment, AuditLog,
}

pub record Request : Type 0 where
  -- The Authorization header and the path value of the tenant.
  pub authorization : String
  pub tenant : String
  pub now : ℕ
  -- The id that the database generates for a new row.
  pub new_id : String
  pub fails : ℕ → Bool

-- The membership that handleMe lists.
pub record Membership : Type 0 where
  pub tenant_id : String
  pub tenant_name : String
  pub role : String

-- The row that handleListTenantUsers lists.
pub record Member : Type 0 where
  pub membership : TenantUser
  pub user_name : String
  pub user_email : String

-- The row that handleListAuditLogs lists.
pub record AuditEntry : Type 0 where
  pub log : AuditLog
  pub user_email : String

pub data Body : Type 0 where
  message : String → Body
  -- The text of a schema error.
  schema_error : SchemaError → Body
  done : Body
  page : Page → Body
  pages : List Page → Body
  section : Section → Body
  sections : List Section → Body
  section_type : SectionType → Body
  section_types : List SectionType → Body
  -- loginResponse: the access token, the refresh token and the user.
  signed_in : String → String → User → Body
  me : User → List Membership → Body
  tenant : Tenant → Body
  tenants : List Tenant → Body
  members : List Member → Body
  -- The membership, and the temporary password of a new user.
  invited : TenantUser → String → Body
  website : Website → Body
  websites : List Website → Body
  media : Media → Body
  media_list : List Media → Body
  deployment : Deployment → Body
  deployments : List Deployment → Body
  -- handlePreview: the token of the build, from which the URL is made.
  preview : String → Body
  audit_logs : List AuditEntry → Body

pub record Response : Type 0 where
  pub status : ℕ
  pub body : Body

pub record AuthInfo : Type 0 where
  pub user_id : String
  pub is_platform_admin : Bool
  pub tenant_id : String
  pub role : String

abbrev pub Handler : Type 0
Handler = Db → Response × Db

-- A handler of the state S.
abbrev pub Step : Type 0 → Type 0
Step S = S → Response × S

module _ {S : Type 0} where
  -- writeError
  abbrev pub refuse : ℕ → String → Step S
  refuse code text s = (record { status = code; body = message text }, s)

  -- serverError for a failure that is no missing row.
  abbrev pub internal_error : Step S
  internal_error = refuse 500 "internal error"

  abbrev pub reply : ℕ → Body → Step S
  reply code b s = (record { status = code; body = b }, s)
