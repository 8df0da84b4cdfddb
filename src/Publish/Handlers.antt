-- ===== src/Publish/Handlers.antt =====
-- internal/httpapi/handlers_publish.go: publish, preview, deployments, rollback and the audit log.
pub mod Queued
use ai_website_builder.Common.{
  ℕ, String, ◌<>◌, Bool, true, false, not, ◌&&◌, ◌||◌, ◌==◌, Option, none, some, List, [], ◌∷◌,
  ◌++◌, map, find?, any, where_rows, is_empty, if◌then◌else◌, leb, take,
}
use ai_website_builder.Common.Dict.{Dict}
use ai_website_builder.Common.Sort.{sort_by}
use ai_website_builder.Models.Json.{str}
use ai_website_builder.Models.Roles.{viewer, editor, tenant_admin}
use ai_website_builder.Models.Snapshot.{Snapshot}
use ai_website_builder.Db.{Db, User, AuditLog, ContentSnapshot, Deployment, record_audit}
use ai_website_builder.Cache.{MemCache}
use ai_website_builder.Site.Generate.{PageData}
use ai_website_builder.Site.Snapshot.{build_snapshot}
use ai_website_builder.Http.Pages.{website_in_tenant}
use ai_website_builder.Http.Reply.{
  Response, AuthInfo, Step, refuse, internal_error, reply, deployment, deployments, preview,
  AuditEntry, audit_logs,
}
use ai_website_builder.Publish.{Started, in_progress, insert_failed, started, start_publish}
use ai_website_builder.Publish.Preview.{build_preview}

-- The database and the cache with its locks.
pub record Console : Type 0 where
  pub db : Db
  pub cache : MemCache

-- A request: its time, the ids of the rows that it inserts, the random token of a preview, the text
-- of a preview's error, and the outcomes of its database calls: of the check of the website or the
-- deployment, of those of BuildSnapshot, of the two inserts and of the audit.
pub record Launch : Type 0 where
  pub now : ℕ
  pub year : ℕ
  pub snapshot_id : String
  pub deployment_id : String
  pub token : String
  pub preview_error : String
  pub check_fails : Bool
  pub snapshot_fails : ℕ → Bool
  pub save_fails : Bool
  pub queue_fails : Bool
  pub audit_fails : Bool

-- The answers to StartPublish; `about` is the metadata of the audit.
unfoldable pub launched :
    Launch → AuthInfo → String → String × String → Started × Db × MemCache → Response × Console
launched k ai action about (in_progress, db, c) =
    refuse 409 "a publish is already running for this website" (record { db = db; cache = c })
launched k ai action about (insert_failed, db, c) = internal_error (record { db = db; cache = c })
launched k ai action (key, value) (started d, db, c) = reply 202 (deployment d) (record {
  db =
      record_audit k.audit_fails k.now ai.tenant_id ai.user_id action "deployment" d.id
        ((key, str value) ∷ []) db;
  cache = c;
})

-- `uuid` is PostgreSQL's reading of an id's text; `website` is the text that names the lock.
unfoldable pub launch :
    (String → String)
    → Launch
    → AuthInfo
    → String
    → String × String
    → String
    → String
    → Step Console
unfolding launched
launch uuid k ai action about website snapshot x = launched k ai action about (
    start_publish uuid k.now k.queue_fails k.deployment_id ai.tenant_id website snapshot ai.user_id
      x.db x.cache)

abbrev pub new_snapshot : Launch → AuthInfo → String → Snapshot → ContentSnapshot
new_snapshot k ai website snap = record {
  id = k.snapshot_id;
  tenant_id = ai.tenant_id;
  website_id = website;
  snapshot_json = snap;
  created_by_user_id = some ai.user_id;
  created_at = k.now;
}

-- The snapshot always encodes.
unfoldable pub save_snapshot :
    (String → String) → Launch → AuthInfo → String → Option Snapshot → Step Console
unfolding launch
save_snapshot uuid k ai website none x = internal_error x
save_snapshot uuid k ai website (some snap) x =
    if is_empty snap.pages
    then refuse 400 "website has no visible pages to publish" x
    else if k.save_fails || any (λ s. s.id == k.snapshot_id) x.db.content_snapshots
    then internal_error x
    else launch uuid k ai "publish.triggered" ("website_id", website) website k.snapshot_id
        (record x {
          db = record x.db {
            content_snapshots =
                x.db.content_snapshots ++ new_snapshot k ai (uuid website) snap ∷ [];
          };
        })

module _ (uuid : String → String) (is_uuid : String → Bool) where
  unfoldable pub handle_publish : Launch → AuthInfo → String → Step Console
  unfolding save_snapshot
  handle_publish k ai website x =
      if not (website_in_tenant k.check_fails (uuid website) ai.tenant_id x.db)
      then refuse 404 "website not found" x
      else save_snapshot uuid k ai website
          (build_snapshot is_uuid k.snapshot_fails k.now ai.tenant_id (uuid website) x.db) x

  unfoldable pub previewed : Launch → Option (Dict String) × MemCache → Db → Response × Console
  previewed k (none, c) db =
      refuse 400 ("preview failed: " <> k.preview_error) (record { db = db; cache = c })
  previewed k (some files, c) db = reply 200 (preview k.token) (record { db = db; cache = c })

  -- The template and the styles of the site.
  unfoldable pub handle_preview :
      (PageData → Option String) → String → Launch → AuthInfo → String → Step Console
  unfolding previewed
  handle_preview render styles k ai website x =
      if not (website_in_tenant k.check_fails (uuid website) ai.tenant_id x.db)
      then refuse 404 "website not found" x
      else previewed k
          (build_preview is_uuid render styles uuid k.snapshot_fails k.now k.year ai.tenant_id
            website k.token x.db x.cache)
          x.db

unfoldable pub handle_list_deployments :
    (String → String) → Launch → AuthInfo → String → Step Console
handle_list_deployments uuid k ai website x =
    if k.check_fails
    then internal_error x
    else reply 200
        (deployments (
          take 50 (
            sort_by (λ d e. leb e.created_at d.created_at)
              (where_rows (λ d. d.website_id == uuid website && d.tenant_id == ai.tenant_id)
                x.db.deployments))))
        x

abbrev pub of_tenant : String → String → Deployment → Bool
of_tenant id tenant d = d.id == id && d.tenant_id == tenant

unfoldable pub found_deployment : Option Deployment → Step Console
found_deployment none = refuse 404 "not found"
found_deployment (some d) = reply 200 (deployment d)

unfoldable pub handle_get_deployment : (String → String) → Launch → AuthInfo → String → Step Console
unfolding found_deployment
handle_get_deployment uuid k ai id x =
    if k.check_fails
    then internal_error x
    else found_deployment (find? (of_tenant (uuid id) ai.tenant_id) x.db.deployments) x

unfoldable pub roll_back :
    (String → String) → Launch → AuthInfo → String → Option Deployment → Step Console
unfolding launch
roll_back uuid k ai id none x = refuse 404 "deployment not found" x
roll_back uuid k ai id (some d) x =
    if not (d.status == "succeeded")
    then refuse 400 "can only roll back to a successful deployment" x
    else launch uuid k ai "deployment.rollback" ("rolled_back_to", id) d.website_id d.snapshot_id x

unfoldable pub handle_rollback : (String → String) → Launch → AuthInfo → String → Step Console
unfolding roll_back
handle_rollback uuid k ai id x =
    if k.check_fails
    then internal_error x
    else roll_back uuid k ai id (find? (of_tenant (uuid id) ai.tenant_id) x.db.deployments) x

abbrev pub email_of : Option User → String
email_of none = ""
email_of (some u) = u.email

-- LEFT JOIN users u ON u.id = a.user_id, COALESCE(u.email, '')
abbrev pub user_of : List User → Option String → Option User
user_of us none = none
user_of us (some id) = find? (λ u. u.id == id) us

abbrev pub entry : List User → AuditLog → AuditEntry
entry us a = record { log = a; user_email = email_of (user_of us a.user_id) }

-- The entry's tenant; NULL is none.
abbrev pub logged_for : String → AuditLog → Bool
logged_for tenant a = is_tenant a.tenant_id
  where
    is_tenant : Option String → Bool
    is_tenant none = false
    is_tenant (some t) = t == tenant

unfoldable pub handle_list_audit_logs : Launch → AuthInfo → Step Console
handle_list_audit_logs k ai x =
    if k.check_fails
    then internal_error x
    else reply 200
        (audit_logs (
          map (entry x.db.users) (
            take 200 (
              sort_by (λ a b. leb b.created_at a.created_at)
                (where_rows (logged_for ai.tenant_id) x.db.audit_logs)))))
        x

-- The routes of publishing.
pub data ConsoleRoute : Type 0 where
  publish : String → ConsoleRoute
  make_preview : String → ConsoleRoute
  list_deployments : String → ConsoleRoute
  get_deployment : String → ConsoleRoute
  rollback : String → ConsoleRoute
  list_audit_logs : ConsoleRoute

abbrev pub console_role : ConsoleRoute → String
console_role (publish website) = tenant_admin
console_role (make_preview website) = editor
console_role (list_deployments website) = viewer
console_role (get_deployment id) = viewer
console_role (rollback id) = tenant_admin
console_role list_audit_logs = tenant_admin

unfoldable pub console_handler :
    (String → String)
    → (String → Bool)
    → (PageData → Option String)
    → String
    → Launch
    → ConsoleRoute
    → AuthInfo
    → Step Console
console_handler uuid is_uuid render styles k (publish website) ai =
    handle_publish uuid is_uuid k ai website
console_handler uuid is_uuid render styles k (make_preview website) ai =
    handle_preview uuid is_uuid render styles k ai website
console_handler uuid is_uuid render styles k (list_deployments website) ai =
    handle_list_deployments uuid k ai website
console_handler uuid is_uuid render styles k (get_deployment id) ai =
    handle_get_deployment uuid k ai id
console_handler uuid is_uuid render styles k (rollback id) ai = handle_rollback uuid k ai id
console_handler uuid is_uuid render styles k list_audit_logs ai = handle_list_audit_logs k ai
