-- ===== src/Publish/Run.antt =====
-- internal/publish/publisher.go: run, deployToGitHub and fail, the job of one deployment.
pub mod Outcome
use Prim.Native.Char.{Char}
use ai_website_builder.Common.{
  ℕ, String, Bool, true, false, not, ◌&&◌, ◌||◌, ◌==◌, ◌<>◌, Option, none, some, List, [], ◌∷◌,
  find?, update_rows, if◌then◌else◌,
}
use ai_website_builder.Common.Dict.{Dict}
use ai_website_builder.Common.Strings.{cut_at}
use ai_website_builder.Models.Json.{str}
use ai_website_builder.Models.Snapshot.{Snapshot}
use ai_website_builder.Models.Settings.{WebsiteSettings}
use ai_website_builder.Db.{Db, Deployment, ContentSnapshot, Website, record_audit}
use ai_website_builder.Cache.{MemCache, delete}
use ai_website_builder.Site.Generate.{PageData, Built, BuildError, built, failed, generate}
use ai_website_builder.Config.{Config}
use ai_website_builder.Publish.{lock_key}
use ai_website_builder.Publish.Repo.{repo_name}
use ai_website_builder.Publish.Cloudflare.{Poll, CfError, await}

pub data Pushed : Type 0 where
  pushed push_failed : String → Pushed

-- Why a job fails.
pub data PublishError : Type 0 where
  load_snapshot temp_dir save_setting record_commit record_success : PublishError
  build : BuildError → PublishError
  ensure_failed : String → PublishError
  git_failed : String → PublishError
  pages_failed : CfError → PublishError

-- What the job meets outside: which of its database calls fail, one number for each call of the
-- source; git, GitHub and Cloudflare; the template; the text of an error; clock and directory.
pub record World : Type 0 where
  pub fails : ℕ → Bool
  pub temp_dir_fails : Bool
  pub ensure_repo : String → String → Option String
  pub push : String → Pushed
  pub polls : List Poll
  pub render : PageData → Option String
  pub styles : String
  pub describe : PublishError → String
  pub now : ℕ
  pub year : ℕ

abbrev pub is_deployment : String → Deployment → Bool
is_deployment id r = r.id == id

abbrev pub update_deployment : String → (Deployment → Deployment) → Db → Db
update_deployment id f db = record db {
  deployments = update_rows (is_deployment id) f db.deployments;
}

abbrev pub with_status : String → Deployment → Deployment
with_status status r = record r { status = status }

-- setStatus: a failed call is logged and ignored.
unfoldable pub set_status : Bool → String → String → Db → Db
set_status fails id status db = if fails then db else update_deployment id (with_status status) db

-- saveWebsiteSetting, for the key github_repo.
abbrev with_repo : ℕ → String → Website → Website
with_repo now repo w = record w {
  settings = record w.settings { github_repo = repo };
  updated_at = now;
}

unfoldable pub save_website_setting : ℕ → String → String → String → Db → Db
save_website_setting now tenant website repo db = record db {
  websites =
      update_rows (λ w. w.id == website && w.tenant_id == tenant) (with_repo now repo) db.websites;
}

abbrev pub Result : Type 0
Result = Option PublishError × Db

module _ (w : World) (cfg : Config) (d : Deployment) where
  abbrev pages_error : Option CfError → Option PublishError
  pages_error none = none
  pages_error (some e) = some (pages_failed e)

  abbrev with_pages : String → String → Deployment → Deployment
  with_pages project id r = record r {
    cloudflare_project_id = project;
    cloudflare_deployment_id = id;
  }

  unfoldable pub await_pages : Snapshot → String → Db → Result
  await_pages snap commit db =
      let project = snap.website.settings.cloudflare_project in
      if not (cfg.cloudflare_api_key == "")
        && not (cfg.cloudflare_account_id == "")
        && not (project == "")
      then (let (id, err) = await commit w.polls in
          (
            pages_error err,
            if not (id == "") && not (w.fails 5)
                then update_deployment d.id (with_pages project id) db
                else db,
          ))
      else (none, db)

  abbrev with_commit : String → String → Deployment → Deployment
  with_commit repo commit r = record r { github_repo = repo; git_commit_hash = commit }

  unfoldable pub record_push : Snapshot → String → Pushed → Db → Result
  unfolding await_pages
  record_push snap repo (push_failed e) db = (some (git_failed e), db)
  record_push snap repo (pushed commit) db =
      if w.fails 4
      then (some record_commit, db)
      else await_pages snap commit (update_deployment d.id (with_commit repo commit) db)

  push_after : Snapshot → String → Option String → Db → Result
  unfolding record_push
  push_after snap repo (some e) db = (some (ensure_failed e), db)
  push_after snap repo none db = record_push snap repo (w.push repo) db

  unfoldable pub push_site : Snapshot → String → Db → Result
  unfolding push_after
  push_site snap repo db =
      let (owner, name) = cut_at "/" repo in push_after snap repo (w.ensure_repo owner name) db

  unfoldable pub deploy_to_github : Snapshot → Db → Result
  unfolding push_site
  deploy_to_github snap db =
      let db1 = set_status (w.fails 2) d.id "deploying" db in
      let new = cfg.github_owner <> "/" <> repo_name snap.website.name d.website_id in
      if not (snap.website.settings.github_repo == "")
      then push_site snap snap.website.settings.github_repo db1
      else if w.fails 3
      then (some save_setting, db1)
      else push_site snap new (save_website_setting w.now d.tenant_id d.website_id new db1)

  abbrev succeeded : Deployment → Deployment
  succeeded r = record r { status = "succeeded"; completed_at = some w.now }

  unfoldable pub complete : Result → Result
  complete (some e, db) = (some e, db)
  complete (none, db) = if w.fails 6 then (some record_success, db) else (
    none,
    record_audit (w.fails 7) w.now d.tenant_id "" "deployment.succeeded" "deployment" d.id
        (("website_id", str d.website_id) ∷ []) (update_deployment d.id succeeded db),
  )

  deploy : Snapshot → Db → Result
  unfolding deploy_to_github complete
  deploy snap db = complete (
      if not (cfg.github_token == "") && not (cfg.github_owner == "")
      then deploy_to_github snap db
      else (none, db))

  -- The site for real hosting, then the local one under its path.
  after_builds : Snapshot → Built (Dict String) → Built (Dict String) → Db → Result
  unfolding deploy
  after_builds snap (failed e) local db = (some (build e), db)
  after_builds snap (built files) (failed e) db = (some (build e), db)
  after_builds snap (built files) (built local) db = deploy snap db

  build_site : Option ContentSnapshot → Db → Result
  unfolding after_builds
  build_site none db = (some load_snapshot, db)
  build_site (some row) db =
      let snap = row.snapshot_json in
      if w.temp_dir_fails
      then (some temp_dir, db)
      else after_builds snap (generate w.render w.styles snap "" w.year)
          (generate w.render w.styles snap ("/sites/" <> d.website_id) w.year) db

  unfoldable pub run : Db → Result
  unfolding build_site
  run db =
      let db1 = set_status (w.fails 0) d.id "building" db in
      build_site
        (if w.fails 1
          then none
          else find? (λ r. r.id == d.snapshot_id && r.tenant_id == d.tenant_id)
              db1.content_snapshots)
        db1

  abbrev as_failed : String → Deployment → Deployment
  as_failed text r = record r { status = "failed"; error_message = text; completed_at = some w.now }

  -- fail: both calls may fail without further notice.
  unfoldable pub fail : PublishError → Db → Db
  fail e db =
      record_audit (w.fails 9) w.now d.tenant_id "" "deployment.failed" "deployment" d.id
        (("error", str (w.describe e)) ∷ [])
        (if w.fails 8 then db else update_deployment d.id (as_failed (w.describe e)) db)

  settle : Result → Db
  unfolding fail
  settle (none, db) = db
  settle (some e, db) = fail e db

  -- The goroutine of StartPublish, to the release of the lock, whose text is `website`.
  unfoldable pub job : String → Db → MemCache → Db × MemCache
  unfolding settle
  job website db c = (settle (run db), delete (lock_key website) c)
