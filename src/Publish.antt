-- ===== src/Publish.antt =====
-- internal/publish/publisher.go: starting a deployment under the website's lock, and its job in the
-- background. Times are in seconds.
pub mod Repo
pub mod Cloudflare
pub mod Run
pub mod Github
pub mod Push
pub mod Lock
pub mod Preview
pub mod Handlers
pub mod Tests
use ai_website_builder.Common.{
  ℕ, String, Bool, true, false, not, ◌==◌, ◌<>◌, Option, none, some, List, [], ◌∷◌, ◌++◌,
  if◌then◌else◌,
}
use ai_website_builder.Db.{Db, Deployment, nullif}
use ai_website_builder.Cache.{MemCache, set_nx, delete}

abbrev pub lock_ttl : ℕ
lock_ttl = 900

abbrev pub lock_key : String → String
lock_key website = "deploylock:" <> website

pub data Started : Type 0 where
  in_progress insert_failed : Started
  started : Deployment → Started

-- The new row. What the INSERT returns into `d` lacks the user.
abbrev pub queued : ℕ → String → String → String → String → Option String → Deployment
queued now id tenant website snapshot user = record {
  id = id;
  tenant_id = tenant;
  website_id = website;
  snapshot_id = snapshot;
  triggered_by_user_id = user;
  status = "queued";
  github_repo = "";
  git_commit_hash = "";
  cloudflare_project_id = "";
  cloudflare_deployment_id = "";
  error_message = "";
  created_at = now;
  completed_at = none;
}

-- `uuid` is PostgreSQL's reading of an id, whose text may be in another spelling; the key of the
-- lock is the text itself.
insert_deployment :
    (String → String)
    → ℕ
    → Bool
    → String
    → String
    → String
    → String
    → String
    → Db
    → Bool × MemCache
    → Started × Db × MemCache
insert_deployment uuid now fails id tenant website snapshot user db (false, c) =
    (in_progress, db, c)
insert_deployment uuid now fails id tenant website snapshot user db (true, c) =
    if fails then (insert_failed, db, delete (lock_key website) c) else (
      started (queued now id tenant (uuid website) snapshot none),
      record db {
        deployments =
            db.deployments ++ queued now id tenant (uuid website) snapshot (nullif user) ∷ [];
      },
      c,
    )

unfoldable pub start_publish :
    (String → String)
    → ℕ
    → Bool
    → String
    → String
    → String
    → String
    → String
    → Db
    → MemCache
    → Started × Db × MemCache
unfolding insert_deployment
start_publish uuid now fails id tenant website snapshot user db c =
    insert_deployment uuid now fails id tenant website snapshot user db
      (set_nx now (lock_key website) snapshot lock_ttl c)
