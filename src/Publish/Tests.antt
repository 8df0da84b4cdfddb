-- ===== src/Publish/Tests.antt =====
-- Deployments of the small database (internal/publish).
use ai_website_builder.Common.{ℕ, ◌+◌, false, ◌≡◌, refl, none, some, List, [], ◌∷◌, arith}
use ai_website_builder.Common.Dict.{lookup}
use ai_website_builder.Common.Lists.{update_rows}
use ai_website_builder.Common.Strings.{cut_at, trim_dashes, remove_char}
use ai_website_builder.Models.Snapshot.{Snapshot}
use ai_website_builder.Db.{Db, Deployment, record_audit}
use ai_website_builder.Cache.{new_memory, set_nx}
use ai_website_builder.Cache.Spec.{Call, sets, sweeps}
use ai_website_builder.Cache.Locks.{after, elapsed}
use ai_website_builder.Http.Fixtures.{small_db, no_settings}
use ai_website_builder.Site.Generate.{generate, write_pages, page_blocks}
use ai_website_builder.Config.{Config}
use ai_website_builder.Publish.{in_progress, started, queued, start_publish}
use ai_website_builder.Publish.Repo.{repo_name}
use ai_website_builder.Publish.Cloudflare.{Poll, listed, await, settled}
use ai_website_builder.Publish.Run.{
  World, pushed, run, job, set_status, deploy_to_github, push_site, record_push, await_pages,
  save_website_setting, complete,
}
use ai_website_builder.Publish.Run.Outcome.{EndsAs, job-EndsAs, row_of}
use ai_website_builder.Common.{String, Option, leb, coalesce, Bool, true, ◌==◌, if◌then◌else◌}
use ai_website_builder.Cache.{MemCache}
use ai_website_builder.Common.Dict.{Dict, insert, remove}
use ai_website_builder.Common.Lists.{where_rows}
use ai_website_builder.Common.Sort.{sort_by, insert_sorted}
use ai_website_builder.Models.Json.{unmarshal_map}
use ai_website_builder.Models.Media.{collect_media_ids, collect_from}
use ai_website_builder.Site.Blocks.{build_block}
use ai_website_builder.Site.Snapshot.{
  build_snapshot, snapshot_types, snapshot_pages, pages_media, sections_media, load_media,
}
use ai_website_builder.Publish.Preview.{build_preview, preview_valid, preview_valid-build_preview}
use ai_website_builder.Http.Pages.{website_in_tenant}
use ai_website_builder.Http.Reply.{AuthInfo}
use ai_website_builder.Publish.Handlers.{Console, Launch, handle_publish, handle_rollback}
use ai_website_builder.Publish.Handlers.Queued.{
  Publishes, RollsBack, handle_publish-build_snapshot, handle_rollback-RollsBack,
}
use ai_website_builder.Publish.Lock.{start_publish-excludes, start_publish-job}

repo_name-plain : repo_name "  Café  Zoë & Co.!" "0a1b-2c3d-4e5f" ≡ "cms-site-caf-zo-co-0a1b2c3d"
unfolding repo_name trim_dashes remove_char
repo_name-plain = refl

abbrev a_poll : List Poll
a_poll =
    listed (
      record { id = "d1"; commit_hash = "abc"; stage_name = "build"; stage_status = "success" }
      ∷ [])
    ∷ listed (
        record { id = "d1"; commit_hash = "abc"; stage_name = "deploy"; stage_status = "success" }
        ∷ [])
    ∷ []

await-second : await "abc" a_poll ≡ ("d1", none)
unfolding await settled
await-second = refl

abbrev nothing_fails : World
nothing_fails = record {
  fails = λ n. false;
  temp_dir_fails = false;
  ensure_repo = λ owner name. none;
  push = λ repo. pushed "abc";
  polls = a_poll;
  render = λ d. some d.title;
  styles = "css";
  describe = λ e. "error";
  now = 60;
  year = 2026;
}

abbrev config : Config
config = record {
  port = "8080";
  public_base_url = "http://localhost:8080";
  data_dir = "var";
  database_url = "";
  redis_addr = "";
  jwt_secret = "";
  admin_email = "";
  admin_password = "";
  s3_bucket = "";
  s3_region = "us-east-1";
  s3_endpoint = "s3.amazonaws.com";
  aws_access_key = "";
  aws_secret_key = "";
  github_token = "t";
  github_owner = "acme";
  cloudflare_api_key = "";
  cloudflare_account_id = "";
}

-- An id in another spelling is the same uuid.
abbrev as_read : String → String
as_read text = if text == "W1" then "w1" else text

abbrev a_row : Deployment
a_row = queued 50 "d1" "t1" "w1" "c1" none

abbrev one_page : Snapshot
one_page = record {
  website = record { name = "Site"; domain = ""; template_id = "business"; settings = no_settings };
  pages =
      record { title = "Home"; slug = "home"; seo_title = ""; seo_description = ""; sections = [] }
      ∷ [];
  media = [];
  section_types = [];
  version = 2;
  built_at = 40;
}

abbrev queued_db : Db
queued_db = record small_db {
  content_snapshots =
      record {
        id = "c1";
        tenant_id = "t1";
        website_id = "w1";
        snapshot_json = one_page;
        created_by_user_id = none;
        created_at = 40;
      }
      ∷ [];
  deployments = a_row ∷ [];
}

-- The repository gets the commit, and the row says so.
queued_db-job :
    ((r : Deployment) × (row_of "d1" (job nothing_fails config a_row "w1" queued_db new_memory).0
        ≡ some r)
      × (r.git_commit_hash ≡ "abc"))
unfolding run job set_status generate write_pages page_blocks deploy_to_github push_site record_push
    await_pages save_website_setting complete update_rows record_audit cut_at repo_name trim_dashes
    remove_char
queued_db-job = (
  record a_row {
    status = "succeeded";
    github_repo = "acme/cms-site-site-w1";
    git_commit_hash = "abc";
    completed_at = some 60;
  },
  refl,
  refl,
)

job-EndsAs_example :
    EndsAs nothing_fails config a_row queued_db
      (run nothing_fails config a_row queued_db).0
      (job nothing_fails config a_row "w1" queued_db new_memory).0
job-EndsAs_example = job-EndsAs nothing_fails config a_row "w1" queued_db new_memory a_row refl refl

start_publish-job_example :
    (start_publish as_read 70 false "d2" "t1" "w1" "c1" "u1" queued_db
      (job nothing_fails config a_row "w1" queued_db new_memory).1).0
    ≡ started (queued 70 "d2" "t1" "w1" "c1" none)
start_publish-job_example =
    start_publish-job as_read nothing_fails config a_row "w1" queued_db queued_db new_memory 70 "d2"
      "t1" "c1" "u1"

abbrev quiet_calls : List (ℕ × Call)
quiet_calls = (10, sets "rl:login" "1" 60) ∷ (300, sweeps) ∷ []

start_publish-excludes_example :
    let again =
      start_publish as_read (50 + elapsed quiet_calls) false "d2" "t1" "w1" "c2" "u1" queued_db (
        after 50
          (start_publish as_read 50 false "d1" "t1" "w1" "c1" "u1" small_db new_memory).2
          quiet_calls) in
    (again.0 ≡ in_progress) × (again.1 ≡ queued_db)
unfolding start_publish set_nx lookup
start_publish-excludes_example =
    start_publish-excludes as_read 50 false false "d1" "t1" "w1" "c1" "u1" "d2" "t1" "c2" "u1"
      small_db queued_db new_memory a_row quiet_calls refl (refl, (tt, tt)) (omega arith)

abbrev any_text : String → Bool
any_text t = true

-- The other spelling of the website's id takes another lock, and both publishes start, with rows of
-- one website.
two_spellings :
    let first = start_publish as_read 50 false "d1" "t1" "w1" "c1" "u1" small_db new_memory in
    let again = start_publish as_read 60 false "d2" "t1" "W1" "c2" "u1" first.1 first.2 in
    (first.0 ≡ started (queued 50 "d1" "t1" "w1" "c1" none))
    × (again.0 ≡ started (queued 60 "d2" "t1" "w1" "c2" none))
unfolding start_publish set_nx lookup insert remove
two_spellings = (refl, refl)

abbrev previewed : Option (Dict String) × MemCache
previewed =
    build_preview any_text (λ d. some d.title) "css" as_read (λ n. false) 100 2026 "t1" "W1" "tok"
      small_db new_memory

-- The token is good 310 seconds later.
preview_valid-build_preview_example :
    (preview_valid (100 + elapsed quiet_calls) "tok" (after 100 previewed.1 quiet_calls)).0
    ≡ leb (elapsed quiet_calls) 1800
unfolding build_preview build_snapshot snapshot_pages snapshot_types sort_by insert_sorted
    where_rows insert lookup load_media pages_media sections_media collect_media_ids collect_from
    unmarshal_map generate write_pages page_blocks build_block
preview_valid-build_preview_example =
    preview_valid-build_preview any_text (λ d. some d.title) "css" as_read (λ n. false) 100 2026
      "t1" "W1" "tok" small_db new_memory (coalesce previewed.0 []) quiet_calls tt (refl, (tt, tt))
      refl

abbrev by_eve : AuthInfo
by_eve = record {
  user_id = "u1";
  is_platform_admin = false;
  tenant_id = "t1";
  role = "tenant_admin";
}

abbrev a_launch : Launch
a_launch = record {
  now = 80;
  year = 2026;
  snapshot_id = "c2";
  deployment_id = "d2";
  token = "tok";
  preview_error = "";
  check_fails = false;
  snapshot_fails = λ n. false;
  save_fails = false;
  queue_fails = false;
  audit_fails = false;
}

handle_publish-build_snapshot_example :
    let x : Console = record { db = small_db; cache = new_memory } in
    Publishes a_launch by_eve "w1"
      (build_snapshot any_text (λ n. false) 80 "t1" "w1" small_db)
      x
      (handle_publish as_read any_text a_launch by_eve "W1" x)
unfolding handle_publish build_snapshot snapshot_pages snapshot_types sort_by insert_sorted
    where_rows insert lookup load_media pages_media sections_media collect_media_ids collect_from
    unmarshal_map start_publish set_nx website_in_tenant
handle_publish-build_snapshot_example =
    handle_publish-build_snapshot as_read any_text a_launch by_eve "W1"
      (record { db = small_db; cache = new_memory }) refl

abbrev succeeded_db : Db
succeeded_db = record queued_db { deployments = record a_row { status = "succeeded" } ∷ [] }

handle_rollback-RollsBack_example :
    let x : Console = record { db = succeeded_db; cache = new_memory } in
    RollsBack as_read a_launch by_eve "d1" x (handle_rollback as_read a_launch by_eve "d1" x)
unfolding handle_rollback start_publish set_nx lookup
handle_rollback-RollsBack_example =
    handle_rollback-RollsBack as_read a_launch by_eve "d1"
      (record { db = succeeded_db; cache = new_memory }) refl
