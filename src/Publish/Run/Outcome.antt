-- ===== src/Publish/Run/Outcome.antt =====
-- How a deployment ends (internal/publish/publisher.go, the goroutine of StartPublish).
use ai_website_builder.Common.{
  ℕ, String, Bool, true, false, not, ◌&&◌, ◌==◌, ◌≡◌, refl, ◌∙◌, ap, Option, none, some, List, [],
  ◌∷◌, find?, where_rows, update_rows, if◌then◌else◌, Bool-cases, inl, inr, ◌⊎◌,
}
use ai_website_builder.Common.Dict.{Dict}
use ai_website_builder.Common.Strings.{cut_at}
use ai_website_builder.Models.Json.{Json, str}
use ai_website_builder.Models.Snapshot.{Snapshot}
use ai_website_builder.Db.{Db, Deployment, ContentSnapshot, record_audit}
use ai_website_builder.Cache.{MemCache}
use ai_website_builder.Http.Isolation.{where_rows-update_rows}
use ai_website_builder.Site.Generate.{Built, built, failed}
use ai_website_builder.Config.{Config}
use ai_website_builder.Publish.Cloudflare.{await}
use ai_website_builder.Publish.Run.{
  World, Pushed, pushed, push_failed, PublishError, record_success, temp_dir, is_deployment,
  update_deployment, with_status, set_status, save_website_setting, Result, with_pages, await_pages,
  with_commit, record_push, push_after, push_site, deploy_to_github, succeeded, complete, deploy,
  after_builds, build_site, run, as_failed, fail, settle, job,
}

map_option : {A : Type 0} → (A → A) → Option A → Option A
map_option g none = none
map_option g (some a) = some (g a)

find?-update_rows :
    {A : Type 0} (p : A → Bool) (f : A → A) (xs : List A) (x : A)
    → ((y : A) → p (f y) ≡ p y)
    → find? p xs ≡ some x
    → find? p (update_rows p f xs) ≡ some (f x)
unfolding update_rows map_option
find?-update_rows p f [] x same h = absurd (cc)
find?-update_rows p f (y ∷ ys) x same h = elim (Bool-cases (p y)) [
  | inl t ↦ rw (t, same y, t) (ap (map_option f) (rw t at h))
  | inr n ↦ rw (n, n) (find?-update_rows p f ys x same (rw n at h))
]

abbrev pub row_of : String → Db → Option Deployment
row_of id db = find? (is_deployment id) db.deployments

abbrev pub others : String → Db → List Deployment
others id db = where_rows (λ r. not (is_deployment id r)) db.deployments

-- A step that leaves the row in place and the other rows alone.
record Touches (id : String) (db db' : Db) : Type 0 where
  keeps : (r : Deployment) → row_of id db ≡ some r → (r' : Deployment) × (row_of id db' ≡ some r')
  spares : others id db' ≡ others id db

Touches-same : (id : String) (db db' : Db) → db'.deployments ≡ db.deployments → Touches id db db'
Touches-same id db db' e = record {
  keeps = λ r h. (r, ap (find? (is_deployment id)) e ∙ h);
  spares = ap (where_rows (λ r. not (is_deployment id r))) e;
}

Touches-then : (id : String) (a b c : Db) → Touches id a b → Touches id b c → Touches id a c
Touches-then id a b c h k = record {
  keeps = λ r e. let (r', e') = h.keeps r e in k.keeps r' e';
  spares = k.spares ∙ h.spares;
}

Touches-update :
    (id : String) (f : Deployment → Deployment) (db : Db)
    → ((r : Deployment) → (f r).id ≡ r.id)
    → Touches id db (update_deployment id f db)
Touches-update id f db same = record {
  keeps = λ r h. (
    f r,
    find?-update_rows (is_deployment id) f db.deployments r (λ y. ap (λ i. i == id) (same y)) h,
  );
  spares =
      where_rows-update_rows _ _ _ db.deployments
        (λ r t. (rw t refl, ap (λ i. not (i == id)) (same r) ∙ rw t refl));
}

record_audit-deployments :
    (fails : Bool) (now : ℕ) (tenant user action entity id : String) (meta : Dict Json) (db : Db)
    → (record_audit fails now tenant user action entity id meta db).deployments ≡ db.deployments
unfolding record_audit
record_audit-deployments true now tenant user action entity id meta db = refl
record_audit-deployments false now tenant user action entity id meta db = refl

set_status-Touches :
    (fails : Bool) (id status : String) (db : Db) → Touches id db (set_status fails id status db)
unfolding set_status
set_status-Touches true id status db = Touches-same id db _ refl
set_status-Touches false id status db = Touches-update id (with_status status) db (λ r. refl)

abbrev HasStatus : String → String → Db → Type 0
HasStatus id status db = (r : Deployment) × (row_of id db ≡ some r) × (r.status ≡ status)

module _ (w : World) (cfg : Config) (d : Deployment) where
  To : Db → Result → Type 0
  To db out = Touches d.id db out.1

  if-To : (b : Bool) (db : Db) (m n : Result) → To db m → To db n → To db (if b then m else n)
  if-To true db m n h k = h
  if-To false db m n h k = k

  same-To : (db : Db) (e : Option PublishError) → To db (e, db)
  unfolding To
  same-To db e = Touches-same d.id db db refl

  then-To : (a b : Db) (out : Result) → Touches d.id a b → To b out → To a out
  unfolding To
  then-To a b out h k = Touches-then d.id a b out.1 h k

  if-Touches :
      (b : Bool) (db m n : Db)
      → Touches d.id db m
      → Touches d.id db n
      → Touches d.id db (if b then m else n)
  if-Touches true db m n h k = h
  if-Touches false db m n h k = k

  await_pages-To :
      (snap : Snapshot) (commit : String) (db : Db) → To db (await_pages w cfg d snap commit db)
  unfolding await_pages To
  await_pages-To snap commit db =
      if-To _ db _ _
        (if-Touches (not ((await commit w.polls).0 == "") && not (w.fails 5)) db _ db
          (Touches-update d.id
            (with_pages w cfg d snap.website.settings.cloudflare_project (await commit w.polls).0)
            db (λ r. refl))
          (Touches-same d.id db db refl))
        (same-To db none)

  record_push-To :
      (snap : Snapshot) (repo : String) (p : Pushed) (db : Db)
      → To db (record_push w cfg d snap repo p db)
  unfolding record_push
  record_push-To snap repo (push_failed e) db = same-To db _
  record_push-To snap repo (pushed commit) db = if-To (w.fails 4) db _ _ (same-To db _) (
      then-To db _ _ (Touches-update d.id (with_commit w cfg d repo commit) db (λ r. refl))
        (await_pages-To snap commit _))

  push_after-To :
      (snap : Snapshot) (repo : String) (o : Option String) (db : Db)
      → To db (push_after w cfg d snap repo o db)
  unfolding push_after
  push_after-To snap repo none db = record_push-To snap repo (w.push repo) db
  push_after-To snap repo (some e) db = same-To db _

  push_site-To :
      (snap : Snapshot) (repo : String) (db : Db) → To db (push_site w cfg d snap repo db)
  unfolding push_site
  push_site-To snap repo db =
      push_after-To snap repo (w.ensure_repo (cut_at "/" repo).0 (cut_at "/" repo).1) db

  deploy_to_github-To : (snap : Snapshot) (db : Db) → To db (deploy_to_github w cfg d snap db)
  unfolding deploy_to_github save_website_setting
  deploy_to_github-To snap db =
      let db1 = set_status (w.fails 2) d.id "deploying" db in
      then-To db db1 _ (set_status-Touches (w.fails 2) d.id "deploying" db) (
        if-To _ db1 _ _ (push_site-To snap _ db1) (
          if-To (w.fails 3) db1 _ _ (same-To db1 _)
            (then-To db1 _ _ (Touches-same d.id db1 _ refl) (push_site-To snap _ _))))

  -- A result without an error has the row succeeded.
  record IsGood (db : Db) (out : Result) : Type 0 where
    touches : Touches d.id db out.1
    done :
        out.0 ≡ none → (r : Deployment) → row_of d.id db ≡ some r → HasStatus d.id "succeeded" out.1

  IsGood-error :
      (db : Db) (e : PublishError) (db' : Db) → Touches d.id db db' → IsGood db (some e, db')
  IsGood-error db e db' h = record { touches = h; done = λ n. absurd (cc) }

  complete-IsGood : (db : Db) (out : Result) → To db out → IsGood db (complete w cfg d out)
  unfolding complete To
  complete-IsGood db (some e, db') h = IsGood-error db e db' h
  complete-IsGood db (none, db') h = elim (Bool-cases (w.fails 6)) [
    | inl down ↦ rw down (IsGood-error db record_success db' h)
    | inr up ↦ rw up (
        let step = Touches-update d.id (succeeded w cfg d) db' (λ r. refl) in
        let same =
          record_audit-deployments (w.fails 7) w.now d.tenant_id "" "deployment.succeeded"
            "deployment" d.id (("website_id", str d.website_id) ∷ [])
            (update_deployment d.id (succeeded w cfg d) db') in
        record {
          touches =
              Touches-then d.id db _ _ h
                (Touches-then d.id db' _ _ step (Touches-same d.id _ _ same));
          done = λ n r e.
              let (r', e') = h.keeps r e in
              (
                succeeded w cfg d r',
                ap (find? (is_deployment d.id)) same
                    ∙ find?-update_rows (is_deployment d.id) (succeeded w cfg d) db'.deployments r'
                        (λ y. refl) e',
                refl,
              );
        })
  ]

  deploy-IsGood : (snap : Snapshot) (db : Db) → IsGood db (deploy w cfg d snap db)
  unfolding deploy
  deploy-IsGood snap db =
      complete-IsGood db _ (if-To _ db _ _ (deploy_to_github-To snap db) (same-To db none))

  after_builds-IsGood :
      (snap : Snapshot) (site local : Built (Dict String)) (db : Db)
      → IsGood db (after_builds w cfg d snap site local db)
  unfolding after_builds
  after_builds-IsGood snap (failed e) local db = IsGood-error db _ db (Touches-same d.id db db refl)
  after_builds-IsGood snap (built files) (failed e) db =
      IsGood-error db _ db (Touches-same d.id db db refl)
  after_builds-IsGood snap (built files) (built local) db = deploy-IsGood snap db

  if-IsGood :
      (b : Bool) (db : Db) (m n : Result)
      → IsGood db m
      → IsGood db n
      → IsGood db (if b then m else n)
  if-IsGood true db m n h k = h
  if-IsGood false db m n h k = k

  build_site-IsGood : (o : Option ContentSnapshot) (db : Db) → IsGood db (build_site w cfg d o db)
  unfolding build_site
  build_site-IsGood none db = IsGood-error db _ db (Touches-same d.id db db refl)
  build_site-IsGood (some row) db =
      if-IsGood w.temp_dir_fails db _ _ (IsGood-error db temp_dir db (Touches-same d.id db db refl))
        (after_builds-IsGood row.snapshot_json _ _ db)

  IsGood-then : (a b : Db) (out : Result) → Touches d.id a b → IsGood b out → IsGood a out
  IsGood-then a b out h g = record {
    touches = Touches-then d.id a b out.1 h g.touches;
    done = λ n r e. let (r', e') = h.keeps r e in g.done n r' e';
  }

  run-IsGood : (db : Db) → IsGood db (run w cfg d db)
  unfolding run
  run-IsGood db =
      IsGood-then db _ _ (set_status-Touches (w.fails 0) d.id "building" db) (build_site-IsGood _ _)

  -- How the job of a deployment leaves the table.
  abbrev pub EndsAs : Db → Option PublishError → Db → Type 0
  EndsAs db error db' =
      ((r : Deployment) × (row_of d.id db' ≡ some r)
        × (((error ≡ none) × (r.status ≡ "succeeded"))
            ⊎ ((e : PublishError) × (error ≡ some e)
                × (r.status ≡ "failed")
                × (r.error_message ≡ w.describe e))))
      × (others d.id db' ≡ others d.id db)

  fail-EndsAs :
      (db db' : Db) (e : PublishError) (r : Deployment)
      → row_of d.id db' ≡ some r
      → others d.id db' ≡ others d.id db
      → w.fails 8 ≡ false
      → EndsAs db (some e) (fail w cfg d e db')
  unfolding fail
  fail-EndsAs db db' e r h spared up =
      let change = as_failed w cfg d (w.describe e) in
      let step = Touches-update d.id change db' (λ y. refl) in
      let same =
        record_audit-deployments (w.fails 9) w.now d.tenant_id "" "deployment.failed" "deployment"
          d.id (("error", str (w.describe e)) ∷ [])
          (if w.fails 8 then db' else update_deployment d.id change db') in
      let rows =
        same ∙ ap (λ b. (if b then db' else update_deployment d.id change db').deployments) up in
      (
        (
          change r,
          ap (find? (is_deployment d.id)) rows
              ∙ find?-update_rows (is_deployment d.id) change db'.deployments r (λ y. refl) h,
          inr (e, refl, refl, refl),
        ),
        ap (where_rows (λ y. not (is_deployment d.id y))) rows ∙ step.spares ∙ spared,
      )

  settle-EndsAs :
      (db : Db) (out : Result) (r : Deployment)
      → row_of d.id db ≡ some r
      → w.fails 8 ≡ false
      → IsGood db out
      → EndsAs db out.0 (settle w cfg d out)
  unfolding settle
  settle-EndsAs db (none, db') r h up g =
      let (r', e', ok) = g.done refl r h in ((r', e', inl (refl, ok)), g.touches.spares)
  settle-EndsAs db (some e, db') r h up g =
      let (r', e') = g.touches.keeps r h in fail-EndsAs db db' e r' e' g.touches.spares up

  -- The job of a deployment that is in the table always settles it, unless the statement that records
  -- a failure fails itself: its row ends as succeeded if run returned no error, and as failed with
  -- the text of run's error otherwise, whatever else fails, and no other deployment's row changes.
  pub job-EndsAs :
      (website : String) (db : Db) (c : MemCache) (r : Deployment)
      → row_of d.id db ≡ some r
      → w.fails 8 ≡ false
      → EndsAs db (run w cfg d db).0 (job w cfg d website db c).0
  unfolding job
  job-EndsAs website db c r h up = settle-EndsAs db (run w cfg d db) r h up (run-IsGood db)
