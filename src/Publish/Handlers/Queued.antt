-- ===== src/Publish/Handlers/Queued.antt =====
-- What a publish and a rollback queue.
use ai_website_builder.Common.{
  ℕ, String, Bool, true, false, not, ◌&&◌, ◌||◌, ◌==◌, ◌≡◌, ◌∙◌, refl, ap, Option, none, some, List,
  [], ◌∷◌, ◌++◌, find?, any, is_empty, if_cases, arith, Bool-cases, inl, inr, eq_iff, or_false_left,
  or_false_right, if◌then◌else◌,
}
use ai_website_builder.Common.Dict.{Dict}
use ai_website_builder.Models.Json.{Json}
use ai_website_builder.Models.Snapshot.{Snapshot}
use ai_website_builder.Db.{Db, ContentSnapshot, Deployment, record_audit, nullif}
use ai_website_builder.Cache.{MemCache, set_nx}
use ai_website_builder.Site.Snapshot.{build_snapshot}
use ai_website_builder.Http.Pages.{website_in_tenant}
use ai_website_builder.Http.Reply.{Response, AuthInfo, deployment}
use ai_website_builder.Publish.{queued, lock_key, lock_ttl, start_publish, insert_deployment}
use ai_website_builder.Publish.Handlers.{
  Console, Launch, launched, launch, new_snapshot, save_snapshot, handle_publish, of_tenant,
  roll_back, handle_rollback,
}

audit-content_snapshots :
    (fails : Bool) (now : ℕ) (t user action entity id : String) (meta : Dict Json) (db : Db)
    → (record_audit fails now t user action entity id meta db).content_snapshots
      ≡ db.content_snapshots
unfolding record_audit
audit-content_snapshots true now t user action entity id meta db = refl
audit-content_snapshots false now t user action entity id meta db = refl

audit-deployments :
    (fails : Bool) (now : ℕ) (t user action entity id : String) (meta : Dict Json) (db : Db)
    → (record_audit fails now t user action entity id meta db).deployments ≡ db.deployments
unfolding record_audit
audit-deployments true now t user action entity id meta db = refl
audit-deployments false now t user action entity id meta db = refl

-- A reply of 202 shows a deployment, which is now the last row of the table, there with the user who
-- asked for it; the other rows and the snapshots are as before.
record Queues (k : Launch) (ai : AuthInfo) (website snapshot : String) (x : Console)
    (r : Response × Console) : Type 0 where
  queues :
      r.0.status ≡ 202
      → (r.0.body ≡ deployment (queued k.now k.deployment_id ai.tenant_id website snapshot none))
        × (r.1.db.deployments
            ≡ x.db.deployments
              ++ queued k.now k.deployment_id ai.tenant_id website snapshot (nullif ai.user_id)
                ∷ [])
        × (r.1.db.content_snapshots ≡ x.db.content_snapshots)

module _ (uuid : String → String) (k : Launch) (ai : AuthInfo) where
  launched-Queues :
      (action : String) (about : String × String) (website snapshot : String) (x : Console)
      (p : Bool × MemCache)
      → Queues k ai (uuid website) snapshot x (
          launched k ai action about (
            insert_deployment uuid k.now k.queue_fails k.deployment_id ai.tenant_id website snapshot
              ai.user_id x.db p))
  unfolding launched insert_deployment
  launched-Queues action (key, value) website snapshot x (false, c) = record {
    queues = λ ok. absurd (omega (arith, ok));
  }
  launched-Queues action (key, value) website snapshot x (true, c) =
      elim (Bool-cases k.queue_fails) [
        | inl down ↦ record { queues = λ ok. absurd (ground (arith, down, ok)) }
        | inr up ↦ record {
          queues = λ ok. (
            ground (arith, up),
            rw up (audit-deployments _ _ _ _ _ _ _ _ _),
            rw up (audit-content_snapshots _ _ _ _ _ _ _ _ _),
          );
        }
      ]

  launch-Queues :
      (action : String) (about : String × String) (website snapshot : String) (x : Console)
      → Queues k ai (uuid website) snapshot x (launch uuid k ai action about website snapshot x)
  unfolding launch start_publish
  launch-Queues action about website snapshot x =
      launched-Queues action about website snapshot x
        (set_nx k.now (lock_key website) snapshot lock_ttl x.cache)

-- What the job of the deployment loads.
abbrev pub loaded : String → String → ContentSnapshot → Bool
loaded id tenant s = s.id == id && s.tenant_id == tenant

last_loaded :
    (id tenant : String) (ss : List ContentSnapshot) (s : ContentSnapshot)
    → any (λ r. r.id == id) ss ≡ false
    → loaded id tenant s ≡ true
    → find? (loaded id tenant) (ss ++ s ∷ []) ≡ some s
last_loaded id tenant [] s free hit = rw hit refl
last_loaded id tenant (r ∷ ss) s free hit =
    let other : (r.id == id) ≡ false = or_false_left _ (any (λ r. r.id == id) ss) free in
    rw other (last_loaded id tenant ss s (or_false_right (r.id == id) _ free) hit)

-- A deployment that waits for its job.
pub record Waits (k : Launch) (ai : AuthInfo) (website snapshot : String) (d : Deployment)
    : Type 0 where
  pub id : d.id ≡ k.deployment_id
  pub tenant : d.tenant_id ≡ ai.tenant_id
  pub website_id : d.website_id ≡ website
  pub snapshot_id : d.snapshot_id ≡ snapshot
  pub status : d.status ≡ "queued"
  pub created_at : d.created_at ≡ k.now
  pub not_done : d.completed_at ≡ none

-- One more deployment in the table, with the user who asked for it, and the same one in the answer,
-- without that user.
pub record Adds (k : Launch) (ai : AuthInfo) (website snapshot : String) (x : Console)
    (r : Response × Console) : Type 0 where
  pub row : Deployment
  pub waits : Waits k ai website snapshot row
  pub user : row.triggered_by_user_id ≡ (if ai.user_id == "" then none else some ai.user_id)
  pub added : r.1.db.deployments ≡ x.db.deployments ++ row ∷ []
  pub shown : r.0.body ≡ deployment (record row { triggered_by_user_id = none })

queued-Adds :
    (k : Launch) (ai : AuthInfo) (website snapshot : String) (x : Console) (r : Response × Console)
    → r.0.body ≡ deployment (queued k.now k.deployment_id ai.tenant_id website snapshot none)
    → r.1.db.deployments
      ≡ x.db.deployments
        ++ queued k.now k.deployment_id ai.tenant_id website snapshot (nullif ai.user_id) ∷ []
    → Adds k ai website snapshot x r
queued-Adds k ai website snapshot x r shown added = record {
  row = queued k.now k.deployment_id ai.tenant_id website snapshot (nullif ai.user_id);
  waits = record {
    id = refl;
    tenant = refl;
    website_id = refl;
    snapshot_id = refl;
    status = refl;
    created_at = refl;
    not_done = refl;
  };
  user = refl;
  added = added;
  shown = shown;
}

-- What a publish that answers 202 has saved and queued.
pub record Publishes (k : Launch) (ai : AuthInfo) (website : String) (o : Option Snapshot)
    (x : Console) (r : Response × Console) : Type 0 where
  pub snap : Snapshot
  pub built : o ≡ some snap
  pub some_page : is_empty snap.pages ≡ false
  pub adds : Adds k ai website k.snapshot_id x r
  pub saved : ContentSnapshot
  pub found : find? (loaded k.snapshot_id ai.tenant_id) r.1.db.content_snapshots ≡ some saved
  pub contents : saved.snapshot_json ≡ snap
  pub of_website : saved.website_id ≡ website

record WhenPublished (k : Launch) (ai : AuthInfo) (website : String) (o : Option Snapshot)
    (x : Console) (r : Response × Console) : Type 0 where
  published : r.0.status ≡ 202 → Publishes k ai website o x r

module _ (uuid : String → String) (k : Launch) (ai : AuthInfo) (website : String)
    (x : Console) where
  saving :
      (o : Option Snapshot)
      → WhenPublished k ai (uuid website) o x (save_snapshot uuid k ai website o x)
  unfolding save_snapshot
  saving none = record { published = λ ok. absurd (omega (arith, ok)) }
  saving (some snap) =
      let W = WhenPublished k ai (uuid website) (some snap) x in
      if_cases W (is_empty snap.pages) _ _
        (λ _. record { published = λ ok. absurd (omega (arith, ok)) })
        λ full.
          if_cases W (k.save_fails || any (λ s. s.id == k.snapshot_id) x.db.content_snapshots) _ _
            (λ _. record { published = λ ok. absurd (omega (arith, ok)) })
            λ free. record {
              published = λ ok.
                  let q =
                    (launch-Queues uuid k ai "publish.triggered" ("website_id", website) website
                        k.snapshot_id
                        (record x {
                          db = record x.db {
                            content_snapshots =
                                x.db.content_snapshots
                                ++ new_snapshot k ai (uuid website) snap ∷ [];
                          };
                        })).queues
                      ok in
                  record {
                    snap = snap;
                    built = refl;
                    some_page = full;
                    adds = queued-Adds k ai (uuid website) k.snapshot_id x _ q.0 q.1;
                    saved = new_snapshot k ai (uuid website) snap;
                    contents = refl;
                    of_website = refl;
                    found =
                        ap (find? (loaded k.snapshot_id ai.tenant_id)) q.2
                        ∙ last_loaded k.snapshot_id ai.tenant_id x.db.content_snapshots
                            (new_snapshot k ai (uuid website) snap)
                            (or_false_right k.save_fails _ free)
                            (rw
                              (
                                (eq_iff k.snapshot_id k.snapshot_id).1 refl,
                                (eq_iff ai.tenant_id ai.tenant_id).1 refl,
                              )
                              refl);
                  };
            }

  publish-Published :
      (is_uuid : String → Bool)
      → WhenPublished k ai
          (uuid website)
          (build_snapshot is_uuid k.snapshot_fails k.now ai.tenant_id (uuid website) x.db)
          x
          (handle_publish uuid is_uuid k ai website x)
  unfolding handle_publish
  publish-Published is_uuid =
      let o = build_snapshot is_uuid k.snapshot_fails k.now ai.tenant_id (uuid website) x.db in
      if_cases (WhenPublished k ai (uuid website) o x)
        (not (website_in_tenant k.check_fails (uuid website) ai.tenant_id x.db)) _ _
        (λ _. record { published = λ ok. absurd (omega (arith, ok)) }) (λ _. saving o)

-- A publish that answers 202 has added one deployment to the table, queued for the user who asked,
-- and shows it, without that user; the other rows are as before. The snapshot that the job of this
-- deployment loads is the one that BuildSnapshot made, at the time of the request, of the website
-- whose id PostgreSQL reads in the path, and it has a visible page.
pub handle_publish-build_snapshot :
    (uuid : String → String) (is_uuid : String → Bool) (k : Launch) (ai : AuthInfo)
    (website : String) (x : Console)
    → (handle_publish uuid is_uuid k ai website x).0.status ≡ 202
    → Publishes k ai
        (uuid website)
        (build_snapshot is_uuid k.snapshot_fails k.now ai.tenant_id (uuid website) x.db)
        x
        (handle_publish uuid is_uuid k ai website x)
handle_publish-build_snapshot uuid is_uuid k ai website x ok =
    (publish-Published uuid k ai website x is_uuid).published ok

-- What a rollback that answers 202 goes back to.
pub record RollsBack (uuid : String → String) (k : Launch) (ai : AuthInfo) (id : String)
    (x : Console) (r : Response × Console) : Type 0 where
  pub target : Deployment
  pub found : find? (of_tenant (uuid id) ai.tenant_id) x.db.deployments ≡ some target
  pub succeeded : (target.status == "succeeded") ≡ true
  pub adds : Adds k ai (uuid target.website_id) target.snapshot_id x r
  pub same_snapshots : r.1.db.content_snapshots ≡ x.db.content_snapshots

record WhenRolledBack (uuid : String → String) (k : Launch) (ai : AuthInfo) (id : String)
    (x : Console) (r : Response × Console) : Type 0 where
  rolled : r.0.status ≡ 202 → RollsBack uuid k ai id x r

rolling :
    (uuid : String → String) (k : Launch) (ai : AuthInfo) (id : String) (x : Console)
    (o : Option Deployment)
    → find? (of_tenant (uuid id) ai.tenant_id) x.db.deployments ≡ o
    → WhenRolledBack uuid k ai id x (roll_back uuid k ai id o x)
unfolding roll_back
rolling uuid k ai id x none e = record { rolled = λ ok. absurd (omega (arith, ok)) }
rolling uuid k ai id x (some d) e =
    if_cases (WhenRolledBack uuid k ai id x) (not (d.status == "succeeded")) _ _
      (λ _. record { rolled = λ ok. absurd (omega (arith, ok)) })
      (λ good. record {
        rolled = λ ok.
            let q =
              (launch-Queues uuid k ai "deployment.rollback" ("rolled_back_to", id) d.website_id
                  d.snapshot_id x).queues
                ok in
            record {
              target = d;
              found = e;
              succeeded = ground (arith, good);
              adds = queued-Adds k ai (uuid d.website_id) d.snapshot_id x _ q.0 q.1;
              same_snapshots = q.2;
            };
      })

rollback-RolledBack :
    (uuid : String → String) (k : Launch) (ai : AuthInfo) (id : String) (x : Console)
    → WhenRolledBack uuid k ai id x (handle_rollback uuid k ai id x)
unfolding handle_rollback
rollback-RolledBack uuid k ai id x =
    if_cases (WhenRolledBack uuid k ai id x) k.check_fails _ _
      (λ _. record { rolled = λ ok. absurd (omega (arith, ok)) })
      (λ _. rolling uuid k ai id x (find? (of_tenant (uuid id) ai.tenant_id) x.db.deployments) refl)

-- A rollback that answers 202 goes back to a deployment of the tenant that succeeded: it adds one
-- deployment to the table, queued for the user who asked, for the target's snapshot and its website,
-- as PostgreSQL reads that id, and shows it, without that user. The other rows and the snapshots are
-- as before.
pub handle_rollback-RollsBack :
    (uuid : String → String) (k : Launch) (ai : AuthInfo) (id : String) (x : Console)
    → (handle_rollback uuid k ai id x).0.status ≡ 202
    → RollsBack uuid k ai id x (handle_rollback uuid k ai id x)
handle_rollback-RollsBack uuid k ai id x ok = (rollback-RolledBack uuid k ai id x).rolled ok
