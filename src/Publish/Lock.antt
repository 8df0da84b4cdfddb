-- ===== src/Publish/Lock.antt =====
-- The deployment lock of internal/publish/publisher.go: one publish of a website at a time.
use ai_website_builder.Common.{
  ℕ, ◌+◌, ◌≤◌, String, Bool, true, false, ◌≡◌, refl, ◌∙◌, ap, none, List, All, arith, eq_iff,
  Bool-cases, inl, inr,
}
use ai_website_builder.Common.Dict.{lookup, remove, lookup-remove}
use ai_website_builder.Db.{Db, Deployment}
use ai_website_builder.Cache.{MemCache, set_nx, delete}
use ai_website_builder.Cache.Spec.{Call}
use ai_website_builder.Cache.Locks.{LeavesAlone, after, elapsed, set_nx-excludes}
use ai_website_builder.Config.{Config}
use ai_website_builder.Publish.{
  in_progress, started, queued, lock_key, lock_ttl, start_publish, insert_deployment,
}
use ai_website_builder.Publish.Run.{World, job}

module _ (uuid : String → String) (now : ℕ) (fails : Bool)
    (id tenant website snapshot user : String) (db : Db) where
  taken :
      (p : Bool × MemCache) (d : Deployment)
      → (insert_deployment uuid now fails id tenant website snapshot user db p).0 ≡ started d
      → (p.0 ≡ true)
        × ((insert_deployment uuid now fails id tenant website snapshot user db p).2 ≡ p.1)
  unfolding insert_deployment
  taken (false, c) d h = cc
  taken (true, c) d h = elim (Bool-cases fails) [
    | inl down ↦ absurd (ground (arith, h, down))
    | inr up ↦ (refl, rw up refl)
  ]

  refused :
      (p : Bool × MemCache)
      → p.0 ≡ false
      → ((insert_deployment uuid now fails id tenant website snapshot user db p).0 ≡ in_progress)
        × ((insert_deployment uuid now fails id tenant website snapshot user db p).1 ≡ db)
  unfolding insert_deployment
  refused (false, c) h = (refl, refl)
  refused (true, c) h = cc

-- Once a publish started, no other publish whose website is given in the same text starts before
-- the lock is released or 900 seconds are over, whatever else the cache does in between, and
-- whatever ids PostgreSQL reads in the texts: StartPublish answers that one is in progress and adds
-- no deployment. Another spelling of the same uuid is another text.
pub start_publish-excludes :
    (uuid : String → String) (t : ℕ) (fails fails' : Bool)
    (id tenant website snapshot user id' tenant' snapshot' user' : String) (db db' : Db)
    (c : MemCache) (d : Deployment) (calls : List (ℕ × Call))
    → (start_publish uuid t fails id tenant website snapshot user db c).0 ≡ started d
    → All (λ call. LeavesAlone (lock_key website) call.1) calls
    → elapsed calls ≤ 900
    → (let again =
          start_publish uuid
            (t + elapsed calls)
            fails'
            id'
            tenant'
            website
            snapshot'
            user'
            db'
            (after t (start_publish uuid t fails id tenant website snapshot user db c).2 calls) in
        (again.0 ≡ in_progress) × (again.1 ≡ db'))
unfolding start_publish
start_publish-excludes uuid t fails fails' id tenant website snapshot user id' tenant' snapshot'
      user' db db' c d calls h a b =
    let (took, kept) =
      taken uuid t fails id tenant website snapshot user db
        (set_nx t (lock_key website) snapshot lock_ttl c) d h in
    let busy =
      set_nx-excludes t lock_ttl (lock_key website) snapshot snapshot' calls lock_ttl c took a b in
    refused uuid (t + elapsed calls) fails' id' tenant' website snapshot' user' db' _ (
      ap
        (λ (m : MemCache).
          (set_nx (t + elapsed calls) (lock_key website) snapshot' lock_ttl (after t m calls)).0)
        kept
      ∙ busy)

set_nx-delete :
    (now : ℕ) (k v : String) (ttl : ℕ) (c : MemCache) → (set_nx now k v ttl (delete k c)).0 ≡ true
unfolding set_nx delete
set_nx-delete now k v ttl c =
    let gone : lookup k (remove k c.m) ≡ none =
      rw (lookup-remove k k c.m, (eq_iff k k).1 refl) refl in
    rw gone refl

-- The job of a deployment releases the lock that was taken for it, however it ends: the next publish
-- whose website is given in the same text is queued, if its row can be inserted.
pub start_publish-job :
    (uuid : String → String) (w : World) (cfg : Config) (d : Deployment) (website : String)
    (db db' : Db) (c : MemCache) (now : ℕ) (id tenant snapshot user : String)
    → (start_publish uuid now false id tenant website snapshot user db'
        (job w cfg d website db c).1).0
      ≡ started (queued now id tenant (uuid website) snapshot none)
unfolding start_publish job
start_publish-job uuid w cfg d website db db' c now id tenant snapshot user =
    let free = set_nx-delete now (lock_key website) snapshot lock_ttl c in queued_when _ free
  where
    queued_when :
        (p : Bool × MemCache)
        → p.0 ≡ true
        → (insert_deployment uuid now false id tenant website snapshot user db' p).0
          ≡ started (queued now id tenant (uuid website) snapshot none)
    queued_when (true, c') h = unfold insert_deployment in refl
    queued_when (false, c') h = cc
