-- ===== src/Startup.antt =====
-- cmd/server/main.go: the start of the server, up to the moment it serves. The schema and the rows
-- are one state, the tables.
pub mod Ready
pub mod Tests
use ai_website_builder.Common.{
  ℕ, String, Bool, true, false, not, ◌&&◌, ◌==◌, Option, none, some, List, if◌then◌else◌,
}
use ai_website_builder.Common.Dict.{Dict}
use ai_website_builder.Config.{Config}
use ai_website_builder.Db.{Db}
use ai_website_builder.Auth.{Crypto, Call}
use ai_website_builder.Auth.Janitor.{bootstrap_admin}
use ai_website_builder.Seed.{backfill_section_types}
use ai_website_builder.Migrations.{Start, Applied, migrate}

-- What the start needs, and what ends it when it is not to be had.
pub data Service : Type 0 where
  database redis s3 local_media first_account block_types : Service

module _ (exec : String → Db → Option Db) (c : Crypto) (cfg : Config) (down : Service → Bool) where
  abbrev pub Outcome : Type 0
  Outcome = Option Service × Applied exec

  unfoldable pub with_types : List String → Bool × Db → Outcome
  with_types names (false, db) = (some block_types, (db, names))
  with_types names (true, db) = (none, (db, names))

  unfoldable pub with_account : (ℕ → Bool) → (ℕ → String) → ℕ → List String → Bool × Db → Outcome
  unfolding with_types
  with_account fails ids now names (false, db) = (some first_account, (db, names))
  with_account fails ids now names (true, db) =
      with_types names (backfill_section_types fails ids now db)

  -- The cache and the store, then the account and the block types.
  unfoldable pub connected : Call → (ℕ → Bool) → (ℕ → String) → Bool × Applied exec → Outcome
  unfolding with_account
  connected k fails ids (false, db) = (some database, db)
  connected k fails ids (true, db) =
      if not (cfg.redis_addr == "") && down redis
      then (some redis, db)
      else if not (cfg.s3_bucket == "") && down s3
      then (some s3, db)
      else if cfg.s3_bucket == "" && down local_media
      then (some local_media, db)
      else with_account fails ids k.now db.1
          (bootstrap_admin c k cfg.admin_email cfg.admin_password db.0)

  -- None when the server serves.
  unfoldable pub start :
      Start → Dict String → Call → (ℕ → Bool) → (ℕ → String) → Applied exec → Outcome
  unfolding connected
  start migration files k fails ids db =
      if down database
      then (some database, db)
      else connected k fails ids (migrate exec migration.0 migration.1 files db)
