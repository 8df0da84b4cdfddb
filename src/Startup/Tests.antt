-- ===== src/Startup/Tests.antt =====
-- cmd/server/main.go: a first start, on a tenant without block types and no account.
use ai_website_builder.Common.{
  ℕ, zero, suc, String, Bool, true, false, ◌==◌, ◌<>◌, ◌≡◌, refl, Option, some, List, [], ◌∷◌, All,
  is_empty, where_rows,
}
use ai_website_builder.Common.Dict.{Dict, lookup}
use ai_website_builder.Common.Sort.{sort_by}
use ai_website_builder.Config.{Config, config_of}
use ai_website_builder.Db.{Db}
use ai_website_builder.Auth.{Crypto, Call}
use ai_website_builder.Auth.Janitor.{bootstrap_admin, new_admin, admin_password, insert_admin}
use ai_website_builder.Seed.{
  backfill_section_types, seed_tenants, seed_section_types, seed_types, insert_type,
}
use ai_website_builder.Seed.Sound.{Supplied}
use ai_website_builder.Http.Fixtures.{small_db}
use ai_website_builder.Http.SectionTypes.{key_taken, type_id_taken}
use ai_website_builder.Migrations.{
  Start, migration_names, pending, migrate, migrate_names, apply_migration, commit_migration,
}
use ai_website_builder.Startup.{Service, start, connected, with_account, with_types}
use ai_website_builder.Startup.Ready.{start_ready}

abbrev plain : Crypto
plain = record {
  hash_token = λ t. "#" <> t;
  check_password = λ hash pw. hash == "b" <> pw;
  hash_password = λ salt pw. some ("b" <> pw);
  sign = λ s. some ("jwt" <> s.user_id);
  sql_lower = λ s. s;
  sql_le = λ a b. true;
}

-- Every script runs and leaves the rows as they are.
abbrev keep_rows : String → Db → Option Db
keep_rows sql db = some db

abbrev all_up : Service → Bool
all_up s = false

abbrev no_failures : Start
no_failures = (false, λ name stage. false)

abbrev files : Dict String
files = ("0002_more.sql", "b") ∷ ("0001_init.sql", "a") ∷ []

abbrev k : Call
k = record { now = 1; new_id = "u9"; random = some "p"; salt = "s"; fails = λ n. false }

abbrev ids : ℕ → String
ids zero = "st"
ids (suc n) = ids n <> "x"

abbrev before : Db × List String
before = (record small_db { users = []; section_types = [] }, "0001_init.sql" ∷ [])

abbrev cfg : Config
cfg = config_of []

start_ready_example :
    let after = (start keep_rows plain cfg all_up no_failures files k (λ n. false) ids before).1 in
    (pending (migration_names files) after.1 ≡ [])
    × (is_empty after.0.users ≡ false)
    × All (Supplied after.0) after.0.tenants
unfolding start connected with_account with_types migrate migrate_names apply_migration
    commit_migration sort_by lookup bootstrap_admin new_admin admin_password insert_admin config_of
    backfill_section_types seed_tenants seed_section_types seed_types insert_type key_taken
    type_id_taken where_rows
start_ready_example =
    start_ready keep_rows plain cfg all_up no_failures files k (λ n. false) ids before
      ((refl, tt), (tt, tt)) refl
