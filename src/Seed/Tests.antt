-- ===== src/Seed/Tests.antt =====
-- Seeding a small database (internal/db/seed.go).
use ai_website_builder.Common.{ℕ, String, true, false, ◌≡◌, refl, [], ◌∷◌, All, length}
use ai_website_builder.Common.Strconv.{format_int, pos}
use ai_website_builder.Common.Lists.{where_rows}
use ai_website_builder.Db.{Db}
use ai_website_builder.Http.Fixtures.{small_db, small_db-IsSound, acme}
use ai_website_builder.Http.SectionTypes.{key_taken, type_id_taken}
use ai_website_builder.Http.Invariant.{IsSound}
use ai_website_builder.Seed.{
  backfill_section_types, seed_section_types, seed_types, seed_tenants, insert_type,
}
use ai_website_builder.Seed.Sound.{
  Supplied, backfill_section_types-IsSound, backfill_section_types-Supplied,
}

abbrev fresh_id : ℕ → String
fresh_id n = format_int (pos n)

-- The tenant has a hero already: the other eight are added.
small_db-seeded :
    length (seed_section_types (λ n. false) fresh_id 9 1 "t1" small_db).1.section_types ≡ 9
unfolding seed_section_types seed_types insert_type key_taken type_id_taken format_int
small_db-seeded = refl

abbrev two_tenants : Db
two_tenants = record small_db {
  tenants =
      acme
      ∷ record { id = "t2"; name = "New"; status = "active"; created_at = 5; updated_at = 5 }
      ∷ [];
}

two_tenants-IsSound : IsSound two_tenants
two_tenants-IsSound = record {
  page_ids = small_db-IsSound.page_ids;
  page_slugs = small_db-IsSound.page_slugs;
  valid_slugs = small_db-IsSound.valid_slugs;
  type_ids = small_db-IsSound.type_ids;
  type_keys = small_db-IsSound.type_keys;
  schemas = small_db-IsSound.schemas;
  typed = small_db-IsSound.typed;
  housed = small_db-IsSound.housed;
}

backfill_section_types-IsSound_example :
    IsSound (backfill_section_types (λ n. false) fresh_id 9 two_tenants).1
backfill_section_types-IsSound_example =
    backfill_section_types-IsSound (λ n. false) fresh_id 9 two_tenants two_tenants-IsSound

two_tenants-seeded : (backfill_section_types (λ n. false) fresh_id 9 two_tenants).0 ≡ true
unfolding backfill_section_types seed_tenants seed_section_types seed_types insert_type where_rows
    key_taken type_id_taken format_int
two_tenants-seeded = refl

backfill_section_types-Supplied_example :
    All
      (Supplied (backfill_section_types (λ n. false) fresh_id 9 two_tenants).1)
      two_tenants.tenants
backfill_section_types-Supplied_example =
    backfill_section_types-Supplied (λ n. false) fresh_id 9 two_tenants two_tenants-seeded
