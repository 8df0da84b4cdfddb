-- ===== src/Migrations/Tests.antt =====
-- internal/db/db.go: three files, and a first start that stops at the second of them.
use ai_website_builder.Common.{
  String, Bool, true, false, ◌&&◌, ◌==◌, ◌≡◌, refl, Option, some, List, [], ◌∷◌,
}
use ai_website_builder.Common.Dict.{Dict, lookup}
use ai_website_builder.Common.Sort.{sort_by}
use ai_website_builder.Migrations.{
  Stage, runs, Start, migrate_names, migrate, started, commit_migration, apply_migration, exec_all,
}
use ai_website_builder.Migrations.Resumed.{migrate_resumes}

-- A schema is the list of the scripts that made it.
abbrev append_script : String → List String → Option (List String)
append_script sql scripts = some (sql ∷ scripts)

abbrev files : Dict String
files = ("0002_more.sql", "b") ∷ ("0001_init.sql", "a") ∷ ("0003_index.sql", "c") ∷ []

abbrev is_run : Stage → Bool
is_run runs = true
is_run _ = false

abbrev broken : Start
broken = (false, λ name s. name == "0002_more.sql" && is_run s)

-- The first start leaves the first file applied.
first_start : started append_script files (broken ∷ []) ([], []) ≡ ("a" ∷ [], "0001_init.sql" ∷ [])
unfolding started migrate migrate_names apply_migration commit_migration sort_by lookup
first_start = refl

migrate_resumes_example :
    migrate append_script false
      (λ _ _. false)
      files
      (started append_script files (broken ∷ []) ([], []))
    ≡ (true, ("c" ∷ "b" ∷ "a" ∷ [], "0001_init.sql" ∷ "0002_more.sql" ∷ "0003_index.sql" ∷ []))
unfolding exec_all sort_by lookup
migrate_resumes_example =
    migrate_resumes append_script files (broken ∷ []) ([], []) ("c" ∷ "b" ∷ "a" ∷ [])
      ((refl, (refl, tt)), ((refl, tt), (tt, tt))) refl
