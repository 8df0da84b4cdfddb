-- ===== src/Migrations.antt =====
-- internal/db/db.go, `migrate`: the embedded SQL files are applied in the order of their names, each
-- once. The state is the database's schema and the names in schema_migrations.
pub mod Resumed
pub mod Tests
use ai_website_builder.Common.{
  String, Bool, true, false, not, ◌&&◌, ◌||◌, ◌==◌, ◌≡◌, ◌∙◌, refl, sym, ap, subst, Option, none,
  some, List, [], ◌∷◌, ◌++◌, map, any, All, if◌then◌else◌, if_cases, append_assoc, append-nil,
  arith, Bool-cases, Option-cases, inl, inr, eq_iff, or_false_left, or_false_right,
}
use ai_website_builder.Common.Dict.{Dict, lookup}
use ai_website_builder.Common.Sort.{sort_by, le_text}

-- The calls of the database for one file.
pub data Stage : Type 0 where
  asks begins runs records commits : Stage

abbrev pub is_applied : String → List String → Bool
is_applied name names = any (λ n. n == name) names

-- The names of the embedded files, sorted.
abbrev pub migration_names : Dict String → List String
migration_names files = sort_by le_text (map (λ (f : String × String). f.0) files)

-- The specification: the files that are still to apply, and what they make of a schema.
abbrev pub pending : List String → List String → List String
pending [] applied = []
pending (name ∷ names) applied =
    if is_applied name applied then pending names applied else name ∷ pending names applied

-- No name stands twice.
abbrev pub Once : List String → Type 0
Once [] = Unit
Once (name ∷ names) = All (λ n. (name == n) ≡ false) names × Once names

-- The failures that a start of the server meets: that of schema_migrations, those of each file.
abbrev pub Start : Type 0
Start = Bool × (String → Stage → Bool)

-- What PostgreSQL makes of a script: the schema after it, or an error. `State` is the schema.
module _ {State : Type 0} (exec : String → State → Option State) where
  abbrev pub Applied : Type 0
  Applied = State × List String

  -- The transaction of one file. An error undoes it; the flag says whether there was none.
  unfoldable pub commit_migration : Bool → String → Option State → Applied → Bool × Applied
  commit_migration failed name none db = (false, db)
  commit_migration failed name (some state) (old, names) =
      if failed then (false, (old, names)) else (true, (state, names ++ name ∷ []))

  unfoldable pub apply_migration :
      (Stage → Bool) → String → Option String → Applied → Bool × Applied
  unfolding commit_migration
  apply_migration fails name none db = (false, db)
  apply_migration fails name (some sql) db =
      if fails begins || fails runs
      then (false, db)
      else commit_migration (fails records || fails commits) name (exec sql db.0) db

  unfoldable pub migrate_names :
      (String → Stage → Bool) → Dict String → List String → Applied → Bool × Applied
  unfolding apply_migration
  migrate_names fails files [] db = (true, db)
  migrate_names fails files (name ∷ names) db =
      let passed = migrate_names fails files names db in
      let (ok, db1) = apply_migration (fails name) name (lookup name files) db in
      let rest = migrate_names fails files names db1 in
      if fails name asks
      then (false, db)
      else if is_applied name db.1
      then passed
      else if ok
      then rest
      else (false, db1)

  -- `table` says whether creating schema_migrations fails.
  unfoldable pub migrate : Bool → (String → Stage → Bool) → Dict String → Applied → Bool × Applied
  unfolding migrate_names
  migrate table fails files db =
      if table then (false, db) else migrate_names fails files (migration_names files) db

  -- What the scripts make of a schema, one after another.
  abbrev pub exec_file : Option String → State → Option State
  exec_file none state = none
  exec_file (some sql) state = exec sql state

  abbrev pub then_exec : Dict String → String → Option State → Option State
  then_exec files name none = none
  then_exec files name (some state) = exec_file (lookup name files) state

  -- The scripts of the names, in this order.
  pub exec_all : Dict String → List String → Option State → Option State
  exec_all files [] state = state
  exec_all files (name ∷ names) state = exec_all files names (then_exec files name state)

  -- The database after the server has been started some times.
  unfoldable pub started : Dict String → List Start → Applied → Applied
  unfolding migrate
  started files [] db = db
  started files (start ∷ starts) db = started files starts (migrate start.0 start.1 files db).1
