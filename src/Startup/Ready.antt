-- ===== src/Startup/Ready.antt =====
-- A server that serves has its migrations, an account, and block types for every tenant.
use ai_website_builder.Common.{
  ℕ, suc, ◌+◌, String, Bool, true, false, not, ◌&&◌, ◌==◌, ◌≡◌, ◌⊎◌, ◌∙◌, refl, Option, none, some,
  List, [], ◌∷◌, All, any, is_empty, ◌++◌, ◌||◌, if◌then◌else◌, if_cases, inl, inr,
}
use ai_website_builder.Common.Dict.{Dict}
use ai_website_builder.Config.{Config}
use ai_website_builder.Db.{Db, SectionType, Tenant}
use ai_website_builder.Http.SectionTypes.{key_taken, type_id_taken}
use ai_website_builder.Auth.{Crypto, Call}
use ai_website_builder.Auth.Janitor.{bootstrap_admin, new_admin, admin_password, insert_admin}
use ai_website_builder.Seed.{
  insert_type, seed_types, seed_section_types, seed_tenants, backfill_section_types,
  starter_section_types, unseeded,
}
use ai_website_builder.Seed.Sound.{Supplied, backfill_section_types-Supplied}
use ai_website_builder.Migrations.{Start, Applied, migrate, migration_names, pending, Once}
use ai_website_builder.Migrations.Resumed.{migrate_complete}
use ai_website_builder.Startup.{
  Service, database, redis, s3, local_media, first_account, block_types, with_types, with_account,
  connected, start,
}

-- Seeding changes neither users nor tenants.
record Keeps (db : Db) (r : Bool × Db) : Type 0 where
  users : r.1.users ≡ db.users
  tenants : r.1.tenants ≡ db.tenants

same-Keeps : (b : Bool) (db : Db) → Keeps db (b, db)
same-Keeps b db = record { users = refl; tenants = refl }

then-Keeps : (db : Db) (r q : Bool × Db) → Keeps db r → Keeps r.1 q → Keeps db q
then-Keeps db r q a b = record { users = b.users ∙ a.users; tenants = b.tenants ∙ a.tenants }

insert_type-Keeps :
    (fails : Bool) (now : ℕ) (id tenant : String) (st : SectionType) (db : Db)
    → Keeps db (insert_type fails now id tenant st db)
unfolding insert_type
insert_type-Keeps fails now id tenant st db =
    if_cases (Keeps db) fails _ _ (λ _. same-Keeps false db)
      (λ _.
        if_cases (Keeps db) (key_taken tenant st.type_key db.section_types) _ _
          (λ _. same-Keeps true db)
          (λ _.
            if_cases (Keeps db) (type_id_taken id db.section_types) _ _ (λ _. same-Keeps false db)
              (λ _. record { users = refl; tenants = refl })))

-- A call, and the rest of the calls if it ended well.
rest-Keeps :
    (db : Db) (r : Bool × Db) (go : Db → Bool × Db)
    → Keeps db r
    → ((x : Db) → Keeps x (go x))
    → Keeps db (if r.0 then go r.1 else (false, r.1))
rest-Keeps db (true, x) go a b = then-Keeps db (true, x) (go x) a (b x)
rest-Keeps db (false, x) go a b = a

seed_types-Keeps :
    (fails : ℕ → Bool) (ids : ℕ → String) (now n : ℕ) (tenant : String) (sts : List SectionType)
    (db : Db)
    → Keeps db (seed_types fails ids now n tenant sts db)
unfolding seed_types
seed_types-Keeps fails ids now n tenant [] db = same-Keeps true db
seed_types-Keeps fails ids now n tenant (st ∷ sts) db =
    rest-Keeps db _ (λ x. seed_types fails ids now (suc n) tenant sts x)
      (insert_type-Keeps (fails n) now (ids n) tenant st db)
      (λ x. seed_types-Keeps fails ids now (suc n) tenant sts x)

seed_tenants-Keeps :
    (fails : ℕ → Bool) (ids : ℕ → String) (now n : ℕ) (ts : List Tenant) (db : Db)
    → Keeps db (seed_tenants fails ids now n ts db)
unfolding seed_tenants seed_section_types
seed_tenants-Keeps fails ids now n [] db = same-Keeps true db
seed_tenants-Keeps fails ids now n (t ∷ ts) db =
    rest-Keeps db _ (λ x. seed_tenants fails ids now (n + 9) ts x)
      (seed_types-Keeps fails ids now n t.id starter_section_types db)
      (λ x. seed_tenants-Keeps fails ids now (n + 9) ts x)

backfill-Keeps :
    (fails : ℕ → Bool) (ids : ℕ → String) (now : ℕ) (db : Db)
    → Keeps db (backfill_section_types fails ids now db)
unfolding backfill_section_types
backfill-Keeps fails ids now db =
    if_cases (Keeps db) (fails 0) _ _ (λ _. same-Keeps false db)
      (λ _. seed_tenants-Keeps fails ids now 1 (unseeded db) db)

-- A start of the accounts that returns no error leaves one.
record Manned (r : Bool × Db) : Type 0 where
  some_user : r.0 ≡ true → is_empty r.1.users ≡ false

nobody-Manned : (db : Db) → Manned (false, db)
nobody-Manned db = record { some_user = λ ok. absurd (cc) }

append-is_empty : {A : Type 0} (xs : List A) (x : A) → is_empty (xs ++ x ∷ []) ≡ false
append-is_empty [] x = refl
append-is_empty (y ∷ ys) x = refl

insert_admin-Manned :
    (k : Call) (email : String) (hash : Option String) (db : Db)
    → Manned (insert_admin k email hash db)
unfolding insert_admin
insert_admin-Manned k email none db = nobody-Manned db
insert_admin-Manned k email (some hash) db =
    if_cases Manned (k.fails 1 || any (λ u. u.id == k.new_id || u.email == email) db.users) _ _
      (λ _. nobody-Manned db) (λ _. record { some_user = λ ok. append-is_empty db.users _ })

admin_password-Manned :
    (c : Crypto) (k : Call) (email : String) (password : Option String) (db : Db)
    → Manned (admin_password c k email password db)
unfolding admin_password
admin_password-Manned c k email none db = nobody-Manned db
admin_password-Manned c k email (some password) db =
    insert_admin-Manned k email (c.hash_password k.salt password) db

new_admin-Manned :
    (c : Crypto) (k : Call) (email password : String) (db : Db)
    → Manned (new_admin c k email password db)
unfolding new_admin
new_admin-Manned c k email password db =
    admin_password-Manned c k email (if password == "" then k.random else some password) db

empty_or_not :
    {A : Type 0} (xs : List A) → (xs ≡ []) ⊎ ((x : A) × (rest : List A) × (xs ≡ x ∷ rest))
empty_or_not [] = inl refl
empty_or_not (x ∷ rest) = inr (x, rest, refl)

bootstrap_admin-Manned :
    (c : Crypto) (k : Call) (email password : String) (db : Db)
    → Manned (bootstrap_admin c k email password db)
unfolding bootstrap_admin
bootstrap_admin-Manned c k email password db =
    if_cases Manned (k.fails 0) _ _ (λ _. nobody-Manned db)
      (λ _. elim (empty_or_not db.users) [
        | inl e ↦ rw e (new_admin-Manned c k email password db)
        | inr (u, us, e) ↦ rw e (record { some_user = λ ok. rw e refl })
      ])

module _ (exec : String → Db → Option Db) (c : Crypto) (cfg : Config) (down : Service → Bool)
    (wanted : List String) where
  -- What a start that serves leaves.
  record Serves (r : Option Service × Applied exec) : Type 0 where
    serves :
        r.0 ≡ none
        → (pending wanted r.1.1 ≡ [])
          × (is_empty r.1.0.users ≡ false)
          × All (Supplied r.1.0) r.1.0.tenants

  gives_up : (s : Service) (db : Applied exec) → Serves (some s, db)
  gives_up s db = record { serves = λ e. absurd (cc) }

  with_types-Serves :
      (names : List String) (db : Db) (r : Bool × Db)
      → pending wanted names ≡ []
      → is_empty db.users ≡ false
      → Keeps db r
      → (r.0 ≡ true → All (Supplied r.1) db.tenants)
      → Serves (with_types exec c cfg down names r)
  unfolding with_types
  with_types-Serves names db (false, x) none_left manned kept supplied =
      gives_up block_types (x, names)
  with_types-Serves names db (true, x) none_left manned kept supplied = record {
    serves = λ _. (none_left, rw (kept.users) manned, rw (kept.tenants) (supplied refl));
  }

  with_account-Serves :
      (fails : ℕ → Bool) (ids : ℕ → String) (now : ℕ) (names : List String) (r : Bool × Db)
      → pending wanted names ≡ []
      → Manned r
      → Serves (with_account exec c cfg down fails ids now names r)
  unfolding with_account
  with_account-Serves fails ids now names (false, db) none_left manned =
      gives_up first_account (db, names)
  with_account-Serves fails ids now names (true, db) none_left manned =
      with_types-Serves names db (backfill_section_types fails ids now db) none_left
        (manned.some_user refl) (backfill-Keeps fails ids now db)
        (backfill_section_types-Supplied fails ids now db)

  connected-Serves :
      (k : Call) (fails : ℕ → Bool) (ids : ℕ → String) (r : Bool × Applied exec)
      → (r.0 ≡ true → pending wanted r.1.1 ≡ [])
      → Serves (connected exec c cfg down k fails ids r)
  unfolding connected
  connected-Serves k fails ids (false, db) none_left = gives_up database db
  connected-Serves k fails ids (true, db) none_left =
      if_cases Serves (not (cfg.redis_addr == "") && down redis) _ _ (λ _. gives_up redis db)
        (λ _.
          if_cases Serves (not (cfg.s3_bucket == "") && down s3) _ _ (λ _. gives_up s3 db)
            (λ _.
              if_cases Serves (cfg.s3_bucket == "" && down local_media) _ _
                (λ _. gives_up local_media db)
                (λ _.
                  with_account-Serves fails ids k.now db.1
                    (bootstrap_admin c k cfg.admin_email cfg.admin_password db.0) (none_left refl)
                    (bootstrap_admin-Manned c k cfg.admin_email cfg.admin_password db.0))))

-- When the server comes to serve, whatever the tables and the recorded migrations were before and
-- whatever failed, every migration file is recorded, there is a user, and every tenant has a block
-- type. The names of the files are different.
pub start_ready :
    (exec : String → Db → Option Db) (c : Crypto) (cfg : Config) (down : Service → Bool)
    (migration : Start) (files : Dict String) (k : Call) (fails : ℕ → Bool) (ids : ℕ → String)
    (db : Applied exec)
    → Once (migration_names files)
    → (start exec c cfg down migration files k fails ids db).0 ≡ none
    → let after = (start exec c cfg down migration files k fails ids db).1 in
      (pending (migration_names files) after.1 ≡ [])
      × (is_empty after.0.users ≡ false)
      × All (Supplied after.0) after.0.tenants
unfolding start
start_ready exec c cfg down migration files k fails ids db once =
    (if_cases (Serves exec c cfg down (migration_names files)) (down database) _ _
      (λ _. gives_up exec c cfg down (migration_names files) database db)
      (λ _.
        connected-Serves exec c cfg down (migration_names files) k fails ids
          (migrate exec migration.0 migration.1 files db)
          (migrate_complete exec files migration db once))).serves
