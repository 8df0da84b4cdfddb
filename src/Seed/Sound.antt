-- ===== src/Seed/Sound.antt =====
-- Seeding keeps the tables sound, and gives every tenant the library (internal/db/seed.go).
use ai_website_builder.Common.{
  ℕ, suc, ◌+◌, String, Bool, true, false, not, ◌&&◌, ◌==◌, ◌≡◌, refl, sym, ◌∙◌, ap, List, [], ◌∷◌,
  ◌++◌, All, All-append, All-map, any, arith, eq_iff, Bool-cases, inl, inr, subst, where_rows,
  is_empty,
}
use ai_website_builder.Common.Tables.{any-false, Apart-append, any-append}
use ai_website_builder.Models.Schema
use ai_website_builder.Models.Schema.{validate_schema}
use ai_website_builder.Db.{Db, SectionType, Tenant}
use ai_website_builder.Http.SectionTypes.{key_taken, type_id_taken}
use ai_website_builder.Http.Invariant.{IsSound, HasSchema, same_type, same_key, type_of}
use ai_website_builder.Seed.{
  starter_section_types, seeded, insert_type, seed_types, seed_section_types, unseeded,
  seed_tenants, backfill_section_types,
}

-- Every schema of the library passes ValidateSchema.
starter-HasSchema : All HasSchema starter_section_types
unfolding validate_schema Schema.contains Schema.key_matches
starter-HasSchema = (refl, (refl, (refl, (refl, (refl, (refl, (refl, (refl, (refl, tt)))))))))

insert_type-IsSound :
    (fails : Bool) (now : ℕ) (id tenant : String) (st : SectionType) (db : Db)
    → HasSchema st
    → IsSound db
    → IsSound (insert_type fails now id tenant st db).1
unfolding insert_type
insert_type-IsSound fails now id tenant st db v sound = elim (Bool-cases fails) [
  | inl down ↦ rw down sound
  | inr up ↦ elim (Bool-cases (key_taken tenant st.type_key db.section_types)) [
    | inl there ↦ rw (up, there) sound
    | inr free ↦ elim (Bool-cases (type_id_taken id db.section_types)) [
      | inl clash ↦ rw (up, free, clash) sound
      | inr fresh ↦ rw (up, free, fresh) (appended free fresh)
    ]
  ]
]
  where
    appended :
        key_taken tenant st.type_key db.section_types ≡ false
        → type_id_taken id db.section_types ≡ false
        → IsSound (record db { section_types = db.section_types ++ seeded now id tenant st ∷ [] })
    appended free fresh =
        unfold key_taken in
        unfold type_id_taken in
        record {
          page_ids = sound.page_ids;
          page_slugs = sound.page_slugs;
          valid_slugs = sound.valid_slugs;
          type_ids =
              Apart-append same_type db.section_types _ sound.type_ids
                (any-false _ db.section_types fresh);
          type_keys =
              Apart-append same_key db.section_types _ sound.type_keys
                (any-false _ db.section_types free);
          schemas = All-append _ db.section_types _ sound.schemas (v, tt);
          typed =
              All-map _ _ (λ s t. any-append (type_of s) db.section_types _ t) db.sections
                sound.typed;
          housed = sound.housed;
        }

seed_types-IsSound :
    (fails : ℕ → Bool) (ids : ℕ → String) (now n : ℕ) (tenant : String) (sts : List SectionType)
    (db : Db)
    → All HasSchema sts
    → IsSound db
    → IsSound (seed_types fails ids now n tenant sts db).1
unfolding seed_types
seed_types-IsSound fails ids now n tenant [] db v sound = sound
seed_types-IsSound fails ids now n tenant (st ∷ sts) db v sound =
    let one = insert_type-IsSound (fails n) now (ids n) tenant st db v.0 sound in
    elim (Bool-cases (insert_type (fails n) now (ids n) tenant st db).0) [
      | inl ok ↦ rw ok (seed_types-IsSound fails ids now (suc n) tenant sts _ v.1 one)
      | inr bad ↦ rw bad one
    ]

seed_tenants-IsSound :
    (fails : ℕ → Bool) (ids : ℕ → String) (now n : ℕ) (ts : List Tenant) (db : Db)
    → IsSound db
    → IsSound (seed_tenants fails ids now n ts db).1
unfolding seed_tenants seed_section_types
seed_tenants-IsSound fails ids now n [] db sound = sound
seed_tenants-IsSound fails ids now n (t ∷ ts) db sound =
    let one =
      seed_types-IsSound fails ids now n t.id starter_section_types db starter-HasSchema sound in
    elim (Bool-cases (seed_types fails ids now n t.id starter_section_types db).0) [
      | inl ok ↦ rw ok (seed_tenants-IsSound fails ids now (n + 9) ts _ one)
      | inr bad ↦ rw bad one
    ]

-- The tenant has a block type.
abbrev pub Supplied : Db → Tenant → Type 0
Supplied db t = any (λ st. st.tenant_id == t.id) db.section_types ≡ true

insert_type-keeps :
    (q : SectionType → Bool) (fails : Bool) (now : ℕ) (id tenant : String) (st : SectionType)
    (db : Db)
    → any q db.section_types ≡ true
    → any q (insert_type fails now id tenant st db).1.section_types ≡ true
unfolding insert_type
insert_type-keeps q fails now id tenant st db h =
    ground (arith, any-append q db.section_types (seeded now id tenant st ∷ []) h)

any-map :
    {A : Type 0} (q q' : A → Bool) (xs : List A)
    → ((x : A) → q x ≡ true → q' x ≡ true)
    → any q xs ≡ true
    → any q' xs ≡ true
any-map q q' [] f h = absurd (cc)
any-map q q' (x ∷ xs) f h = elim (Bool-cases (q x)) [
  | inl t ↦ rw (f x t) refl
  | inr n ↦ ground (arith, any-map q q' xs f (rw n at h))
]

any-last :
    {A : Type 0} (q : A → Bool) (xs : List A) (z : A) → q z ≡ true → any q (xs ++ z ∷ []) ≡ true
any-last q [] z h = rw h refl
any-last q (x ∷ xs) z h = ground (arith, any-last q xs z h)

insert_type-Supplied :
    (fails : Bool) (now : ℕ) (id : String) (t : Tenant) (st : SectionType) (db : Db)
    → (insert_type fails now id t.id st db).0 ≡ true
    → Supplied (insert_type fails now id t.id st db).1 t
unfolding insert_type key_taken
insert_type-Supplied fails now id t st db h = ground (
  arith,
  any-map (λ r. r.tenant_id == t.id && r.type_key == st.type_key) (λ r. r.tenant_id == t.id)
      db.section_types (λ r k. ground (arith, k)),
  any-last (λ r. r.tenant_id == t.id) db.section_types (seeded now id t.id st)
      ((eq_iff t.id t.id).1 refl),
)

seed_types-keeps :
    (q : SectionType → Bool) (fails : ℕ → Bool) (ids : ℕ → String) (now n : ℕ) (tenant : String)
    (sts : List SectionType) (db : Db)
    → any q db.section_types ≡ true
    → any q (seed_types fails ids now n tenant sts db).1.section_types ≡ true
unfolding seed_types
seed_types-keeps q fails ids now n tenant [] db h = h
seed_types-keeps q fails ids now n tenant (st ∷ sts) db h =
    let one = insert_type-keeps q (fails n) now (ids n) tenant st db h in
    elim (Bool-cases (insert_type (fails n) now (ids n) tenant st db).0) [
      | inl ok ↦ rw ok (seed_types-keeps q fails ids now (suc n) tenant sts _ one)
      | inr bad ↦ rw bad one
    ]

seed_types-Supplied :
    (fails : ℕ → Bool) (ids : ℕ → String) (now n : ℕ) (t : Tenant) (sts : List SectionType)
    (db : Db)
    → is_empty sts ≡ false
    → (seed_types fails ids now n t.id sts db).0 ≡ true
    → Supplied (seed_types fails ids now n t.id sts db).1 t
unfolding seed_types
seed_types-Supplied fails ids now n t [] db some_type h = cc
seed_types-Supplied fails ids now n t (st ∷ sts) db some_type h =
    elim (Bool-cases (insert_type (fails n) now (ids n) t.id st db).0) [
      | inl ok ↦ rw ok (
          seed_types-keeps _ fails ids now (suc n) t.id sts _
            (insert_type-Supplied (fails n) now (ids n) t st db ok))
      | inr bad ↦ absurd (ground (arith, h, bad))
    ]

seed_tenants-keeps :
    (q : SectionType → Bool) (fails : ℕ → Bool) (ids : ℕ → String) (now n : ℕ) (ts : List Tenant)
    (db : Db)
    → any q db.section_types ≡ true
    → any q (seed_tenants fails ids now n ts db).1.section_types ≡ true
unfolding seed_tenants seed_section_types
seed_tenants-keeps q fails ids now n [] db h = h
seed_tenants-keeps q fails ids now n (t ∷ ts) db h =
    let one = seed_types-keeps q fails ids now n t.id starter_section_types db h in
    elim (Bool-cases (seed_types fails ids now n t.id starter_section_types db).0) [
      | inl ok ↦ rw ok (seed_tenants-keeps q fails ids now (n + 9) ts _ one)
      | inr bad ↦ rw bad one
    ]

seed_tenants-Supplied :
    (fails : ℕ → Bool) (ids : ℕ → String) (now n : ℕ) (ts : List Tenant) (db : Db)
    → (seed_tenants fails ids now n ts db).0 ≡ true
    → All (Supplied (seed_tenants fails ids now n ts db).1) ts
unfolding seed_tenants seed_section_types
seed_tenants-Supplied fails ids now n [] db h = tt
seed_tenants-Supplied fails ids now n (t ∷ ts) db h =
    let db1 = (seed_types fails ids now n t.id starter_section_types db).1 in
    elim (Bool-cases (seed_types fails ids now n t.id starter_section_types db).0) [
      | inl ok ↦
          let first = seed_types-Supplied fails ids now n t starter_section_types db refl ok in
          let e : seed_tenants fails ids now n (t ∷ ts) db
              ≡ seed_tenants fails ids now (n + 9) ts db1 =
            rw ok refl in
          subst (λ (out : Bool × Db). All (Supplied out.1) (t ∷ ts)) (sym e)
            (
              seed_tenants-keeps _ fails ids now (n + 9) ts db1 first,
              seed_tenants-Supplied fails ids now (n + 9) ts db1
                  (ap (λ (out : Bool × Db). out.0) (sym e) ∙ h),
            )
      | inr bad ↦ absurd (ground (arith, h, bad))
    ]

-- What holds of the rows that a test selects, and of the others anyway.
All-rest :
    {A : Type 0} (P : A → Type 0) (q : A → Bool) (xs : List A)
    → ((x : A) → q x ≡ true → P x)
    → All P (where_rows (λ x. not (q x)) xs)
    → All P xs
unfolding where_rows
All-rest P q [] f h = tt
All-rest P q (x ∷ xs) f h = elim (Bool-cases (q x)) [
  | inl t ↦ (f x t, All-rest P q xs f (rw t at h))
  | inr n ↦ let k = rw n at h in (k.0, All-rest P q xs f k.1)
]

-- Seeding at the start of the server keeps sound tables sound, whichever of its statements fail.
pub backfill_section_types-IsSound :
    (fails : ℕ → Bool) (ids : ℕ → String) (now : ℕ) (db : Db)
    → IsSound db
    → IsSound (backfill_section_types fails ids now db).1
unfolding backfill_section_types
backfill_section_types-IsSound fails ids now db sound = elim (Bool-cases (fails 0)) [
  | inl down ↦ rw down sound
  | inr up ↦ rw up (seed_tenants-IsSound fails ids now 1 (unseeded db) db sound)
]

-- When the seeding at the start of the server returns no error, every tenant has a block type.
pub backfill_section_types-Supplied :
    (fails : ℕ → Bool) (ids : ℕ → String) (now : ℕ) (db : Db)
    → (backfill_section_types fails ids now db).0 ≡ true
    → All (Supplied (backfill_section_types fails ids now db).1) db.tenants
unfolding backfill_section_types
backfill_section_types-Supplied fails ids now db h = elim (Bool-cases (fails 0)) [
  | inl down ↦ absurd (ground (arith, h, down))
  | inr up ↦
      let e : backfill_section_types fails ids now db
          ≡ seed_tenants fails ids now 1 (unseeded db) db =
        rw up refl in
      subst (λ (out : Bool × Db). All (Supplied out.1) db.tenants) (sym e)
        (All-rest _ (λ t. any (λ st. st.tenant_id == t.id) db.section_types) db.tenants
          (λ t there. seed_tenants-keeps _ fails ids now 1 (unseeded db) db there)
          (seed_tenants-Supplied fails ids now 1 (unseeded db) db
            (ap (λ (out : Bool × Db). out.0) (sym e) ∙ h)))
]

-- The seeding of one tenant keeps the tables sound.
pub seed_section_types-IsSound :
    (fails : ℕ → Bool) (ids : ℕ → String) (now n : ℕ) (tenant : String) (db : Db)
    → IsSound db
    → IsSound (seed_section_types fails ids now n tenant db).1
unfolding seed_section_types
seed_section_types-IsSound fails ids now n tenant db sound =
    seed_types-IsSound fails ids now n tenant starter_section_types db starter-HasSchema sound
