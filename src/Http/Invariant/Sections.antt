-- ===== src/Http/Invariant/Sections.antt =====
-- The handlers of sections keep the tables sound: a section is created under an active block type
-- and never changes its type.
use ai_website_builder.Common.{
  ℕ, String, Bool, true, not, ◌&&◌, ◌==◌, ◌≡◌, refl, sym, ◌⊎◌, subst, Option, none, some, List, [],
  ◌∷◌, ◌++◌, All-append, All-where_rows, any, find?, where_rows, arith, Option-cases, Bool-cases,
  inl, inr,
}
use ai_website_builder.Common.Tables.{All-update_rows, All-pure}
use ai_website_builder.Models.Json.{Raw, str}
use ai_website_builder.Models.Schema.{FieldSpecs}
use ai_website_builder.Models.Content.{normalize_content}
use ai_website_builder.Db.{Db, Section, record_audit}
use ai_website_builder.Http.SectionTypes.{section_type_fields, is_active}
use ai_website_builder.Http.Sections.{
  page_in_tenant, SectionRequest, new_section, is_section, place_section, handle_create_section,
  handle_delete_section, handle_reorder_sections, reorder_sections,
}
use ai_website_builder.Http.Pages.{position, is_page}
use ai_website_builder.Http.Reply.{Request, AuthInfo}
use ai_website_builder.Http.Invariant.{
  IsSound, IsHoused, with_sections, IsTyped, record_audit-IsSound,
}

any-found :
    {A : Type 0} (p : A → Bool) (xs : List A) (x : A) → find? p xs ≡ some x → any p xs ≡ true
any-found p [] x e = absurd (cc)
any-found p (y ∷ ys) x e = elim (Bool-cases (p y)) [
  | inl t ↦ rw t refl
  | inr n ↦ rw n (any-found p ys x (rw n at e))
]

module _ (req : Request) (ai : AuthInfo) (db : Db) (sound : IsSound db) where
  -- The lookup of a schema finds an active type.
  fields-typed :
      (fails : Bool) (tenant type_key : String) (fs : FieldSpecs)
      → section_type_fields fails tenant type_key db ≡ some fs
      → any (λ t. is_active tenant t && t.type_key == type_key) db.section_types ≡ true
  unfolding section_type_fields
  fields-typed fails tenant type_key fs e =
      elim (Option-cases
        (find? (λ t. is_active tenant t && t.type_key == type_key) db.section_types)) [
          | inl n ↦ absurd (ground (arith, e, n))
          | inr (t, found) ↦ any-found _ db.section_types t found
        ]

  page-IsHoused :
      (page_id : String)
      → page_in_tenant (req.fails 0) page_id ai.tenant_id db ≡ true
      → any (is_page page_id ai.tenant_id) db.pages ≡ true
  unfolding page_in_tenant
  page-IsHoused page_id there = ground (arith, there)

  inserted-IsSound :
      (page_id type_key : String) (fs : FieldSpecs) (content : Raw)
      → section_type_fields (req.fails 1) ai.tenant_id type_key db ≡ some fs
      → page_in_tenant (req.fails 0) page_id ai.tenant_id db ≡ true
      → IsSound (record db {
        sections = db.sections ++ new_section req ai page_id type_key content db ∷ [];
      })
  inserted-IsSound page_id type_key fs content e there =
      with_sections db _ sound
        (All-append _ db.sections _ sound.typed
          (fields-typed (req.fails 1) ai.tenant_id type_key fs e, tt))
        (All-append _ db.sections _ sound.housed (page-IsHoused page_id there, tt))

  pub create_found :
      (page_id : String) (body : SectionRequest) (fs : FieldSpecs) (content : Raw)
      → section_type_fields (req.fails 1) ai.tenant_id body.section_type db ≡ some fs
      → normalize_content fs body.content ≡ some content
      → ((handle_create_section req ai page_id (some body) db).1 ≡ db)
        ⊎ ((page_in_tenant (req.fails 0) page_id ai.tenant_id db ≡ true)
            × ((handle_create_section req ai page_id (some body) db).1
                ≡ record_audit
                    (req.fails 3)
                    req.now
                    ai.tenant_id
                    ai.user_id
                    "section.created"
                    "section"
                    req.new_id
                    (("type", str body.section_type) ∷ [])
                    (record db {
                      sections =
                          db.sections
                          ++ new_section req ai page_id body.section_type content db ∷ [];
                    })))
  unfolding handle_create_section
  create_found page_id body fs content e n = ground (arith, e, n)

  create_with :
      (page_id : String) (body : SectionRequest) (o : Option FieldSpecs)
      → section_type_fields (req.fails 1) ai.tenant_id body.section_type db ≡ o
      → IsSound (handle_create_section req ai page_id (some body) db).1
  create_with page_id body none e =
      let same : (handle_create_section req ai page_id (some body) db).1 ≡ db =
        unfold handle_create_section in ground (arith, e) in
      subst IsSound (sym same) sound
  create_with page_id body (some fs) e = elim (Option-cases (normalize_content fs body.content)) [
    | inl n ↦
        let same : (handle_create_section req ai page_id (some body) db).1 ≡ db =
          unfold handle_create_section in ground (arith, e, n) in
        subst IsSound (sym same) sound
    | inr (content, n) ↦ elim (create_found page_id body fs content e n) [
      | inl same ↦ subst IsSound (sym same) sound
      | inr (there, e') ↦ subst IsSound (sym e') (
          record_audit-IsSound _ _ _ _ _ _ _ _ _
            (inserted-IsSound page_id body.section_type fs content e there))
    ]
  ]

  pub create_section-IsSound :
      (page_id : String) (body : Option SectionRequest)
      → IsSound (handle_create_section req ai page_id body db).1
  create_section-IsSound page_id none =
      let same : (handle_create_section req ai page_id none db).1 ≡ db =
        unfold handle_create_section in ground arith in
      subst IsSound (sym same) sound
  create_section-IsSound page_id (some body) = create_with page_id body _ refl

  deleted-IsSound :
      (id : String)
      → IsSound (record db {
        sections = where_rows (λ s. not (is_section id ai.tenant_id s)) db.sections;
      })
  deleted-IsSound id =
      with_sections db _ sound (All-where_rows _ _ db.sections sound.typed)
        (All-where_rows _ _ db.sections sound.housed)

  pub delete_cases :
      (id : String)
      → ((handle_delete_section req ai id db).1 ≡ db)
        ⊎ ((handle_delete_section req ai id db).1
            ≡ record_audit
                (req.fails 1)
                req.now
                ai.tenant_id
                ai.user_id
                "section.deleted"
                "section"
                id
                []
                (record db {
                  sections = where_rows (λ s. not (is_section id ai.tenant_id s)) db.sections;
                }))
  unfolding handle_delete_section
  delete_cases id = ground arith

  pub delete_section-IsSound : (id : String) → IsSound (handle_delete_section req ai id db).1
  delete_section-IsSound id = elim (delete_cases id) [
    | inl same ↦ subst IsSound (sym same) sound
    | inr e ↦ subst IsSound (sym e) (record_audit-IsSound _ _ _ _ _ _ _ _ _ (deleted-IsSound id))
  ]

  placed-IsTyped :
      (s : Section) (o : Option ℕ)
      → IsTyped db.section_types s
      → IsTyped db.section_types (place_section req.now s o)
  placed-IsTyped s none h = h
  placed-IsTyped s (some n) h = h

  placed-IsHoused :
      (s : Section) (o : Option ℕ)
      → IsHoused db.pages s
      → IsHoused db.pages (place_section req.now s o)
  placed-IsHoused s none h = h
  placed-IsHoused s (some n) h = h

  pub reorder_sections-IsSound :
      (page_id : String) (body : Option (List String))
      → IsSound (handle_reorder_sections req ai page_id body db).1
  unfolding handle_reorder_sections
  reorder_sections-IsSound page_id none = sound
  reorder_sections-IsSound page_id (some []) = sound
  reorder_sections-IsSound page_id (some (id ∷ ids)) = elim (Bool-cases (req.fails 0)) [
    | inl down ↦ rw (down, reorder_sections) sound
    | inr up ↦
        rw (up, reorder_sections)
          (with_sections db _ sound
            (All-update_rows _ _ _ db.sections sound.typed
              (All-pure _ (λ s p h. placed-IsTyped s (position s.id (id ∷ ids)) h) db.sections))
            (All-update_rows _ _ _ db.sections sound.housed
              (All-pure _ (λ s p h. placed-IsHoused s (position s.id (id ∷ ids)) h) db.sections)))
  ]
