-- ===== src/Http/Invariant/SectionTypes.antt =====
-- The handlers of block types keep the tables sound: keys stay unique, schemas valid, and no
-- section loses its type.
use ai_website_builder.Common.{
  String, false, ◌≡◌, refl, sym, ◌⊎◌, subst, Option, none, some, [], ◌∷◌, ◌++◌, All-append, All-map,
  find?, update_rows, arith, Option-cases, inl, inr,
}
use ai_website_builder.Common.Tables.{
  any-false, All-update_rows, All-pure, Apart-append, Apart-update_rows_same, any-append,
  any-update_rows,
}
use ai_website_builder.Models.Json.{str}
use ai_website_builder.Models.Schema.{ok, err, Checked, validate_schema}
use ai_website_builder.Db.{Db, SectionType, record_audit}
use ai_website_builder.Http.SectionTypes.{
  SectionTypeRequest, layout_of, new_section_type, key_taken, type_id_taken, is_active_row,
  updated_section_type, handle_create_section_type, handle_update_section_type,
}
use ai_website_builder.Http.Reply.{Request, AuthInfo}
use ai_website_builder.Http.Invariant.{IsSound, same_type, same_key, type_of, record_audit-IsSound}

module _ (req : Request) (ai : AuthInfo) (db : Db) (sound : IsSound db) where
  created-IsSound :
      (body : SectionTypeRequest)
      → key_taken ai.tenant_id body.type_key db.section_types ≡ false
      → type_id_taken req.new_id db.section_types ≡ false
      → validate_schema body.fields (layout_of body.layout) ≡ ok tt
      → IsSound
          (record db { section_types = db.section_types ++ new_section_type req ai body ∷ [] })
  unfolding key_taken type_id_taken
  created-IsSound body free fresh valid = record {
    page_ids = sound.page_ids;
    page_slugs = sound.page_slugs;
    housed = sound.housed;
    valid_slugs = sound.valid_slugs;
    type_ids =
        Apart-append same_type db.section_types _ sound.type_ids
          (any-false _ db.section_types fresh);
    type_keys =
        Apart-append same_key db.section_types _ sound.type_keys
          (any-false _ db.section_types free);
    schemas = All-append _ db.section_types _ sound.schemas (valid, tt);
    typed =
        All-map _ _ (λ s t. any-append (type_of s) db.section_types _ t) db.sections sound.typed;
  }

  pub create_cases :
      (body : SectionTypeRequest)
      → validate_schema body.fields (layout_of body.layout) ≡ ok tt
      → ((handle_create_section_type req ai (some body) db).1 ≡ db)
        ⊎ ((key_taken ai.tenant_id body.type_key db.section_types ≡ false)
            × (type_id_taken req.new_id db.section_types ≡ false)
            × ((handle_create_section_type req ai (some body) db).1
                ≡ record_audit
                    (req.fails 1)
                    req.now
                    ai.tenant_id
                    ai.user_id
                    "section_type.created"
                    "section_type"
                    req.new_id
                    (("type_key", str body.type_key) ∷ [])
                    (record db {
                      section_types = db.section_types ++ new_section_type req ai body ∷ [];
                    })))
  unfolding handle_create_section_type
  create_cases body v = ground (arith, v)

  create_refused :
      (body : SectionTypeRequest)
      → (r : Checked (Unit {0})) → validate_schema body.fields (layout_of body.layout) ≡ r
      → IsSound (handle_create_section_type req ai (some body) db).1
  create_refused body (err e) v =
      let same : (handle_create_section_type req ai (some body) db).1 ≡ db =
        unfold handle_create_section_type in ground (arith, v) in
      subst IsSound (sym same) sound
  create_refused body (ok u) v = elim (create_cases body v) [
    | inl same ↦ subst IsSound (sym same) sound
    | inr (free, fresh, e) ↦
        subst IsSound (sym e)
          (record_audit-IsSound _ _ _ _ _ _ _ _ _ (created-IsSound body free fresh v))
  ]

  pub create_section_type-IsSound :
      (body : Option SectionTypeRequest) → IsSound (handle_create_section_type req ai body db).1
  create_section_type-IsSound none = unfold handle_create_section_type in sound
  create_section_type-IsSound (some body) = create_refused body _ refl

  updated-IsSound :
      (id : String) (body : SectionTypeRequest)
      → validate_schema body.fields (layout_of body.layout) ≡ ok tt
      → IsSound (record db {
        section_types =
            update_rows
              (is_active_row id ai.tenant_id)
              (updated_section_type req.now body)
              db.section_types;
      })
  updated-IsSound id body v = record {
    page_ids = sound.page_ids;
    page_slugs = sound.page_slugs;
    housed = sound.housed;
    valid_slugs = sound.valid_slugs;
    type_ids =
        Apart-update_rows_same same_type _ _ db.section_types (λ x y. refl) (λ x y. refl)
          sound.type_ids;
    type_keys =
        Apart-update_rows_same same_key _ _ db.section_types (λ x y. refl) (λ x y. refl)
          sound.type_keys;
    schemas =
        All-update_rows _ _ _ db.section_types sound.schemas
          (All-pure _ (λ t s old. v) db.section_types);
    typed =
        All-map _ _
          (λ s t.
            any-update_rows (type_of s) _ _ db.section_types
              (All-pure _ (λ y p q. q) db.section_types) t)
          db.sections sound.typed;
  }

  pub update_missing :
      (id : String) (body : SectionTypeRequest)
      → validate_schema body.fields (layout_of body.layout) ≡ ok tt
      → find? (is_active_row id ai.tenant_id) db.section_types ≡ none
      → (handle_update_section_type req ai id (some body) db).1 ≡ db
  unfolding handle_update_section_type
  update_missing id body v e = ground (arith, v, e)

  pub update_found :
      (id : String) (body : SectionTypeRequest) (t : SectionType)
      → validate_schema body.fields (layout_of body.layout) ≡ ok tt
      → find? (is_active_row id ai.tenant_id) db.section_types ≡ some t
      → ((handle_update_section_type req ai id (some body) db).1 ≡ db)
        ⊎ ((handle_update_section_type req ai id (some body) db).1
            ≡ record_audit
                (req.fails 1)
                req.now
                ai.tenant_id
                ai.user_id
                "section_type.updated"
                "section_type"
                t.id
                (("type_key", str t.type_key) ∷ [])
                (record db {
                  section_types =
                      update_rows
                        (is_active_row id ai.tenant_id)
                        (updated_section_type req.now body)
                        db.section_types;
                }))
  unfolding handle_update_section_type
  update_found id body t v e = ground (arith, v, e)

  update_refused :
      (id : String) (body : SectionTypeRequest)
      → (r : Checked (Unit {0})) → validate_schema body.fields (layout_of body.layout) ≡ r
      → IsSound (handle_update_section_type req ai id (some body) db).1
  update_refused id body (err e) v =
      let same : (handle_update_section_type req ai id (some body) db).1 ≡ db =
        unfold handle_update_section_type in ground (arith, v) in
      subst IsSound (sym same) sound
  update_refused id body (ok u) v =
      elim (Option-cases (find? (is_active_row id ai.tenant_id) db.section_types)) [
        | inl e ↦ subst IsSound (sym (update_missing id body v e)) sound
        | inr (t, found) ↦ elim (update_found id body t v found) [
          | inl same ↦ subst IsSound (sym same) sound
          | inr e ↦
              subst IsSound (sym e)
                (record_audit-IsSound _ _ _ _ _ _ _ _ _ (updated-IsSound id body v))
        ]
      ]

  pub update_section_type-IsSound :
      (id : String) (body : Option SectionTypeRequest)
      → IsSound (handle_update_section_type req ai id body db).1
  update_section_type-IsSound id none = unfold handle_update_section_type in sound
  update_section_type-IsSound id (some body) = update_refused id body _ refl
