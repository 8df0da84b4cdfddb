-- ===== src/Http/Invariant/Archive.antt =====
-- Archiving a block type takes no section's type away.
use ai_website_builder.Common.{
  String, Bool, true, false, ◌&&◌, ◌==◌, ◌≡◌, refl, sym, ◌⊎◌, subst, none, some, [], ◌∷◌, All-map,
  find?, update_rows, arith, eq_iff, Option-cases, inl, inr,
}
use ai_website_builder.Common.Tables.{
  AtMostOne, any-false, find?_sound, found_unique, All-update_rows, All-pure, All-zip,
  Apart-update_rows_same, AtMostOne-ids, any-update_rows,
}
use ai_website_builder.Models.Json.{str}
use ai_website_builder.Db.{Db, Section, SectionType, record_audit}
use ai_website_builder.Http.SectionTypes.{
  is_active_row, archived, in_use, handle_archive_section_type,
}
use ai_website_builder.Http.Reply.{Request, AuthInfo}
use ai_website_builder.Http.Invariant.{
  IsSound, same_type, same_key, type_of, IsTyped, record_audit-IsSound,
}

module _ (req : Request) (ai : AuthInfo) (db : Db) (sound : IsSound db) where
  abbrev pub is_row : String → SectionType → Bool
  is_row id r = r.id == id && r.tenant_id == ai.tenant_id

  one_type : (id : String) → AtMostOne (is_row id) db.section_types
  one_type id =
      AtMostOne-ids same_type _ db.section_types
        (λ x y s t. ground (arith, s, t, eq_iff x.id id, eq_iff y.id id, eq_iff x.id y.id))
        sound.type_ids

  -- A section of the type of a row of this tenant is found by the usage count.
  uses_type :
      (id : String) (s : Section) (t : SectionType)
      → (s.tenant_id == ai.tenant_id && s.section_type == t.type_key) ≡ false
      → is_active_row id ai.tenant_id t ≡ true
      → type_of s t ≡ true
      → ⊥
  uses_type id s t free hit typed = ground (
    arith,
    eq_iff t.tenant_id ai.tenant_id,
    eq_iff t.tenant_id s.tenant_id,
    eq_iff s.tenant_id ai.tenant_id,
    eq_iff t.type_key s.section_type,
    eq_iff s.section_type t.type_key,
  )

  -- A section that has its type before has it after: the archived type is used by none.
  keeps_type :
      (id : String) (t : SectionType) (s : Section)
      → find? (is_active_row id ai.tenant_id) db.section_types ≡ some t
      → (s.tenant_id == ai.tenant_id && s.section_type == t.type_key) ≡ false
      → IsTyped db.section_types s
      → IsTyped (update_rows (is_row id) (archived req.now) db.section_types) s
  keeps_type id t s found free h =
      let hit =
        find?_sound (λ y. Unit {0}) (is_active_row id ai.tenant_id) db.section_types t
          (All-pure _ (λ y. tt) db.section_types) found in
      any-update_rows (type_of s) _ _ db.section_types
        (All-map _ _
          (λ y only picked typed. absurd (uses_type id s t free hit.1 (rw (only picked) at typed)))
          db.section_types
          (found_unique (is_row id) (is_active_row id ai.tenant_id) db.section_types t
            (λ y q. ground (arith, q)) (one_type id) found))
        h

  archived-IsSound :
      (id : String) (t : SectionType)
      → find? (is_active_row id ai.tenant_id) db.section_types ≡ some t
      → in_use ai.tenant_id t.type_key db.sections ≡ false
      → IsSound (record db {
        section_types = update_rows (is_row id) (archived req.now) db.section_types;
      })
  unfolding in_use
  archived-IsSound id t found free = record {
    page_ids = sound.page_ids;
    page_slugs = sound.page_slugs;
    housed = sound.housed;
    valid_slugs = sound.valid_slugs;
    type_ids =
        Apart-update_rows_same same_type _ _ db.section_types (λ x y. refl) (λ x y. refl)
          sound.type_ids;
    type_keys =
        Apart-update_rows_same same_key _ _ db.section_types (λ x y. refl) (λ x y. refl)
          sound.type_keys;
    schemas =
        All-update_rows _ _ _ db.section_types sound.schemas
          (All-pure _ (λ r s old. old) db.section_types);
    typed =
        All-zip _ _ _ (λ s free' h. keeps_type id t s found free' h) db.sections
          (any-false _ db.sections free) sound.typed;
  }

  pub archive_missing :
      (id : String)
      → find? (is_active_row id ai.tenant_id) db.section_types ≡ none
      → (handle_archive_section_type req ai id db).1 ≡ db
  unfolding handle_archive_section_type
  archive_missing id e = ground (arith, e)

  pub archive_found :
      (id : String) (t : SectionType)
      → find? (is_active_row id ai.tenant_id) db.section_types ≡ some t
      → ((handle_archive_section_type req ai id db).1 ≡ db)
        ⊎ ((in_use ai.tenant_id t.type_key db.sections ≡ false)
            × ((handle_archive_section_type req ai id db).1
                ≡ record_audit
                    (req.fails 3)
                    req.now
                    ai.tenant_id
                    ai.user_id
                    "section_type.archived"
                    "section_type"
                    id
                    (("type_key", str t.type_key) ∷ [])
                    (record db {
                      section_types = update_rows (is_row id) (archived req.now) db.section_types;
                    })))
  unfolding handle_archive_section_type
  archive_found id t e = ground (arith, e)

  pub archive_section_type-IsSound :
      (id : String) → IsSound (handle_archive_section_type req ai id db).1
  archive_section_type-IsSound id =
      elim (Option-cases (find? (is_active_row id ai.tenant_id) db.section_types)) [
        | inl e ↦ subst IsSound (sym (archive_missing id e)) sound
        | inr (t, found) ↦ elim (archive_found id t found) [
          | inl same ↦ subst IsSound (sym same) sound
          | inr (free, e) ↦
              subst IsSound (sym e)
                (record_audit-IsSound _ _ _ _ _ _ _ _ _ (archived-IsSound id t found free))
        ]
      ]
