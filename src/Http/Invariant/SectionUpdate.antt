-- ===== src/Http/Invariant/SectionUpdate.antt =====
-- An update of a section keeps its type and its page.
use ai_website_builder.Common.{
  String, true, false, ◌≡◌, refl, sym, ◌⊎◌, subst, Option, none, some, [], find?, update_rows,
  arith, Option-cases, Bool-cases, inl, inr,
}
use ai_website_builder.Common.Tables.{All-update_rows, All-pure}
use ai_website_builder.Models.Json.{Raw}
use ai_website_builder.Models.Schema.{FieldSpecs}
use ai_website_builder.Models.Content.{normalize_content}
use ai_website_builder.Db.{Db, Section, record_audit}
use ai_website_builder.Http.SectionTypes.{section_type_fields}
use ai_website_builder.Http.Sections.{
  SectionUpdate, updated_section, is_blank, is_section, handle_update_section,
}
use ai_website_builder.Http.Reply.{Request, AuthInfo}
use ai_website_builder.Http.Invariant.{IsSound, with_sections, record_audit-IsSound}

module _ (req : Request) (ai : AuthInfo) (db : Db) (sound : IsSound db) where
  -- An update of any content and status keeps type and tenant.
  updated-IsSound :
      (id : String) (content : Option Raw) (status : Option String)
      → IsSound (record db {
        sections =
            update_rows
              (is_section id ai.tenant_id)
              (updated_section req.now content status)
              db.sections;
      })
  updated-IsSound id content status =
      with_sections db _ sound
        (All-update_rows _ _ _ db.sections sound.typed (All-pure _ (λ s p h. h) db.sections))
        (All-update_rows _ _ _ db.sections sound.housed (All-pure _ (λ s p h. h) db.sections))

  -- An update is refused, or it stores this content.
  abbrev pub Stores : String → SectionUpdate → Option Raw → Type 0
  Stores id u content =
      ((handle_update_section req ai id (some u) db).1 ≡ db)
      ⊎ ((handle_update_section req ai id (some u) db).1
          ≡ record_audit (req.fails 3) req.now ai.tenant_id ai.user_id "section.updated" "section"
              id []
              (record db {
                sections =
                    update_rows (is_section id ai.tenant_id)
                      (updated_section req.now content u.status) db.sections;
              }))

  Stores-IsSound :
      (id : String) (u : SectionUpdate) (content : Option Raw)
      → Stores id u content
      → IsSound (handle_update_section req ai id (some u) db).1
  Stores-IsSound id u content (inl same) = subst IsSound (sym same) sound
  Stores-IsSound id u content (inr e) =
      subst IsSound (sym e)
        (record_audit-IsSound _ _ _ _ _ _ _ _ _ (updated-IsSound id content u.status))

  Stores-status : (id : String) (u : SectionUpdate) → is_blank u.content ≡ true → Stores id u none
  unfolding handle_update_section
  Stores-status id u b = ground (arith, b)

  Stores-missing :
      (id : String) (u : SectionUpdate)
      → is_blank u.content ≡ false
      → find? (is_section id ai.tenant_id) db.sections ≡ none
      → Stores id u none
  unfolding handle_update_section
  Stores-missing id u b e = ground (arith, b, e)

  Stores-raw :
      (id : String) (u : SectionUpdate) (s : Section)
      → is_blank u.content ≡ false
      → find? (is_section id ai.tenant_id) db.sections ≡ some s
      → section_type_fields (req.fails 1) ai.tenant_id s.section_type db ≡ none
      → Stores id u (some u.content)
  unfolding handle_update_section
  Stores-raw id u s b e n = ground (arith, b, e, n)

  Stores-refused :
      (id : String) (u : SectionUpdate) (s : Section) (fs : FieldSpecs)
      → is_blank u.content ≡ false
      → find? (is_section id ai.tenant_id) db.sections ≡ some s
      → section_type_fields (req.fails 1) ai.tenant_id s.section_type db ≡ some fs
      → normalize_content fs u.content ≡ none
      → Stores id u none
  unfolding handle_update_section
  Stores-refused id u s fs b e f n = ground (arith, b, e, f, n)

  Stores-normalized :
      (id : String) (u : SectionUpdate) (s : Section) (fs : FieldSpecs) (content : Raw)
      → is_blank u.content ≡ false
      → find? (is_section id ai.tenant_id) db.sections ≡ some s
      → section_type_fields (req.fails 1) ai.tenant_id s.section_type db ≡ some fs
      → normalize_content fs u.content ≡ some content
      → Stores id u (some content)
  unfolding handle_update_section
  Stores-normalized id u s fs content b e f n = ground (arith, b, e, f, n)

  pub update_section-Stores :
      (id : String) (u : SectionUpdate) → (content : Option Raw) × Stores id u content
  update_section-Stores id u = elim (Bool-cases (is_blank u.content)) [
    | inl b ↦ (none, Stores-status id u b)
    | inr b ↦ elim (Option-cases (find? (is_section id ai.tenant_id) db.sections)) [
      | inl e ↦ (none, Stores-missing id u b e)
      | inr (s, e) ↦
          elim (Option-cases (section_type_fields (req.fails 1) ai.tenant_id s.section_type db)) [
            | inl n ↦ (some u.content, Stores-raw id u s b e n)
            | inr (fs, f) ↦ elim (Option-cases (normalize_content fs u.content)) [
              | inl n ↦ (none, Stores-refused id u s fs b e f n)
              | inr (content, n) ↦ (some content, Stores-normalized id u s fs content b e f n)
            ]
          ]
    ]
  ]

  pub update_section-IsSound :
      (id : String) (body : Option SectionUpdate)
      → IsSound (handle_update_section req ai id body db).1
  update_section-IsSound id none =
      let same : (handle_update_section req ai id none db).1 ≡ db =
        unfold handle_update_section in refl in
      subst IsSound (sym same) sound
  update_section-IsSound id (some u) =
      let (content, stored) = update_section-Stores id u in Stores-IsSound id u content stored
