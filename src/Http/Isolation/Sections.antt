-- ===== src/Http/Isolation/Sections.antt =====
-- The handlers of sections leave the rows of other tenants alone.
use ai_website_builder.Common.{
  ℕ, String, ◌≡◌, refl, sym, Option, none, some, List, [], ◌∷◌, arith, Bool-cases, Option-cases,
  subst, inl, inr,
}
use ai_website_builder.Common.Tables.{All-pure}
use ai_website_builder.Models.Schema.{FieldSpecs}
use ai_website_builder.Models.Content.{normalize_content}
use ai_website_builder.Models.Json.{Raw}
use ai_website_builder.Db.{Db, Section}
use ai_website_builder.Http.Pages.{position}
use ai_website_builder.Http.SectionTypes.{section_type_fields}
use ai_website_builder.Http.Sections.{
  SectionRequest, SectionUpdate, place_section, reorder_sections, handle_create_section,
  handle_update_section, handle_delete_section, handle_reorder_sections,
}
use ai_website_builder.Http.Reply.{Request, AuthInfo}
use ai_website_builder.Http.Invariant.{IsSound}
use ai_website_builder.Http.Invariant.Sections.{create_found, delete_cases}
use ai_website_builder.Http.Invariant.SectionUpdate.{Stores, update_section-Stores}
use ai_website_builder.Http.Isolation.{
  IsIsolated, same-IsIsolated, unchanged, own, record_audit-IsIsolated, with_sections-IsIsolated,
  where_rows-append, where_rows-update_rows, where_rows-where_rows,
}

module _ (req : Request) (ai : AuthInfo) (db : Db) (sound : IsSound db) where
  abbrev Keeps : Db → Type 0
  Keeps = IsIsolated ai.tenant_id db

  created :
      (page_id : String) (body : SectionRequest) (o : Option FieldSpecs)
      → section_type_fields (req.fails 1) ai.tenant_id body.section_type db ≡ o
      → Keeps (handle_create_section req ai page_id (some body) db).1
  created page_id body none e =
      unchanged ai.tenant_id db _ (unfold handle_create_section in ground (arith, e))
  created page_id body (some fs) e = elim (Option-cases (normalize_content fs body.content)) [
    | inl n ↦ unchanged ai.tenant_id db _ (unfold handle_create_section in ground (arith, e, n))
    | inr (content, n) ↦ elim (create_found req ai db sound page_id body fs content e n) [
      | inl same ↦ unchanged ai.tenant_id db _ same
      | inr (there, e') ↦ subst Keeps (sym e') (
          record_audit-IsIsolated _ _ _ _ _ _ _ _ _ _ _ (
            with_sections-IsIsolated ai.tenant_id db _
              (where_rows-append _ db.sections _ (own ai.tenant_id))))
    ]
  ]

  pub create_section-IsIsolated :
      (page_id : String) (body : Option SectionRequest)
      → Keeps (handle_create_section req ai page_id body db).1
  create_section-IsIsolated page_id none =
      unchanged ai.tenant_id db _ (unfold handle_create_section in ground arith)
  create_section-IsIsolated page_id (some body) = created page_id body _ refl

  stored :
      (id : String) (u : SectionUpdate) (content : Option Raw)
      → Stores req ai db sound id u content
      → Keeps (handle_update_section req ai id (some u) db).1
  stored id u content (inl same) = unchanged ai.tenant_id db _ same
  stored id u content (inr e) = subst Keeps (sym e) (
      record_audit-IsIsolated _ _ _ _ _ _ _ _ _ _ _ (
        with_sections-IsIsolated ai.tenant_id db _ (
          where_rows-update_rows _ _ _ db.sections
            (λ s h. (ground (arith, h), ground (arith, h))))))

  pub update_section-IsIsolated :
      (id : String) (body : Option SectionUpdate)
      → Keeps (handle_update_section req ai id body db).1
  update_section-IsIsolated id none =
      unchanged ai.tenant_id db _ (unfold handle_update_section in refl)
  update_section-IsIsolated id (some u) =
      let (content, stores) = update_section-Stores req ai db sound id u in
      stored id u content stores

  pub delete_section-IsIsolated : (id : String) → Keeps (handle_delete_section req ai id db).1
  delete_section-IsIsolated id = elim (delete_cases req ai db sound id) [
    | inl same ↦ unchanged ai.tenant_id db _ same
    | inr e ↦ subst Keeps (sym e) (
        record_audit-IsIsolated _ _ _ _ _ _ _ _ _ _ _ (
          with_sections-IsIsolated ai.tenant_id db _ (
            where_rows-where_rows _ _ db.sections
              (All-pure _ (λ s o. ground (arith, o)) db.sections))))
  ]

  placed_tenant : (s : Section) (o : Option ℕ) → (place_section req.now s o).tenant_id ≡ s.tenant_id
  placed_tenant s none = refl
  placed_tenant s (some n) = refl

  pub reorder_sections-IsIsolated :
      (page_id : String) (body : Option (List String))
      → Keeps (handle_reorder_sections req ai page_id body db).1
  unfolding handle_reorder_sections
  reorder_sections-IsIsolated page_id none = same-IsIsolated ai.tenant_id db
  reorder_sections-IsIsolated page_id (some []) = same-IsIsolated ai.tenant_id db
  reorder_sections-IsIsolated page_id (some (id ∷ ids)) = elim (Bool-cases (req.fails 0)) [
    | inl down ↦ rw (down, reorder_sections) (same-IsIsolated ai.tenant_id db)
    | inr up ↦
        rw (up, reorder_sections)
          (with_sections-IsIsolated ai.tenant_id db _ (
            where_rows-update_rows _ _ _ db.sections (λ s h. (
              ground (arith, h),
              rw (placed_tenant s (position s.id (id ∷ ids))) (ground (arith, h)),
            ))))
  ]
