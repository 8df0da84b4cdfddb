-- ===== src/Http/Isolation/Pages.antt =====
-- The handlers of pages and block types leave the rows of other tenants alone.
use ai_website_builder.Common.{
  ℕ, String, true, false, not, ◌==◌, ◌≡◌, refl, sym, Option, none, some, List, [], ◌∷◌, All-map,
  any, find?, arith, eq_iff, Bool-cases, Option-cases, subst, inl, inr,
}
use ai_website_builder.Common.Tables.{All-pure, same_row, AtMostOne-ids}
use ai_website_builder.Models.Schema.{Checked, ok, err, validate_schema}
use ai_website_builder.Db.{Db, Page, Section}
use ai_website_builder.Http.Pages.{
  PageRequest, PageUpdate, is_page, place_page, position, reorder_pages, handle_create_page,
  handle_update_page, handle_delete_page, handle_reorder_pages,
}
use ai_website_builder.Http.SectionTypes.{
  SectionTypeRequest, is_active_row, layout_of, handle_create_section_type,
  handle_update_section_type, handle_archive_section_type,
}
use ai_website_builder.Http.Reply.{Request, AuthInfo}
use ai_website_builder.Http.Invariant.{IsSound, same_page, page_of, IsHoused}
use ai_website_builder.Http.Invariant.Pages.{
  create_page_cases, update_page_missing, update_page_found,
}
use ai_website_builder.Http.Invariant.PageOrder.{delete_page_cases}
use ai_website_builder.Http.Invariant.SectionTypes.{create_cases, update_missing, update_found}
use ai_website_builder.Http.Invariant.Archive.{archive_missing, archive_found}
use ai_website_builder.Http.Isolation.{
  other_page, other_section, IsIsolated, same-IsIsolated, unchanged, own, record_audit-IsIsolated,
  with_pages-IsIsolated, with_types-IsIsolated, where_rows-append, where_rows-update_rows,
  where_rows-where_rows,
}

module _ (req : Request) (ai : AuthInfo) (db : Db) (sound : IsSound db) where
  abbrev Keeps : Db → Type 0
  Keeps = IsIsolated ai.tenant_id db

  pub create_page-IsIsolated :
      (website : String) (body : Option PageRequest)
      → Keeps (handle_create_page req ai website body db).1
  create_page-IsIsolated website none =
      unchanged ai.tenant_id db _ (unfold handle_create_page in ground arith)
  create_page-IsIsolated website (some body) =
      elim (create_page_cases req ai db sound website body) [
        | inl same ↦ unchanged ai.tenant_id db _ same
        | inr (valid, free, fresh, e) ↦ subst Keeps (sym e) (
            record_audit-IsIsolated _ _ _ _ _ _ _ _ _ _ _ (
              with_pages-IsIsolated ai.tenant_id db _
                (where_rows-append _ db.pages _ (own ai.tenant_id))))
      ]

  of_tenant :
      (p : Page) (id : String)
      → is_page id ai.tenant_id p ≡ true
      → other_page ai.tenant_id p ≡ false
  of_tenant p id h = ground (arith, h)

  pub update_page-IsIsolated :
      (id : String) (body : Option PageUpdate) → Keeps (handle_update_page req ai id body db).1
  update_page-IsIsolated id none = unchanged ai.tenant_id db _ (unfold handle_update_page in refl)
  update_page-IsIsolated id (some u) =
      elim (Option-cases (find? (is_page id ai.tenant_id) db.pages)) [
        | inl e ↦ unchanged ai.tenant_id db _ (update_page_missing req ai db sound id u e)
        | inr (p, found) ↦ elim (update_page_found req ai db sound id u p found) [
          | inl same ↦ unchanged ai.tenant_id db _ same
          | inr (good, free, e) ↦ subst Keeps (sym e) (
              record_audit-IsIsolated _ _ _ _ _ _ _ _ _ _ _ (
                with_pages-IsIsolated ai.tenant_id db _ (
                  where_rows-update_rows _ _ _ db.pages
                    (λ q h. (of_tenant q id h, of_tenant q id h)))))
        ]
      ]

  placed_tenant : (p : Page) (o : Option ℕ) → (place_page req.now p o).tenant_id ≡ p.tenant_id
  placed_tenant p none = refl
  placed_tenant p (some n) = refl

  pub reorder_pages-IsIsolated :
      (website : String) (body : Option (List String))
      → Keeps (handle_reorder_pages req ai website body db).1
  unfolding handle_reorder_pages
  reorder_pages-IsIsolated website none = same-IsIsolated ai.tenant_id db
  reorder_pages-IsIsolated website (some []) = same-IsIsolated ai.tenant_id db
  reorder_pages-IsIsolated website (some (id ∷ ids)) = elim (Bool-cases (req.fails 0)) [
    | inl down ↦ rw (down, reorder_pages) (same-IsIsolated ai.tenant_id db)
    | inr up ↦
        rw (up, reorder_pages)
          (with_pages-IsIsolated ai.tenant_id db _ (
            where_rows-update_rows _ _ _ db.pages (λ q h. (
              ground (arith, h),
              rw (placed_tenant q (position q.id (id ∷ ids))) (ground (arith, h)),
            ))))
  ]

  -- The sections that go with a page are of the page's tenant.
  cascade-other :
      (id : String) (s : Section)
      → any (is_page id ai.tenant_id) db.pages ≡ true
      → IsHoused db.pages s
      → other_section ai.tenant_id s ≡ true
      → not (s.page_id == id) ≡ true
  cascade-other id s h k o = elim (Bool-cases (s.page_id == id)) [
    | inr n ↦ rw n refl
    | inl same ↦ absurd (
        same_row (λ p. p.id == id) (is_page id ai.tenant_id) (page_of s) db.pages
          (AtMostOne-ids same_page _ db.pages
            (λ x y a b. ground (arith, a, b, eq_iff x.id id, eq_iff y.id id, eq_iff x.id y.id))
            sound.page_ids)
          (λ p t. ground (arith, t))
          (λ p t.
            ground (arith, t, same, eq_iff p.id s.page_id, eq_iff s.page_id id, eq_iff p.id id))
          (λ p t t'. ground (
            arith,
            t,
            t',
            o,
            eq_iff p.tenant_id ai.tenant_id,
            eq_iff p.tenant_id s.tenant_id,
            eq_iff s.tenant_id ai.tenant_id,
          ))
          h k)
  ]

  pub delete_page-IsIsolated : (id : String) → Keeps (handle_delete_page req ai id db).1
  delete_page-IsIsolated id = elim (delete_page_cases req ai db sound id) [
    | inl same ↦ unchanged ai.tenant_id db _ same
    | inr (there, e) ↦ subst Keeps (sym e) (
        record_audit-IsIsolated _ _ _ _ _ _ _ _ _ _ _ (record {
          pages =
              where_rows-where_rows _ _ db.pages (All-pure _ (λ p o. ground (arith, o)) db.pages);
          sections =
              where_rows-where_rows _ _ db.sections
                (All-map _ _ (λ s k o. cascade-other id s there k o) db.sections sound.housed);
          section_types = refl;
          tenants = refl;
          users = refl;
          tenant_users = refl;
          websites = refl;
          media = refl;
          content_snapshots = refl;
          deployments = refl;
        }))
  ]

  pub create_section_type-IsIsolated :
      (body : Option SectionTypeRequest) → Keeps (handle_create_section_type req ai body db).1
  create_section_type-IsIsolated none =
      unchanged ai.tenant_id db _ (unfold handle_create_section_type in refl)
  create_section_type-IsIsolated (some body) = created _ refl
    where
      created :
          (r : Checked (Unit {0}))
          → validate_schema body.fields (layout_of body.layout) ≡ r
          → Keeps (handle_create_section_type req ai (some body) db).1
      created (err x) v =
          unchanged ai.tenant_id db _ (unfold handle_create_section_type in ground (arith, v))
      created (ok u) v = elim (create_cases req ai db sound body v) [
        | inl same ↦ unchanged ai.tenant_id db _ same
        | inr (free, fresh, e) ↦ subst Keeps (sym e) (
            record_audit-IsIsolated _ _ _ _ _ _ _ _ _ _ _ (
              with_types-IsIsolated ai.tenant_id db _
                (where_rows-append _ db.section_types _ (own ai.tenant_id))))
      ]

  pub update_section_type-IsIsolated :
      (id : String) (body : Option SectionTypeRequest)
      → Keeps (handle_update_section_type req ai id body db).1
  update_section_type-IsIsolated id none =
      unchanged ai.tenant_id db _ (unfold handle_update_section_type in refl)
  update_section_type-IsIsolated id (some body) = updated _ refl
    where
      updated :
          (r : Checked (Unit {0}))
          → validate_schema body.fields (layout_of body.layout) ≡ r
          → Keeps (handle_update_section_type req ai id (some body) db).1
      updated (err x) v =
          unchanged ai.tenant_id db _ (unfold handle_update_section_type in ground (arith, v))
      updated (ok u) v =
          elim (Option-cases (find? (is_active_row id ai.tenant_id) db.section_types)) [
            | inl e ↦ unchanged ai.tenant_id db _ (update_missing req ai db sound id body v e)
            | inr (t, found) ↦ elim (update_found req ai db sound id body t v found) [
              | inl same ↦ unchanged ai.tenant_id db _ same
              | inr e ↦ subst Keeps (sym e) (
                  record_audit-IsIsolated _ _ _ _ _ _ _ _ _ _ _ (
                    with_types-IsIsolated ai.tenant_id db _ (
                      where_rows-update_rows _ _ _ db.section_types
                        (λ r h. (ground (arith, h), ground (arith, h))))))
            ]
          ]

  pub archive_section_type-IsIsolated :
      (id : String) → Keeps (handle_archive_section_type req ai id db).1
  archive_section_type-IsIsolated id =
      elim (Option-cases (find? (is_active_row id ai.tenant_id) db.section_types)) [
        | inl e ↦ unchanged ai.tenant_id db _ (archive_missing req ai db sound id e)
        | inr (t, found) ↦ elim (archive_found req ai db sound id t found) [
          | inl same ↦ unchanged ai.tenant_id db _ same
          | inr (free, e) ↦ subst Keeps (sym e) (
              record_audit-IsIsolated _ _ _ _ _ _ _ _ _ _ _ (
                with_types-IsIsolated ai.tenant_id db _ (
                  where_rows-update_rows _ _ _ db.section_types
                    (λ r h. (ground (arith, h), ground (arith, h))))))
        ]
      ]
