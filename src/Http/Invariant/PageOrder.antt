-- ===== src/Http/Invariant/PageOrder.antt =====
-- Deleting a page and reordering pages keep the tables sound.
use ai_website_builder.Common.{
  ℕ, String, true, ◌&&◌, ◌==◌, ◌≡◌, refl, sym, ◌∙◌, ap, ap₂, Option, none, some, List, [], ◌∷◌,
  All-map, All-where_rows, any, where_rows, where_rows_sound, not, update_rows, arith, eq_iff, ◌⊎◌,
  subst, Bool-cases, inl, inr,
}
use ai_website_builder.Common.Tables.{
  All-update_rows, All-pure, All-zip, any-update_rows, any-where_rows, Apart-where_rows,
  Apart-update_rows_same,
}
use ai_website_builder.Db.{Db, Page, Section, record_audit}
use ai_website_builder.Http.Text.{valid_slug}
use ai_website_builder.Http.Pages.{
  is_page, of_website, handle_delete_page, without_page, handle_reorder_pages, reorder_pages,
  place_page, position,
}
use ai_website_builder.Http.Reply.{Request, AuthInfo}
use ai_website_builder.Http.Invariant.{
  IsSound, page_of, IsHoused, same_page, same_slug, record_audit-IsSound,
}

module _ (req : Request) (ai : AuthInfo) (db : Db) (sound : IsSound db) where
  -- A section that does not stand on the deleted page keeps its page.
  still-IsHoused :
      (id : String) (s : Section)
      → not (s.page_id == id) ≡ true
      → IsHoused db.pages s
      → IsHoused (where_rows (λ p. not (is_page id ai.tenant_id p)) db.pages) s
  still-IsHoused id s left h =
      any-where_rows (page_of s) _ db.pages
        (All-pure _
          (λ p q.
            ground (arith, left, q, eq_iff p.id s.page_id, eq_iff p.id id, eq_iff s.page_id id))
          db.pages)
        h

  deleted-IsSound : (id : String) → IsSound (without_page id ai.tenant_id db)
  deleted-IsSound id = record {
    page_ids = Apart-where_rows same_page _ db.pages sound.page_ids;
    page_slugs = Apart-where_rows same_slug _ db.pages sound.page_slugs;
    valid_slugs = All-where_rows _ _ db.pages sound.valid_slugs;
    type_ids = sound.type_ids;
    type_keys = sound.type_keys;
    schemas = sound.schemas;
    typed = All-where_rows _ _ db.sections sound.typed;
    housed =
        All-zip _ _ _ (λ s left h. still-IsHoused id s left h) _ (where_rows_sound _ db.sections)
          (All-where_rows _ _ db.sections sound.housed);
  }

  pub delete_page_cases :
      (id : String)
      → ((handle_delete_page req ai id db).1 ≡ db)
        ⊎ ((any (is_page id ai.tenant_id) db.pages ≡ true)
            × ((handle_delete_page req ai id db).1
                ≡ record_audit
                    (req.fails 1)
                    req.now
                    ai.tenant_id
                    ai.user_id
                    "page.deleted"
                    "page"
                    id
                    []
                    (without_page id ai.tenant_id db)))
  unfolding handle_delete_page
  delete_page_cases id = ground arith

  pub delete_page-IsSound : (id : String) → IsSound (handle_delete_page req ai id db).1
  delete_page-IsSound id = elim (delete_page_cases id) [
    | inl same ↦ subst IsSound (sym same) sound
    | inr (there, e) ↦
        subst IsSound (sym e) (record_audit-IsSound _ _ _ _ _ _ _ _ _ (deleted-IsSound id))
  ]

  -- A new order leaves ids, websites and slugs alone.
  placed_key :
      (p : Page) (o : Option ℕ)
      → ((place_page req.now p o).id ≡ p.id)
        × ((place_page req.now p o).website_id ≡ p.website_id)
        × ((place_page req.now p o).slug ≡ p.slug)
  placed_key p none = (refl, refl, refl)
  placed_key p (some n) = (refl, refl, refl)

  pub placed_page_of :
      (s : Section) (p : Page) (o : Option ℕ) → page_of s (place_page req.now p o) ≡ page_of s p
  placed_page_of s p none = refl
  placed_page_of s p (some n) = refl

  reordered-IsSound :
      (website : String) (ids : List String)
      → IsSound (record db {
        pages =
            update_rows
              (λ p. of_website website p && p.tenant_id == ai.tenant_id)
              (λ p. place_page req.now p (position p.id ids))
              db.pages;
      })
  reordered-IsSound website ids = record {
    page_ids =
        Apart-update_rows_same same_page _ _ db.pages
          (λ x y. ap (λ i. i == y.id) (placed_key x (position x.id ids)).0)
          (λ x y. ap (λ i. x.id == i) (placed_key y (position y.id ids)).0) sound.page_ids;
    page_slugs =
        Apart-update_rows_same same_slug _ _ db.pages
          (λ x y.
            let k = placed_key x (position x.id ids) in
            ap₂ (λ w s. w == y.website_id && s == y.slug) k.1 k.2)
          (λ x y.
            let k = placed_key y (position y.id ids) in
            ap₂ (λ w s. x.website_id == w && x.slug == s) k.1 k.2)
          sound.page_slugs;
    valid_slugs =
        All-update_rows _ _ _ db.pages sound.valid_slugs
          (All-pure _ (λ q t v. ap valid_slug (placed_key q (position q.id ids)).2 ∙ v) db.pages);
    type_ids = sound.type_ids;
    type_keys = sound.type_keys;
    schemas = sound.schemas;
    typed = sound.typed;
    housed =
        All-map _ _
          (λ s t.
            any-update_rows (page_of s) _ _ db.pages
              (All-pure _ (λ y h q. placed_page_of s y (position y.id ids) ∙ q) db.pages) t)
          db.sections sound.housed;
  }

  pub reorder_pages-IsSound :
      (website : String) (body : Option (List String))
      → IsSound (handle_reorder_pages req ai website body db).1
  unfolding handle_reorder_pages
  reorder_pages-IsSound website none = sound
  reorder_pages-IsSound website (some []) = sound
  reorder_pages-IsSound website (some (id ∷ ids)) = elim (Bool-cases (req.fails 0)) [
    | inl down ↦ rw (down, reorder_pages) sound
    | inr up ↦ rw (up, reorder_pages) (reordered-IsSound website (id ∷ ids))
  ]
