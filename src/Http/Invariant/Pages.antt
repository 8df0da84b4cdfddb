-- ===== src/Http/Invariant/Pages.antt =====
-- The handlers of pages keep the tables sound: ids and slugs stay unique and slugs valid.
use ai_website_builder.Common.{
  String, true, false, ◌≡◌, refl, sym, Option, none, some, List, [], ◌∷◌, ◌++◌, All, All-append,
  All-map, find?, update_rows, arith, eq_iff, coalesce, ◌⊎◌, subst, Option-cases, inl, inr,
}
use ai_website_builder.Common.Tables.{
  AtMostOne, any-false, found_unique, All-update_rows, All-pure, any-append, any-update_rows,
  Apart-append, Apart-update_rows_same, Apart-update_one, AtMostOne-ids,
}
use ai_website_builder.Models.Json.{str}
use ai_website_builder.Db.{Db, Page, record_audit}
use ai_website_builder.Http.Text.{valid_slug}
use ai_website_builder.Http.Pages.{
  handle_create_page, PageRequest, new_page, slug_taken, page_id_taken, handle_update_page,
  PageUpdate, updated_page, bad_slug, slug_taken_by_other, is_page,
}
use ai_website_builder.Http.Reply.{Request, AuthInfo}
use ai_website_builder.Http.Invariant.{IsSound, page_of, same_page, same_slug, record_audit-IsSound}

module _ (req : Request) (ai : AuthInfo) (db : Db) (sound : IsSound db) where
  free_slug :
      (website slug : String) (p : Page) (ps : List Page)
      → p.website_id ≡ website
      → p.slug ≡ slug
      → slug_taken website slug ps ≡ false
      → All (λ q. same_slug q p ≡ false) ps
  unfolding slug_taken
  free_slug website slug p ps w s h = All-map _ _ (λ q k. rw (w, s) k) ps (any-false _ ps h)

  inserted-IsSound :
      (website : String) (body : PageRequest)
      → slug_taken website body.slug db.pages ≡ false
      → page_id_taken req.new_id db.pages ≡ false
      → valid_slug body.slug ≡ true
      → IsSound (record db { pages = db.pages ++ new_page req ai website body db ∷ [] })
  unfolding page_id_taken
  inserted-IsSound website body free fresh valid = record {
    page_ids = Apart-append same_page db.pages _ sound.page_ids (any-false _ db.pages fresh);
    page_slugs =
        Apart-append same_slug db.pages _ sound.page_slugs
          (free_slug website body.slug (new_page req ai website body db) db.pages refl refl free);
    valid_slugs = All-append _ db.pages _ sound.valid_slugs (valid, tt);
    type_ids = sound.type_ids;
    type_keys = sound.type_keys;
    schemas = sound.schemas;
    typed = sound.typed;
    housed = All-map _ _ (λ s t. any-append (page_of s) db.pages _ t) db.sections sound.housed;
  }

  pub create_page_cases :
      (website : String) (body : PageRequest)
      → ((handle_create_page req ai website (some body) db).1 ≡ db)
        ⊎ ((valid_slug body.slug ≡ true)
            × (slug_taken website body.slug db.pages ≡ false)
            × (page_id_taken req.new_id db.pages ≡ false)
            × ((handle_create_page req ai website (some body) db).1 ≡ (
                let p = new_page req ai website body db in
                record_audit
                  (req.fails 2)
                  req.now
                  ai.tenant_id
                  ai.user_id
                  "page.created"
                  "page"
                  p.id
                  (("title", str p.title) ∷ ("slug", str p.slug) ∷ [])
                  (record db { pages = db.pages ++ p ∷ [] }))))
  unfolding handle_create_page
  create_page_cases website body = ground arith

  pub create_page-IsSound :
      (website : String) (body : Option PageRequest)
      → IsSound (handle_create_page req ai website body db).1
  create_page-IsSound website none =
      let same : (handle_create_page req ai website none db).1 ≡ db =
        unfold handle_create_page in ground arith in
      subst IsSound (sym same) sound
  create_page-IsSound website (some body) = elim (create_page_cases website body) [
    | inl same ↦ subst IsSound (sym same) sound
    | inr (valid, free, fresh, e) ↦
        subst IsSound (sym e)
          (record_audit-IsSound _ _ _ _ _ _ _ _ _ (inserted-IsSound website body free fresh valid))
  ]

  -- At most one row has the id and the tenant.
  one_page : (id : String) → AtMostOne (is_page id ai.tenant_id) db.pages
  one_page id =
      AtMostOne-ids same_page _ db.pages
        (λ x y s t. ground (arith, s, t, eq_iff x.id id, eq_iff y.id id, eq_iff x.id y.id))
        sound.page_ids

  pub update_page_missing :
      (id : String) (u : PageUpdate)
      → find? (is_page id ai.tenant_id) db.pages ≡ none
      → (handle_update_page req ai id (some u) db).1 ≡ db
  unfolding handle_update_page
  update_page_missing id u e = ground (arith, e)

  pub update_page_found :
      (id : String) (u : PageUpdate) (p : Page)
      → find? (is_page id ai.tenant_id) db.pages ≡ some p
      → ((handle_update_page req ai id (some u) db).1 ≡ db)
        ⊎ ((bad_slug u.slug ≡ false)
            × (slug_taken_by_other id ai.tenant_id p.website_id (coalesce u.slug p.slug) db.pages
                ≡ false)
            × ((handle_update_page req ai id (some u) db).1
                ≡ record_audit
                    (req.fails 1)
                    req.now
                    ai.tenant_id
                    ai.user_id
                    "page.updated"
                    "page"
                    id
                    []
                    (record db {
                      pages =
                          update_rows (is_page id ai.tenant_id) (updated_page req.now u) db.pages;
                    })))
  unfolding handle_update_page
  update_page_found id u p e = ground (arith, e)

  updated-IsSound :
      (id : String) (u : PageUpdate) (p : Page)
      → find? (is_page id ai.tenant_id) db.pages ≡ some p
      → bad_slug u.slug ≡ false
      → slug_taken_by_other id ai.tenant_id p.website_id (coalesce u.slug p.slug) db.pages ≡ false
      → IsSound (record db {
        pages = update_rows (is_page id ai.tenant_id) (updated_page req.now u) db.pages;
      })
  unfolding slug_taken_by_other
  updated-IsSound id u p found good free = record {
    page_ids =
        Apart-update_rows_same same_page _ _ db.pages (λ x y. refl) (λ x y. refl) sound.page_ids;
    page_slugs =
        Apart-update_one same_slug _ _ p db.pages slug_symm sound.page_slugs (one_page id)
          (found_unique _ _ db.pages p (λ y t. t) (one_page id) found)
          (All-map _ _
            (λ q k n. ground (
              arith,
              k,
              n,
              eq_iff p.website_id q.website_id,
              eq_iff q.website_id p.website_id,
              eq_iff (coalesce u.slug p.slug) q.slug,
              eq_iff q.slug (coalesce u.slug p.slug),
            ))
            db.pages (any-false _ db.pages free));
    valid_slugs =
        All-update_rows _ _ _ db.pages sound.valid_slugs
          (All-pure _ (λ q t v. ground (arith, good, v)) db.pages);
    type_ids = sound.type_ids;
    type_keys = sound.type_keys;
    schemas = sound.schemas;
    typed = sound.typed;
    housed =
        All-map _ _
          (λ s t. any-update_rows (page_of s) _ _ db.pages (All-pure _ (λ y h q. q) db.pages) t)
          db.sections sound.housed;
  }
    where
      slug_symm : (x y : Page) → same_slug x y ≡ same_slug y x
      slug_symm x y = ground (
        arith,
        eq_iff x.website_id y.website_id,
        eq_iff y.website_id x.website_id,
        eq_iff x.slug y.slug,
        eq_iff y.slug x.slug,
      )

  pub update_page-IsSound :
      (id : String) (body : Option PageUpdate) → IsSound (handle_update_page req ai id body db).1
  update_page-IsSound id none = unfold handle_update_page in sound
  update_page-IsSound id (some u) = elim (Option-cases (find? (is_page id ai.tenant_id) db.pages)) [
    | inl e ↦ subst IsSound (sym (update_page_missing id u e)) sound
    | inr (p, found) ↦ elim (update_page_found id u p found) [
      | inl same ↦ subst IsSound (sym same) sound
      | inr (good, free, e) ↦
          subst IsSound (sym e)
            (record_audit-IsSound _ _ _ _ _ _ _ _ _ (updated-IsSound id u p found good free))
    ]
  ]
