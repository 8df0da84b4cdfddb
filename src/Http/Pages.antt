-- ===== src/Http/Pages.antt =====
-- internal/httpapi/handlers_pages.go: the handlers of pages. A handler's database calls follow one
-- another with no other request in between.
use Prim.Native.Nat.{max}
use ai_website_builder.Common.{
  ℕ, suc, ◌+◌, String, Bool, false, not, ◌&&◌, ◌||◌, ◌==◌, Option, none, some, List, [], ◌∷◌, ◌++◌,
  find?, any, where_rows, update_rows, if◌then◌else◌, coalesce,
}
use ai_website_builder.Common.Strings.{trim_space}
use ai_website_builder.Common.Sort.{sort_by, le_pair}
use ai_website_builder.Models.Json.{str}
use ai_website_builder.Db.{Db, Page, record_audit}
use ai_website_builder.Http.Text.{valid_slug}
use ai_website_builder.Http.Reply.{
  Request, page, pages, done, AuthInfo, Handler, refuse, internal_error, reply,
}

-- SELECT EXISTS (...): a failed call counts as no.
unfoldable pub website_in_tenant : Bool → String → String → Db → Bool
website_in_tenant fails website tenant db =
    not fails && any (λ w. w.id == website && w.tenant_id == tenant) db.websites

abbrev pub is_page : String → String → Page → Bool
is_page id tenant p = p.id == id && p.tenant_id == tenant

abbrev pub of_website : String → Page → Bool
of_website website p = p.website_id == website

-- COALESCE(MAX(sort_order), -1) + 1
abbrev pub next_page_order : List Page → ℕ
next_page_order [] = 0
next_page_order (p ∷ ps) = max (p.sort_order + 1) (next_page_order ps)

unfoldable pub handle_list_pages : Request → AuthInfo → String → Handler
handle_list_pages req ai website db =
    if req.fails 0
    then internal_error db
    else reply 200
        (pages (
          sort_by (λ p q. le_pair p.sort_order p.created_at q.sort_order q.created_at)
            (where_rows (λ p. of_website website p && p.tenant_id == ai.tenant_id) db.pages)))
        db

pub record PageRequest : Type 0 where
  pub title : String
  pub slug : String
  pub seo_title : String
  pub seo_description : String

-- UNIQUE (website_id, slug)
unfoldable pub slug_taken : String → String → List Page → Bool
slug_taken website slug ps = any (λ p. of_website website p && p.slug == slug) ps

-- The primary key.
unfoldable pub page_id_taken : String → List Page → Bool
page_id_taken id ps = any (λ p. p.id == id) ps

abbrev pub new_page : Request → AuthInfo → String → PageRequest → Db → Page
new_page req ai website body db = record {
  id = req.new_id;
  tenant_id = ai.tenant_id;
  website_id = website;
  title = trim_space body.title;
  slug = body.slug;
  status = "visible";
  sort_order = next_page_order (where_rows (of_website website) db.pages);
  seo_title = body.seo_title;
  seo_description = body.seo_description;
  created_at = req.now;
  updated_at = req.now;
}

insert_page : Request → AuthInfo → String → PageRequest → Handler
insert_page req ai website body db =
    if req.fails 1
    then internal_error db
    else if slug_taken website body.slug db.pages || page_id_taken req.new_id db.pages
    then refuse 409 "a page with this slug already exists" db
    else (let p = new_page req ai website body db in
        reply 201 (page p) (
          record_audit (req.fails 2) req.now ai.tenant_id ai.user_id "page.created" "page" p.id
            (("title", str p.title) ∷ ("slug", str p.slug) ∷ [])
            (record db { pages = db.pages ++ p ∷ [] })))

create_page : Request → AuthInfo → String → Option PageRequest → Handler
unfolding insert_page
create_page req ai website none = refuse 400 "title is required"
create_page req ai website (some body) =
    if trim_space body.title == ""
    then refuse 400 "title is required"
    else if not (valid_slug body.slug)
    then refuse 400 "slug must be lowercase letters, numbers and hyphens"
    else insert_page req ai website body

-- The body is `none` where it does not decode.
unfoldable pub handle_create_page : Request → AuthInfo → String → Option PageRequest → Handler
unfolding create_page
handle_create_page req ai website body db =
    if not (website_in_tenant (req.fails 0) website ai.tenant_id db)
    then refuse 404 "website not found" db
    else create_page req ai website body db

pub record PageUpdate : Type 0 where
  pub title : Option String
  pub slug : Option String
  pub status : Option String
  pub seo_title : Option String
  pub seo_description : Option String

abbrev pub bad_slug : Option String → Bool
bad_slug none = false
bad_slug (some s) = not (valid_slug s)

abbrev pub bad_visibility : Option String → Bool
bad_visibility none = false
bad_visibility (some s) = not (s == "visible") && not (s == "hidden")

abbrev pub updated_page : ℕ → PageUpdate → Page → Page
updated_page now u p = record p {
  title = coalesce u.title p.title;
  slug = coalesce u.slug p.slug;
  status = coalesce u.status p.status;
  seo_title = coalesce u.seo_title p.seo_title;
  seo_description = coalesce u.seo_description p.seo_description;
  updated_at = now;
}

-- A row other than the updated one has the slug in its website.
unfoldable pub slug_taken_by_other : String → String → String → String → List Page → Bool
slug_taken_by_other id tenant website slug ps =
    any (λ p. not (is_page id tenant p) && of_website website p && p.slug == slug) ps

save_page : Request → AuthInfo → String → PageUpdate → Option Page → Handler
save_page req ai id u none = refuse 404 "not found"
save_page req ai id u (some p) = λ db.
    if slug_taken_by_other id ai.tenant_id p.website_id (coalesce u.slug p.slug) db.pages
    then refuse 409 "a page with this slug already exists" db
    else reply 200 (page (updated_page req.now u p)) (
        record_audit (req.fails 1) req.now ai.tenant_id ai.user_id "page.updated" "page" id []
          (record db {
            pages = update_rows (is_page id ai.tenant_id) (updated_page req.now u) db.pages;
          }))

unfoldable pub handle_update_page : Request → AuthInfo → String → Option PageUpdate → Handler
unfolding save_page
handle_update_page req ai id none db = refuse 400 "invalid request body" db
handle_update_page req ai id (some u) db =
    if bad_slug u.slug
    then refuse 400 "slug must be lowercase letters, numbers and hyphens" db
    else if bad_visibility u.status
    then refuse 400 "status must be visible or hidden" db
    else if req.fails 0
    then internal_error db
    else save_page req ai id u (find? (is_page id ai.tenant_id) db.pages) db

-- DELETE FROM pages WHERE id and tenant, and the sections of the page by ON DELETE CASCADE.
abbrev pub without_page : String → String → Db → Db
without_page id tenant db = record db {
  pages = where_rows (λ p. not (is_page id tenant p)) db.pages;
  sections = where_rows (λ s. not (s.page_id == id)) db.sections;
}

unfoldable pub handle_delete_page : Request → AuthInfo → String → Handler
handle_delete_page req ai id db =
    if req.fails 0
    then internal_error db
    else if not (any (is_page id ai.tenant_id) db.pages)
    then refuse 404 "page not found" db
    else reply 200 done (
        record_audit (req.fails 1) req.now ai.tenant_id ai.user_id "page.deleted" "page" id []
          (without_page id ai.tenant_id db))

-- The position of an id in unnest(...) WITH ORDINALITY, from 0; the first one counts.
abbrev pub position : String → List String → Option ℕ
position id [] = none
position id (x ∷ xs) =
    if x == id then some 0 else elim (position id xs) [ none ↦ none | some n ↦ some (suc n) ]

abbrev pub place_page : ℕ → Page → Option ℕ → Page
place_page now p none = p
place_page now p (some n) = record p { sort_order = n; updated_at = now }

unfoldable pub reorder_pages : Request → AuthInfo → String → List String → Handler
reorder_pages req ai website ids db =
    if req.fails 0
    then internal_error db
    else reply 200 done (record db {
      pages =
          update_rows (λ p. of_website website p && p.tenant_id == ai.tenant_id)
            (λ p. place_page req.now p (position p.id ids)) db.pages;
    })

unfoldable pub handle_reorder_pages : Request → AuthInfo → String → Option (List String) → Handler
unfolding reorder_pages
handle_reorder_pages req ai website none db = refuse 400 "page_ids is required" db
handle_reorder_pages req ai website (some []) db = refuse 400 "page_ids is required" db
handle_reorder_pages req ai website (some (id ∷ ids)) db =
    reorder_pages req ai website (id ∷ ids) db
