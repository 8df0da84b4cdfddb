-- ===== src/Site/Listed.antt =====
-- What BuildSnapshot of internal/publish/snapshot.go promises of pages and sections, by their rows.
use ai_website_builder.Common.{
  ℕ, ◌<◌, ◌≤◌, String, Bool, true, false, ◌&&◌, ◌==◌, ◌≡◌, refl, ◌⊎◌, inl, inr, List, [], ◌∷◌, map,
  arith, ltb, Bool-cases,
}
use ai_website_builder.Common.Listing.{IsListing, sort_by-IsListing}
use ai_website_builder.Common.Sort.{le_pair}
use ai_website_builder.Models.Snapshot.{SnapshotPage, SnapshotSection}
use ai_website_builder.Db.{Db, Page, Section}
use ai_website_builder.Site.Snapshot.{visible_pages, visible_sections, snapshot_page}

-- Pages and sections are shown by their place, equal ones by age.
abbrev Sooner : ℕ → ℕ → ℕ → ℕ → Type 0
Sooner place made place1 made1 = (place < place1) ⊎ ((place ≡ place1) × (made ≤ made1))

abbrev pub shown_page : String → String → Page → Bool
shown_page website tenant p =
    p.website_id == website && p.tenant_id == tenant && p.status == "visible"

abbrev pub PageOrder : Page → Page → Type 0
PageOrder p q = Sooner p.sort_order p.created_at q.sort_order q.created_at

abbrev shown_section : String → String → Section → Bool
shown_section page tenant s = s.page_id == page && s.tenant_id == tenant && s.status == "visible"

abbrev SectionOrder : Section → Section → Type 0
SectionOrder s r = Sooner s.sort_order s.created_at r.sort_order r.created_at

abbrev section_of : Section → SnapshotSection
section_of s = record { section_type = s.section_type; content = s.content }

-- The page of the row, with its visible sections.
pub record Shows (tenant : String) (db : Db) (p : Page) (sp : SnapshotPage) : Type 0 where
  pub title : sp.title ≡ p.title
  pub slug : sp.slug ≡ p.slug
  pub seo_title : sp.seo_title ≡ p.seo_title
  pub seo_description : sp.seo_description ≡ p.seo_description
  pub sections : List Section
  pub listed : IsListing (shown_section p.id tenant) SectionOrder db.sections sections
  pub contents : sp.sections ≡ map section_of sections

-- One for one, in the same order.
abbrev pub Each : {A B : Type 0} → (A → B → Type 0) → List A → List B → Type 0
Each P [] [] = Unit
Each P (x ∷ xs) (y ∷ ys) = P x y × Each P xs ys
Each P [] (y ∷ ys) = ⊥
Each P (x ∷ xs) [] = ⊥

-- The pages of a snapshot are the visible ones of the website.
pub record ShowsSite (website tenant : String) (db : Db) (sps : List SnapshotPage) : Type 0 where
  pub rows : List Page
  pub listed : IsListing (shown_page website tenant) PageOrder db.pages rows
  pub pages : Each (Shows tenant db) rows sps

le_pair-Sooner : (a b c d : ℕ) → le_pair a b c d ≡ true → Sooner a b c d
le_pair-Sooner a b c d h = elim (Bool-cases (ltb a c)) [
  | inl t ↦ inl (ground (arith, t))
  | inr n ↦ inr (ground (arith, n, h), ground (arith, n, h))
]

le_pair-other : (a b c d : ℕ) → le_pair a b c d ≡ false → Sooner c d a b
le_pair-other a b c d h = elim (Bool-cases (ltb c a)) [
  | inl t ↦ inl (ground (arith, t))
  | inr n ↦ inr (ground (arith, n, h), ground (arith, n, h))
]

visible_sections-IsListing :
    (page tenant : String) (db : Db)
    → IsListing
        (shown_section page tenant)
        SectionOrder
        db.sections
        (visible_sections page tenant db)
visible_sections-IsListing page tenant db =
    sort_by-IsListing _ SectionOrder (shown_section page tenant) db.sections
      (λ s r h. le_pair-Sooner s.sort_order s.created_at r.sort_order r.created_at h)
      (λ s r h. le_pair-other s.sort_order s.created_at r.sort_order r.created_at h)

snapshot_page-Shows :
    (tenant : String) (db : Db) (p : Page) → Shows tenant db p (snapshot_page tenant db p)
snapshot_page-Shows tenant db p = record {
  title = refl;
  slug = refl;
  seo_title = refl;
  seo_description = refl;
  sections = visible_sections p.id tenant db;
  listed = visible_sections-IsListing p.id tenant db;
  contents = refl;
}

Each-map :
    {A B : Type 0} (P : A → B → Type 0) (f : A → B) (xs : List A)
    → ((x : A) → P x (f x))
    → Each P xs (map f xs)
Each-map P f [] h = tt
Each-map P f (x ∷ xs) h = (h x, Each-map P f xs h)

pub visible_pages-ShowsSite :
    (website tenant : String) (db : Db)
    → ShowsSite website tenant db (map (snapshot_page tenant db) (visible_pages website tenant db))
visible_pages-ShowsSite website tenant db = record {
  rows = visible_pages website tenant db;
  listed =
      sort_by-IsListing _ PageOrder (shown_page website tenant) db.pages
        (λ p q h. le_pair-Sooner p.sort_order p.created_at q.sort_order q.created_at h)
        (λ p q h. le_pair-other p.sort_order p.created_at q.sort_order q.created_at h);
  pages =
      Each-map (Shows tenant db) (snapshot_page tenant db) (visible_pages website tenant db)
        (snapshot_page-Shows tenant db);
}
