-- ===== src/Site/Snapshot.antt =====
-- internal/publish/snapshot.go: BuildSnapshot. Which of its queries fail is an argument; the
-- parameter says which texts PostgreSQL takes as a uuid.
use ai_website_builder.Common.{
  ℕ, suc, ◌+◌, String, Bool, not, ◌&&◌, ◌||◌, ◌==◌, Option, none, some, List, [], ◌∷◌, ◌++◌,
  if◌then◌else◌, map, all, any, find?, where_rows, is_empty, length,
}
use ai_website_builder.Common.Dict.{Dict, lookup, insert}
use ai_website_builder.Common.Sort.{sort_by, le_pair}
use ai_website_builder.Models.Media.{collect_media_ids}
use ai_website_builder.Models.Settings.{WebsiteSettings}
use ai_website_builder.Models.Snapshot.{
  Snapshot, SnapshotMedia, SnapshotPage, SnapshotSection, SnapshotSectionType,
}
use ai_website_builder.Db.{Db, Media, Page, Section, SectionType, Website}
use ai_website_builder.Http.Pages.{of_website}
use ai_website_builder.Http.Sections.{of_page}
use ai_website_builder.Http.SectionTypes.{is_active}

abbrev type_entry : SectionType → SnapshotSectionType
type_entry t = record { label = t.label; fields = t.fields; layout = t.layout }

-- The loop over the rows of block types.
unfoldable pub snapshot_types :
    List SectionType → Dict SnapshotSectionType → Dict SnapshotSectionType
snapshot_types [] out = out
snapshot_types (t ∷ ts) out = snapshot_types ts (insert t.type_key (type_entry t) out)

abbrev pub visible_pages : String → String → Db → List Page
visible_pages website tenant db =
    sort_by (λ p q. le_pair p.sort_order p.created_at q.sort_order q.created_at)
      (where_rows (λ p. of_website website p && p.tenant_id == tenant && p.status == "visible")
        db.pages)

abbrev pub visible_sections : String → String → Db → List Section
visible_sections page_id tenant db =
    sort_by (λ a b. le_pair a.sort_order a.created_at b.sort_order b.created_at)
      (where_rows (λ s. of_page page_id s && s.tenant_id == tenant && s.status == "visible")
        db.sections)

abbrev pub snapshot_page : String → Db → Page → SnapshotPage
snapshot_page tenant db p = record {
  title = p.title;
  slug = p.slug;
  seo_title = p.seo_title;
  seo_description = p.seo_description;
  sections =
      map (λ (s : Section). record { section_type = s.section_type; content = s.content })
        (visible_sections p.id tenant db);
}

abbrev prepend : SnapshotPage → Option (List SnapshotPage) → Option (List SnapshotPage)
prepend p none = none
prepend p (some ps) = some (p ∷ ps)

-- The loop over pages, with one query for the sections of each.
unfoldable pub snapshot_pages :
    (ℕ → Bool) → ℕ → String → Db → List Page → Option (List SnapshotPage)
snapshot_pages fails n tenant db [] = some []
snapshot_pages fails n tenant db (p ∷ ps) =
    let rest = snapshot_pages fails (suc n) tenant db ps in
    if fails n then none else prepend (snapshot_page tenant db p) rest

unfoldable pub section_media :
    Dict SnapshotSectionType → SnapshotSection → Option SnapshotSectionType → List String
section_media types s none = []
section_media types s (some st) = collect_media_ids st.fields s.content

unfoldable pub sections_media : Dict SnapshotSectionType → List SnapshotSection → List String
unfolding section_media
sections_media types [] = []
sections_media types (s ∷ ss) =
    section_media types s (lookup s.section_type types) ++ sections_media types ss

unfoldable pub pages_media : Dict SnapshotSectionType → List SnapshotPage → List String
unfolding sections_media
pages_media types [] = []
pages_media types (p ∷ ps) = sections_media types p.sections ++ pages_media types ps

-- The set `mediaIDs`, as a list.
abbrev pub media_ids : WebsiteSettings → Dict SnapshotSectionType → List SnapshotPage → List String
media_ids settings types ps =
    let rest = pages_media types ps in
    if settings.logo_media_id == "" then rest else settings.logo_media_id ∷ rest

unfoldable pub media_entries : List Media → Dict SnapshotMedia → Dict SnapshotMedia
media_entries [] out = out
media_entries (m ∷ ms) out =
    media_entries ms (insert m.id (record { url = m.public_url; alt = m.alt_text }) out)

abbrev pub media_rows : String → List String → Db → List Media
media_rows tenant ids db =
    where_rows (λ m. m.tenant_id == tenant && any (λ i. i == m.id) ids) db.media

module _ (is_uuid : String → Bool) where
  unfoldable pub load_media : Bool → String → List String → Db → Option (Dict SnapshotMedia)
  load_media fails tenant ids db =
      if is_empty ids
      then some []
      else if fails || not (all is_uuid ids)
      then none
      else some (media_entries (media_rows tenant ids db) [])

  abbrev finish :
      ℕ
      → Website
      → Dict SnapshotSectionType
      → List SnapshotPage
      → Option (Dict SnapshotMedia)
      → Option Snapshot
  finish now w types ps none = none
  finish now w types ps (some media) = some (record {
    website = record {
      name = w.name;
      domain = w.domain;
      template_id = w.template_id;
      settings = w.settings;
    };
    pages = ps;
    media = media;
    section_types = types;
    version = 2;
    built_at = now;
  })

  with_pages :
      (ℕ → Bool)
      → ℕ
      → ℕ
      → String
      → Db
      → Website
      → Dict SnapshotSectionType
      → Option (List SnapshotPage)
      → Option Snapshot
  unfolding load_media
  with_pages fails n now tenant db w types none = none
  with_pages fails n now tenant db w types (some ps) =
      finish now w types ps (load_media (fails n) tenant (media_ids w.settings types ps) db)

  with_website :
      (ℕ → Bool)
      → ℕ
      → String
      → String
      → Db
      → Dict SnapshotSectionType
      → Option Website
      → Option Snapshot
  unfolding with_pages
  with_website fails now tenant website db types none = none
  with_website fails now tenant website db types (some w) =
      let rows = visible_pages website tenant db in
      if fails 2
      then none
      else with_pages fails (3 + length rows) now tenant db w types
          (snapshot_pages fails 3 tenant db rows)

  -- `none` is an error.
  unfoldable pub build_snapshot : (ℕ → Bool) → ℕ → String → String → Db → Option Snapshot
  unfolding with_website
  build_snapshot fails now tenant website db =
      let types = snapshot_types (where_rows (is_active tenant) db.section_types) [] in
      if fails 0 || fails 1
      then none
      else with_website fails now tenant website db types
          (find? (λ w. w.id == website && w.tenant_id == tenant) db.websites)
