-- ===== src/Site/Generate.antt =====
-- internal/generator/generator.go: Generate, from a snapshot to the files of the site. The HTML
-- template and the style sheet are parameters; reading and writing files does not fail here.
use ai_website_builder.Common.{
  ℕ, String, ◌==◌, ◌<>◌, Option, none, some, List, [], ◌∷◌, if◌then◌else◌, map, is_empty,
}
use ai_website_builder.Common.Dict.{Dict, lookup, insert}
use ai_website_builder.Common.Strings.{trim_right_slash}
use ai_website_builder.Common.Sort.{le_text, sort_by}
use ai_website_builder.Models.Snapshot.{
  Snapshot, SnapshotMedia, SnapshotPage, SnapshotSection, SnapshotSectionType,
}
use ai_website_builder.Models.Settings.{WebsiteSettings}
use ai_website_builder.Site.Links.{page_href, page_path, canonical_url, first_non_empty}
use ai_website_builder.Site.Blocks.{SiteData, BlockData, build_block}

pub record PageData : Type 0 where
  pub site : SiteData
  pub title : String
  pub seo_title : String
  pub seo_desc : String
  pub canon : String
  pub sections : List BlockData

-- An error with the page's title, and the section's type where it is a section's.
pub data BuildError : Type 0 where
  no_visible_pages : BuildError
  invalid_block : (title section_type : String) → BuildError
  render_failed : String → BuildError

pub data Built {ℓ} (A : Type ℓ) : Type ℓ where
  built : A → Built A
  failed : BuildError → Built A

abbrev media_of : Option SnapshotMedia → String × String
media_of none = ("", "")
media_of (some m) = (m.url, m.alt)

-- The closure `media`.
unfoldable pub resolve : Snapshot → String → String × String
resolve snap id = media_of (lookup id snap.media)

abbrev colored : WebsiteSettings → WebsiteSettings
colored s = if s.primary_color == "" then record s { primary_color = "#2563eb" } else s

unfoldable pub site_data : Snapshot → String → ℕ → SiteData
unfolding resolve
site_data snap base_path year =
    let base = trim_right_slash base_path in
    record {
      name = snap.website.name;
      settings = colored snap.website.settings;
      logo_url = (resolve snap snap.website.settings.logo_media_id).0;
      nav =
          map (λ (p : SnapshotPage). record { title = p.title; href = base <> page_href p.slug })
            snap.pages;
      year = year;
      base_path = base;
    }

-- The block of one section, put in front of those after it.
block_then :
    String → SnapshotSection → Option BlockData → Built (List BlockData) → Built (List BlockData)
block_then title s none rest = failed (invalid_block title s.section_type)
block_then title s (some b) (failed e) = failed e
block_then title s (some b) (built bs) = built (b ∷ bs)

section_then :
    Snapshot
    → SiteData
    → String
    → SnapshotSection
    → Option SnapshotSectionType
    → Built (List BlockData)
    → Built (List BlockData)
unfolding block_then
section_then snap site title s none rest = rest
section_then snap site title s (some schema) rest =
    block_then title s (build_block (resolve snap) schema s.content site) rest

-- The loop over a page's sections; a section whose type is gone is skipped.
unfoldable pub page_blocks :
    Snapshot → SiteData → String → List SnapshotSection → Built (List BlockData)
unfolding section_then
page_blocks snap site title [] = built []
page_blocks snap site title (s ∷ ss) =
    section_then snap site title s (lookup s.section_type snap.section_types)
      (page_blocks snap site title ss)

abbrev pub page_data : Snapshot → SiteData → SnapshotPage → List BlockData → PageData
page_data snap site p blocks = record {
  site = site;
  title = p.title;
  seo_title =
      first_non_empty
        (p.seo_title ∷ (p.title <> " — " <> site.name) ∷ site.settings.seo_title ∷ []);
  seo_desc = first_non_empty (p.seo_description ∷ site.settings.seo_description ∷ []);
  canon = canonical_url snap.website.domain p.slug;
  sections = blocks;
}

sitemap_urls : String → List String → String
sitemap_urls base [] = ""
sitemap_urls base (slug ∷ slugs) =
    "  <url><loc>" <> base <> page_href slug <> "</loc></url>\n" <> sitemap_urls base slugs

unfoldable pub sitemap : Snapshot → String
unfolding sitemap_urls
sitemap snap =
    let base = if snap.website.domain == "" then "" else "https://" <> snap.website.domain in
    "<?xml version=\"1.0\" encoding=\"UTF-8\"?>\n"
    <> "<urlset xmlns=\"http://www.sitemaps.org/schemas/sitemap/0.9\">\n"
    <> sitemap_urls base (sort_by le_text (map (λ (p : SnapshotPage). p.slug) snap.pages))
    <> "</urlset>\n"

unfoldable pub robots : Snapshot → String
robots snap =
    "User-agent: *\nAllow: /\n"
    <> (if snap.website.domain == ""
        then ""
        else "Sitemap: https://" <> snap.website.domain <> "/sitemap.xml\n")

module _ (render : PageData → Option String) (styles : String) where
  write_page : String → String → Option String → Built (Dict String) → Built (Dict String)
  write_page title path html (failed e) = failed e
  write_page title path none (built files) = failed (render_failed title)
  write_page title path (some html) (built files) = built (insert path html files)

  page_file :
      Snapshot
      → SiteData
      → SnapshotPage
      → Built (List BlockData)
      → Dict String
      → Built (Dict String)
  unfolding write_page
  page_file snap site p (failed e) files = failed e
  page_file snap site p (built blocks) files =
      write_page p.title (page_path p.slug) (render (page_data snap site p blocks)) (built files)

  -- The loop over pages, on the files written so far.
  unfoldable pub write_pages :
      Snapshot → SiteData → List SnapshotPage → Built (Dict String) → Built (Dict String)
  unfolding page_file
  write_pages snap site [] files = files
  write_pages snap site (p ∷ ps) (failed e) = failed e
  write_pages snap site (p ∷ ps) (built files) =
      write_pages snap site ps
        (page_file snap site p (page_blocks snap site p.title p.sections) files)

  add_assets : Snapshot → Built (Dict String) → Built (Dict String)
  add_assets snap (failed e) = failed e
  add_assets snap (built files) = built (
      insert "robots.txt" (robots snap)
        (insert "sitemap.xml" (sitemap snap) (insert "styles.css" styles files)))

  -- The output directory is emptied first.
  unfoldable pub generate : Snapshot → String → ℕ → Built (Dict String)
  unfolding add_assets
  generate snap base_path year =
      if is_empty snap.pages
      then failed no_visible_pages
      else add_assets snap (write_pages snap (site_data snap base_path year) snap.pages (built []))
