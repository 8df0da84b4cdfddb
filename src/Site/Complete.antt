-- ===== src/Site/Complete.antt =====
-- Generate of internal/generator/generator.go builds every site it is given, and builds it whole.
use Prim.Native.String.{count}
use ai_website_builder.Common.{
  ℕ, String, true, false, ◌≡◌, refl, Option, some, List, [], ◌∷◌, All, is_empty, arith,
  Option-cases, inl, inr,
}
use ai_website_builder.Common.Dict.{Dict, lookup, insert, lookup-insert}
use ai_website_builder.Common.Tables.{Apart, All-zip}
use ai_website_builder.Models.Json.{Json}
use ai_website_builder.Models.Snapshot.{Snapshot, SnapshotPage, SnapshotSection}
use ai_website_builder.Http.Text.{valid_slug}
use ai_website_builder.Site.Links.{page_path}
use ai_website_builder.Site.Blocks.{
  SiteData, BlockData, build_block, block_loop, start_block, content_map,
}
use ai_website_builder.Site.Generate.{
  PageData, built, resolve, page_blocks, page_data, site_data, write_pages, generate, robots,
  sitemap,
}
use ai_website_builder.Site.Paths.{path-top}
use ai_website_builder.Site.Files.{same_slug, HasFile, write_pages-HasFile}

-- The content of a section is an object, or absent.
abbrev pub IsObject : SnapshotSection → Type 0
IsObject s = (input : Dict Json) × (content_map s.content ≡ some input)

abbrev pub HasObjects : SnapshotPage → Type 0
HasObjects p = All IsObject p.sections

page_blocks_total :
    (snap : Snapshot) (site : SiteData) (title : String) (ss : List SnapshotSection)
    → All IsObject ss
    → (bs : List BlockData) × (page_blocks snap site title ss ≡ built bs)
unfolding page_blocks build_block
page_blocks_total snap site title [] h = ([], refl)
page_blocks_total snap site title (s ∷ ss) ((input, e), h) =
    let (bs, rest) = page_blocks_total snap site title ss h in
    elim (Option-cases (lookup s.section_type snap.section_types)) [
      | inl n ↦ (bs, rw (n, rest) refl)
      | inr (schema, known) ↦ (
        block_loop (resolve snap) schema.fields input (start_block (resolve snap) schema input site)
            ∷ bs,
        rw (known, rest, e) refl,
      )
    ]

module _ (render : PageData → Option String) (styles : String) where
  write_pages_total :
      (snap : Snapshot) (site : SiteData) (ps : List SnapshotPage) (files : Dict String)
      → All HasObjects ps
      → ((d : PageData) → (html : String) × (render d ≡ some html))
      → (files' : Dict String) × (write_pages render styles snap site ps (built files)
          ≡ built files')
  unfolding write_pages
  write_pages_total snap site [] files h r = (files, refl)
  write_pages_total snap site (p ∷ ps) files (h, hs) r =
      let (blocks, b) = page_blocks_total snap site p.title p.sections h in
      let (html, m) = r (page_data snap site p blocks) in
      let (files', rest) =
        write_pages_total snap site ps (insert (page_path p.slug) html files) hs r in
      (files', rw (b, m) rest)

  -- The other files do not replace a page's.
  HasFile-assets :
      (snap : Snapshot) (site : SiteData) (files : Dict String) (p : SnapshotPage)
      → valid_slug p.slug ≡ true
      → HasFile render snap site files p
      → HasFile render snap site
          (insert "robots.txt"
            (robots snap)
            (insert "sitemap.xml" (sitemap snap) (insert "styles.css" styles files)))
          p
  HasFile-assets snap site files p v (blocks, html, b, m, there) = (
    blocks,
    html,
    b,
    m,
    rw
        (
          lookup-insert "robots.txt" (page_path p.slug) (robots snap)
              (insert "sitemap.xml" (sitemap snap) (insert "styles.css" styles files)),
          lookup-insert "sitemap.xml" (page_path p.slug) (sitemap snap)
              (insert "styles.css" styles files),
          lookup-insert "styles.css" (page_path p.slug) styles files,
          path-top p.slug "robots.txt" v
              (let n : count "robots.txt" ≡ 10 = refl in omega (arith, n)) refl,
          path-top p.slug "sitemap.xml" v
              (let n : count "sitemap.xml" ≡ 11 = refl in omega (arith, n)) refl,
          path-top p.slug "styles.css" v
              (let n : count "styles.css" ≡ 10 = refl in omega (arith, n)) refl,
        )
        there,
  )

  -- A snapshot with at least one page, valid slugs that are all different, and sections whose
  -- content is an object or absent, builds without an error when the template renders every page,
  -- and each page's own path then holds that page, rendered with the blocks of its sections.
  pub generate_complete :
      (snap : Snapshot) (base_path : String) (year : ℕ)
      → is_empty snap.pages ≡ false
      → All (λ p. valid_slug p.slug ≡ true) snap.pages
      → Apart same_slug snap.pages
      → All HasObjects snap.pages
      → ((d : PageData) → (html : String) × (render d ≡ some html))
      → (files : Dict String) × (generate render styles snap base_path year ≡ built files)
        × All (HasFile render snap (site_data snap base_path year) files) snap.pages
  unfolding generate
  generate_complete snap base_path year filled v a h r =
      let site = site_data snap base_path year in
      let (files, e) = write_pages_total snap site snap.pages [] h r in
      let held = write_pages-HasFile render styles snap site snap.pages [] files v a e in
      (
        _,
        rw (filled, e) refl,
        All-zip _ _ _ (λ p w k. HasFile-assets snap site files p w k) snap.pages v held,
      )
