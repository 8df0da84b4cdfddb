-- ===== src/Site/Files.antt =====
-- The files that Generate of internal/generator/generator.go writes: one for each page.
use ai_website_builder.Common.{
  String, Bool, true, false, ◌==◌, ◌≡◌, refl, sym, ◌∙◌, Option, some, List, [], ◌∷◌, All, arith,
  eq_iff, Bool-cases, Option-cases, inl, inr, ◌⊎◌,
}
use ai_website_builder.Common.Dict.{Dict, lookup, insert, lookup-insert}
use ai_website_builder.Common.Tables.{Apart, All-zip}
use ai_website_builder.Models.Snapshot.{Snapshot, SnapshotPage}
use ai_website_builder.Http.Text.{valid_slug}
use ai_website_builder.Site.Links.{page_path}
use ai_website_builder.Site.Blocks.{SiteData, BlockData}
use ai_website_builder.Site.Generate.{
  PageData, Built, built, failed, page_blocks, page_data, write_pages,
}
use ai_website_builder.Site.Paths.{page_path-inj}

abbrev pub same_slug : SnapshotPage → SnapshotPage → Bool
same_slug p q = p.slug == q.slug

-- The page's own file holds the page rendered with its blocks.
abbrev pub HasFile :
    (PageData → Option String) → Snapshot → SiteData → Dict String → SnapshotPage → Type 0
HasFile render snap site files p =
    (blocks : List BlockData) × (html : String) × (page_blocks snap site p.title p.sections
      ≡ built blocks)
    × (render (page_data snap site p blocks) ≡ some html)
    × (lookup (page_path p.slug) files ≡ some html)

Built-cases : {A : Type 0} (r : Built A) → ((e : _) × (r ≡ failed e)) ⊎ ((a : A) × (r ≡ built a))
Built-cases (failed e) = inl (e, refl)
Built-cases (built a) = inr (a, refl)

module _ (render : PageData → Option String) (styles : String) (snap : Snapshot)
    (site : SiteData) where
  -- Once it failed, it stays so.
  failed_pages :
      (ps : List SnapshotPage) (files' : Dict String) (e : _)
      → write_pages render styles snap site ps (failed e) ≡ built files'
      → ⊥
  unfolding write_pages
  failed_pages [] files' e h = cc
  failed_pages (p ∷ ps) files' e h = cc

  -- The first page of a run that succeeds: its blocks, its text, and the rest of the run.
  first_page :
      (p : SnapshotPage) (ps : List SnapshotPage) (files files' : Dict String)
      → write_pages render styles snap site (p ∷ ps) (built files) ≡ built files'
      → (blocks : List BlockData) × (html : String) × (page_blocks snap site p.title p.sections
          ≡ built blocks)
        × (render (page_data snap site p blocks) ≡ some html)
        × (write_pages render styles snap site ps (built (insert (page_path p.slug) html files))
            ≡ built files')
  unfolding write_pages
  first_page p ps files files' h = elim (Built-cases (page_blocks snap site p.title p.sections)) [
    | inl (e, k) ↦ absurd (failed_pages ps files' e (rw k at h))
    | inr (blocks, k) ↦ elim (Option-cases (render (page_data snap site p blocks))) [
      | inl n ↦ absurd (failed_pages ps files' _ (rw (k, n) at h))
      | inr (html, m) ↦ (blocks, html, k, m, rw (k, m) at h)
    ]
  ]

  apart_paths :
      (p q : SnapshotPage)
      → valid_slug p.slug ≡ true
      → valid_slug q.slug ≡ true
      → same_slug p q ≡ false
      → (page_path q.slug == page_path p.slug) ≡ false
  apart_paths p q v w n = elim (Bool-cases (page_path q.slug == page_path p.slug)) [
    | inr ne ↦ ne
    | inl same ↦
        let e =
          page_path-inj q.slug p.slug w v ((eq_iff (page_path q.slug) (page_path p.slug)).0 same) in
        absurd (ground (arith, n, (eq_iff p.slug q.slug).1 (sym e)))
  ]

  -- Pages that have other slugs leave a file alone.
  write_pages-keeps :
      (path : String) (ps : List SnapshotPage) (files files' : Dict String)
      → All (λ q. (page_path q.slug == path) ≡ false) ps
      → write_pages render styles snap site ps (built files) ≡ built files'
      → lookup path files' ≡ lookup path files
  unfolding write_pages
  write_pages-keeps path [] files files' a h = cc
  write_pages-keeps path (q ∷ qs) files files' a h =
      let (blocks, html, k, m, rest) = first_page q qs files files' h in
      write_pages-keeps path qs _ files' a.1 rest
      ∙ lookup-insert (page_path q.slug) path html files
      ∙ rw a.0

  pub write_pages-HasFile :
      (ps : List SnapshotPage) (files files' : Dict String)
      → All (λ p. valid_slug p.slug ≡ true) ps
      → Apart same_slug ps
      → write_pages render styles snap site ps (built files) ≡ built files'
      → All (HasFile render snap site files') ps
  write_pages-HasFile [] files files' v a h = tt
  write_pages-HasFile (p ∷ ps) files files' v a h =
      let (blocks, html, k, m, rest) = first_page p ps files files' h in
      let others = All-zip _ _ _ (λ q w n. apart_paths p q v.0 w n) ps v.1 a.0 in
      let kept = write_pages-keeps (page_path p.slug) ps _ files' others rest in
      let there =
        lookup-insert (page_path p.slug) (page_path p.slug) html files
        ∙ rw ((eq_iff (page_path p.slug) (page_path p.slug)).1 refl) in
      ((blocks, html, k, m, kept ∙ there), write_pages-HasFile ps _ files' v.1 a.1 rest)
