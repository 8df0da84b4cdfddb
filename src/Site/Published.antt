-- ===== src/Site/Published.antt =====
-- From sound tables to a whole site: BuildSnapshot of internal/publish/snapshot.go, then Generate of
-- internal/generator/generator.go.
use ai_website_builder.Common.{
  ℕ, ◌+◌, String, Bool, ◌&&◌, ◌||◌, ◌==◌, ◌≡◌, ap, some, [], where_rows, find?, length, arith,
  Bool-cases, Option-cases, inl, inr, coalesce, subst,
}
use ai_website_builder.Common.Dict.{Dict}
use ai_website_builder.Models.Snapshot.{Snapshot}
use ai_website_builder.Db.{Db, Page}
use ai_website_builder.Http.Invariant as Invariant
use ai_website_builder.Site.Snapshot.{
  visible_pages, snapshot_pages, build_snapshot, load_media, media_ids, snapshot_types,
}
use ai_website_builder.Http.SectionTypes.{is_active}

abbrev page_slugs : Page → Page → Bool
page_slugs p q = p.slug == q.slug

-- What a snapshot that was built is made of.
pub record IsBuilt (is_uuid : String → Bool) (fails : ℕ → Bool) (tenant website : String) (db : Db)
    (snap : Snapshot) : Type 0 where
  pub pages : snapshot_pages fails 3 tenant db (visible_pages website tenant db) ≡ some snap.pages
  pub media :
      load_media is_uuid
        (fails (3 + length (visible_pages website tenant db)))
        tenant
        (media_ids snap.website.settings snap.section_types snap.pages)
        db
      ≡ some snap.media

pub build_snapshot-IsBuilt :
    (is_uuid : String → Bool) (fails : ℕ → Bool) (now : ℕ) (tenant website : String) (db : Db)
    (snap : Snapshot)
    → build_snapshot is_uuid fails now tenant website db ≡ some snap
    → IsBuilt is_uuid fails tenant website db snap
unfolding build_snapshot
build_snapshot-IsBuilt is_uuid fails now tenant website db snap h =
    let rows = visible_pages website tenant db in
    let types = snapshot_types (where_rows (is_active tenant) db.section_types) [] in
    elim (Bool-cases (fails 0 || fails 1)) [
      | inl down ↦ absurd (ground (arith, h, down))
      | inr up ↦
          elim (Option-cases (find? (λ w. w.id == website && w.tenant_id == tenant) db.websites)) [
            | inl n ↦ absurd (ground (arith, h, up, n))
            | inr (w, found) ↦ elim (Bool-cases (fails 2)) [
              | inl down' ↦ absurd (ground (arith, h, up, found, down'))
              | inr up' ↦ elim (Option-cases (snapshot_pages fails 3 tenant db rows)) [
                | inl n ↦ absurd (ground (arith, h, up, found, up', n))
                | inr (sps, e) ↦
                    elim (Option-cases (
                      load_media is_uuid (fails (3 + length rows)) tenant
                        (media_ids w.settings types sps) db)) [
                          | inl n ↦ absurd (ground (arith, h, up, found, up', e, n))
                          | inr (media, m) ↦
                              let k = rw (up, found, up', e, m) at h in
                              subst (IsBuilt is_uuid fails tenant website db)
                                (ap (λ o. coalesce o snap) k) (record { pages = e; media = m })
                        ]
              ]
            ]
          ]
    ]
