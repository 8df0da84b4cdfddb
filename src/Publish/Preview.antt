-- ===== src/Publish/Preview.antt =====
-- internal/publish/publisher.go: BuildPreview and PreviewValid.
use ai_website_builder.Common.{
  ℕ, ◌+◌, String, Bool, ◌<>◌, ◌≡◌, refl, ◌∙◌, ap, Option, none, some, leb, is_some, arith, eq_iff,
  Option-cases, inl, inr, List, All,
}
use ai_website_builder.Common.Dict.{Dict, lookup, IsDistinct}
use ai_website_builder.Models.Snapshot.{Snapshot}
use ai_website_builder.Db.{Db}
use ai_website_builder.Cache.Spec.{Call, Agrees, Agrees-insert}
use ai_website_builder.Cache.Locks.{after, elapsed}
use ai_website_builder.Cache.Kept.{Spares, get-after}
use ai_website_builder.Cache.{MemEntry, MemCache, get, set}
use ai_website_builder.Site.Generate.{PageData, Built, built, failed, generate}
use ai_website_builder.Site.Snapshot.{build_snapshot}

abbrev pub preview_ttl : ℕ
preview_ttl = 1800

abbrev pub preview_key : String → String
preview_key token = "preview:" <> token

-- The files are served under the token as long as it is in the cache.
keep_preview :
    ℕ → String → String → MemCache → Built (Dict String) → Option (Dict String) × MemCache
keep_preview now website token c (failed e) = (none, c)
keep_preview now website token c (built files) =
    (some files, set now (preview_key token) website preview_ttl c)

module _ (is_uuid : String → Bool) (render : PageData → Option String) (styles : String) where
  preview_of :
      ℕ → ℕ → String → String → MemCache → Option Snapshot → Option (Dict String) × MemCache
  unfolding keep_preview
  preview_of now year website token c none = (none, c)
  preview_of now year website token c (some snap) =
      keep_preview now website token c (generate render styles snap ("/preview/" <> token) year)

  -- `token` is the random one; `none` is an error.
  unfoldable pub build_preview :
      (String → String)
      → (ℕ → Bool)
      → ℕ
      → ℕ
      → String
      → String
      → String
      → Db
      → MemCache
      → Option (Dict String) × MemCache
  unfolding preview_of
  build_preview uuid fails now year tenant website token db c =
      preview_of now year website token c
        (build_snapshot is_uuid fails now tenant (uuid website) db)

unfoldable pub preview_valid : ℕ → String → MemCache → Bool × MemCache
preview_valid now token c = let (v, c') = get now (preview_key token) c in (is_some v, c')

-- What a preview that was built leaves in the cache.
build_preview-set :
    (is_uuid : String → Bool) (render : PageData → Option String) (styles : String)
    (uuid : String → String) (fails : ℕ → Bool) (now year : ℕ) (tenant website token : String)
    (db : Db) (c : MemCache) (files : Dict String)
    → (build_preview is_uuid render styles uuid fails now year tenant website token db c).0
      ≡ some files
    → (build_preview is_uuid render styles uuid fails now year tenant website token db c).1
      ≡ set now (preview_key token) website preview_ttl c
unfolding build_preview
build_preview-set is_uuid render styles uuid fails now year tenant website token db c files h =
    elim (Option-cases (build_snapshot is_uuid fails now tenant (uuid website) db)) [
      | inl n ↦ absurd (ground (arith, h, n))
      | inr (snap, e) ↦
          rw e (kept (generate render styles snap ("/preview/" <> token) year) (rw e at h))
    ]
  where
    kept :
        (r : Built (Dict String))
        → (keep_preview now website token c r).0 ≡ some files
        → (keep_preview now website token c r).1 ≡ set now (preview_key token) website preview_ttl c
    kept (failed x) k = cc
    kept (built fs) k = refl

set-valid :
    (now : ℕ) (website token : String) (c : MemCache) (calls : List (ℕ × Call))
    → IsDistinct c.m
    → All (λ call. Spares (preview_key token) call.1) calls
    → (preview_valid
        (now + elapsed calls)
        token
        (after now (set now (preview_key token) website preview_ttl c) calls)).0
      ≡ leb (elapsed calls) 1800
unfolding preview_valid set
set-valid now website token c calls distinct spares =
    let k = preview_key token in
    let e : MemEntry = record { value = website; expires_at = now + preview_ttl } in
    let start : Agrees now c (λ j. lookup j c.m) = record {
      distinct = distinct;
      views = λ j. refl;
    } in
    let found =
      get-after now k calls _ _ (Agrees-insert now c (λ j. lookup j c.m) k e start) spares in
    ap (λ o. is_some o) found ∙ rw ((eq_iff k k).1 refl) (ground arith)

-- The token of a preview that was built is valid for half an hour and no longer: at any later time,
-- after any calls of the cache and passes of its janitor that do not write the token's key, exactly
-- if at most 1800 seconds have passed. The cache holds no key twice before.
pub preview_valid-build_preview :
    (is_uuid : String → Bool) (render : PageData → Option String) (styles : String)
    (uuid : String → String) (fails : ℕ → Bool) (now year : ℕ) (tenant website token : String)
    (db : Db) (c : MemCache) (files : Dict String) (calls : List (ℕ × Call))
    → IsDistinct c.m
    → All (λ call. Spares (preview_key token) call.1) calls
    → (build_preview is_uuid render styles uuid fails now year tenant website token db c).0
      ≡ some files
    → (preview_valid (now + elapsed calls) token (
        after now
          (build_preview is_uuid render styles uuid fails now year tenant website token db c).1
          calls)).0
      ≡ leb (elapsed calls) 1800
preview_valid-build_preview is_uuid render styles uuid fails now year tenant website token db c
      files calls distinct spares h =
    ap (λ (m : MemCache). (preview_valid (now + elapsed calls) token (after now m calls)).0)
      (build_preview-set is_uuid render styles uuid fails now year tenant website token db c files
        h)
    ∙ set-valid now website token c calls distinct spares
