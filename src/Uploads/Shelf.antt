-- ===== src/Uploads/Shelf.antt =====
-- Rows of media and objects of the store: what the handlers of media keep true of the two.
use ai_website_builder.Common.{
  ℕ, String, Bool, true, false, not, ◌==◌, ◌≡◌, refl, sym, ap, subst, ◌∙◌, some, is_some, List, [],
  ◌∷◌, ◌++◌, All, All-append, All-map, All-where_rows, find?, where_rows, where_rows_sound,
  update_rows, arith, Bool-cases, inl, inr, eq_iff,
}
use ai_website_builder.Common.Dict.{Dict}
use ai_website_builder.Models.Json.{Json}
use ai_website_builder.Common.Tables.{
  Apart, Apart-append, Apart-where_rows, Apart-update_rows_same, All-zip, All-pure, All-update_rows,
  find?_sound,
}
use ai_website_builder.Db.{Db, Media, record_audit}
use ai_website_builder.Uploads.{Shelf, is_media, with_alt_text, without_media}
use ai_website_builder.Uploads.Names.{extension}
use ai_website_builder.Uploads.Store.{Storage, IsLawful}

abbrev pub same_key : Media → Media → Bool
same_key m n = m.storage_key == n.storage_key

abbrev pub IsStored : (S : Storage) → S.State → Media → Type 0
IsStored S s m = is_some (S.holds s m.storage_key) ≡ true

-- Every row has its object, no two rows share one, and every row's type is an allowed one.
pub record IsShelved (S : Storage) (x : Shelf S) : Type 0 where
  pub stored : All (IsStored S x.0) x.1.media
  pub keys : Apart same_key x.1.media
  pub types : All (λ m. is_some (extension m.file_type) ≡ true) x.1.media

-- No row has the key.
abbrev pub Unused : String → List Media → Type 0
Unused key ms = All (λ m. (key == m.storage_key) ≡ false) ms

module _ (S : Storage) (lawful : IsLawful S) where
  -- A change of one object that no row has.
  pub apart-IsStored :
      (key : String) (s s' : S.State) (ms : List Media)
      → ((other : String) → (key == other) ≡ false → S.holds s' other ≡ S.holds s other)
      → Unused key ms
      → All (IsStored S s) ms
      → All (IsStored S s') ms
  apart-IsStored key s s' ms same unused h =
      All-zip _ _ _ (λ m n k. ap is_some (same m.storage_key n) ∙ k) ms unused h

  pub put-IsShelved :
      (f : S.Fault) (key content_type content : String) (s : S.State) (db : Db)
      → Unused key db.media
      → IsShelved S (s, db)
      → IsShelved S ((S.put f key content_type content s).1, db)
  put-IsShelved f key content_type content s db unused h = record {
    stored =
        apart-IsStored key s _ db.media
          (λ other n. lawful.put_other f key content_type content other s n) unused h.stored;
    keys = h.keys;
    types = h.types;
  }

  pub delete-IsShelved :
      (f : S.Fault) (key : String) (s : S.State) (db : Db)
      → Unused key db.media
      → IsShelved S (s, db)
      → IsShelved S ((S.delete f key s).1, db)
  delete-IsShelved f key s db unused h = record {
    stored =
        apart-IsStored key s _ db.media (λ other n. lawful.delete_other f key other s n) unused
          h.stored;
    keys = h.keys;
    types = h.types;
  }

  pub with_row-IsShelved :
      (m : Media) (s : S.State) (db : Db)
      → IsStored S s m
      → is_some (extension m.file_type) ≡ true
      → All (λ n. same_key n m ≡ false) db.media
      → IsShelved S (s, db)
      → IsShelved S (s, record db { media = db.media ++ m ∷ [] })
  with_row-IsShelved m s db here ok free h = record {
    stored = All-append _ db.media _ h.stored (here, tt);
    keys = Apart-append same_key db.media m h.keys free;
    types = All-append _ db.media _ h.types (ok, tt);
  }

  pub with_alt_text-IsShelved :
      (p : Media → Bool) (now : ℕ) (alt_text : String) (s : S.State) (db : Db)
      → IsShelved S (s, db)
      → IsShelved S (s, record db { media = update_rows p (with_alt_text now alt_text) db.media })
  with_alt_text-IsShelved p now alt_text s db h = record {
    stored = All-update_rows _ p _ db.media h.stored (All-pure _ (λ m sel k. k) db.media);
    keys =
        Apart-update_rows_same same_key p (with_alt_text now alt_text) db.media (λ m n. refl)
          (λ m n. refl) h.keys;
    types = All-update_rows _ p _ db.media h.types (All-pure _ (λ m sel k. k) db.media);
  }

  pub without-IsShelved :
      (id tenant : String) (s : S.State) (db : Db)
      → IsShelved S (s, db)
      → IsShelved S (s, without_media id tenant db)
  without-IsShelved id tenant s db h = record {
    stored = All-where_rows _ _ db.media h.stored;
    keys = Apart-where_rows same_key _ db.media h.keys;
    types = All-where_rows _ _ db.media h.types;
  }

  pub audit-IsShelved :
      (fails : Bool) (now : ℕ) (t user action entity id : String) (meta : Dict Json) (s : S.State)
      (db : Db)
      → IsShelved S (s, db)
      → IsShelved S (s, record_audit fails now t user action entity id meta db)
  unfolding record_audit
  audit-IsShelved true now t user action entity id meta s db h = h
  audit-IsShelved false now t user action entity id meta s db h = record {
    stored = h.stored;
    keys = h.keys;
    types = h.types;
  }

-- The row that a test finds is the only one with its key.
found-key :
    (q : Media → Bool) (ms : List Media) (m : Media)
    → Apart same_key ms
    → find? q ms ≡ some m
    → All (λ n. (m.storage_key == n.storage_key) ≡ true → q n ≡ true) ms
found-key q [] m d e = tt
found-key q (n ∷ ms) m d e = elim (Bool-cases (q n)) [
  | inl t ↦
      let same : n ≡ m = ground (arith, t, e) in
      (
        λ _. t,
        All-map _ _
            (λ k apart hit. absurd (
              ground (
                arith,
                apart,
                subst (λ (z : Media). (z.storage_key == k.storage_key) ≡ true) (sym same) hit,
              )))
            ms d.0,
      )
  | inr f ↦
      let rest = found-key q ms m d.1 (rw f at e) in
      let (apart, hit) = find?_sound (λ k. same_key n k ≡ false) q ms m d.0 (rw f at e) in
      (
        λ same. absurd (
            ground (
              arith,
              apart,
              same,
              eq_iff m.storage_key n.storage_key,
              eq_iff n.storage_key m.storage_key,
            )),
        rest,
      )
]

-- Once its row is deleted, no row has the key.
pub deleted-Unused :
    (id tenant : String) (m : Media) (db : Db)
    → Apart same_key db.media
    → find? (is_media id tenant) db.media ≡ some m
    → Unused m.storage_key (without_media id tenant db).media
deleted-Unused id tenant m db d e =
    All-zip _ _ _ (λ n only kept. not_same n only kept)
      (where_rows (λ n. not (is_media id tenant n)) db.media)
      (All-where_rows _ (λ n. not (is_media id tenant n)) db.media
        (found-key (is_media id tenant) db.media m d e))
      (where_rows_sound (λ n. not (is_media id tenant n)) db.media)
  where
    not_same :
        (n : Media)
        → ((m.storage_key == n.storage_key) ≡ true → is_media id tenant n ≡ true)
        → not (is_media id tenant n) ≡ true
        → (m.storage_key == n.storage_key) ≡ false
    not_same n only kept = elim (Bool-cases (m.storage_key == n.storage_key)) [
      | inl same ↦ absurd (ground (arith, only same, kept))
      | inr other ↦ other
    ]
