-- ===== src/Uploads/Stored.antt =====
-- What an upload stores, and that a deletion takes it all back.
use ai_website_builder.Common.{
  String, true, false, ◌==◌, ◌≡◌, none, some, is_some, [], ◌∷◌, ◌++◌, any, if◌then◌else◌,
}
use ai_website_builder.Common.Dict.{Dict}
use ai_website_builder.Models.Json.{Json}
use ai_website_builder.Db.{Db, Media}
use ai_website_builder.Http.Reply.{Response, media}
use ai_website_builder.Uploads.{Shelf, Upload}
use ai_website_builder.Uploads.Names.{extension}
use ai_website_builder.Uploads.Store.{Storage, IsLawful}

module _ (S : Storage) (lawful : IsLawful S) where
  -- The row, with its object, that an upload adds.
  pub record Adds (tenant : String) (u : Upload) (x y : Shelf S) (m : Media) : Type 0 where
    pub rows : y.1.media ≡ x.1.media ++ m ∷ []
    pub new_id : any (λ n. n.id == m.id) x.1.media ≡ false
    pub of_tenant : (m.tenant_id == tenant) ≡ true
    pub allowed : is_some (extension m.file_type) ≡ true
    pub content : S.holds y.0 m.storage_key ≡ some u.content
    pub others : (key : String) → (m.storage_key == key) ≡ false → S.holds y.0 key ≡ S.holds x.0 key

  record Stores (tenant : String) (u : Upload) (x : Shelf S) (r : Response × Shelf S) : Type 0 where
    stored : r.0.status ≡ 201 → (m : Media) × (r.0.body ≡ media m) × Adds tenant u x r.1 m

  -- A reply of 200 has taken the row and the object away.
  record TakesBack (x : Shelf S) (m : Media) (r : Response × Shelf S) : Type 0 where
    gone :
        r.0.status ≡ 200
        → (r.1.1.media ≡ x.1.media)
          × ((key : String)
              → S.holds r.1.0 key ≡ (if m.storage_key == key then none else S.holds x.0 key))
