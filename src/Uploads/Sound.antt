-- ===== src/Uploads/Sound.antt =====
-- The handlers of media keep rows and objects together.
use ai_website_builder.Common.{
  String, Bool, true, false, ◌||◌, ◌==◌, ◌≡◌, refl, ap, Option, none, some, is_some, All-map, find?,
  any, if_cases, arith, Bool-cases, inl, inr, eq_iff,
}
use ai_website_builder.Db.{Db, Media}
use ai_website_builder.Http.Reply.{Request, Response, AuthInfo}
use ai_website_builder.Uploads.{
  Shelf, Upload, Form, too_large, no_file, upload, media_key, new_media, insert_media, store_upload,
  handle_upload_media, handle_list_media, is_media, save_media, handle_update_media, without_media,
  media_deleted, delete_found, handle_delete_media, MediaRoute, list_media, upload_media,
  update_media, delete_media, media_handler,
}
use ai_website_builder.Uploads.Names.{extension, upload_type}
use ai_website_builder.Uploads.Store.{Storage, IsLawful}
use ai_website_builder.Uploads.Shelf.{
  IsShelved, Unused, put-IsShelved, delete-IsShelved, with_row-IsShelved, with_alt_text-IsShelved,
  without-IsShelved, audit-IsShelved, deleted-Unused,
}

module _ (S : Storage) (lawful : IsLawful S) (req : Request) (ai : AuthInfo) where
  record Keeps (r : Response × Shelf S) : Type 0 where
    kept : IsShelved S r.1

  inserted :
      (clean : S.Fault) (u : Upload) (content_type key : String) (p : Option String × S.State)
      (db : Db)
      → is_some (extension content_type) ≡ true
      → Unused key db.media
      → ((url : String) → p.0 ≡ some url → S.holds p.1 key ≡ some u.content)
      → IsShelved S (p.1, db)
      → Keeps (insert_media S req clean ai u content_type key p db)
  unfolding insert_media
  inserted clean u content_type key (none, s) db ok unused here h = record { kept = h }
  inserted clean u content_type key (some url, s) db ok unused here h =
      if_cases Keeps (req.fails 0 || any (λ m. m.id == req.new_id) db.media) _ _
        (λ _. record { kept = delete-IsShelved S lawful clean key s db unused h })
        (λ _. record {
          kept = audit-IsShelved S lawful _ _ _ _ _ _ _ _ s _ (
              with_row-IsShelved S lawful (new_media req ai u content_type key url) s db
                (ap is_some (here url refl)) ok
                (All-map _ _
                  (λ n other. elim (Bool-cases (n.storage_key == key)) [
                    | inl same ↦ absurd (
                        ground
                          (arith, same, other, eq_iff n.storage_key key, eq_iff key n.storage_key))
                    | inr apart ↦ apart
                  ])
                  db.media unused)
                h);
        })

  uploaded :
      (fault clean : S.Fault) (uuid : String) (u : Upload) (content_type : String)
      (o : Option String) (s : S.State) (db : Db)
      → extension content_type ≡ o
      → ((ext : String) → Unused (media_key ai.tenant_id uuid ext) db.media)
      → IsShelved S (s, db)
      → Keeps (store_upload S req fault clean uuid ai u content_type o (s, db))
  unfolding store_upload
  uploaded fault clean uuid u content_type none s db e fresh h = record { kept = h }
  uploaded fault clean uuid u content_type (some ext) s db e fresh h =
      if_cases Keeps u.unseekable _ _ (λ _. record { kept = h })
        (λ _.
          let key = media_key ai.tenant_id uuid ext in
          inserted clean u content_type key (S.put fault key content_type u.content s) db
            (ap is_some e) (fresh ext)
            (λ url went. lawful.put_stored fault key content_type u.content url s went)
            (put-IsShelved S lawful fault key content_type u.content s db (fresh ext) h))

  upload-Keeps :
      (fault clean : S.Fault) (uuid : String) (form : Form) (s : S.State) (db : Db)
      → ((ext : String) → Unused (media_key ai.tenant_id uuid ext) db.media)
      → IsShelved S (s, db)
      → Keeps (handle_upload_media S req fault clean uuid ai form (s, db))
  unfolding handle_upload_media
  upload-Keeps fault clean uuid too_large s db fresh h = record { kept = h }
  upload-Keeps fault clean uuid no_file s db fresh h = record { kept = h }
  upload-Keeps fault clean uuid (upload u) s db fresh h = elim (Bool-cases u.unreadable) [
    | inl bad ↦ rw bad (record { kept = h })
    | inr good ↦ rw good (
        uploaded fault clean uuid u (upload_type u.sniffed u.file_name)
          (extension (upload_type u.sniffed u.file_name)) s db refl fresh h)
  ]

  saved :
      (id alt_text : String) (o : Option Media) (s : S.State) (db : Db)
      → IsShelved S (s, db)
      → Keeps (save_media S req ai id alt_text o (s, db))
  unfolding save_media
  saved id alt_text none s db h = record { kept = h }
  saved id alt_text (some m) s db h = record {
    kept = with_alt_text-IsShelved S lawful _ req.now alt_text s db h;
  }

  update-Keeps :
      (id : String) (body : Option String) (s : S.State) (db : Db)
      → IsShelved S (s, db)
      → Keeps (handle_update_media S req ai id body (s, db))
  unfolding handle_update_media
  update-Keeps id none s db h = record { kept = h }
  update-Keeps id (some alt_text) s db h =
      if_cases Keeps (req.fails 0) _ _ (λ _. record { kept = h })
        (λ _. saved id alt_text (find? (is_media id ai.tenant_id) db.media) s db h)

  audited :
      (id : String) (p : Bool × S.State) (db : Db)
      → IsShelved S (p.1, db)
      → Keeps (media_deleted S req ai id p db)
  unfolding media_deleted
  audited id (false, s) db h = record { kept = h }
  audited id (true, s) db h = record { kept = audit-IsShelved S lawful _ _ _ _ _ _ _ _ s db h }

  deleted :
      (fault : S.Fault) (id : String) (o : Option Media) (s : S.State) (db : Db)
      → find? (is_media id ai.tenant_id) db.media ≡ o
      → IsShelved S (s, db)
      → Keeps (delete_found S req fault ai id o (s, db))
  unfolding delete_found
  deleted fault id none s db e h = record { kept = h }
  deleted fault id (some m) s db e h = audited id _ (without_media id ai.tenant_id db) (
      delete-IsShelved S lawful fault m.storage_key s (without_media id ai.tenant_id db)
        (deleted-Unused id ai.tenant_id m db h.keys e)
        (without-IsShelved S lawful id ai.tenant_id s db h))

  delete-Keeps :
      (fault : S.Fault) (id : String) (s : S.State) (db : Db)
      → IsShelved S (s, db)
      → Keeps (handle_delete_media S req fault ai id (s, db))
  unfolding handle_delete_media
  delete-Keeps fault id s db h =
      if_cases Keeps (req.fails 0) _ _ (λ _. record { kept = h })
        (λ _. deleted fault id (find? (is_media id ai.tenant_id) db.media) s db refl h)

  list-Keeps :
      (s : S.State) (db : Db) → IsShelved S (s, db) → Keeps (handle_list_media S req ai (s, db))
  unfolding handle_list_media
  list-Keeps s db h =
      if_cases Keeps (req.fails 0) _ _ (λ _. record { kept = h }) (λ _. record { kept = h })

  -- The uuid that an upload draws is in no row's key.
  abbrev pub DrawsFresh : MediaRoute S → Db → Type 0
  DrawsFresh list_media db = Unit
  DrawsFresh (upload_media fault clean uuid form) db =
      (ext : String) → Unused (media_key ai.tenant_id uuid ext) db.media
  DrawsFresh (update_media id body) db = Unit
  DrawsFresh (delete_media fault id) db = Unit

  -- On a lawful store, whatever goes wrong in it or in the database, each route of media keeps
  -- this: every row of media has its object in the store, no two rows share one, and every row has
  -- one of the allowed types. An upload draws a uuid that no row has.
  pub media_handler-IsShelved :
      (route : MediaRoute S) (s : S.State) (db : Db)
      → DrawsFresh route db
      → IsShelved S (s, db)
      → IsShelved S (media_handler S req route ai (s, db)).1
  unfolding media_handler
  media_handler-IsShelved list_media s db fresh h = (list-Keeps s db h).kept
  media_handler-IsShelved (upload_media fault clean uuid form) s db fresh h =
      (upload-Keeps fault clean uuid form s db fresh h).kept
  media_handler-IsShelved (update_media id body) s db fresh h = (update-Keeps id body s db h).kept
  media_handler-IsShelved (delete_media fault id) s db fresh h = (delete-Keeps fault id s db h).kept
