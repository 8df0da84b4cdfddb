-- ===== src/Uploads.antt =====
-- internal/httpapi/handlers_media.go: the handlers of media, over the interface of
-- internal/storage/storage.go. Names of files and types of content are in Uploads.Names.
pub mod Names
pub mod Store
pub mod Shelf
pub mod Sound
pub mod Stored
pub mod Tests
use ai_website_builder.Common.{
  ℕ, String, ◌<>◌, Bool, true, false, not, ◌&&◌, ◌||◌, ◌==◌, Option, none, some, List, [], ◌∷◌,
  ◌++◌, find?, any, where_rows, update_rows, if◌then◌else◌, leb,
}
use ai_website_builder.Common.Sort.{sort_by}
use ai_website_builder.Common.Strconv.{pos, format_int}
use ai_website_builder.Models.Json.{str, num}
use ai_website_builder.Models.Roles.{viewer, editor}
use ai_website_builder.Db.{Db, Media, record_audit}
use ai_website_builder.Http.Reply.{
  Request, Response, media, media_list, done, AuthInfo, Step, refuse, internal_error, reply,
}
use ai_website_builder.Uploads.Names.{upload_type, extension, path_base}
use ai_website_builder.Uploads.Store.{Storage}

-- The file of the form: its name, size, content, and the type that http.DetectContentType reads off
-- its first bytes; whether reading it or going back to its start fails.
pub record Upload : Type 0 where
  pub file_name : String
  pub size : ℕ
  pub content : String
  pub sniffed : String
  pub alt_text : String
  pub unreadable : Bool
  pub unseekable : Bool

pub data Form : Type 0 where
  too_large no_file : Form
  upload : Upload → Form

abbrev pub media_key : String → String → String → String
media_key tenant uuid ext = tenant <> "/" <> uuid <> ext

abbrev pub new_media : Request → AuthInfo → Upload → String → String → String → Media
new_media req ai u content_type key url = record {
  id = req.new_id;
  tenant_id = ai.tenant_id;
  file_name = path_base u.file_name;
  file_type = content_type;
  file_size = u.size;
  storage_key = key;
  public_url = url;
  alt_text = u.alt_text;
  created_at = req.now;
  updated_at = req.now;
}

abbrev pub is_media : String → String → Media → Bool
is_media id tenant m = m.id == id && m.tenant_id == tenant

abbrev pub with_alt_text : ℕ → String → Media → Media
with_alt_text now alt_text m = record m { alt_text = alt_text; updated_at = now }

abbrev pub without_media : String → String → Db → Db
without_media id tenant db = record db {
  media = where_rows (λ m. not (is_media id tenant m)) db.media;
}

module _ (S : Storage) where
  -- The store and the database.
  abbrev pub Shelf : Type 0
  Shelf = S.State × Db

  abbrev pub on_db : (Db → Db) → Shelf → Shelf
  on_db f (s, db) = (s, f db)

  -- `clean` is the fault of the call that removes the object again; its outcome is ignored.
  unfoldable pub insert_media :
      Request
      → S.Fault
      → AuthInfo
      → Upload
      → String
      → String
      → Option String × S.State
      → Db
      → Response × Shelf
  insert_media req clean ai u content_type key (none, s) db = internal_error (s, db)
  insert_media req clean ai u content_type key (some url, s) db =
      if req.fails 0 || any (λ m. m.id == req.new_id) db.media
      then internal_error ((S.delete clean key s).1, db)
      else (let m = new_media req ai u content_type key url in
          reply 201 (media m) (
            s,
            record_audit (req.fails 1) req.now ai.tenant_id ai.user_id "media.uploaded" "media" m.id
                (("file_name", str m.file_name) ∷ ("size", num (format_int (pos m.file_size))) ∷ [])
                (record db { media = db.media ++ m ∷ [] }),
          ))

  unfoldable pub store_upload :
      Request → S.Fault → S.Fault → String → AuthInfo → Upload → String → Option String → Step Shelf
  unfolding insert_media
  store_upload req fault clean uuid ai u content_type none (s, db) =
      refuse 400 "unsupported file type (allowed: jpeg, png, gif, webp, svg, pdf)" (s, db)
  store_upload req fault clean uuid ai u content_type (some ext) (s, db) =
      if u.unseekable
      then internal_error (s, db)
      else insert_media req clean ai u content_type (media_key ai.tenant_id uuid ext)
          (S.put fault (media_key ai.tenant_id uuid ext) content_type u.content s) db

  -- `uuid` is the one that the handler draws for the key.
  unfoldable pub handle_upload_media :
      Request → S.Fault → S.Fault → String → AuthInfo → Form → Step Shelf
  unfolding store_upload
  handle_upload_media req fault clean uuid ai too_large =
      refuse 400 "upload too large or malformed (max 10 MB)"
  handle_upload_media req fault clean uuid ai no_file =
      refuse 400 "multipart field \"file\" is required"
  handle_upload_media req fault clean uuid ai (upload u) =
      if u.unreadable
      then internal_error
      else store_upload req fault clean uuid ai u (upload_type u.sniffed u.file_name)
          (extension (upload_type u.sniffed u.file_name))

  unfoldable pub handle_list_media : Request → AuthInfo → Step Shelf
  handle_list_media req ai (s, db) =
      if req.fails 0
      then internal_error (s, db)
      else reply 200
          (media_list (
            sort_by (λ m n. leb n.created_at m.created_at)
              (where_rows (λ m. m.tenant_id == ai.tenant_id) db.media)))
          (s, db)

  unfoldable pub save_media : Request → AuthInfo → String → String → Option Media → Step Shelf
  save_media req ai id alt_text none (s, db) = refuse 404 "media not found" (s, db)
  save_media req ai id alt_text (some m) (s, db) =
      reply 200 (media (with_alt_text req.now alt_text m)) (
        s,
        record db {
          media = update_rows (is_media id ai.tenant_id) (with_alt_text req.now alt_text) db.media;
        },
      )

  -- A body without the text is refused like one that does not decode.
  unfoldable pub handle_update_media : Request → AuthInfo → String → Option String → Step Shelf
  unfolding save_media
  handle_update_media req ai id none (s, db) = refuse 400 "alt_text is required" (s, db)
  handle_update_media req ai id (some alt_text) (s, db) =
      if req.fails 0
      then internal_error (s, db)
      else save_media req ai id alt_text (find? (is_media id ai.tenant_id) db.media) (s, db)

  -- The row is gone; then its object goes.
  unfoldable pub media_deleted :
      Request → AuthInfo → String → Bool × S.State → Db → Response × Shelf
  media_deleted req ai id (false, s) db = internal_error (s, db)
  media_deleted req ai id (true, s) db = reply 200 done (
    s,
    record_audit (req.fails 1) req.now ai.tenant_id ai.user_id "media.deleted" "media" id [] db,
  )

  unfoldable pub delete_found : Request → S.Fault → AuthInfo → String → Option Media → Step Shelf
  unfolding media_deleted
  delete_found req fault ai id none (s, db) = refuse 404 "media not found" (s, db)
  delete_found req fault ai id (some m) (s, db) =
      media_deleted req ai id (S.delete fault m.storage_key s) (without_media id ai.tenant_id db)

  unfoldable pub handle_delete_media : Request → S.Fault → AuthInfo → String → Step Shelf
  unfolding delete_found
  handle_delete_media req fault ai id (s, db) =
      if req.fails 0
      then internal_error (s, db)
      else delete_found req fault ai id (find? (is_media id ai.tenant_id) db.media) (s, db)

  -- The routes of media, with the faults of their calls of the store.
  pub data MediaRoute : Type 0 where
    list_media : MediaRoute
    upload_media : S.Fault → S.Fault → String → Form → MediaRoute
    update_media : String → Option String → MediaRoute
    delete_media : S.Fault → String → MediaRoute

  unfoldable pub media_role : MediaRoute → String
  media_role list_media = viewer
  media_role (upload_media fault clean uuid form) = editor
  media_role (update_media id body) = editor
  media_role (delete_media fault id) = editor

  unfoldable pub media_handler : Request → MediaRoute → AuthInfo → Step Shelf
  media_handler req list_media ai = handle_list_media req ai
  media_handler req (upload_media fault clean uuid form) ai =
      handle_upload_media req fault clean uuid ai form
  media_handler req (update_media id body) ai = handle_update_media req ai id body
  media_handler req (delete_media fault id) ai = handle_delete_media req fault ai id
