-- ===== src/Uploads/Tests.antt =====
-- Uploads to local files on the small database.
use ai_website_builder.Common.{String, false, ◌≡◌, refl, none, []}
use ai_website_builder.Common.Dict.{Dict, lookup}
use ai_website_builder.Common.Strings.{cut_prefix, cut_at, trim_right_slash}
use ai_website_builder.Db.{Media}
use ai_website_builder.Models.Roles.{editor}
use ai_website_builder.Http.Reply.{Request, AuthInfo}
use ai_website_builder.Http.Fixtures.{small_db}
use ai_website_builder.Uploads.{Upload, upload, upload_media, media_handler, new_media}
use ai_website_builder.Uploads.Names.{upload_type, extension, path_base, path_ext, is_svg_ext}
use ai_website_builder.Uploads.Store.{Storage, local_storage, local_storage-IsLawful, works}
use ai_website_builder.Uploads.Shelf.{IsShelved}
use ai_website_builder.Uploads.Sound.{media_handler-IsShelved}

-- An SVG sniffs as text, and is known by its name; the name may come with its directories.
svg_by_name : upload_type "text/xml; charset=utf-8" "a.b/logo.SVG" ≡ "image/svg+xml"
unfolding upload_type cut_prefix cut_at path_ext is_svg_ext
svg_by_name = refl

text_refused : extension (upload_type "text/plain; charset=utf-8" "notes.txt") ≡ none
unfolding upload_type cut_prefix cut_at path_ext is_svg_ext extension lookup
text_refused = refl

last_element : path_base "/pics/logo.png/" ≡ "logo.png"
unfolding path_base trim_right_slash
last_element = refl

abbrev disk : Storage
disk = local_storage "http://localhost:8080/media/"

abbrev req : Request
req = record { authorization = ""; tenant = "t1"; now = 7; new_id = "m1"; fails = λ n. false }

abbrev eve_in : AuthInfo
eve_in = record { user_id = "u1"; is_platform_admin = false; tenant_id = "t1"; role = editor }

abbrev logo : Upload
logo = record {
  file_name = "logo.png";
  size = 3;
  content = "PNG";
  sniffed = "image/png";
  alt_text = "Logo";
  unreadable = false;
  unseekable = false;
}

abbrev logo_row : Media
logo_row = new_media req eve_in logo "image/png" "t1/x.png" "http://localhost:8080/media/t1/x.png"

abbrev no_files : Dict String
no_files = []

media_handler-IsShelved_example :
    IsShelved disk
      (media_handler disk req
        (upload_media works works "x" (upload logo))
        eve_in
        (no_files, small_db)).1
media_handler-IsShelved_example =
    media_handler-IsShelved disk (local_storage-IsLawful "http://localhost:8080/media/") req eve_in
      (upload_media works works "x" (upload logo)) no_files small_db (λ ext. tt)
      (record { stored = tt; keys = tt; types = tt })
