-- ===== src/Site/Pictures.antt =====
-- The media of a snapshot (internal/publish/snapshot.go): the tenant's own, as far as the site refers to them.
use ai_website_builder.Common.{String, Bool, ◌&&◌, ◌==◌, Option, none, some, find?}
use ai_website_builder.Common.Dict.{Dict}
use ai_website_builder.Models.Snapshot.{Snapshot, SnapshotMedia}
use ai_website_builder.Db.{Db, Media}

abbrev pub same_media : Media → Media → Bool
same_media a b = a.id == b.id

abbrev pub entry_of : Option Media → Option SnapshotMedia
entry_of none = none
entry_of (some m) = some (record { url = m.public_url; alt = m.alt_text })

abbrev pub media_row : String → String → Db → Option Media
media_row tenant id db = find? (λ m. m.tenant_id == tenant && m.id == id) db.media
