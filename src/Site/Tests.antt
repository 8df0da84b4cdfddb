-- ===== src/Site/Tests.antt =====
-- A site built from a small database (internal/generator, internal/publish/snapshot.go).
use ai_website_builder.Common.{
  ℕ, String, Bool, true, false, ◌==◌, ◌<>◌, ◌≡◌, refl, Option, some, [], ◌∷◌, All, map, ◌⊎◌,
  if◌then◌else◌,
}
use ai_website_builder.Common.Dict.{Dict, lookup}
use ai_website_builder.Common.Lists.{where_rows}
use ai_website_builder.Common.Sort.{sort_by, insert_sorted}
use ai_website_builder.Models.Json.{unmarshal_map}
use ai_website_builder.Models.Snapshot.{Snapshot}
use ai_website_builder.Http.Fixtures.{small_db, no_settings, site, hero}
use ai_website_builder.Db.{Page}
use ai_website_builder.Models.Json.{Raw, parsed, obj, arr, str, member, end, cons, nil}
use ai_website_builder.Models.Schema
use ai_website_builder.Models.Schema.{spec}
use ai_website_builder.Models.Snapshot.{SnapshotSectionType}
use ai_website_builder.Site.Blocks.{
  SiteData, BlockData, words, image, items, build_block, block_loop, block_field, build_items,
  build_item, item_loop, item_field, item_words, block_image, block_items,
}
use ai_website_builder.Db.{Db, Media}
use ai_website_builder.Models.Settings.{WebsiteSettings}
use ai_website_builder.Site.Shown.{IsShown, IsPicture, build_block-IsShown}
use ai_website_builder.Http.Text.{valid_slug}
use ai_website_builder.Site.Files.{HasFile}
use ai_website_builder.Site.Generate.{PageData, built, site_data, generate}
use ai_website_builder.Site.Complete.{generate_complete}
use ai_website_builder.Site.Snapshot.{visible_pages, snapshot_page}

-- A template that shows the title, and one query after another that succeeds.
abbrev show_title : PageData → Option String
show_title d = some ("<h1>" <> d.title <> "</h1>")

abbrev no_failure : ℕ → Bool
no_failure n = false

abbrev any_text : String → Bool
any_text s = true

abbrev small_snapshot : Snapshot
small_snapshot = record {
  website = record { name = "Site"; domain = ""; template_id = "business"; settings = no_settings };
  pages = map (snapshot_page "t1" small_db) (visible_pages "w1" "t1" small_db);
  media = [];
  section_types =
      ("hero", record { label = "Hero"; fields = hero.fields; layout = hero.layout }) ∷ [];
  version = 2;
  built_at = 7;
}

-- Both visible pages, the blocks of the one that has a section included.
small-rows :
    map (λ (p : Page). p.slug) (visible_pages "w1" "t1" small_db) ≡ "home" ∷ "about-us" ∷ []
unfolding sort_by insert_sorted where_rows
small-rows = refl

generate_complete_example :
    (files : Dict String) × (generate show_title "css" small_snapshot "" 2026 ≡ built files)
    × All
        (HasFile show_title small_snapshot (site_data small_snapshot "" 2026) files)
        small_snapshot.pages
unfolding sort_by insert_sorted where_rows unmarshal_map valid_slug
generate_complete_example =
    generate_complete show_title "css" small_snapshot "" 2026 refl (refl, (refl, tt))
      ((refl, tt), (tt, tt)) ((([], refl), tt), (tt, tt))
      (λ d. ("<h1>" <> d.title <> "</h1>", refl))

abbrev one_picture : String → String × String
one_picture id = if id == "m1" then ("/media/a.png", "A") else ("", "")

abbrev team : SnapshotSectionType
team = record {
  label = "Team";
  fields = Schema.cons (spec "back" "Back" "image" [] Schema.nil) (
      Schema.cons (spec "more" "More" "button" [] Schema.nil) (
        Schema.cons
          (spec "people" "People" "list" [] (
            Schema.cons (spec "name" "Name" "text" [] Schema.nil)
              (Schema.cons (spec "photo" "Photo" "image" [] Schema.nil) Schema.nil)))
          Schema.nil));
  layout = record { variant = "banner"; background = ""; align = "center" };
}

-- A button without a link, an item without a name and with a lost picture.
abbrev team_content : Raw
team_content = parsed (
    obj (
      member "back" (str "m1") (
        member "more" (obj (member "text" (str "Go") end)) (
          member "people"
            (arr (
              cons (obj (member "name" (str "Ann") (member "photo" (str "m1") end)))
                (cons (obj (member "photo" (str "gone") end)) nil)))
            end))))

abbrev bare_site : SiteData
bare_site = record {
  name = "Site";
  settings = no_settings;
  logo_url = "";
  nav = [];
  year = 2026;
  base_path = "";
}

abbrev team_block : BlockData
team_block = record {
  variant = "banner";
  align = "center";
  bg = "";
  bg_image = "/media/a.png";
  fields =
      items
        (record { summary = ""; fields = words "title" "Ann" ∷ image "/media/a.png" "A" ∷ [] } ∷ [])
      ∷ [];
  has_items = true;
  site = bare_site;
}

team-built : build_block one_picture team team_content bare_site ≡ some team_block
unfolding build_block block_loop block_field lookup build_items build_item item_loop item_field
    item_words block_image block_items unmarshal_map
team-built = refl

build_block-IsShown_example :
    All (IsShown one_picture) team_block.fields
    × (((team_block.bg_image == "") ≡ true)
        ⊎ ((alt : String) × IsPicture one_picture team_block.bg_image alt))
build_block-IsShown_example =
    build_block-IsShown one_picture team team_content bare_site team_block team-built

abbrev a_medium : String → String → Media
a_medium id tenant = record {
  id = id;
  tenant_id = tenant;
  file_name = "logo.png";
  file_type = "image/png";
  file_size = 9;
  storage_key = "k";
  public_url = "/media/logo.png";
  alt_text = "Logo";
  created_at = 1;
  updated_at = 1;
}

abbrev logo_settings : WebsiteSettings
logo_settings = record no_settings { logo_media_id = "m1" }

abbrev logo_db : Db
logo_db = record small_db {
  websites = record site { settings = logo_settings } ∷ [];
  media = a_medium "m1" "t1" ∷ a_medium "m9" "t9" ∷ [];
}

abbrev logo_snapshot : Snapshot
logo_snapshot = record small_snapshot {
  website = record {
    name = "Site";
    domain = "";
    template_id = "business";
    settings = logo_settings;
  };
  media = ("m1", record { url = "/media/logo.png"; alt = "Logo" }) ∷ [];
}
