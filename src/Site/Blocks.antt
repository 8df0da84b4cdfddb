-- ===== src/Site/Blocks.antt =====
-- internal/generator/generator.go: buildBlock and buildItem, the view models of a section.
use ai_website_builder.Common.{
  ℕ, String, Bool, true, false, not, ◌&&◌, ◌||◌, ◌==◌, Option, none, some, List, [], ◌∷◌, ◌++◌,
  if◌then◌else◌, is_empty,
}
use ai_website_builder.Common.Dict.{Dict, lookup}
use ai_website_builder.Models.Json.{
  Json, as_text, as_obj, as_arr, Raw, blank, malformed, parsed, unmarshal_map,
}
use ai_website_builder.Models.Schema.{FieldSpec, FieldSpecs, nil, cons, key, type, item_fields}
use ai_website_builder.Models.Snapshot.{SnapshotSectionType}
use ai_website_builder.Models.Settings.{WebsiteSettings}
use ai_website_builder.Site.Links.{first_non_empty}

pub record NavItem : Type 0 where
  pub title : String
  pub href : String

pub record SiteData : Type 0 where
  pub name : String
  pub settings : WebsiteSettings
  pub logo_url : String
  pub nav : List NavItem
  pub year : ℕ
  pub base_path : String

-- A blockField that holds no items: its Kind and the fields that this kind uses.
pub data BlockLeaf : Type 0 where
  -- heading, title, text, caption or textarea
  words : (kind text : String) → BlockLeaf
  image : (image_url image_alt : String) → BlockLeaf
  button : (text url : String) → BlockLeaf
  contact : BlockLeaf

pub record BlockItem : Type 0 where
  pub summary : String
  pub fields : List BlockLeaf

pub data BlockField : Type 0 where
  leaf : BlockLeaf → BlockField
  items : List BlockItem → BlockField

pub record BlockData : Type 0 where
  pub variant : String
  pub align : String
  pub bg : String
  pub bg_image : String
  pub fields : List BlockField
  pub has_items : Bool
  pub site : SiteData

-- The fields of data[key] that a button needs, as a field if both are there.
abbrev pub button_leaf : Option Json → Option BlockLeaf
button_leaf v =
    let o = as_obj v in
    let text = as_text (lookup "text" o) in
    let link = as_text (lookup "link" o) in
    if not (text == "") && not (link == "") then some (button text link) else none

abbrev pub words_leaf : String → String → Option BlockLeaf
words_leaf kind s = if s == "" then none else some (words kind s)

-- json.Unmarshal into a map; no content at all is a nil map.
abbrev pub content_map : Raw → Option (Dict Json)
content_map blank = some []
content_map malformed = unmarshal_map malformed
content_map (parsed v) = unmarshal_map (parsed v)

abbrev pub add_leaf : Option BlockLeaf → BlockItem → BlockItem
add_leaf none it = it
add_leaf (some l) it = record it { fields = it.fields ++ l ∷ [] }

abbrev pub add_field : Option BlockLeaf → BlockData → BlockData
add_field none b = b
add_field (some l) b = record b { fields = b.fields ++ leaf l ∷ [] }

module _ (media : String → String × String) where
  abbrev pub image_leaf : String → Option BlockLeaf
  image_leaf id = let (url, alt) = media id in if url == "" then none else some (image url alt)

  -- A heading or text that is not empty.
  unfoldable pub item_words : String → String → Bool × BlockItem → Bool × BlockItem
  item_words variant s (titled, it) =
      if variant == "accordion" && not titled
      then (true, record it { summary = s })
      else if variant == "gallery"
      then (titled, add_leaf (some (words "caption" s)) it)
      else if not titled
      then (true, add_leaf (some (words "title" s)) it)
      else (titled, add_leaf (some (words "text" s)) it)

  unfoldable pub item_field : String → FieldSpec → Dict Json → Bool × BlockItem → Bool × BlockItem
  unfolding item_words
  item_field variant f input (titled, it) =
      let v = lookup (key f) input in
      let s = as_text v in
      if type f == "heading" || type f == "text"
      then (if s == "" then (titled, it) else item_words variant s (titled, it))
      else if type f == "textarea"
      then (titled, add_leaf (words_leaf "textarea" s) it)
      else if type f == "image"
      then (titled, add_leaf (image_leaf s) it)
      else if type f == "button"
      then (titled, add_leaf (button_leaf v) it)
      else (titled, it)

  unfoldable pub item_loop : String → FieldSpecs → Dict Json → Bool × BlockItem → Bool × BlockItem
  unfolding item_field
  item_loop variant nil input st = st
  item_loop variant (cons f fs) input st =
      item_loop variant fs input (item_field variant f input st)

  unfoldable pub build_item : FieldSpecs → Dict Json → String → BlockItem
  unfolding item_loop
  build_item fs input variant =
      (item_loop variant fs input (false, record { summary = ""; fields = [] })).1

  -- The items that have something to show.
  unfoldable pub build_items : FieldSpecs → String → List Json → List BlockItem
  unfolding build_item
  build_items fs variant [] = []
  build_items fs variant (raw ∷ rest) =
      let it = build_item fs (as_obj (some raw)) variant in
      let built = build_items fs variant rest in
      if not (it.summary == "") || not (is_empty it.fields) then it ∷ built else built

  -- A banner takes its first image as the background.
  unfoldable pub block_image : Option BlockLeaf → BlockData → BlockData
  block_image (some (image url alt)) b =
      if b.variant == "banner" && b.bg_image == ""
      then record b { bg_image = url }
      else add_field (some (image url alt)) b
  block_image _ b = b

  unfoldable pub block_items : List BlockItem → BlockData → BlockData
  block_items [] b = b
  block_items (it ∷ rest) b = record b {
    fields = b.fields ++ items (it ∷ rest) ∷ [];
    has_items = true;
  }

  unfoldable pub block_field : FieldSpec → Dict Json → BlockData → BlockData
  unfolding block_image block_items
  block_field f input b =
      let v = lookup (key f) input in
      if type f == "heading" || type f == "text" || type f == "textarea"
      then add_field (words_leaf (type f) (as_text v)) b
      else if type f == "image"
      then block_image (image_leaf (as_text v)) b
      else if type f == "button"
      then add_field (button_leaf v) b
      else if type f == "contact_info"
      then add_field (some contact) b
      else if type f == "list"
      then block_items (build_items (item_fields f) b.variant (as_arr v)) b
      else b

  unfoldable pub block_loop : FieldSpecs → Dict Json → BlockData → BlockData
  unfolding block_field
  block_loop nil input b = b
  block_loop (cons f fs) input b = block_loop fs input (block_field f input b)

  -- The select `alignment` of a section counts before the hint of its type.
  abbrev pub start_block : SnapshotSectionType → Dict Json → SiteData → BlockData
  start_block schema input site =
      let s = as_text (lookup "alignment" input) in
      record {
        variant = first_non_empty (schema.layout.variant ∷ "default" ∷ []);
        align = if s == "" then schema.layout.align else s;
        bg = schema.layout.background;
        bg_image = "";
        fields = [];
        has_items = false;
        site = site;
      }

  abbrev pub block_decoded : SnapshotSectionType → SiteData → Option (Dict Json) → Option BlockData
  block_decoded schema site none = none
  block_decoded schema site (some input) =
      some (block_loop schema.fields input (start_block schema input site))

  -- `none` is the error of content that is no object.
  unfoldable pub build_block : SnapshotSectionType → Raw → SiteData → Option BlockData
  unfolding block_loop
  build_block schema content site = block_decoded schema site (content_map content)
