-- ===== src/Models/Tests.antt =====
-- The block-type schemas of internal/models/sectiontypes.go on a concrete type.
use ai_website_builder.Common.{◌≡◌, refl, String, some, [], ◌∷◌, ◌↔◌}
use ai_website_builder.Common.Dict.{Dict, lookup, insert}
use ai_website_builder.Models.Json.{Json, str, num, nil, cons, arr, obj, member, end, marshal_map}
use ai_website_builder.Models.Schema.{FieldSpec, FieldSpecs, spec, ok, LayoutHints, validate_schema}
use ai_website_builder.Models.Schema.Valid.{IsValidSchema, validate_schema-IsValidSchema}
use ai_website_builder.Models.Content.{
  normalize_from, normalize_by_type, normalize_map, normalize_content,
}
use ai_website_builder.Models.Content.Idempotent.{normalize_content_idem}
use ai_website_builder.Models.Media.{collect_from, collect_media_ids, collect_from-normalize_map}
use ai_website_builder.Models.Schema

abbrev leaf : String → String → FieldSpec
leaf key type = spec key "Label" type [] Schema.nil

abbrev gallery : FieldSpecs
gallery = Schema.cons (leaf "title" "heading") (
    Schema.cons (leaf "more" "button") (
      Schema.cons
        (spec "shots" "Shots" "list" []
          (Schema.cons (leaf "photo" "image") (Schema.cons (leaf "alt" "text") Schema.nil)))
        Schema.nil))

abbrev plain : LayoutHints
plain = record { variant = "gallery"; background = ""; align = "" }

gallery-ok : validate_schema gallery plain ≡ ok tt
unfolding validate_schema Schema.contains Schema.key_matches
gallery-ok = refl

validate_schema-IsValidSchema_example :
    (validate_schema gallery plain ≡ ok tt) ↔ IsValidSchema gallery plain
validate_schema-IsValidSchema_example = validate_schema-IsValidSchema gallery plain

-- A key that the schema does not have, a button without a link, an item with a stray key.
abbrev posted : Dict Json
posted =
    ("evil", num "1")
    ∷ ("more", obj (member "text" (str "Go") end))
    ∷ (
      "shots",
      arr (
          cons (obj (member "photo" (str "m1") (member "junk" (num "2") end)))
            (cons (num "3") nil)),
    )
    ∷ []

abbrev cleaned : Dict Json
cleaned =
    ("more", obj (member "text" (str "Go") (member "link" (str "") end)))
    ∷ ("shots", arr (cons (obj (member "photo" (str "m1") end)) (cons (obj end) nil)))
    ∷ []

posted-cleaned : normalize_content gallery (marshal_map posted) ≡ some (marshal_map cleaned)
unfolding normalize_content normalize_from normalize_by_type lookup insert
posted-cleaned = refl

posted-media : collect_media_ids gallery (marshal_map posted) ≡ "m1" ∷ []
unfolding collect_media_ids lookup
posted-media = refl

normalize_content_idem_example :
    normalize_content gallery (marshal_map cleaned) ≡ some (marshal_map cleaned)
normalize_content_idem_example =
    normalize_content_idem gallery plain (marshal_map posted) (marshal_map cleaned) gallery-ok
      posted-cleaned

collect_from-normalize_map_example :
    collect_from gallery (normalize_map gallery posted) ≡ collect_from gallery posted
collect_from-normalize_map_example = collect_from-normalize_map gallery plain posted gallery-ok
