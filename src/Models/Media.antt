-- ===== src/Models/Media.antt =====
-- CollectMediaIDs of internal/models/sectiontypes.go, and that normalizing keeps what it collects.
use ai_website_builder.Common.{
  String, Bool, true, ◌==◌, ◌≡◌, refl, List, [], ◌∷◌, ◌++◌, Option, none, some, if◌then◌else◌, ap,
  ap₂, ◌∙◌, map, Bool-cases, inl, inr, eq_iff,
}
use ai_website_builder.Common.Dict.{Dict, lookup}
use ai_website_builder.Models.Json.{
  Json, obj, as_str, as_obj, as_arr, of_members, elems-of_elems, members-of_members, Raw,
  unmarshal_map,
}
use ai_website_builder.Models.Schema.{
  FieldSpec, FieldSpecs, spec, nil, cons, key, type, LayoutHints, ok, validate_schema,
}
use ai_website_builder.Models.Schema.Valid.{
  IsValidField, AreValidFields, validate_schema-IsValidSchema,
}
use ai_website_builder.Models.Content.{map_some, normalize_by_type, normalize_value, normalize_map}
use ai_website_builder.Models.Content.Lookup.{
  picked, Separate, AllFields, normalize_map-picked, IsFresh-Separate,
}

-- A media id, if the value is a text that is not empty.
abbrev pub id_in : Option String → List String
id_in none = []
id_in (some s) = if s == "" then [] else s ∷ []

-- The loop over the item fields of one list item.
unfoldable pub collect_item : FieldSpecs → Dict Json → List String
collect_item nil item = []
collect_item (cons f fs) item =
    (if type f == "image" then id_in (as_str (lookup (key f) item)) else []) ++ collect_item fs item

unfoldable pub collect_items : FieldSpecs → List Json → List String
unfolding collect_item
collect_items fs [] = []
collect_items fs (it ∷ items) = collect_item fs (as_obj (some it)) ++ collect_items fs items

-- The switch on one field, over the value under its key.
unfoldable pub collect_value : FieldSpec → Option Json → List String
unfolding collect_items
collect_value (spec k l t o fs) v =
    if t == "image"
    then id_in (as_str v)
    else if t == "list"
    then collect_items fs (as_arr v)
    else []

unfoldable pub collect_from : FieldSpecs → Dict Json → List String
unfolding collect_value
collect_from nil input = []
collect_from (cons f fs) input = collect_value f (lookup (key f) input) ++ collect_from fs input

unfoldable pub collect_decoded : FieldSpecs → Option (Dict Json) → List String
unfolding collect_from
collect_decoded fs none = []
collect_decoded fs (some d) = collect_from fs d

unfoldable pub collect_media_ids : FieldSpecs → Raw → List String
unfolding collect_decoded unmarshal_map
collect_media_ids fs raw = collect_decoded fs (unmarshal_map raw)

-- An image field keeps its value; nothing is collected from an item under another type.
image_keeps :
    (f : FieldSpec) (v : Option Json)
    → (type f == "image") ≡ true
    → map_some (normalize_value f) v ≡ v
unfolding normalize_value normalize_by_type
image_keeps (spec k l t o fs) none h = refl
image_keeps (spec k l t o fs) (some v) h = rw ((eq_iff t "image").0 h)

collect_item-same :
    (fs : FieldSpecs) (item item' : Dict Json)
    → AllFields (λ f. lookup (key f) item' ≡ picked f item) fs
    → collect_item fs item' ≡ collect_item fs item
unfolding collect_item
collect_item-same nil item item' h = refl
collect_item-same (cons f fs) item item' (h, hs) =
    ap₂ ◌++◌ head (collect_item-same fs item item' hs)
  where
    head :
        (if type f == "image" then id_in (as_str (lookup (key f) item')) else [])
        ≡ (if type f == "image" then id_in (as_str (lookup (key f) item)) else [])
    head = elim (Bool-cases (type f == "image")) [
      | inl e ↦ rw e (ap (λ v. id_in (as_str v)) (h ∙ image_keeps f (lookup (key f) item) e))
      | inr e ↦ rw e
    ]

collect_items-clean :
    (fs : FieldSpecs) (vs : List Json)
    → Separate fs
    → collect_items fs (map (λ it. obj (of_members (normalize_map fs (as_obj (some it))))) vs)
      ≡ collect_items fs vs
unfolding collect_items
collect_items-clean fs [] s = refl
collect_items-clean fs (v ∷ vs) s =
    ap₂ ◌++◌
      (ap (collect_item fs) (members-of_members (normalize_map fs (as_obj (some v))))
        ∙ collect_item-same fs (as_obj (some v)) _ (normalize_map-picked fs (as_obj (some v)) s))
      (collect_items-clean fs vs s)

collect_value-picked :
    (f : FieldSpec) (allow : Bool) (v : Option Json)
    → IsValidField allow f
    → collect_value f (map_some (normalize_value f) v) ≡ collect_value f v
unfolding collect_value normalize_value normalize_by_type
collect_value-picked f allow none h = refl
collect_value-picked (spec k l t o fs) allow (some v) (named, sel, lst) =
    elim (Bool-cases (t == "list")) [
      | inl e ↦ rw ((eq_iff t "list").0 e) (
          rw
            (elems-of_elems (
              map (λ it. obj (of_members (normalize_map fs (as_obj (some it))))) (as_arr (some v))))
            (collect_items-clean fs (as_arr (some v)) (IsFresh-Separate fs [] (lst e).3)))
      | inr e ↦ elim (Bool-cases (t == "image")) [
        | inl im ↦ rw ((eq_iff t "image").0 im)
        | inr other ↦ rw (other, e)
      ]
    ]

collect_from-same :
    (fs : FieldSpecs) (allow : Bool) (input input' : Dict Json)
    → AreValidFields allow fs
    → AllFields (λ f. lookup (key f) input' ≡ picked f input) fs
    → collect_from fs input' ≡ collect_from fs input
unfolding collect_from
collect_from-same nil allow input input' a h = refl
collect_from-same (cons f fs) allow input input' (a, as') (h, hs) =
    ap₂ ◌++◌ (ap (collect_value f) h ∙ collect_value-picked f allow (lookup (key f) input) a)
      (collect_from-same fs allow input input' as' hs)

-- Under a schema that ValidateSchema accepts, normalizing an object loses and invents no media
-- reference: the ids collected from it are the same, in the same order.
pub collect_from-normalize_map :
    (fields : FieldSpecs) (layout : LayoutHints) (input : Dict Json)
    → validate_schema fields layout ≡ ok tt
    → collect_from fields (normalize_map fields input) ≡ collect_from fields input
collect_from-normalize_map fields layout input v =
    let valid = (validate_schema-IsValidSchema fields layout).0 v in
    collect_from-same fields true input _ valid.valid
      (normalize_map-picked fields input (IsFresh-Separate fields [] valid.distinct))
