-- ===== src/Models/Content.antt =====
-- NormalizeContent and CollectMediaIDs of internal/models/sectiontypes.go.
pub mod Lookup
pub mod Idempotent
use ai_website_builder.Common.{
  String, Bool, true, false, ◌==◌, List, [], ◌∷◌, ◌++◌, Option, none, some, if◌then◌else◌,
  non_empty, map,
}
use ai_website_builder.Common.Dict.{Dict, lookup, insert}
use ai_website_builder.Models.Json.{
  Json, str, arr, obj, Members, member, end, of_elems, of_members, as_str, as_text, as_obj, as_arr,
  Raw, blank, malformed, parsed, unmarshal_map, marshal_map,
}
use ai_website_builder.Models.Schema.{FieldSpec, FieldSpecs, spec, nil, cons, key, type}

-- out[k] = v, where there is a v.
abbrev pub store : String → Option Json → Dict Json → Dict Json
store k none out = out
store k (some v) out = insert k v out

abbrev pub map_some : (Json → Option Json) → Option Json → Option Json
map_some f none = none
map_some f (some v) = f v

-- The {text, link} object of a button.
abbrev pub button_value : Json → Json
button_value v =
    let o = as_obj (some v) in
    obj (
      member "text" (str (as_text (lookup "text" o)))
        (member "link" (str (as_text (lookup "link" o))) end))

abbrev pub list_value : (Dict Json → Dict Json) → Json → Json
list_value clean v =
    arr (of_elems (map (λ it. obj (of_members (clean (as_obj (some it))))) (as_arr (some v))))

-- The switch on a field's type; `clean` normalizes a list item.
unfoldable pub normalize_by_type : String → (Dict Json → Dict Json) → Json → Option Json
normalize_by_type t clean v =
    if t == "contact_info"
    then none
    else if t == "button"
    then some (button_value v)
    else if t == "list"
    then some (list_value clean v)
    else some v

unfoldable mutual
  -- What is stored for a field whose key has the value v.
  pub normalize_value : FieldSpec → Json → Option Json
  normalize_value (spec k l t o fs) v = normalize_by_type t (λ d. normalize_from fs d []) v

  -- The loop of `normalizeMap`.
  pub normalize_from : FieldSpecs → Dict Json → Dict Json → Dict Json
  normalize_from nil input out = out
  normalize_from (cons f fs) input out =
      normalize_from fs input
        (store (key f) (map_some (normalize_value f) (lookup (key f) input)) out)

abbrev pub normalize_map : FieldSpecs → Dict Json → Dict Json
normalize_map fs input = normalize_from fs input []

normalize_decoded : FieldSpecs → Option (Dict Json) → Option Raw
normalize_decoded fs none = none
normalize_decoded fs (some input) = some (marshal_map (normalize_map fs input))

-- `none` is the error of json.Unmarshal; no content at all is the empty object.
unfoldable pub normalize_content : FieldSpecs → Raw → Option Raw
unfolding normalize_decoded unmarshal_map
normalize_content fs blank = normalize_decoded fs (some [])
normalize_content fs malformed = normalize_decoded fs (unmarshal_map malformed)
normalize_content fs (parsed v) = normalize_decoded fs (unmarshal_map (parsed v))
