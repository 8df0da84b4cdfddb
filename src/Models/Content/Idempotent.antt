-- ===== src/Models/Content/Idempotent.antt =====
-- Normalizing normalized content changes nothing, so content can be stored and sent back any
-- number of times (internal/models/sectiontypes.go).
use ai_website_builder.Common.{
  String, Bool, true, false, ◌==◌, ◌≡◌, refl, List, [], ◌∷◌, Option, none, some, arith, ap, ap₂,
  subst, coalesce, ◌∙◌, map, Bool-cases, inl, inr,
}
use ai_website_builder.Common.Dict.{Dict, lookup}
use ai_website_builder.Models.Json.{
  Json, arr, obj, of_elems, of_members, as_obj, as_arr, elems-of_elems, members-of_members, Raw,
  blank, malformed, parsed, unmarshal_map, marshal_map,
}
use ai_website_builder.Models.Schema.{
  FieldSpec, FieldSpecs, spec, nil, cons, key, LayoutHints, ok, validate_schema,
}
use ai_website_builder.Models.Schema.Valid.{
  IsValidField, AreValidFields, IsListType, validate_schema-IsValidSchema,
}
use ai_website_builder.Models.Content.{
  store, map_some, button_value, list_value, normalize_by_type, normalize_value, normalize_from,
  normalize_map, normalize_decoded, normalize_content,
}
use ai_website_builder.Models.Content.Lookup.{
  picked, Separate, AllFields, normalize_map-picked, IsFresh-Separate,
}

abbrev IsIdempotent : (Dict Json → Dict Json) → Type 0
IsIdempotent clean = (d : Dict Json) → clean (clean d) ≡ clean d

clean_items :
    (clean : Dict Json → Dict Json)
    → IsIdempotent clean
    → (vs : List Json)
    → (let g = λ (it : Json). obj (of_members (clean (as_obj (some it)))) in
        map g (map g vs) ≡ map g vs)
clean_items clean h [] = refl
clean_items clean h (v ∷ vs) =
    ap₂ ◌∷◌
      (ap (λ d. obj (of_members d)) (ap clean (members-of_members (clean (as_obj (some v)))) ∙ h _))
      (clean_items clean h vs)

list_value_idem :
    (clean : Dict Json → Dict Json)
    → IsIdempotent clean
    → (v : Json) → list_value clean (list_value clean v) ≡ list_value clean v
list_value_idem clean h v =
    rw (elems-of_elems (map (λ it. obj (of_members (clean (as_obj (some it))))) (as_arr (some v))))
      (ap (λ vs. arr (of_elems vs)) (clean_items clean h (as_arr (some v))))

button_value_idem : (v : Json) → button_value (button_value v) ≡ button_value v
unfolding lookup
button_value_idem v = refl

by_type_idem :
    (t : String) (clean : Dict Json → Dict Json)
    → (IsListType t → IsIdempotent clean)
    → (v : Json)
    → map_some (normalize_by_type t clean) (normalize_by_type t clean v)
      ≡ normalize_by_type t clean v
unfolding normalize_by_type
by_type_idem t clean h v = elim (Bool-cases (t == "list")) [
  | inl e ↦ ground (arith, e, list_value_idem clean (h e) v, button_value_idem v)
  | inr e ↦ ground (arith, e, button_value_idem v)
]

-- What a field stores is stored as it is the next time.
abbrev Settled : FieldSpec → Type 0
Settled f = (v : Json) → map_some (normalize_value f) (normalize_value f v) ≡ normalize_value f v

-- The loop reads its input only under the keys of the fields.
normalize_from-cong :
    (fs : FieldSpecs) (input input' out : Dict Json)
    → AllFields (λ f. picked f input' ≡ picked f input) fs
    → normalize_from fs input' out ≡ normalize_from fs input out
unfolding normalize_from
normalize_from-cong nil input input' out h = refl
normalize_from-cong (cons f fs) input input' out (h, hs) =
    ap (λ o. normalize_from fs input' (store (key f) o out)) h
    ∙ normalize_from-cong fs input input' _ hs

picked_again :
    (f : FieldSpec) (input : Dict Json)
    → Settled f
    → map_some (normalize_value f) (picked f input) ≡ picked f input
picked_again f input s = go (lookup (key f) input)
  where
    go :
        (o : Option Json)
        → map_some (normalize_value f) (map_some (normalize_value f) o)
          ≡ map_some (normalize_value f) o
    go none = refl
    go (some v) = s v

fields-picked_again :
    (fs : FieldSpecs) (input input' : Dict Json)
    → AllFields Settled fs
    → AllFields (λ f. lookup (key f) input' ≡ picked f input) fs
    → AllFields (λ f. picked f input' ≡ picked f input) fs
fields-picked_again nil input input' s h = tt
fields-picked_again (cons f fs) input input' (s, ss) (h, hs) = (
  ap (map_some (normalize_value f)) h ∙ picked_again f input s,
  fields-picked_again fs input input' ss hs,
)

map-Settled :
    (fs : FieldSpecs) → Separate fs → AllFields Settled fs → IsIdempotent (normalize_map fs)
map-Settled fs sep s input =
    normalize_from-cong fs input (normalize_map fs input) []
      (fields-picked_again fs input (normalize_map fs input) s (normalize_map-picked fs input sep))

mutual
  unfolding normalize_value

  field-Settled : (f : FieldSpec) (allow : Bool) → IsValidField allow f → Settled f
  field-Settled (spec k l t o fs) allow (named, sel, lst) =
      by_type_idem t (λ d. normalize_from fs d [])
        (λ e.
          let (allowed, some_items, few_items, distinct, valid) = lst e in
          map-Settled fs (IsFresh-Separate fs [] distinct) (fields-Settled fs false valid))

  fields-Settled : (fs : FieldSpecs) (allow : Bool) → AreValidFields allow fs → AllFields Settled fs
  fields-Settled nil allow h = tt
  fields-Settled (cons f fs) allow (h, hs) = (field-Settled f allow h, fields-Settled fs allow hs)

pub normalize_map_idem :
    (fields : FieldSpecs) (layout : LayoutHints)
    → validate_schema fields layout ≡ ok tt
    → IsIdempotent (normalize_map fields)
normalize_map_idem fields layout v =
    let valid = (validate_schema-IsValidSchema fields layout).0 v in
    map-Settled fields (IsFresh-Separate fields [] valid.distinct)
      (fields-Settled fields true valid.valid)

-- Under a schema that ValidateSchema accepts, content that came out of NormalizeContent goes
-- through it again without an error and unchanged.
pub normalize_content_idem :
    (fields : FieldSpecs) (layout : LayoutHints) (raw raw' : Raw)
    → validate_schema fields layout ≡ ok tt
    → normalize_content fields raw ≡ some raw'
    → normalize_content fields raw' ≡ some raw'
unfolding normalize_content
normalize_content_idem fields layout raw raw' v h = from_raw raw h
  where
    again :
        (o : Option (Dict Json))
        → normalize_decoded fields o ≡ some raw'
        → normalize_content fields raw' ≡ some raw'
    again none e = cc
    again (some d) e =
        subst (λ r. normalize_content fields r ≡ some r) (ap (λ o. coalesce o raw') e)
          (ap (λ m. some (marshal_map m))
            (ap (normalize_map fields) (members-of_members (normalize_map fields d))
              ∙ normalize_map_idem fields layout v d))

    from_raw :
        (r : Raw)
        → normalize_content fields r ≡ some raw'
        → normalize_content fields raw' ≡ some raw'
    from_raw blank e = again (some []) e
    from_raw malformed e = again (unmarshal_map malformed) e
    from_raw (parsed j) e = again (unmarshal_map (parsed j)) e
