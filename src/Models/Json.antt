-- ===== src/Models/Json.antt =====
-- Decoded JSON, as Go's `any`, and raw JSON text, as json.RawMessage. An object is the map that
-- encoding/json builds; a number is the float64, written as encoding/json writes it.
use ai_website_builder.Common.{String, Bool, Option, none, some, List, [], ◌∷◌, ◌≡◌, refl, ap}
use ai_website_builder.Common.Dict.{Dict}

mutual
  pub data Json : Type 0 where
    null : Json
    bool : Bool → Json
    num : String → Json
    str : String → Json
    arr : Elems → Json
    obj : Members → Json

  pub data Elems : Type 0 where
    nil : Elems
    cons : Json → Elems → Elems

  pub data Members : Type 0 where
    end : Members
    member : String → Json → Members → Members

abbrev pub elems : Elems → List Json
elems nil = []
elems (cons v vs) = v ∷ elems vs

abbrev pub of_elems : List Json → Elems
of_elems [] = nil
of_elems (v ∷ vs) = cons v (of_elems vs)

abbrev pub members : Members → Dict Json
members end = []
members (member k v ms) = (k, v) ∷ members ms

abbrev pub of_members : Dict Json → Members
of_members [] = end
of_members ((k, v) ∷ m) = member k v (of_members m)

-- v.(string), for a value that may be missing from its map.
abbrev pub as_str : Option Json → Option String
as_str (some (str s)) = some s
as_str _ = none

-- s, _ := v.(string)
abbrev pub as_text : Option Json → String
as_text (some (str s)) = s
as_text _ = ""

-- m, _ := v.(map[string]any); a nil map has no keys.
abbrev pub as_obj : Option Json → Dict Json
as_obj (some (obj ms)) = members ms
as_obj _ = []

-- xs, _ := v.([]any)
abbrev pub as_arr : Option Json → List Json
as_arr (some (arr vs)) = elems vs
as_arr _ = []

-- A json.RawMessage: absent, no JSON, or the text of a value.
pub data Raw : Type 0 where
  blank malformed : Raw
  parsed : Json → Raw

-- json.Unmarshal(raw, &data) into a map[string]any; `none` is the error.
unfoldable pub unmarshal_map : Raw → Option (Dict Json)
unmarshal_map (parsed null) = some []
unmarshal_map (parsed (obj ms)) = some (members ms)
unmarshal_map _ = none

-- json.Marshal of a map[string]any.
abbrev pub marshal_map : Dict Json → Raw
marshal_map m = parsed (obj (of_members m))

pub members-of_members : (m : Dict Json) → members (of_members m) ≡ m
members-of_members [] = refl
members-of_members ((k, v) ∷ m) = ap (λ (r : Dict Json). (k, v) ∷ r) (members-of_members m)

pub elems-of_elems : (vs : List Json) → elems (of_elems vs) ≡ vs
elems-of_elems [] = refl
elems-of_elems (v ∷ vs) = ap (λ (r : List Json). v ∷ r) (elems-of_elems vs)
