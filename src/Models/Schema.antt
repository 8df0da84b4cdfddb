-- ===== src/Models/Schema.antt =====
-- internal/models/sectiontypes.go: field definitions and their validation.
pub mod Valid
use Prim.Native.Char.{code}
use ai_website_builder.Common.{
  ℕ, suc, ◌+◌, ◌≤◌, ◌<◌, String, Bool, true, false, not, ◌&&◌, ◌||◌, ◌==◌, ◌≡◌, List, [], ◌∷◌,
  Option, leb, ltb, nat_eq, if◌then◌else◌, any, is_empty, is_lower, is_digit, byte_len, non_empty,
}
use Prim.Native.String

mutual
  pub data FieldSpec : Type 0 where
    spec : (key label type : String) (options : List String) (fields : FieldSpecs) → FieldSpec

  pub data FieldSpecs : Type 0 where
    nil : FieldSpecs
    cons : FieldSpec → FieldSpecs → FieldSpecs

abbrev pub key : FieldSpec → String
key (spec k l t o fs) = k

abbrev pub type : FieldSpec → String
type (spec k l t o fs) = t

abbrev pub item_fields : FieldSpec → FieldSpecs
item_fields (spec k l t o fs) = fs

-- len(fields)
abbrev pub count : FieldSpecs → ℕ
count nil = 0
count (cons f fs) = suc (count fs)

pub record LayoutHints : Type 0 where
  pub variant : String
  pub background : String
  pub align : String

unfoldable pub contains : List String → String → Bool
contains xs k = any (λ x. x == k) xs

abbrev pub field_types : List String
field_types =
    "heading" ∷ "text" ∷ "textarea" ∷ "url" ∷ "image" ∷ "select" ∷ "bool" ∷ "button"
    ∷ "contact_info" ∷ "list" ∷ []

abbrev pub layout_variants : List String
layout_variants = "" ∷ "default" ∷ "banner" ∷ "cards" ∷ "gallery" ∷ "accordion" ∷ "cta" ∷ []

abbrev pub max_schema_fields : ℕ
max_schema_fields = 30

-- [a-z0-9_]*
key_rest : String → Bool
key_rest String.[] = true
key_rest (String.◌∷◌ c s) =
    (is_lower (code c) || is_digit (code c) || nat_eq (code c) b'_') && key_rest s

-- keyRe: ^[a-z][a-z0-9_]*$
unfoldable pub key_matches : String → Bool
unfolding key_rest
key_matches String.[] = false
key_matches (String.◌∷◌ c s) = is_lower (code c) && key_rest s

pub data SchemaError : Type 0 where
  unknown_variant : String → SchemaError
  no_fields too_many_fields : SchemaError
  bad_key duplicate_key : String → SchemaError
  unknown_type : String → String → SchemaError
  no_label no_options nested_list no_item_fields too_many_item_fields : String → SchemaError

-- A call that returns an error, or nil and the keys seen so far.
pub data Checked {ℓ} (A : Type ℓ) : Type ℓ where
  ok : A → Checked A
  err : SchemaError → Checked A

infixl 5 ◌>>=◌
abbrev pub ◌>>=◌ {ℓ κ} : {A : Type ℓ} {B : Type κ} → Checked A → (A → Checked B) → Checked B
err e >>= next = err e
ok result >>= next = next result

-- The switch on the field's type; `items` is the loop over the item fields.
check_type :
    String
    → String
    → List String
    → ℕ
    → Bool
    → Checked (List String)
    → List String
    → Checked (List String)
check_type k t options n allow_list items seen =
    if t == "select"
    then (if is_empty options then err (no_options k) else ok seen)
    else if t == "list"
    then (if not allow_list
        then err (nested_list k)
        else if nat_eq n 0
        then err (no_item_fields k)
        else if ltb max_schema_fields n
        then err (too_many_item_fields k)
        else (items >>= λ _. ok seen))
    else ok seen

-- The tests on the key, the type's name and the label, in the order of the source.
check_field :
    String
    → String
    → String
    → List String
    → (List String → Checked (List String))
    → Checked (List String)
check_field k l t seen rest =
    if not (key_matches k) || ltb 40 (byte_len k)
    then err (bad_key k)
    else if contains seen k
    then err (duplicate_key k)
    else if not (contains field_types t)
    then err (unknown_type k t)
    else if l == ""
    then err (no_label k)
    else rest (k ∷ seen)

unfoldable mutual
  unfolding check_type check_field

  -- `seen` comes back with the field's key.
  pub validate_field : FieldSpec → List String → Bool → Checked (List String)
  validate_field (spec k l t o fs) seen allow_list =
      let items = validate_fields fs [] false in
      check_field k l t seen (check_type k t o (count fs) allow_list items)

  -- The loop over fields.
  pub validate_fields : FieldSpecs → List String → Bool → Checked (List String)
  validate_fields nil seen allow_list = ok seen
  validate_fields (cons f fs) seen allow_list =
      validate_field f seen allow_list >>= λ seen'. validate_fields fs seen' allow_list

unfoldable pub validate_schema : FieldSpecs → LayoutHints → Checked (Unit {0})
unfolding validate_fields
validate_schema fields layout =
    if not (contains layout_variants layout.variant)
    then err (unknown_variant layout.variant)
    else if nat_eq (count fields) 0
    then err no_fields
    else if ltb max_schema_fields (count fields)
    then err too_many_fields
    else (validate_fields fields [] true >>= λ _. ok tt)
