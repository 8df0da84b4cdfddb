-- ===== src/Models/Schema/Valid.antt =====
-- What a valid block type schema is, said without the order of the tests in
-- internal/models/sectiontypes.go, and that ValidateSchema accepts exactly those.
use ai_website_builder.Common.{
  ℕ, ◌≤◌, ◌<◌, String, Bool, true, false, ◌==◌, ◌≡◌, refl, List, [], ◌∷◌, Bool-cases, inl, inr,
  is_empty, byte_len, arith, ◌↔◌, subst, ◌∙◌, eq_iff,
}
use ai_website_builder.Models.Schema.{
  FieldSpec, FieldSpecs, spec, nil, cons, key, count, LayoutHints, contains, field_types,
  layout_variants, key_matches, Checked, ok, err, ◌>>=◌, check_type, check_field, validate_field,
  validate_fields, validate_schema,
}

abbrev pub IsListType : String → Type 0
IsListType t = (t == "list") ≡ true

-- The key is new, and every later key too.
abbrev pub IsFresh : List String → FieldSpecs → Type 0
IsFresh seen nil = Unit
IsFresh seen (cons f fs) = (contains seen (key f) ≡ false) × IsFresh (key f ∷ seen) fs

-- The keys of one level are distinct.
abbrev pub AreDistinct : FieldSpecs → Type 0
AreDistinct fs = IsFresh [] fs

pub record IsNamed (k l t : String) : Type 0 where
  pub pattern_ok : key_matches k ≡ true
  pub short : byte_len k ≤ 40
  pub known : contains field_types t ≡ true
  pub labelled : (l == "") ≡ false

abbrev mutual
  pub IsValidField : Bool → FieldSpec → Type 0
  IsValidField allow (spec k l t o fs) =
      IsNamed k l t
      × ((t == "select") ≡ true → is_empty o ≡ false)
      × (IsListType t
          → (allow ≡ true)
            × (0 < count fs)
            × (count fs ≤ 30)
            × AreDistinct fs
            × AreValidFields false fs)

  pub AreValidFields : Bool → FieldSpecs → Type 0
  AreValidFields allow nil = Unit
  AreValidFields allow (cons f fs) = IsValidField allow f × AreValidFields allow fs

pub record IsValidSchema (fields : FieldSpecs) (layout : LayoutHints) : Type 0 where
  pub variant_known : contains layout_variants layout.variant ≡ true
  pub some_fields : 0 < count fields
  pub few_fields : count fields ≤ 30
  pub distinct : AreDistinct fields
  pub valid : AreValidFields true fields

abbrev IsOk {ℓ} : {A : Type ℓ} → Checked A → Type 0
IsOk (ok a) = Unit
IsOk (err e) = ⊥

abbrev ListPart : ℕ → Bool → Checked (List String) → Type 0
ListPart n allow items = (allow ≡ true) × (0 < n) × (n ≤ 30) × (r : List String) × (items ≡ ok r)

select_not_list : (t : String) → (t == "select") ≡ true → (t == "list") ≡ false
select_not_list t h = rw ((eq_iff t "select").0 h) refl

list_not_select : (t : String) → (t == "list") ≡ true → (t == "select") ≡ false
list_not_select t h = rw ((eq_iff t "list").0 h) refl

check_type_sound :
    (k t : String) (o : List String) (n : ℕ) (allow : Bool) (items : Checked (List String))
    (seen s : List String)
    → check_type k t o n allow items seen ≡ ok s
    → (s ≡ seen)
      × ((t == "select") ≡ true → is_empty o ≡ false)
      × (IsListType t → ListPart n allow items)
unfolding check_type
check_type_sound k t o n allow (ok r) seen s h = (
  ground (arith, select_not_list t),
  λ e. ground (arith, select_not_list t),
  λ e. (
    ground (arith, select_not_list t),
    ground (arith, select_not_list t),
    ground (arith, select_not_list t),
    r,
    refl,
  ),
)
check_type_sound k t o n allow (err e) seen s h = (
  ground (arith, select_not_list t),
  λ e. ground (arith, select_not_list t),
  λ e. absurd (ground (arith, select_not_list t)),
)

check_field_sound :
    (k l t : String) (seen s : List String) (rest : List String → Checked (List String))
    → check_field k l t seen rest ≡ ok s
    → (contains seen k ≡ false) × IsNamed k l t × (rest (k ∷ seen) ≡ ok s)
unfolding check_field
check_field_sound k l t seen s rest h = ground arith

check_type_complete :
    (k t : String) (o : List String) (n : ℕ) (allow : Bool) (items : Checked (List String))
    (seen : List String)
    → ((t == "select") ≡ true → is_empty o ≡ false)
    → (IsListType t → ListPart n allow items)
    → check_type k t o n allow items seen ≡ ok seen
unfolding check_type
check_type_complete k t o n allow items seen sel lst = elim (Bool-cases (t == "list")) [
  | inl e ↦
      let (allowed, some_items, few_items, r, checked) = lst e in
      rw (list_not_select t e, e, allowed, checked, ◌>>=◌) (ground arith)
  | inr e ↦ rw e (ground arith)
]

check_field_complete :
    (k l t : String) (seen : List String) (rest : List String → Checked (List String))
    → contains seen k ≡ false
    → IsNamed k l t
    → check_field k l t seen rest ≡ rest (k ∷ seen)
unfolding check_field
check_field_complete k l t seen rest fresh named = ground arith

bind_sound {ℓ} :
    {A : Type 0} {B : Type ℓ} (m : Checked A) (f : A → Checked B) {b : B}
    → (m >>= f) ≡ ok b
    → (a : A) × (m ≡ ok a) × (f a ≡ ok b)
bind_sound (ok a) f h = (a, refl, h)
bind_sound (err e) f h = cc

mutual
  unfolding validate_field validate_fields

  field_sound :
      (f : FieldSpec) (seen s : List String) (allow : Bool)
      → validate_field f seen allow ≡ ok s
      → (s ≡ key f ∷ seen) × (contains seen (key f) ≡ false) × IsValidField allow f
  field_sound (spec k l t o fs) seen s allow h =
      let (fresh, named, rest) =
        check_field_sound k l t seen s
          (check_type k t o (count fs) allow (validate_fields fs [] false)) h in
      let (same, sel, lst) = check_type_sound k t o (count fs) allow _ (k ∷ seen) s rest in
      (
        same,
        fresh,
        (
          named,
          sel,
          λ e.
              let (allowed, some_items, few_items, r, checked) = lst e in
              let items = fields_sound fs [] r false checked in
              (allowed, some_items, few_items, items.0, items.1),
        ),
      )

  fields_sound :
      (fs : FieldSpecs) (seen s : List String) (allow : Bool)
      → validate_fields fs seen allow ≡ ok s
      → IsFresh seen fs × AreValidFields allow fs
  fields_sound nil seen s allow h = (tt, tt)
  fields_sound (cons f fs) seen s allow h =
      let (seen', first, rest) = bind_sound (validate_field f seen allow) _ h in
      let (same, fresh, valid) = field_sound f seen seen' allow first in
      let later = fields_sound fs seen' s allow rest in
      ((fresh, subst (λ x. IsFresh x fs) same later.0), (valid, later.1))

mutual
  unfolding validate_field validate_fields

  field_complete :
      (f : FieldSpec) (seen : List String) (allow : Bool)
      → contains seen (key f) ≡ false
      → IsValidField allow f
      → validate_field f seen allow ≡ ok (key f ∷ seen)
  field_complete (spec k l t o fs) seen allow fresh (named, sel, lst) =
      check_field_complete k l t seen
        (check_type k t o (count fs) allow (validate_fields fs [] false)) fresh named
      ∙ check_type_complete k t o (count fs) allow _ (k ∷ seen) sel (λ e.
        let (allowed, some_items, few_items, distinct, valid) = lst e in
        let (r, checked) = fields_complete fs [] false distinct valid in
        (allowed, some_items, few_items, r, checked))

  fields_complete :
      (fs : FieldSpecs) (seen : List String) (allow : Bool)
      → IsFresh seen fs
      → AreValidFields allow fs
      → (s : List String) × (validate_fields fs seen allow ≡ ok s)
  fields_complete nil seen allow fresh valid = (seen, refl)
  fields_complete (cons f fs) seen allow (fresh, later) (valid, rest) =
      let (s, e) = fields_complete fs (key f ∷ seen) allow later rest in
      (s, rw (field_complete f seen allow fresh valid) e)

schema_sound :
    (fields : FieldSpecs) (layout : LayoutHints)
    → validate_schema fields layout ≡ ok tt
    → IsValidSchema fields layout
unfolding validate_schema
schema_sound fields layout h =
    let (s, checked) = opened in
    let parts = fields_sound fields [] s true checked in
    record {
      variant_known = ground arith;
      some_fields = ground arith;
      few_fields = ground arith;
      distinct = parts.0;
      valid = parts.1;
    }
  where
    opened : (s : List String) × (validate_fields fields [] true ≡ ok s)
    opened = ground arith

schema_complete :
    (fields : FieldSpecs) (layout : LayoutHints)
    → IsValidSchema fields layout
    → validate_schema fields layout ≡ ok tt
unfolding validate_schema
schema_complete fields layout v =
    let (s, checked) = fields_complete fields [] true v.distinct v.valid in
    ground (arith, checked, v.variant_known, v.some_fields, v.few_fields)

-- ValidateSchema accepts a schema exactly when its layout variant is known, it has 1 to 30 fields
-- with distinct keys, and each field is valid: a key of the pattern with at most 40 bytes, a known
-- type, a label, options if it is a select; a list stands at the top level only and has 1 to 30
-- valid item fields with distinct keys.
pub validate_schema-IsValidSchema :
    (fields : FieldSpecs) (layout : LayoutHints)
    → (validate_schema fields layout ≡ ok tt) ↔ IsValidSchema fields layout
validate_schema-IsValidSchema fields layout =
    (schema_sound fields layout, schema_complete fields layout)
