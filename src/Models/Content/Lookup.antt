-- ===== src/Models/Content/Lookup.antt =====
-- What stands under each key of normalized content.
use ai_website_builder.Common.{
  String, true, false, ◌==◌, ◌≡◌, refl, List, [], ◌∷◌, Option, none, some, arith, eq_iff, ◌∙◌,
}
use ai_website_builder.Common.Dict.{Dict, lookup, lookup-insert}
use ai_website_builder.Models.Json.{Json}
use ai_website_builder.Models.Schema.{FieldSpec, FieldSpecs, nil, cons, key, contains}
use ai_website_builder.Models.Schema.Valid.{IsFresh}
use ai_website_builder.Models.Content.{
  store, map_some, normalize_value, normalize_from, normalize_map,
}
use text.Mathlib.TextPositions.{eq_refl}

-- What a field gets out of the input.
abbrev pub picked : FieldSpec → Dict Json → Option Json
picked f input = map_some (normalize_value f) (lookup (key f) input)

-- No field has this key.
abbrev pub Lacks : String → FieldSpecs → Type 0
Lacks k nil = Unit
Lacks k (cons f fs) = ((key f == k) ≡ false) × Lacks k fs

-- The keys of a level are distinct, field by field.
abbrev pub Separate : FieldSpecs → Type 0
Separate nil = Unit
Separate (cons f fs) = Lacks (key f) fs × Separate fs

lookup-store :
    (k j : String) (o : Option Json) (out : Dict Json)
    → (k == j) ≡ false
    → lookup j (store k o out) ≡ lookup j out
lookup-store k j none out h = refl
lookup-store k j (some v) out h = rw (lookup-insert k j v out, h)

lookup-store_self :
    (k : String) (o : Option Json) (out : Dict Json)
    → lookup k out ≡ none
    → lookup k (store k o out) ≡ o
lookup-store_self k none out h = h
lookup-store_self k (some v) out h = rw (lookup-insert k k v out, eq_refl k)

-- Fields with other keys leave a key alone.
pub lookup-normalize_from :
    (fs : FieldSpecs) (input out : Dict Json) (k : String)
    → Lacks k fs
    → lookup k (normalize_from fs input out) ≡ lookup k out
unfolding normalize_from
lookup-normalize_from nil input out k h = refl
lookup-normalize_from (cons f fs) input out k (h, hs) =
    lookup-normalize_from fs input _ k hs ∙ lookup-store (key f) k (picked f input) out h

-- Nothing stands yet under the keys of these fields.
abbrev pub Unset : FieldSpecs → Dict Json → Type 0
Unset nil out = Unit
Unset (cons f fs) out = (lookup (key f) out ≡ none) × Unset fs out

Unset-store :
    (fs : FieldSpecs) (k : String) (o : Option Json) (out : Dict Json)
    → Lacks k fs
    → Unset fs out
    → Unset fs (store k o out)
Unset-store nil k o out h u = tt
Unset-store (cons f fs) k o out (h, hs) (u, us) = (
  lookup-store k (key f) o out (ground (arith, eq_iff k (key f), eq_iff (key f) k)) ∙ u,
  Unset-store fs k o out hs us,
)

pub Unset-empty : (fs : FieldSpecs) → Unset fs []
unfolding lookup
Unset-empty nil = tt
Unset-empty (cons f fs) = (refl, Unset-empty fs)

-- Each field of the list satisfies P.
abbrev pub AllFields {ℓ} : (FieldSpec → Type ℓ) → FieldSpecs → Type ℓ
AllFields P nil = Unit
AllFields P (cons f fs) = P f × AllFields P fs

-- Under the key of each field stands what the field picked.
normalize_from-picked :
    (fs : FieldSpecs) (input out : Dict Json)
    → Separate fs
    → Unset fs out
    → AllFields (λ f. lookup (key f) (normalize_from fs input out) ≡ picked f input) fs
unfolding normalize_from
normalize_from-picked nil input out s u = tt
normalize_from-picked (cons f fs) input out (h, s) (u, us) = (
  lookup-normalize_from fs input _ (key f) h ∙ lookup-store_self (key f) (picked f input) out u,
  normalize_from-picked fs input _ s (Unset-store fs (key f) (picked f input) out h us),
)

pub normalize_map-picked :
    (fs : FieldSpecs) (input : Dict Json)
    → Separate fs
    → AllFields (λ f. lookup (key f) (normalize_map fs input) ≡ picked f input) fs
normalize_map-picked fs input s = normalize_from-picked fs input [] s (Unset-empty fs)

contains-cons :
    (x k : String) (seen : List String) → contains seen k ≡ true → contains (x ∷ seen) k ≡ true
unfolding contains
contains-cons x k seen m = ground (arith, m)

contains_self : (k : String) (seen : List String) → contains (k ∷ seen) k ≡ true
unfolding contains
contains_self k seen = rw (eq_refl k) refl

IsFresh-Lacks :
    (fs : FieldSpecs) (seen : List String) (k : String)
    → contains seen k ≡ true
    → IsFresh seen fs
    → Lacks k fs
IsFresh-Lacks nil seen k m h = tt
IsFresh-Lacks (cons f fs) seen k m (h, hs) = (
  ground (arith, m, h, eq_iff (key f) k),
  IsFresh-Lacks fs (key f ∷ seen) k (contains-cons (key f) k seen m) hs,
)

pub IsFresh-Separate : (fs : FieldSpecs) (seen : List String) → IsFresh seen fs → Separate fs
IsFresh-Separate nil seen h = tt
IsFresh-Separate (cons f fs) seen (h, hs) = (
  IsFresh-Lacks fs (key f ∷ seen) (key f) (contains_self (key f) seen) hs,
  IsFresh-Separate fs (key f ∷ seen) hs,
)
