-- ===== src/Common/Sort.antt =====
-- ORDER BY: insertion sort by a test, which keeps the order of equal rows.
use Prim.Native.Nat.{Ordering}
use Prim.Native.String.{compare}
use ai_website_builder.Common.{
  ℕ, String, Bool, true, false, ◌&&◌, ◌||◌, List, [], ◌∷◌, if◌then◌else◌, ltb, leb, nat_eq,
}

module _ {ℓ} {A : Type ℓ} (le : A → A → Bool) where
  unfoldable pub insert_sorted : A → List A → List A
  insert_sorted x [] = x ∷ []
  insert_sorted x (y ∷ ys) = if le x y then x ∷ y ∷ ys else y ∷ insert_sorted x ys

  unfoldable pub sort_by : List A → List A
  unfolding insert_sorted
  sort_by [] = []
  sort_by (x ∷ xs) = insert_sorted x (sort_by xs)

-- Two sort keys, the first one first.
abbrev pub le_pair : ℕ → ℕ → ℕ → ℕ → Bool
le_pair a b c d = ltb a c || (nat_eq a c && leb b d)

-- The order of sort.Strings.
abbrev pub le_text : String → String → Bool
le_text a b = elim (compare a b) [ Ordering.lt ↦ true | Ordering.eq ↦ true | Ordering.gt ↦ false ]
