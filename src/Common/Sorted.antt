-- ===== src/Common/Sorted.antt =====
-- What ORDER BY keeps of the rows.
use ai_website_builder.Common.{Bool, false, ◌≡◌, ◌∙◌, List, [], ◌∷◌, All, Bool-cases, inl, inr}
use ai_website_builder.Common.Sort.{insert_sorted, sort_by}
use ai_website_builder.Common.Tables.{Apart, All-zip}

module _ {A : Type 0} (le : A → A → Bool) where
  All-insert_sorted :
      (P : A → Type 0) (x : A) (xs : List A) → P x → All P xs → All P (insert_sorted le x xs)
  unfolding insert_sorted
  All-insert_sorted P x [] h k = (h, tt)
  All-insert_sorted P x (y ∷ ys) h k = elim (Bool-cases (le x y)) [
    | inl t ↦ rw t (h, k)
    | inr n ↦ rw n (k.0, All-insert_sorted P x ys h k.1)
  ]

  pub All-sort_by : (P : A → Type 0) (xs : List A) → All P xs → All P (sort_by le xs)
  unfolding sort_by
  All-sort_by P [] h = tt
  All-sort_by P (x ∷ xs) h = All-insert_sorted P x (sort_by le xs) h.0 (All-sort_by P xs h.1)

  Apart-insert_sorted :
      (clash : A → A → Bool) (x : A) (xs : List A)
      → ((y z : A) → clash y z ≡ clash z y)
      → All (λ y. clash x y ≡ false) xs
      → Apart clash xs
      → Apart clash (insert_sorted le x xs)
  unfolding insert_sorted
  Apart-insert_sorted clash x [] s h k = (tt, tt)
  Apart-insert_sorted clash x (y ∷ ys) s h k = elim (Bool-cases (le x y)) [
    | inl t ↦ rw t (h, k)
    | inr n ↦ rw n (
      All-insert_sorted (λ z. clash y z ≡ false) x ys (s y x ∙ h.0) k.0,
      Apart-insert_sorted clash x ys s h.1 k.1,
    )
  ]

  pub Apart-sort_by :
      (clash : A → A → Bool) (xs : List A)
      → ((y z : A) → clash y z ≡ clash z y)
      → Apart clash xs
      → Apart clash (sort_by le xs)
  unfolding sort_by
  Apart-sort_by clash [] s h = tt
  Apart-sort_by clash (x ∷ xs) s h =
      Apart-insert_sorted clash x (sort_by le xs) s (All-sort_by (λ y. clash x y ≡ false) xs h.0)
        (Apart-sort_by clash xs s h.1)

-- Rows that have a column in common: the key without it keeps them apart.
pub Apart-within :
    {A : Type 0} (P : A → Type 0) (clash clash' : A → A → Bool) (xs : List A)
    → ((x y : A) → P x → P y → clash x y ≡ false → clash' x y ≡ false)
    → All P xs
    → Apart clash xs
    → Apart clash' xs
Apart-within P clash clash' [] f h k = tt
Apart-within P clash clash' (x ∷ xs) f h k =
    (All-zip _ _ _ (λ y p n. f x y h.0 p n) xs h.1 k.0, Apart-within P clash clash' xs f h.1 k.1)
