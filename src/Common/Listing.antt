-- ===== src/Common/Listing.antt =====
-- What a query with WHERE and ORDER BY lists: the rows that a test selects, each as often as in the
-- table, in order.
use ai_website_builder.Common.{
  ℕ, ◌+◌, Bool, true, false, ◌&&◌, ◌≡◌, ◌∙◌, refl, List, [], ◌∷◌, where_rows, if◌then◌else◌,
  Bool-cases, inl, inr, arith,
}
use ai_website_builder.Common.Sort.{insert_sorted, sort_by}

module _ {A : Type 0} where
  abbrev pub count : (A → Bool) → List A → ℕ
  count q [] = 0
  count q (x ∷ xs) = (if q x then 1 else 0) + count q xs

  abbrev Leads : (A → A → Type 0) → A → List A → Type 0
  Leads R x [] = Unit
  Leads R x (y ∷ ys) = R x y

  abbrev InOrder : (A → A → Type 0) → List A → Type 0
  InOrder R [] = Unit
  InOrder R (x ∷ xs) = Leads R x xs × InOrder R xs

  -- Each row that the test selects stands in the list as often as in the table, and no other does:
  -- so any test counts. Neighbours are in the order R.
  pub record IsListing (selects : A → Bool) (R : A → A → Type 0) (rows out : List A) : Type 0 where
    pub counts : (q : A → Bool) → count q out ≡ count (λ x. selects x && q x) rows
    pub ordered : InOrder R out

  count-where_rows :
      (p q : A → Bool) (xs : List A) → count q (where_rows p xs) ≡ count (λ x. p x && q x) xs
  unfolding where_rows
  count-where_rows p q [] = refl
  count-where_rows p q (x ∷ xs) = ground (arith, count-where_rows p q xs)

  module _ (le : A → A → Bool) (R : A → A → Type 0) where
    count-insert_sorted :
        (q : A → Bool) (x : A) (xs : List A)
        → count q (insert_sorted le x xs) ≡ (if q x then 1 else 0) + count q xs
    unfolding insert_sorted
    count-insert_sorted q x [] = refl
    count-insert_sorted q x (y ∷ ys) = ground (arith, count-insert_sorted q x ys)

    count-sort_by : (q : A → Bool) (xs : List A) → count q (sort_by le xs) ≡ count q xs
    unfolding sort_by
    count-sort_by q [] = refl
    count-sort_by q (x ∷ xs) =
        omega (arith, count-insert_sorted q x (sort_by le xs), count-sort_by q xs)

    Leads-insert_sorted :
        (z x : A) (xs : List A) → R z x → Leads R z xs → Leads R z (insert_sorted le x xs)
    unfolding insert_sorted
    Leads-insert_sorted z x [] h k = h
    Leads-insert_sorted z x (y ∷ ys) h k = elim (Bool-cases (le x y)) [
      | inl t ↦ rw t h
      | inr n ↦ rw n k
    ]

    insert_sorted-InOrder :
        (x : A) (xs : List A)
        → ((y z : A) → le y z ≡ true → R y z)
        → ((y z : A) → le y z ≡ false → R z y)
        → InOrder R xs
        → InOrder R (insert_sorted le x xs)
    unfolding insert_sorted
    insert_sorted-InOrder x [] yes_le no_le h = (tt, tt)
    insert_sorted-InOrder x (y ∷ ys) yes_le no_le h = elim (Bool-cases (le x y)) [
      | inl t ↦ rw t (yes_le x y t, h)
      | inr n ↦ rw n (
        Leads-insert_sorted y x ys (no_le x y n) h.0,
        insert_sorted-InOrder x ys yes_le no_le h.1,
      )
    ]

    sort_by-InOrder :
        (xs : List A)
        → ((y z : A) → le y z ≡ true → R y z)
        → ((y z : A) → le y z ≡ false → R z y)
        → InOrder R (sort_by le xs)
    unfolding sort_by
    sort_by-InOrder [] yes_le no_le = tt
    sort_by-InOrder (x ∷ xs) yes_le no_le =
        insert_sorted-InOrder x (sort_by le xs) yes_le no_le (sort_by-InOrder xs yes_le no_le)

    pub sort_by-IsListing :
        (selects : A → Bool) (rows : List A)
        → ((y z : A) → le y z ≡ true → R y z)
        → ((y z : A) → le y z ≡ false → R z y)
        → IsListing selects R rows (sort_by le (where_rows selects rows))
    sort_by-IsListing selects rows yes_le no_le = record {
      counts = λ q. count-sort_by q (where_rows selects rows) ∙ count-where_rows selects q rows;
      ordered = sort_by-InOrder (where_rows selects rows) yes_le no_le;
    }
