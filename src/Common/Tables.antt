-- ===== src/Common/Tables.antt =====
-- Keys of tables, and how INSERT, UPDATE and DELETE keep them.
use ai_website_builder.Common.{
  Bool, true, false, ◌||◌, ◌≡◌, refl, subst, ◌∙◌, All-map, All-append, All-where_rows, some, List,
  [], ◌∷◌, ◌++◌, All, any, find?, where_rows, update_rows, arith, Bool-cases, inl, inr,
}

or_right : (a b : Bool) → b ≡ true → (a || b) ≡ true
or_right true b h = refl
or_right false b h = h

module _ {ℓ} {A : Type ℓ} where
  -- No two rows clash.
  abbrev pub Apart : (A → A → Bool) → List A → Type 0
  Apart clash [] = Unit
  Apart clash (x ∷ xs) = All (λ y. clash x y ≡ false) xs × Apart clash xs

  -- At most one row is selected.
  abbrev pub AtMostOne : (A → Bool) → List A → Type 0
  AtMostOne p [] = Unit
  AtMostOne p (x ∷ xs) = (p x ≡ true → All (λ y. p y ≡ false) xs) × AtMostOne p xs

  pub any-false : (p : A → Bool) (xs : List A) → any p xs ≡ false → All (λ y. p y ≡ false) xs
  any-false p [] h = tt
  any-false p (x ∷ xs) h = (ground arith, any-false p xs (ground arith))

  pub find?_sound {κ} :
      (P : A → Type κ) (p : A → Bool) (xs : List A) (x : A)
      → All P xs
      → find? p xs ≡ some x
      → P x × (p x ≡ true)
  find?_sound P p [] x h e = absurd (cc)
  find?_sound P p (y ∷ ys) x h e = elim (Bool-cases (p y)) [
    | inl t ↦
        let same : y ≡ x = ground (arith, t) in (subst P same h.0, subst (λ z. p z ≡ true) same t)
    | inr f ↦ find?_sound P p ys x h.1 (rw f at e)
  ]

  -- The selected rows are the one that was found.
  pub found_unique :
      (p q : A → Bool) (xs : List A) (x : A)
      → ((y : A) → q y ≡ true → p y ≡ true)
      → AtMostOne p xs
      → find? q xs ≡ some x
      → All (λ y. p y ≡ true → y ≡ x) xs
  found_unique p q [] x sub u e = tt
  found_unique p q (y ∷ ys) x sub u e = elim (Bool-cases (q y)) [
    | inl t ↦
        let same : y ≡ x = ground (arith, t) in
        (λ _. same, All-map _ _ (λ z f g. absurd (ground (arith, f, g))) ys (u.0 (sub y t)))
    | inr f ↦ (
      λ t.
          let found = find?_sound (λ z. p z ≡ false) q ys x (u.0 t) (rw f at e) in
          absurd (ground (arith, found.0, sub x found.1)),
      found_unique p q ys x sub u.1 (rw f at e),
    )
  ]

  -- UPDATE keeps a predicate that the new rows satisfy.
  pub All-update_rows {κ} :
      (P : A → Type κ) (p : A → Bool) (f : A → A) (xs : List A)
      → All P xs
      → All (λ y. p y ≡ true → P y → P (f y)) xs
      → All P (update_rows p f xs)
  unfolding update_rows
  All-update_rows P p f [] h k = tt
  All-update_rows P p f (x ∷ xs) h k = (
    elim (Bool-cases (p x)) [ inl t ↦ rw t (k.0 t h.0) | inr n ↦ rw n h.0 ],
    All-update_rows P p f xs h.1 k.1,
  )

  -- A predicate of the new rows, and of the old ones that an UPDATE does not select.
  pub All-updated {κ} :
      (Q : A → Type κ) (p : A → Bool) (f : A → A) (xs : List A)
      → All (λ y. p y ≡ true → Q (f y)) xs
      → All (λ y. p y ≡ false → Q y) xs
      → All Q (update_rows p f xs)
  unfolding update_rows
  All-updated Q p f [] h k = tt
  All-updated Q p f (x ∷ xs) h k = (
    elim (Bool-cases (p x)) [ inl t ↦ rw t (h.0 t) | inr n ↦ rw n (k.0 n) ],
    All-updated Q p f xs h.1 k.1,
  )

  pub All-pure {κ} : (P : A → Type κ) → ((y : A) → P y) → (xs : List A) → All P xs
  All-pure P h [] = tt
  All-pure P h (x ∷ xs) = (h x, All-pure P h xs)

  pub All-zip {κ ι ν} :
      (P : A → Type κ) (Q : A → Type ι) (R : A → Type ν)
      → ((y : A) → P y → Q y → R y)
      → (xs : List A) → All P xs
      → All Q xs
      → All R xs
  All-zip P Q R h [] p q = tt
  All-zip P Q R h (x ∷ xs) p q = (h x p.0 q.0, All-zip P Q R h xs p.1 q.1)

  -- INSERT of a row that clashes with none.
  pub Apart-append :
      (clash : A → A → Bool) (xs : List A) (z : A)
      → Apart clash xs
      → All (λ y. clash y z ≡ false) xs
      → Apart clash (xs ++ z ∷ [])
  Apart-append clash [] z h k = (tt, tt)
  Apart-append clash (x ∷ xs) z h k =
      (All-append _ xs (z ∷ []) h.0 (k.0, tt), Apart-append clash xs z h.1 k.1)

  -- DELETE.
  pub Apart-where_rows :
      (clash : A → A → Bool) (p : A → Bool) (xs : List A)
      → Apart clash xs
      → Apart clash (where_rows p xs)
  unfolding where_rows
  Apart-where_rows clash p [] h = tt
  Apart-where_rows clash p (x ∷ xs) h = elim (Bool-cases (p x)) [
    | inl t ↦ rw t (All-where_rows _ p xs h.0, Apart-where_rows clash p xs h.1)
    | inr n ↦ rw n (Apart-where_rows clash p xs h.1)
  ]

  -- UPDATE of columns that the key does not name.
  pub Apart-update_rows_same :
      (clash : A → A → Bool) (p : A → Bool) (f : A → A) (xs : List A)
      → ((x y : A) → clash (f x) y ≡ clash x y)
      → ((x y : A) → clash x (f y) ≡ clash x y)
      → Apart clash xs
      → Apart clash (update_rows p f xs)
  unfolding update_rows
  Apart-update_rows_same clash p f [] l r h = tt
  Apart-update_rows_same clash p f (x ∷ xs) l r h = (
    All-update_rows _ p f xs
        (elim (Bool-cases (p x)) [
          | inl t ↦ rw t (All-map _ _ (λ y k. l x y ∙ k) xs h.0)
          | inr n ↦ rw n h.0
        ])
        (All-pure _ (λ y t k. r _ y ∙ k) xs),
    Apart-update_rows_same clash p f xs l r h.1,
  )

  -- UPDATE of the one selected row, when its new key clashes with no other row.
  pub Apart-update_one :
      (clash : A → A → Bool) (p : A → Bool) (f : A → A) (x0 : A) (xs : List A)
      → ((x y : A) → clash x y ≡ clash y x)
      → Apart clash xs
      → AtMostOne p xs
      → All (λ y. p y ≡ true → y ≡ x0) xs
      → All (λ y. p y ≡ false → clash (f x0) y ≡ false) xs
      → Apart clash (update_rows p f xs)
  unfolding update_rows
  Apart-update_one clash p f x0 [] s h u one free = tt
  Apart-update_one clash p f x0 (x ∷ xs) s h u one free = (
    elim (Bool-cases (p x)) [
      | inl t ↦
          rw (t, one.0 t)
            (All-update_rows _ p f xs (All-zip _ _ _ (λ y n k. k n) xs (u.0 t) free.1)
              (All-map _ _ (λ y n t' k. absurd (ground (arith, n, t'))) xs (u.0 t)))
      | inr n ↦ rw n (
          All-update_rows _ p f xs h.0
            (All-map _ _ (λ y same t k. rw (same t) (s x (f x0) ∙ free.0 n)) xs one.1))
    ],
    Apart-update_one clash p f x0 xs s h.1 u.1 one.1 free.1,
  )

  -- Rows with distinct ids: a test that fixes the id selects at most one.
  pub AtMostOne-ids :
      (clash : A → A → Bool) (p : A → Bool) (xs : List A)
      → ((x y : A) → p x ≡ true → p y ≡ true → clash x y ≡ true)
      → Apart clash xs
      → AtMostOne p xs
  AtMostOne-ids clash p [] c h = tt
  AtMostOne-ids clash p (x ∷ xs) c h = (
    λ t.
        All-map _ _
          (λ y k. elim (Bool-cases (p y)) [
            | inl t' ↦ absurd (ground (arith, c x y t t', k))
            | inr n ↦ n
          ])
          xs h.0,
    AtMostOne-ids clash p xs c h.1,
  )

  pub any-append : (q : A → Bool) (xs ys : List A) → any q xs ≡ true → any q (xs ++ ys) ≡ true
  any-append q [] ys h = absurd (cc)
  any-append q (x ∷ xs) ys h = elim (Bool-cases (q x)) [
    | inl t ↦ rw t refl
    | inr n ↦ rw n (any-append q xs ys (rw n at h))
  ]

  -- A row that an UPDATE does not select is still there.
  pub any-update_rows :
      (q p : A → Bool) (f : A → A) (xs : List A)
      → All (λ y. p y ≡ true → q y ≡ true → q (f y) ≡ true) xs
      → any q xs ≡ true
      → any q (update_rows p f xs) ≡ true
  unfolding update_rows
  any-update_rows q p f [] k h = absurd (cc)
  any-update_rows q p f (x ∷ xs) k h = elim (Bool-cases (q x)) [
    | inl t ↦ elim (Bool-cases (p x)) [ inl s ↦ rw (s, k.0 s t) refl | inr n ↦ rw (n, t) refl ]
    | inr n ↦ or_right _ _ (any-update_rows q p f xs k.1 (rw n at h))
  ]

  -- A row that a DELETE does not select is still there.
  pub any-where_rows :
      (q p : A → Bool) (xs : List A)
      → All (λ y. q y ≡ true → p y ≡ true) xs
      → any q xs ≡ true
      → any q (where_rows p xs) ≡ true
  unfolding where_rows
  any-where_rows q p [] k h = absurd (cc)
  any-where_rows q p (x ∷ xs) k h = elim (Bool-cases (q x)) [
    | inl t ↦ rw (k.0 t, t) refl
    | inr n ↦
        let rest = any-where_rows q p xs k.1 (rw n at h) in
        elim (Bool-cases (p x)) [ inl t ↦ rw (t, n) rest | inr f ↦ rw f rest ]
  ]

  none_left :
      (r q : A → Bool) (xs : List A)
      → ((x : A) → q x ≡ true → r x ≡ true)
      → All (λ y. r y ≡ false) xs
      → any q xs ≡ true
      → ⊥
  none_left r q [] k h a = cc
  none_left r q (x ∷ xs) k h a = elim (Bool-cases (q x)) [
    | inl t ↦ absurd (ground (arith, k x t, h.0))
    | inr n ↦ none_left r q xs k h.1 (rw n at a)
  ]

  -- Two tests that each fix the row of a unique key find the same row.
  pub same_row :
      (r p q : A → Bool) (xs : List A)
      → AtMostOne r xs
      → ((x : A) → p x ≡ true → r x ≡ true)
      → ((x : A) → q x ≡ true → r x ≡ true)
      → ((x : A) → p x ≡ true → q x ≡ true → ⊥)
      → any p xs ≡ true
      → any q xs ≡ true
      → ⊥
  same_row r p q [] u k l m h j = cc
  same_row r p q (x ∷ xs) u k l m h j = elim (Bool-cases (p x)) [
    | inl t ↦ elim (Bool-cases (q x)) [
      | inl t' ↦ m x t t'
      | inr n' ↦ none_left r q xs l (u.0 (k x t)) (rw n' at j)
    ]
    | inr n ↦ elim (Bool-cases (q x)) [
      | inl t' ↦ none_left r p xs k (u.0 (l x t')) (rw n at h)
      | inr n' ↦ same_row r p q xs u.1 k l m (rw n at h) (rw n' at j)
    ]
  ]
