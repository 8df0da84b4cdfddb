-- ===== src/Site/Referred.antt =====
-- Which media a snapshot refers to, as a relation, and that BuildSnapshot of
-- internal/publish/snapshot.go collects just these.
use ai_website_builder.Common.{
  String, true, false, ◌==◌, ◌≡◌, refl, sym, ap, ◌⊎◌, ◌↔◌, inl, inr, Option, none, some, List, [],
  ◌∷◌, ◌++◌, any, if◌then◌else◌, Bool-cases, Option-cases, eq_iff, arith, subst,
}
use ai_website_builder.Common.Dict.{Dict, lookup}
use ai_website_builder.Models.Json.{Json, as_str, as_obj, as_arr, unmarshal_map}
use ai_website_builder.Models.Schema.{FieldSpec, FieldSpecs, spec, nil, cons, key, type}
use ai_website_builder.Models.Media.{
  id_in, collect_item, collect_items, collect_value, collect_from, collect_decoded,
  collect_media_ids,
}
use ai_website_builder.Models.Snapshot.{
  Snapshot, SnapshotPage, SnapshotSection, SnapshotSectionType,
}
use ai_website_builder.Site.Snapshot.{section_media, sections_media, pages_media, media_ids}

abbrev AnyOf : {A : Type 0} → (A → Type 0) → List A → Type 0
AnyOf P [] = ⊥
AnyOf P (x ∷ xs) = P x ⊎ AnyOf P xs

module _ (id : String) where
  -- The value is this id, and not the empty text.
  abbrev Names : Option Json → Type 0
  Names v = (as_str v ≡ some id) × ((id == "") ≡ false)

  -- An image field of an item of a list.
  abbrev InItem : FieldSpecs → Dict Json → Type 0
  InItem nil item = ⊥
  InItem (cons f fs) item = ((type f ≡ "image") × Names (lookup (key f) item)) ⊎ InItem fs item

  abbrev InField : FieldSpec → Option Json → Type 0
  InField (spec k l t o fs) v =
      ((t ≡ "image") × Names v)
      ⊎ ((t ≡ "list") × AnyOf (λ it. InItem fs (as_obj (some it))) (as_arr v))

  abbrev InFields : FieldSpecs → Dict Json → Type 0
  InFields nil d = ⊥
  InFields (cons f fs) d = InField f (lookup (key f) d) ⊎ InFields fs d

  -- A section of a known type, whose content is an object.
  abbrev InSection : Dict SnapshotSectionType → SnapshotSection → Type 0
  InSection types s =
      (st : SnapshotSectionType) × (lookup s.section_type types ≡ some st)
      × (d : Dict Json) × (unmarshal_map s.content ≡ some d)
      × InFields st.fields d

  -- The logo, or a section of one of the pages.
  abbrev pub Refers : Snapshot → Type 0
  Refers snap =
      ((snap.website.settings.logo_media_id ≡ id) × ((id == "") ≡ false))
      ⊎ AnyOf (λ (p : SnapshotPage). AnyOf (InSection snap.section_types) p.sections) snap.pages

  abbrev pub Has : List String → Type 0
  Has ids = any (λ i. i == id) ids ≡ true

  either : {A B C D : Type 0} → (A → C) → (B → D) → A ⊎ B → C ⊎ D
  either f g (inl a) = inl (f a)
  either f g (inr b) = inr (g b)

  Has-split : (xs ys : List String) → Has (xs ++ ys) → Has xs ⊎ Has ys
  Has-split [] ys h = inr h
  Has-split (x ∷ xs) ys h = elim (Bool-cases (x == id)) [
    | inl t ↦ inl (rw t refl)
    | inr n ↦ either (λ k. rw n k) (λ k. k) (Has-split xs ys (rw n at h))
  ]

  Has-join : (xs ys : List String) → Has xs ⊎ Has ys → Has (xs ++ ys)
  Has-join [] ys (inl h) = cc
  Has-join [] ys (inr h) = h
  Has-join (x ∷ xs) ys (inl h) = elim (Bool-cases (x == id)) [
    | inl t ↦ rw t refl
    | inr n ↦ rw n (Has-join xs ys (inl (rw n at h)))
  ]
  Has-join (x ∷ xs) ys (inr h) = elim (Bool-cases (x == id)) [
    | inl t ↦ rw t refl
    | inr n ↦ rw n (Has-join xs ys (inr h))
  ]

  both : {A B : Type 0} (xs ys : List String) → Has xs ↔ A → Has ys ↔ B → Has (xs ++ ys) ↔ (A ⊎ B)
  both xs ys a b =
      ((λ h. either a.0 b.0 (Has-split xs ys h)), (λ h. Has-join xs ys (either a.1 b.1 h)))

  named : (o : Option String) → Has (id_in o) ↔ ((o ≡ some id) × ((id == "") ≡ false))
  named none = ((λ h. cc), (λ h. absurd (ground (arith, h.0))))
  named (some s) = (
    (λ h. elim (Bool-cases (s == "")) [
      | inl e ↦ absurd (ground (arith, e, h))
      | inr n ↦
          let hit : (s == id) ≡ true = elim (Bool-cases (s == id)) [
            | inl t ↦ t
            | inr m ↦ absurd (ground (arith, n, m, h))
          ] in
          let same = (eq_iff s id).0 hit in (ap some same, subst (λ t. (t == "") ≡ false) same n)
    ]),
    (λ h.
        let same : s ≡ id = ground (arith, h.0) in
        subst (λ t. Has (id_in (some t))) (sym same) (rw (h.1, (eq_iff id id).1 refl) refl)),
  )

  id_in-Names : (v : Option Json) → Has (id_in (as_str v)) ↔ Names v
  id_in-Names v = named (as_str v)

  -- A type that is tested for.
  tested :
      {A : Type 0} (t wanted : String) (xs : List String)
      → Has xs ↔ A
      → Has (if t == wanted then xs else []) ↔ ((t ≡ wanted) × A)
  tested t wanted xs a = elim (Bool-cases (t == wanted)) [
    | inl e ↦ ((λ h. ((eq_iff t wanted).0 e, a.0 (rw e at h))), (λ h. rw e (a.1 h.1)))
    | inr n ↦ (
      (λ h. absurd (ground (arith, n, h))),
      (λ h. absurd (ground (arith, n, h.0, eq_iff t wanted))),
    )
  ]

  collect_item-InItem :
      (fs : FieldSpecs) (item : Dict Json) → Has (collect_item fs item) ↔ InItem fs item
  unfolding collect_item
  collect_item-InItem nil item = ((λ h. cc), (λ h. absurd h))
  collect_item-InItem (cons f fs) item =
      both _ (collect_item fs item) (tested (type f) "image" _ (id_in-Names (lookup (key f) item)))
        (collect_item-InItem fs item)

  collect_items-AnyOf :
      (fs : FieldSpecs) (items : List Json)
      → Has (collect_items fs items) ↔ AnyOf (λ it. InItem fs (as_obj (some it))) items
  unfolding collect_items
  collect_items-AnyOf fs [] = ((λ h. cc), (λ h. absurd h))
  collect_items-AnyOf fs (it ∷ items) =
      both _ (collect_items fs items) (collect_item-InItem fs (as_obj (some it)))
        (collect_items-AnyOf fs items)

  collect_value-InField : (f : FieldSpec) (v : Option Json) → Has (collect_value f v) ↔ InField f v
  unfolding collect_value
  collect_value-InField (spec k l t o fs) v = elim (Bool-cases (t == "image")) [
    | inl e ↦
        let image = id_in-Names v in
        (
          (λ h. inl ((eq_iff t "image").0 e, image.0 (rw e at h))),
          (λ h. rw e (elim h [
            | inl p ↦ image.1 p.1
            | inr p ↦
                let clash : false ≡ true = subst (λ u. (u == "image") ≡ true) p.0 e in absurd (cc)
          ])),
        )
    | inr n ↦
        let listed = tested t "list" _ (collect_items-AnyOf fs (as_arr v)) in
        rw n (
          (λ h. inr (listed.0 h)),
          (λ h. elim h [
            | inl p ↦ absurd (ground (arith, n, p.0, eq_iff t "image"))
            | inr p ↦ listed.1 p
          ]),
        )
  ]

  collect_from-InFields :
      (fs : FieldSpecs) (d : Dict Json) → Has (collect_from fs d) ↔ InFields fs d
  unfolding collect_from
  collect_from-InFields nil d = ((λ h. cc), (λ h. absurd h))
  collect_from-InFields (cons f fs) d =
      both _ (collect_from fs d) (collect_value-InField f (lookup (key f) d))
        (collect_from-InFields fs d)

  section_media-InSection :
      (types : Dict SnapshotSectionType) (s : SnapshotSection) (o : Option SnapshotSectionType)
      → lookup s.section_type types ≡ o
      → Has (section_media types s o) ↔ InSection types s
  unfolding section_media collect_media_ids collect_decoded
  section_media-InSection types s none e =
      ((λ h. cc), (λ (st, known, d, parsed, rest). absurd (ground (arith, e, known))))
  section_media-InSection types s (some st) e = elim (Option-cases (unmarshal_map s.content)) [
    | inl bad ↦
        rw bad ((λ h. cc), (λ (st', known, d, parsed, rest). absurd (ground (arith, bad, parsed))))
    | inr (d, parsed) ↦
        let fields = collect_from-InFields st.fields d in
        rw parsed (
          (λ h. (st, e, d, refl, fields.0 h)),
          (λ (st', known, d', parsed', rest).
              let same_type : st' ≡ st = ground (arith, e, known) in
              let same : d' ≡ d = ground (arith, parsed') in
              fields.1 (
                subst (λ (t : SnapshotSectionType). InFields t.fields d) same_type
                  (subst (InFields st'.fields) same rest))),
        )
  ]

  sections_media-AnyOf :
      (types : Dict SnapshotSectionType) (ss : List SnapshotSection)
      → Has (sections_media types ss) ↔ AnyOf (InSection types) ss
  unfolding sections_media
  sections_media-AnyOf types [] = ((λ h. cc), (λ h. absurd h))
  sections_media-AnyOf types (s ∷ ss) =
      both _ (sections_media types ss)
        (section_media-InSection types s (lookup s.section_type types) refl)
        (sections_media-AnyOf types ss)

  pages_media-AnyOf :
      (types : Dict SnapshotSectionType) (ps : List SnapshotPage)
      → Has (pages_media types ps)
        ↔ AnyOf (λ (p : SnapshotPage). AnyOf (InSection types) p.sections) ps
  unfolding pages_media
  pages_media-AnyOf types [] = ((λ h. cc), (λ h. absurd h))
  pages_media-AnyOf types (p ∷ ps) =
      both _ (pages_media types ps) (sections_media-AnyOf types p.sections)
        (pages_media-AnyOf types ps)

  -- The ids that are collected for a snapshot are those that it refers to.
  pub media_ids-Refers :
      (snap : Snapshot)
      → Has (media_ids snap.website.settings snap.section_types snap.pages) ↔ Refers snap
  media_ids-Refers snap =
      let logo = snap.website.settings.logo_media_id in
      let pages = pages_media-AnyOf snap.section_types snap.pages in
      let all = both (id_in (some logo)) _ (named (some logo)) pages in
      elim (Bool-cases (logo == "")) [
        | inl e ↦ rw e (
          (λ h. inr (pages.0 h)),
          (λ h. elim h [ inl p ↦ absurd (ground (arith, e, p.0, p.1)) | inr p ↦ pages.1 p ]),
        )
        | inr n ↦ rw n (
          (λ h. either (λ p. (ground (arith, p.0), p.1)) (λ p. p) (all.0 (rw n h))),
          (λ h. let held = all.1 (either (λ p. (ap some p.0, p.1)) (λ p. p) h) in rw n at held),
        )
      ]
