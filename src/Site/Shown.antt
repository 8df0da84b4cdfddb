-- ===== src/Site/Shown.antt =====
-- A block shows nothing empty (internal/generator/generator.go, `buildBlock` and `buildItem`).
use ai_website_builder.Common.{
  String, Bool, true, false, not, ◌&&◌, ◌||◌, ◌==◌, ◌≡◌, refl, Option, none, some, List, [], ◌∷◌,
  All, All-append, is_empty, arith, Bool-cases, Option-cases, inl, inr, ◌⊎◌, ap, subst, coalesce,
}
use ai_website_builder.Common.Dict.{Dict, lookup}
use ai_website_builder.Models.Json.{Json, as_text, as_obj, as_arr, Raw}
use ai_website_builder.Models.Schema.{FieldSpec, FieldSpecs, nil, cons, key, type, item_fields}
use ai_website_builder.Models.Snapshot.{SnapshotSectionType}
use ai_website_builder.Site.Blocks.{
  SiteData, BlockLeaf, words, image, button, contact, BlockItem, BlockField, leaf, items, BlockData,
  button_leaf, words_leaf, image_leaf, add_leaf, add_field, item_words, item_field, item_loop,
  build_item, build_items, block_image, block_items, block_field, block_loop, start_block,
  content_map, build_block,
}

module _ (media : String → String × String) where
  -- A picture that the snapshot has.
  abbrev pub IsPicture : String → String → Type 0
  IsPicture url alt = ((url == "") ≡ false) × (id : String) × (media id ≡ (url, alt))

  abbrev pub IsShownLeaf : BlockLeaf → Type 0
  IsShownLeaf (words kind text) = (text == "") ≡ false
  IsShownLeaf (image url alt) = IsPicture url alt
  IsShownLeaf (button text url) = ((text == "") ≡ false) × ((url == "") ≡ false)
  IsShownLeaf contact = Unit

  abbrev pub IsShownItem : BlockItem → Type 0
  IsShownItem it =
      (((it.summary == "") ≡ false) ⊎ (is_empty it.fields ≡ false)) × All IsShownLeaf it.fields

  abbrev pub IsShown : BlockField → Type 0
  IsShown (leaf l) = IsShownLeaf l
  IsShown (items its) = (is_empty its ≡ false) × All IsShownItem its

  -- What the helpers hand on, if they hand on anything.
  abbrev IsShownOption : Option BlockLeaf → Type 0
  IsShownOption none = Unit
  IsShownOption (some l) = IsShownLeaf l

  words_leaf-IsShown : (kind s : String) → IsShownOption (words_leaf kind s)
  words_leaf-IsShown kind s = ground arith

  button_leaf-IsShown : (v : Option Json) → IsShownOption (button_leaf v)
  button_leaf-IsShown v = ground arith

  image_leaf-IsShown : (id : String) → IsShownOption (image_leaf media id)
  image_leaf-IsShown id = elim (Bool-cases ((media id).0 == "")) [
    | inl t ↦ rw t tt
    | inr n ↦ rw n (n, id, refl)
  ]

  add_leaf-IsShown :
      (o : Option BlockLeaf) (it : BlockItem)
      → IsShownOption o
      → All IsShownLeaf it.fields
      → All IsShownLeaf (add_leaf o it).fields
  add_leaf-IsShown none it h k = k
  add_leaf-IsShown (some l) it h k = All-append IsShownLeaf it.fields (l ∷ []) k (h, tt)

  item_words-IsShown :
      (variant s : String) (titled : Bool) (it : BlockItem)
      → (s == "") ≡ false
      → All IsShownLeaf it.fields
      → All IsShownLeaf (item_words media variant s (titled, it)).1.fields
  unfolding item_words
  item_words-IsShown variant s titled it n k =
      elim (Bool-cases (variant == "accordion" && not titled)) [
        | inl a ↦ rw a k
        | inr a ↦ elim (Bool-cases (variant == "gallery")) [
          | inl g ↦ rw (a, g) (add_leaf-IsShown (some (words "caption" s)) it n k)
          | inr g ↦ elim (Bool-cases titled) [
            | inl t ↦ rw (a, g, t) (add_leaf-IsShown (some (words "text" s)) it n k)
            | inr t ↦ rw (a, g, t) (add_leaf-IsShown (some (words "title" s)) it n k)
          ]
        ]
      ]

  item_field-IsShown :
      (variant : String) (f : FieldSpec) (input : Dict Json) (titled : Bool) (it : BlockItem)
      → All IsShownLeaf it.fields
      → All IsShownLeaf (item_field media variant f input (titled, it)).1.fields
  unfolding item_field
  item_field-IsShown variant f input titled it k =
      let v = lookup (key f) input in
      elim (Bool-cases (type f == "heading" || type f == "text")) [
        | inl a ↦ elim (Bool-cases (as_text v == "")) [
          | inl e ↦ rw (a, e) k
          | inr n ↦ rw (a, n) (item_words-IsShown variant (as_text v) titled it n k)
        ]
        | inr a ↦ elim (Bool-cases (type f == "textarea")) [
          | inl b ↦
              rw (a, b)
                (add_leaf-IsShown (words_leaf "textarea" (as_text v)) it
                  (words_leaf-IsShown "textarea" (as_text v)) k)
          | inr b ↦ elim (Bool-cases (type f == "image")) [
            | inl c ↦
                rw (a, b, c)
                  (add_leaf-IsShown (image_leaf media (as_text v)) it
                    (image_leaf-IsShown (as_text v)) k)
            | inr c ↦ elim (Bool-cases (type f == "button")) [
              | inl d ↦
                  rw (a, b, c, d) (add_leaf-IsShown (button_leaf v) it (button_leaf-IsShown v) k)
              | inr d ↦ rw (a, b, c, d) k
            ]
          ]
        ]
      ]

  item_loop-IsShown :
      (variant : String) (fs : FieldSpecs) (input : Dict Json) (st : Bool × BlockItem)
      → All IsShownLeaf st.1.fields
      → All IsShownLeaf (item_loop media variant fs input st).1.fields
  unfolding item_loop
  item_loop-IsShown variant nil input st k = k
  item_loop-IsShown variant (cons f fs) input (titled, it) k =
      item_loop-IsShown variant fs input _ (item_field-IsShown variant f input titled it k)

  build_items-IsShown :
      (fs : FieldSpecs) (variant : String) (raws : List Json)
      → All IsShownItem (build_items media fs variant raws)
  unfolding build_items build_item
  build_items-IsShown fs variant [] = tt
  build_items-IsShown fs variant (raw ∷ rest) =
      let it = build_item media fs (as_obj (some raw)) variant in
      let fields =
        item_loop-IsShown variant fs (as_obj (some raw))
          (false, record { summary = ""; fields = [] }) tt in
      let more = build_items-IsShown fs variant rest in
      elim (Bool-cases (it.summary == "")) [
        | inr s ↦ rw s ((inl s, fields), more)
        | inl s ↦ elim (Bool-cases (is_empty it.fields)) [
          | inl e ↦ rw (s, e) more
          | inr e ↦ rw (s, e) ((inr e, fields), more)
        ]
      ]

  abbrev Shows : BlockData → Type 0
  Shows b =
      All IsShown b.fields
      × (((b.bg_image == "") ≡ true) ⊎ ((alt : String) × IsPicture b.bg_image alt))

  add_field-Shows :
      (o : Option BlockLeaf) (b : BlockData) → IsShownOption o → Shows b → Shows (add_field o b)
  add_field-Shows none b h k = k
  add_field-Shows (some l) b h (k, bg) = (All-append IsShown b.fields (leaf l ∷ []) k (h, tt), bg)

  block_image-Shows :
      (o : Option BlockLeaf) (b : BlockData)
      → IsShownOption o
      → Shows b
      → Shows (block_image media o b)
  unfolding block_image
  block_image-Shows none b h k = k
  block_image-Shows (some (words kind text)) b h k = k
  block_image-Shows (some (button text url)) b h k = k
  block_image-Shows (some contact) b h k = k
  block_image-Shows (some (image url alt)) b h (k, bg) =
      elim (Bool-cases (b.variant == "banner" && b.bg_image == "")) [
        | inl t ↦ rw t (k, inr (alt, h))
        | inr n ↦ rw n (add_field-Shows (some (image url alt)) b h (k, bg))
      ]

  block_items-Shows :
      (its : List BlockItem) (b : BlockData)
      → All IsShownItem its
      → Shows b
      → Shows (block_items media its b)
  unfolding block_items
  block_items-Shows [] b h k = k
  block_items-Shows (it ∷ its) b h (k, bg) =
      (All-append IsShown b.fields (items (it ∷ its) ∷ []) k ((refl, h), tt), bg)

  block_field-Shows :
      (f : FieldSpec) (input : Dict Json) (b : BlockData)
      → Shows b
      → Shows (block_field media f input b)
  unfolding block_field
  block_field-Shows f input b k =
      let v = lookup (key f) input in
      elim (Bool-cases (type f == "heading" || type f == "text" || type f == "textarea")) [
        | inl a ↦ rw a (
            add_field-Shows (words_leaf (type f) (as_text v)) b
              (words_leaf-IsShown (type f) (as_text v)) k)
        | inr a ↦ elim (Bool-cases (type f == "image")) [
          | inl c ↦
              rw (a, c)
                (block_image-Shows (image_leaf media (as_text v)) b (image_leaf-IsShown (as_text v))
                  k)
          | inr c ↦ elim (Bool-cases (type f == "button")) [
            | inl d ↦ rw (a, c, d) (add_field-Shows (button_leaf v) b (button_leaf-IsShown v) k)
            | inr d ↦ elim (Bool-cases (type f == "contact_info")) [
              | inl e ↦ rw (a, c, d, e) (add_field-Shows (some contact) b tt k)
              | inr e ↦ elim (Bool-cases (type f == "list")) [
                | inl l ↦
                    rw (a, c, d, e, l)
                      (block_items-Shows (build_items media (item_fields f) b.variant (as_arr v)) b
                        (build_items-IsShown (item_fields f) b.variant (as_arr v)) k)
                | inr l ↦ rw (a, c, d, e, l) k
              ]
            ]
          ]
        ]
      ]

  block_loop-Shows :
      (fs : FieldSpecs) (input : Dict Json) (b : BlockData)
      → Shows b
      → Shows (block_loop media fs input b)
  unfolding block_loop
  block_loop-Shows nil input b k = k
  block_loop-Shows (cons f fs) input b k =
      block_loop-Shows fs input _ (block_field-Shows f input b k)

  -- In a block that was built, whatever the schema and the content, every text and every button
  -- has its words and its link, every image and the background has a URL that the media lookup gave
  -- for some id, and every list has items, each with a summary or a field.
  pub build_block-IsShown :
      (schema : SnapshotSectionType) (content : Raw) (site : SiteData) (b : BlockData)
      → build_block media schema content site ≡ some b
      → All IsShown b.fields
        × (((b.bg_image == "") ≡ true) ⊎ ((alt : String) × IsPicture b.bg_image alt))
  unfolding build_block
  build_block-IsShown schema content site b h = elim (Option-cases (content_map content)) [
    | inl n ↦ absurd (ground (arith, h, n))
    | inr (input, e) ↦
        subst Shows (ap (λ o. coalesce o b) (rw e at h)) (
          block_loop-Shows schema.fields input (start_block media schema input site) (tt, inl refl))
  ]
