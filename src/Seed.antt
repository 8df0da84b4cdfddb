-- ===== src/Seed.antt =====
-- internal/models/sectiontypes.go, StarterSectionTypes, and internal/db/seed.go.
pub mod Sound
pub mod Tests
use ai_website_builder.Common.{
  ℕ, suc, ◌+◌, String, Bool, true, false, not, ◌&&◌, ◌||◌, ◌==◌, Option, none, some, List, [], ◌∷◌,
  ◌++◌, any, where_rows, map, if◌then◌else◌,
}
use ai_website_builder.Models.Schema.{FieldSpec, FieldSpecs, spec, nil, cons, LayoutHints}
use ai_website_builder.Db.{Db, SectionType, Tenant}
use ai_website_builder.Http.SectionTypes.{key_taken, type_id_taken}

-- An entry of the library; the database fills in the rest.
abbrev starter : String → String → String → LayoutHints → FieldSpecs → SectionType
starter type_key label icon layout fields = record {
  id = "";
  tenant_id = "";
  type_key = type_key;
  label = label;
  icon = icon;
  fields = fields;
  layout = layout;
  status = "";
  created_at = 0;
  updated_at = 0;
}

abbrev hero : SectionType
hero =
    starter "hero" "Hero" "🌄" (record { variant = "banner"; background = ""; align = "center" })
      (cons (spec "title" "Title" "heading" [] nil) (
        cons (spec "subtitle" "Subtitle" "textarea" [] nil) (
          cons (spec "button" "Button" "button" [] nil) (
            cons (spec "background_image" "Background image" "image" [] nil) (
              cons (spec "alignment" "Alignment" "select" ("left" ∷ "center" ∷ "right" ∷ []) nil)
                nil)))))

abbrev text : SectionType
text =
    starter "text" "Text" "📝" (record { variant = "default"; background = ""; align = "" })
      (cons (spec "heading" "Heading" "heading" [] nil)
        (cons (spec "body" "Body" "textarea" [] nil) nil))

abbrev image : SectionType
image =
    starter "image" "Image" "🖼\u{fe0f}"
      (record { variant = "default"; background = ""; align = "center" })
      (cons (spec "image" "Image" "image" [] nil)
        (cons (spec "caption" "Caption" "text" [] nil) nil))

abbrev services : SectionType
services =
    starter "services" "Services list" "🛠\u{fe0f}"
      (record { variant = "cards"; background = ""; align = "" })
      (cons (spec "heading" "Heading" "heading" [] nil) (
        cons
          (spec "items" "Services" "list" [] (
            cons (spec "image" "Image" "image" [] nil) (
              cons (spec "title" "Title" "text" [] nil)
                (cons (spec "description" "Description" "textarea" [] nil) nil))))
          nil))

abbrev gallery : SectionType
gallery =
    starter "gallery" "Gallery" "🎞\u{fe0f}"
      (record { variant = "gallery"; background = ""; align = "" })
      (cons (spec "heading" "Heading" "heading" [] nil) (
        cons
          (spec "items" "Images" "list" [] (
            cons (spec "image" "Image" "image" [] nil)
              (cons (spec "caption" "Caption" "text" [] nil) nil)))
          nil))

abbrev testimonials : SectionType
testimonials =
    starter "testimonials" "Testimonials" "💬"
      (record { variant = "cards"; background = ""; align = "" })
      (cons (spec "heading" "Heading" "heading" [] nil) (
        cons
          (spec "items" "Testimonials" "list" [] (
            cons (spec "quote" "Quote" "textarea" [] nil) (
              cons (spec "author" "Author" "text" [] nil)
                (cons (spec "role" "Role" "text" [] nil) nil))))
          nil))

abbrev contact : SectionType
contact =
    starter "contact" "Contact information" "📞"
      (record { variant = "default"; background = ""; align = "" })
      (cons (spec "heading" "Heading" "heading" [] nil) (
        cons (spec "text" "Intro text" "textarea" [] nil)
          (cons (spec "details" "Contact details" "contact_info" [] nil) nil)))

abbrev cta : SectionType
cta =
    starter "cta" "Call to action" "📣"
      (record { variant = "cta"; background = ""; align = "center" })
      (cons (spec "title" "Title" "heading" [] nil) (
        cons (spec "subtitle" "Subtitle" "textarea" [] nil)
          (cons (spec "button" "Button" "button" [] nil) nil)))

abbrev faq : SectionType
faq =
    starter "faq" "FAQ" "❓" (record { variant = "accordion"; background = ""; align = "" })
      (cons (spec "heading" "Heading" "heading" [] nil) (
        cons
          (spec "items" "Questions" "list" [] (
            cons (spec "question" "Question" "text" [] nil)
              (cons (spec "answer" "Answer" "textarea" [] nil) nil)))
          nil))

abbrev pub starter_section_types : List SectionType
starter_section_types =
    hero ∷ text ∷ image ∷ services ∷ gallery ∷ testimonials ∷ contact ∷ cta ∷ faq ∷ []

abbrev pub seeded : ℕ → String → String → SectionType → SectionType
seeded now id tenant st = record st {
  id = id;
  tenant_id = tenant;
  status = "active";
  created_at = now;
  updated_at = now;
}

-- The n-th INSERT, with the id that the database generates for it; false is an error.
unfoldable pub insert_type : Bool → ℕ → String → String → SectionType → Db → Bool × Db
insert_type fails now id tenant st db =
    if fails
    then (false, db)
    else if key_taken tenant st.type_key db.section_types
    then (true, db)
    else if type_id_taken id db.section_types
    then (false, db)
    else (true, record db { section_types = db.section_types ++ seeded now id tenant st ∷ [] })

unfoldable pub seed_types :
    (ℕ → Bool) → (ℕ → String) → ℕ → ℕ → String → List SectionType → Db → Bool × Db
seed_types fails ids now n tenant [] db = (true, db)
seed_types fails ids now n tenant (st ∷ sts) db =
    let (ok, db1) = insert_type (fails n) now (ids n) tenant st db in
    let rest = seed_types fails ids now (suc n) tenant sts db1 in if ok then rest else (false, db1)

unfoldable pub seed_section_types : (ℕ → Bool) → (ℕ → String) → ℕ → ℕ → String → Db → Bool × Db
unfolding seed_types
seed_section_types fails ids now n tenant db =
    seed_types fails ids now n tenant starter_section_types db

-- The tenants without a block type.
abbrev pub unseeded : Db → List Tenant
unseeded db = where_rows (λ t. not (any (λ st. st.tenant_id == t.id) db.section_types)) db.tenants

-- The calls of one tenant are numbered on from those of the one before.
unfoldable pub seed_tenants : (ℕ → Bool) → (ℕ → String) → ℕ → ℕ → List Tenant → Db → Bool × Db
seed_tenants fails ids now n [] db = (true, db)
seed_tenants fails ids now n (t ∷ ts) db =
    let (ok, db1) = seed_section_types fails ids now n t.id db in
    let rest = seed_tenants fails ids now (n + 9) ts db1 in if ok then rest else (false, db1)

unfoldable pub backfill_section_types : (ℕ → Bool) → (ℕ → String) → ℕ → Db → Bool × Db
unfolding seed_tenants
backfill_section_types fails ids now db =
    if fails 0 then (false, db) else seed_tenants fails ids now 1 (unseeded db) db
