-- ===== src/Site/Paths.antt =====
-- Pages with valid slugs have paths of their own (internal/generator/generator.go, `pagePath`).
use Prim.Native.String.{count}
use text.Mathlib.TextLemmas.{length-append, length-nil, length-cons, append_cancel_right}
use ai_website_builder.Common.{
  ◌≤◌, ◌<◌, String, true, false, ◌==◌, ◌<>◌, ◌≡◌, refl, sym, ◌∙◌, ap, arith, eq_iff, Bool-cases,
  inl, inr,
}
use ai_website_builder.Http.Text.{valid_slug, slug_matches}
use ai_website_builder.Site.Links.{page_path}

pub valid_slug-filled : (s : String) → valid_slug s ≡ true → (s == "") ≡ false
unfolding valid_slug slug_matches
valid_slug-filled String.[] h = cc
valid_slug-filled (String.◌∷◌ c s) h = elim (Bool-cases (String.◌∷◌ c s == "")) [
  | inr n ↦ n
  | inl same ↦
      let e = ap count ((eq_iff (String.◌∷◌ c s) "").0 same) in
      absurd (omega (arith, e, length-cons c s, length-nil))
]

count-filled : (s : String) → (s == "") ≡ false → 0 < count s
count-filled String.[] h = cc
count-filled (String.◌∷◌ c s) h = rw (length-cons c s) (omega arith)

-- A path below a slug is longer than every file at the top.
long_path : (s : String) → (s == "") ≡ false → 11 < count (s <> "/index.html")
long_path s h =
    let tail : count "/index.html" ≡ 11 = refl in
    let filled = count-filled s h in rw (length-append s "/index.html", tail) (omega arith)

-- No page is written over a file of another kind.
pub path-top :
    (s top : String)
    → valid_slug s ≡ true
    → count top ≤ 11
    → (top == "index.html") ≡ false
    → (top == page_path s) ≡ false
unfolding page_path
path-top s top v short other = elim (Bool-cases (s == "home")) [
  | inl home ↦ ground (arith, home, other, valid_slug-filled s v)
  | inr n ↦ elim (Bool-cases (top == (s <> "/index.html"))) [
    | inr ne ↦ ground (arith, n, ne, valid_slug-filled s v)
    | inl same ↦
        let e = (eq_iff top (s <> "/index.html")).0 same in
        let long = long_path s (valid_slug-filled s v) in
        absurd (omega (arith, long, short, ap count e))
  ]
]

home_path : (s : String) → (s == "home") ≡ true → page_path s ≡ "index.html"
unfolding page_path
home_path s h = ground (arith, h)

slug_path :
    (s : String) → valid_slug s ≡ true → (s == "home") ≡ false → page_path s ≡ s <> "/index.html"
unfolding page_path
slug_path s v h = ground (arith, h, valid_slug-filled s v)

apart_from_home : (t : String) → valid_slug t ≡ true → "index.html" ≡ t <> "/index.html" → ⊥
apart_from_home t v e =
    let long = long_path t (valid_slug-filled t v) in
    let top : count "index.html" ≡ 10 = refl in omega (arith, long, top, ap count e)

-- Two slugs with one path are one slug.
pub page_path-inj :
    (s t : String) → valid_slug s ≡ true → valid_slug t ≡ true → page_path s ≡ page_path t → s ≡ t
page_path-inj s t v w e = elim (Bool-cases (s == "home")) [
  | inl h ↦ elim (Bool-cases (t == "home")) [
    | inl k ↦ (eq_iff s "home").0 h ∙ sym ((eq_iff t "home").0 k)
    | inr k ↦ absurd (apart_from_home t w (sym (home_path s h) ∙ e ∙ slug_path t w k))
  ]
  | inr h ↦ elim (Bool-cases (t == "home")) [
    | inl k ↦ absurd (apart_from_home s v (sym (home_path t k) ∙ sym e ∙ slug_path s v h))
    | inr k ↦ append_cancel_right s t "/index.html" (sym (slug_path s v h) ∙ e ∙ slug_path t w k)
  ]
]
