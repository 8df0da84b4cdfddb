-- ===== src/Site/Links.antt =====
-- internal/generator/generator.go: the paths and links of pages. filepath.Join leaves a text
-- without dots and slashes, such as a valid slug, as it is.
use ai_website_builder.Common.{String, ◌==◌, ◌<>◌, ◌||◌, List, [], ◌∷◌, if◌then◌else◌}

unfoldable pub page_href : String → String
page_href slug = if slug == "" || slug == "home" then "/" else "/" <> slug <> "/"

unfoldable pub page_path : String → String
page_path slug = if slug == "" || slug == "home" then "index.html" else slug <> "/index.html"

unfoldable pub canonical_url : String → String → String
unfolding page_href
canonical_url domain slug = if domain == "" then "" else "https://" <> domain <> page_href slug

abbrev pub first_non_empty : List String → String
first_non_empty [] = ""
first_non_empty (v ∷ vals) = if v == "" then first_non_empty vals else v
