-- ===== src/Uploads/Names.antt =====
-- The types of content that an upload may have, and names of files: allowedUploads and the choice
-- of the type in internal/httpapi/handlers_media.go, with the functions of path/filepath and
-- strings that it calls.
use Prim.Native.Char.{code}
use ai_website_builder.Common.{
  ℕ, String, Bool, false, ◌&&◌, ◌||◌, ◌==◌, Option, is_some, nat_eq, if◌then◌else◌, [], ◌∷◌,
}
use ai_website_builder.Common.Dict.{Dict, lookup}
use ai_website_builder.Common.Strings.{cut_prefix, cut_at, trim_right_slash}

-- strings.HasPrefix
abbrev pub has_prefix : String → String → Bool
has_prefix s prefix = is_some (cut_prefix s prefix)

-- filepath.Ext: from the last dot of the last element; `found` is the text from the last dot so far.
pub ext_after : String → String → String
ext_after found String.[] = found
ext_after found (String.◌∷◌ c s) =
    let from_dot = ext_after (String.◌∷◌ c s) s in
    let from_slash = ext_after String.[] s in
    let going_on = ext_after found s in
    if nat_eq (code c) b'.' then from_dot else if nat_eq (code c) b'/' then from_slash else going_on

unfoldable pub path_ext : String → String
unfolding ext_after
path_ext s = ext_after String.[] s

pub after_slash : String → String → String
after_slash last String.[] = last
after_slash last (String.◌∷◌ c s) =
    let from_here = after_slash s s in
    let going_on = after_slash last s in if nat_eq (code c) b'/' then from_here else going_on

-- filepath.Base
unfoldable pub path_base : String → String
unfolding after_slash
path_base s =
    let path = trim_right_slash s in
    let last = after_slash path path in if s == "" then "." else if last == "" then "/" else last

-- The characters that fold to a letter of ".svg": both cases, and the long s of Unicode.
abbrev pub folds_to : ℕ → ℕ → ℕ → Bool
folds_to lower upper c = nat_eq c lower || nat_eq c upper

-- strings.EqualFold(s, ".svg")
unfoldable pub is_svg_ext : String → Bool
is_svg_ext (String.◌∷◌ a (String.◌∷◌ b (String.◌∷◌ c (String.◌∷◌ d String.[])))) =
    nat_eq (code a) b'.'
    && (folds_to b's' b'S' (code b) || nat_eq (code b) 0x17f)
    && folds_to b'v' b'V' (code c)
    && folds_to b'g' b'G' (code d)
is_svg_ext _ = false

abbrev pub allowed_uploads : Dict String
allowed_uploads =
    ("image/jpeg", ".jpg")
    ∷ ("image/png", ".png")
    ∷ ("image/gif", ".gif")
    ∷ ("image/webp", ".webp")
    ∷ ("image/svg+xml", ".svg")
    ∷ ("application/pdf", ".pdf")
    ∷ []

-- The sniffed type, or that of an SVG by its name, without its parameters.
unfoldable pub upload_type : String → String → String
unfolding path_ext is_svg_ext
upload_type sniffed file_name =
    let text = has_prefix sniffed "text/xml" || has_prefix sniffed "text/plain" in
    (cut_at ";" (if text && is_svg_ext (path_ext file_name) then "image/svg+xml" else sniffed)).0

unfoldable pub extension : String → Option String
extension content_type = lookup content_type allowed_uploads
