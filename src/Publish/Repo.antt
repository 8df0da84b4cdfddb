-- ===== src/Publish/Repo.antt =====
-- internal/publish/publisher.go: repoName.
use Prim.Native.Char.{Char, code}
use ai_website_builder.Common.{
  ℕ, suc, zero, ◌-◌, String, Bool, true, false, ◌&&◌, ◌||◌, ◌==◌, ◌<>◌, leb, nat_eq, if◌then◌else◌,
  is_lower, is_digit,
}
use ai_website_builder.Common.Strings.{trim_dashes, remove_char, nth_char}

-- strings.ToLower, as far as it yields a letter from a to z: the capitals, and the two letters beyond
-- ASCII whose small letter is in ASCII.
lower : Char → Char
lower c =
    if leb b'A' (code c) && leb (code c) b'Z'
    then nth_char "abcdefghijklmnopqrstuvwxyz" (code c - b'A') c
    else if nat_eq (code c) 0x130
    then "i"
    else if nat_eq (code c) 0x212a
    then "k"
    else c

-- nonSlug.ReplaceAllString(strings.ToLower(s), "-")
dashed : Bool → String → String
unfolding lower
dashed in_gap String.[] = String.[]
dashed in_gap (String.◌∷◌ c s) =
    let word = dashed false s in
    let gap = dashed true s in
    if is_lower (code (lower c)) || is_digit (code (lower c))
    then String.◌∷◌ (lower c) word
    else if in_gap
    then gap
    else String.◌∷◌ "-" gap

-- s[:n] of a text in ASCII that may be shorter
pub take_chars : ℕ → String → String
take_chars zero s = String.[]
take_chars (suc n) String.[] = String.[]
take_chars (suc n) (String.◌∷◌ c s) = String.◌∷◌ c (take_chars n s)

repo_slug : String → String
unfolding dashed
repo_slug name = let slug = trim_dashes (dashed false name) in if slug == "" then "site" else slug

unfoldable pub repo_name : String → String → String
unfolding repo_slug take_chars
repo_name name id =
    "cms-site-" <> take_chars 40 (repo_slug name) <> "-" <> take_chars 8 (remove_char "-" id)
