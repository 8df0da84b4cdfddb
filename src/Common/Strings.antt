-- ===== src/Common/Strings.antt =====
-- Go's strings.TrimSpace, strings.CutPrefix, strings.ReplaceAll of one character, strings.TrimRight,
-- strings.Contains.
use Prim.Native.Char.{Char, code}
use ai_website_builder.Common.{
  ℕ, zero, suc, String, Bool, ◌&&◌, ◌||◌, not, Option, none, some, leb, nat_eq, if◌then◌else◌,
  non_empty, is_some,
}

-- unicode.IsSpace
abbrev pub is_space : ℕ → Bool
is_space c =
    (leb 0x9 c && leb c 0xd)
    || nat_eq c 0x20
    || nat_eq c 0x85
    || nat_eq c 0xa0
    || nat_eq c 0x1680
    || (leb 0x2000 c && leb c 0x200a)
    || nat_eq c 0x2028
    || nat_eq c 0x2029
    || nat_eq c 0x202f
    || nat_eq c 0x205f
    || nat_eq c 0x3000

unfoldable pub trim_left : (ℕ → Bool) → String → String
trim_left cut String.[] = String.[]
trim_left cut (String.◌∷◌ c s) =
    let rest = trim_left cut s in if cut (code c) then rest else String.◌∷◌ c s

unfoldable pub trim_right : (ℕ → Bool) → String → String
trim_right cut String.[] = String.[]
trim_right cut (String.◌∷◌ c s) =
    let rest = trim_right cut s in
    if cut (code c) && not (non_empty rest) then String.[] else String.◌∷◌ c rest

unfoldable pub trim_space : String → String
unfolding trim_left trim_right
trim_space s = trim_right is_space (trim_left is_space s)

-- strings.TrimRight(s, "/")
unfoldable pub trim_right_slash : String → String
unfolding trim_right
trim_right_slash s = trim_right (λ c. nat_eq c b'/') s

-- strings.CutPrefix(s, prefix)
unfoldable pub cut_prefix : String → String → Option String
cut_prefix s String.[] = some s
cut_prefix String.[] (String.◌∷◌ p ps) = none
cut_prefix (String.◌∷◌ c s) (String.◌∷◌ p ps) =
    let rest = cut_prefix s ps in if nat_eq (code c) (code p) then rest else none

-- strings.Contains(s, part)
unfoldable pub contains_text : String → String → Bool
unfolding cut_prefix
contains_text String.[] part = is_some (cut_prefix String.[] part)
contains_text (String.◌∷◌ c s) part =
    is_some (cut_prefix (String.◌∷◌ c s) part) || contains_text s part

-- strings.ReplaceAll(s, old, new), for one character each.
unfoldable pub replace_char : Char → Char → String → String
replace_char old new String.[] = String.[]
replace_char old new (String.◌∷◌ c s) =
    String.◌∷◌ (if nat_eq (code c) (code old) then new else c) (replace_char old new s)

-- strings.Trim(s, "-")
unfoldable pub trim_dashes : String → String
unfolding trim_left trim_right
trim_dashes s = trim_right (λ c. nat_eq c b'-') (trim_left (λ c. nat_eq c b'-') s)

-- strings.Trim(s, `"'`)
unfoldable pub trim_quotes : String → String
unfolding trim_left trim_right
trim_quotes s =
    let quote : ℕ → Bool = λ c. nat_eq c 0x22 || nat_eq c 0x27 in
    trim_right quote (trim_left quote s)

-- strings.ReplaceAll(s, old, ""), for one character.
unfoldable pub remove_char : Char → String → String
remove_char old String.[] = String.[]
remove_char old (String.◌∷◌ c s) =
    let rest = remove_char old s in if nat_eq (code c) (code old) then rest else String.◌∷◌ c rest

-- s[n], or the default where there is none.
abbrev pub nth_char : String → ℕ → Char → Char
nth_char String.[] n default = default
nth_char (String.◌∷◌ c s) zero default = c
nth_char (String.◌∷◌ c s) (suc n) default = nth_char s n default

-- before, after, _ := strings.Cut(s, sep), for one character.
unfoldable pub cut_at : Char → String → String × String
cut_at sep String.[] = (String.[], String.[])
cut_at sep (String.◌∷◌ c s) =
    let (before, after) = cut_at sep s in
    if nat_eq (code c) (code sep) then (String.[], s) else (String.◌∷◌ c before, after)
