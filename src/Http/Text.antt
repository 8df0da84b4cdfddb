-- ===== src/Http/Text.antt =====
-- internal/httpapi/helpers.go: the patterns that request values are held to.
use Prim.Native.Char.{code}
use ai_website_builder.Common.{
  ℕ, String, Bool, true, false, not, ◌&&◌, ◌||◌, leb, nat_eq, is_lower, is_digit, byte_len,
  if◌then◌else◌, ◌==◌, Option, none, some,
}
use ai_website_builder.Common.Strings.{trim_space, cut_at}

abbrev pub is_alnum : ℕ → Bool
is_alnum c = is_lower c || is_digit c

-- (?:-[a-z0-9]+)*$ after a character; `prev` says whether that was a letter or a digit.
pub slug_rest : Bool → String → Bool
slug_rest prev String.[] = prev
slug_rest prev (String.◌∷◌ c s) =
    (is_alnum (code c) || (nat_eq (code c) b'-' && prev)) && slug_rest (is_alnum (code c)) s

-- slugRe: ^[a-z0-9]+(?:-[a-z0-9]+)*$
unfoldable pub slug_matches : String → Bool
unfolding slug_rest
slug_matches s = slug_rest false s

unfoldable pub valid_slug : String → Bool
unfolding slug_matches
valid_slug s = leb (byte_len s) 80 && slug_matches s

-- \s
abbrev pub is_blank_char : ℕ → Bool
is_blank_char c = nat_eq c 0x20 || nat_eq c 0x09 || nat_eq c 0x0a || nat_eq c 0x0c || nat_eq c 0x0d

-- [^@\s]
abbrev pub is_mail_char : ℕ → Bool
is_mail_char c = not (nat_eq c b'@' || is_blank_char c)

-- [^@\s]+\.[^@\s]+$ from one of its states: before the first character, before a dot, right after
-- that dot, and after a character behind it.
pub data MailState : Type 0 where
  at_start before_dot after_dot complete : MailState

abbrev pub mail_next : MailState → ℕ → MailState
mail_next at_start c = before_dot
mail_next before_dot c = if nat_eq c b'.' then after_dot else before_dot
mail_next after_dot c = complete
mail_next complete c = complete

abbrev pub mail_ends : MailState → Bool
mail_ends at_start = false
mail_ends before_dot = false
mail_ends after_dot = false
mail_ends complete = true

pub mail_domain : MailState → String → Bool
mail_domain m String.[] = mail_ends m
mail_domain m (String.◌∷◌ c s) =
    let rest = mail_domain (mail_next m (code c)) s in is_mail_char (code c) && rest

-- [^@\s]+@ and the rest; the flag says whether a character came before.
pub mail_local : Bool → String → Bool
unfolding mail_domain
mail_local some_before String.[] = false
mail_local some_before (String.◌∷◌ c s) =
    let rest = mail_local true s in
    if nat_eq (code c) b'@'
    then some_before && mail_domain at_start s
    else is_mail_char (code c) && rest

-- emailRe: ^[^@\s]+@[^@\s]+\.[^@\s]+$
unfoldable pub email_matches : String → Bool
unfolding mail_local
email_matches s = mail_local false s

unfoldable pub valid_email : String → Bool
unfolding email_matches
valid_email s = leb (byte_len s) 254 && email_matches s

-- net.SplitHostPort yields the host, or none.
abbrev host_of : String → Option String → String
host_of remote none = remote
host_of remote (some host) = host

-- clientIP, of X-Forwarded-For and the address of the connection.
unfoldable pub client_ip : (String → Option String) → String → String → String
unfolding trim_space cut_at
client_ip split forwarded remote =
    if not (forwarded == "")
    then trim_space (cut_at "," forwarded).0
    else host_of remote (split remote)
