-- ===== src/Publish/Github.antt =====
-- internal/publish/github.go: EnsureRepo and sanitize. The API is a function from a request and
-- GitHub's state to the answer and the state after it.
use ai_website_builder.Common.{
  ℕ, ◌-◌, String, not, ◌<>◌, Option, none, some, byte_len, leb, nat_eq, if◌then◌else◌,
}

pub data ApiCall : Type 0 where
  get_repo : String → String → ApiCall
  post_org : String → String → ApiCall
  post_user : String → ApiCall

-- An error of the connection, or the status code.
pub data Answer : Type 0 where
  unreachable : Answer
  status : ℕ → Answer

pub data EnsureError : Type 0 where
  check_repo create_repo : EnsureError
  unexpected_status create_status : ℕ → EnsureError

module _ {G : Type 0} (api : ApiCall → G → Answer × G) where
  as_user : Answer × G → Option EnsureError × G
  as_user (unreachable, g) = (some create_repo, g)
  as_user (status n, g) = if nat_eq n 201 then (none, g) else (some (create_status n), g)

  as_org : String → Answer × G → Option EnsureError × G
  unfolding as_user
  as_org name (unreachable, g) = (some create_repo, g)
  as_org name (status n, g) = if nat_eq n 201 then (none, g) else as_user (api (post_user name) g)

  checked : String → String → Answer × G → Option EnsureError × G
  unfolding as_org
  checked owner name (unreachable, g) = (some check_repo, g)
  checked owner name (status n, g) =
      if nat_eq n 200
      then (none, g)
      else if not (nat_eq n 404)
      then (some (unexpected_status n), g)
      else as_org name (api (post_org owner name) g)

  unfoldable pub ensure_repo : String → String → G → Option EnsureError × G
  unfolding checked
  ensure_repo owner name g = checked owner name (api (get_repo owner name) g)

-- s[:n], without a character that the cut splits.
take_bytes : ℕ → String → String
take_bytes n String.[] = String.[]
take_bytes n (String.◌∷◌ c s) =
    let size = byte_len (String.◌∷◌ c String.[]) in
    let rest = take_bytes (n - size) s in if leb size n then String.◌∷◌ c rest else String.[]

unfoldable pub sanitize : String → String
unfolding take_bytes
sanitize s = if leb (byte_len s) 500 then s else take_bytes 500 s <> "…"
