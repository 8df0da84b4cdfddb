-- ===== src/Auth.antt =====
-- internal/httpapi/handlers_auth.go and internal/auth/auth.go: the accounts and their sessions. The
-- state is the database, its table refresh_tokens and the cache that counts the login attempts.
pub mod Janitor
pub mod Calls
pub mod Rotation
pub mod Ended
pub mod Sound
pub mod Tests
use ai_website_builder.Common.{
  ℕ, ◌+◌, ◌*◌, String, Bool, true, false, not, ◌&&◌, ◌||◌, ◌==◌, ◌<>◌, Option, none, some, List, [],
  ◌∷◌, ◌++◌, find?, any, where_rows, update_rows, if◌then◌else◌, ltb, byte_len, is_none,
}
use ai_website_builder.Common.Sort.{sort_by}
use ai_website_builder.Cache.{MemCache}
use ai_website_builder.Cache.RateLimit.{rate_limit}
use ai_website_builder.Db.{Db, User, Tenant, TenantUser, record_audit}
use ai_website_builder.Http.Reply.{
  Response, AuthInfo, Step, refuse, internal_error, reply, signed_in, me, Membership, done,
}

pub record RefreshToken : Type 0 where
  pub id : String
  pub user_id : String
  pub token_hash : String
  pub expires_at : ℕ
  pub revoked_at : Option ℕ
  pub created_at : ℕ

pub record Accounts : Type 0 where
  pub db : Db
  pub refresh_tokens : List RefreshToken
  pub cache : MemCache

-- What NewAccessToken signs.
pub record AccessClaims : Type 0 where
  pub user_id : String
  pub is_platform_admin : Bool
  pub expires_at : ℕ
  pub issued_at : ℕ
  pub issuer : String

-- The libraries: SHA-256 in hexadecimal digits, bcrypt (with its random salt), the signature of a
-- token, and lower(...) and the order of texts of PostgreSQL. `none` is an error.
pub record Crypto : Type 0 where
  pub hash_token : String → String
  pub check_password : String → String → Bool
  pub hash_password : String → String → Option String
  pub sign : AccessClaims → Option String
  pub sql_lower : String → String
  pub sql_le : String → String → Bool

-- One request: its time, the id of the row that it inserts, the random bytes that it reads (in
-- hexadecimal digits; `none` is an error), the salt of its password, and the outcomes of its
-- database calls, as in Http.Reply.
pub record Call : Type 0 where
  pub now : ℕ
  pub new_id : String
  pub random : Option String
  pub salt : String
  pub fails : ℕ → Bool

-- 15 minutes and 30 days, in seconds.
abbrev pub access_token_ttl : ℕ
access_token_ttl = 15 * 60

abbrev pub refresh_token_ttl : ℕ
refresh_token_ttl = 30 * 24 * 3600

abbrev pub claims_of : ℕ → User → AccessClaims
claims_of now u = record {
  user_id = u.id;
  is_platform_admin = u.is_platform_admin;
  expires_at = now + access_token_ttl;
  issued_at = now;
  issuer = "cms";
}

-- The primary key and UNIQUE (token_hash).
abbrev pub token_taken : String → String → List RefreshToken → Bool
token_taken id hash ts = any (λ t. t.id == id || t.token_hash == hash) ts

abbrev pub new_token : Call → String → String → RefreshToken
new_token k user hash = record {
  id = k.new_id;
  user_id = user;
  token_hash = hash;
  expires_at = k.now + refresh_token_ttl;
  revoked_at = none;
  created_at = k.now;
}

-- The pair of tokens; `none` is an error.
unfoldable pub insert_token :
    Call → Bool → String → String → String → String → Accounts → Option (String × String) × Accounts
insert_token k failed user access token hash a =
    if failed || token_taken k.new_id hash a.refresh_tokens then (none, a) else (
      some (access, token),
      record a { refresh_tokens = a.refresh_tokens ++ new_token k user hash ∷ [] },
    )

abbrev pub audited : Call → Bool → String → String → Accounts → Accounts
audited k failed user action a = record a {
  db = record_audit failed k.now "" user action "user" user [] a.db;
}

unfoldable pub login_reply : Call → User → Option (String × String) × Accounts → Response × Accounts
login_reply k u (none, a) = internal_error a
login_reply k u (some (access, token), a) =
    reply 200 (signed_in access token u) (audited k (k.fails 2) u.id "user.login" a)

-- WHERE rt.token_hash = $1 AND rt.expires_at > now() AND rt.revoked_at IS NULL
abbrev pub accepts : ℕ → String → RefreshToken → Bool
accepts now hash t = t.token_hash == hash && ltb now t.expires_at && is_none t.revoked_at

-- JOIN users u ON u.id = rt.user_id
unfoldable pub owner : Db → Option RefreshToken → Option (RefreshToken × User)
owner db none = none
owner db (some t) = owned t (find? (λ u. u.id == t.user_id) db.users)
  where
    owned : RefreshToken → Option User → Option (RefreshToken × User)
    owned t none = none
    owned t (some u) = some (t, u)

abbrev pub revoke : ℕ → RefreshToken → RefreshToken
revoke now t = record t { revoked_at = some now }

abbrev pub revoke_where : ℕ → (RefreshToken → Bool) → Accounts → Accounts
revoke_where now p a = record a { refresh_tokens = update_rows p (revoke now) a.refresh_tokens }

unfoldable pub refresh_reply : User → Option (String × String) × Accounts → Response × Accounts
refresh_reply u (none, a) = internal_error a
refresh_reply u (some (access, token), a) = reply 200 (signed_in access token u) a

module _ (c : Crypto) where
  unfoldable pub with_random :
      Call → Bool → String → String → Option String → Accounts → Option (String × String) × Accounts
  unfolding insert_token
  with_random k failed user access none a = (none, a)
  with_random k failed user access (some token) a =
      insert_token k failed user access token (c.hash_token token) a

  unfoldable pub with_access :
      Call → Bool → String → Option String → Accounts → Option (String × String) × Accounts
  unfolding with_random
  with_access k failed user none a = (none, a)
  with_access k failed user (some access) a = with_random k failed user access k.random a

  unfoldable pub issue_tokens : Call → Bool → User → Accounts → Option (String × String) × Accounts
  unfolding with_access
  issue_tokens k failed u a = with_access k failed u.id (c.sign (claims_of k.now u)) a

  unfoldable pub login_user : Call → String → Option User → Step Accounts
  unfolding login_reply issue_tokens
  login_user k password none a = refuse 401 "invalid email or password" a
  login_user k password (some u) a =
      if not (c.check_password u.password_hash password)
      then refuse 401 "invalid email or password" a
      else if not (u.status == "active")
      then refuse 403 "account is disabled" a
      else login_reply k u (issue_tokens k (k.fails 1) u a)

  -- SELECT ... FROM users WHERE lower(email) = lower($1)
  abbrev pub user_by_email : String → Db → Option User
  user_by_email email db = find? (λ u. c.sql_lower u.email == c.sql_lower email) db.users

  -- handleLogin past its rate limit; the body is the email and the password.
  unfoldable pub login : Call → Option (String × String) → Step Accounts
  unfolding login_user
  login k none a = refuse 400 "invalid request body" a
  login k (some (email, password)) a =
      if k.fails 0 then internal_error a else login_user k password (user_by_email email a.db) a

  unfoldable pub handle_login : Call → String → Option (String × String) → Step Accounts
  unfolding login
  handle_login k ip body a =
      let (ok, cache) = rate_limit k.now ("login:" <> ip) 10 60 a.cache in
      let counted : Accounts = record a { cache = cache } in
      if not ok
      then refuse 429 "too many login attempts, try again later" counted
      else login k body counted

  unfoldable pub rotate : Call → Option (RefreshToken × User) → Step Accounts
  unfolding issue_tokens refresh_reply
  rotate k none a = refuse 401 "invalid refresh token" a
  rotate k (some (t, u)) a =
      if not (u.status == "active")
      then refuse 403 "account is disabled" a
      else if k.fails 1
      then internal_error a
      else refresh_reply u (issue_tokens k (k.fails 2) u (revoke_where k.now (λ s. s.id == t.id) a))

  -- A body that does not decode, and one without the token, are refused alike.
  unfoldable pub handle_refresh : Call → Option String → Step Accounts
  unfolding rotate owner
  handle_refresh k none a = refuse 400 "refresh_token required" a
  handle_refresh k (some token) a =
      if token == ""
      then refuse 400 "refresh_token required" a
      else if k.fails 0
      then internal_error a
      else rotate k (owner a.db (find? (accepts k.now (c.hash_token token)) a.refresh_tokens)) a

  unfoldable pub handle_logout : Call → Option String → Step Accounts
  handle_logout k none a = refuse 400 "refresh_token required" a
  handle_logout k (some token) a =
      if token == ""
      then refuse 400 "refresh_token required" a
      else if k.fails 0
      then internal_error a
      else reply 200 done
          (revoke_where k.now (λ t. t.token_hash == c.hash_token token && is_none t.revoked_at) a)

  abbrev pub with_password : ℕ → String → User → User
  with_password now hash u = record u { password_hash = hash; updated_at = now }

  -- The two updates: a failure of the second is ignored.
  unfoldable pub save_password : Call → String → Option String → Step Accounts
  save_password k user none a = internal_error a
  save_password k user (some hash) a =
      if k.fails 1
      then internal_error a
      else (let saved : Accounts = record a {
        db = record a.db {
          users = update_rows (λ u. u.id == user) (with_password k.now hash) a.db.users;
        };
      } in
          reply 200 done (
            audited k (k.fails 3) user "user.password_changed" (
              if k.fails 2
              then saved
              else revoke_where k.now (λ t. t.user_id == user && is_none t.revoked_at) saved)))

  unfoldable pub check_current : Call → String → String → String → Option User → Step Accounts
  unfolding save_password
  check_current k user current new none a = refuse 404 "not found" a
  check_current k user current new (some u) a =
      if not (c.check_password u.password_hash current)
      then refuse 403 "current password is incorrect" a
      else save_password k user (c.hash_password k.salt new) a

  -- The body is the current password and the new one.
  unfoldable pub handle_change_password : Call → AuthInfo → Option (String × String) → Step Accounts
  unfolding check_current
  handle_change_password k ai none a = refuse 400 "invalid request body" a
  handle_change_password k ai (some (current, new)) a =
      if ltb (byte_len new) 8
      then refuse 400 "new password must be at least 8 characters" a
      else if k.fails 0
      then internal_error a
      else check_current k ai.user_id current new (find? (λ u. u.id == ai.user_id) a.db.users) a

-- JOIN tenants t ON t.id = tu.tenant_id WHERE t.status = 'active'
unfoldable pub active_membership : List Tenant → TenantUser → List Membership
active_membership [] m = []
active_membership (t ∷ ts) m =
    if t.id == m.tenant_id && t.status == "active"
    then record { tenant_id = t.id; tenant_name = t.name; role = m.role } ∷ active_membership ts m
    else active_membership ts m

unfoldable pub memberships : Db → String → List TenantUser → List Membership
unfolding active_membership
memberships db user [] = []
memberships db user (m ∷ ms) =
    (if m.user_id == user then active_membership db.tenants m else []) ++ memberships db user ms

unfoldable pub me_reply : Crypto → Call → String → Option User → Step Accounts
unfolding memberships
me_reply c k user none a = refuse 404 "not found" a
me_reply c k user (some u) a =
    if k.fails 1
    then internal_error a
    else reply 200
        (me u (
          sort_by (λ m n. c.sql_le m.tenant_name n.tenant_name)
            (memberships a.db user a.db.tenant_users)))
        a

unfoldable pub handle_me : Crypto → Call → AuthInfo → Step Accounts
unfolding me_reply
handle_me c k ai a =
    if k.fails 0
    then internal_error a
    else me_reply c k ai.user_id (find? (λ u. u.id == ai.user_id) a.db.users) a
