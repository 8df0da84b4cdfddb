-- ===== src/Auth/Janitor.antt =====
-- cmd/server/main.go: the janitor's pass over refresh_tokens, and the first account.
use ai_website_builder.Common.{
  ℕ, ◌+◌, ◌*◌, String, Bool, true, false, not, ◌||◌, ◌==◌, Option, none, some, List, [], ◌∷◌, ◌++◌,
  any, where_rows, if◌then◌else◌, ltb, ◌≤◌, ◌≡◌, refl, find?, Bool-cases, Option-cases, inl, inr,
  arith,
}
use ai_website_builder.Db.{Db, User}
use ai_website_builder.Auth.{RefreshToken, Accounts, Crypto, Call, accepts}

-- 7 days, in seconds.
abbrev pub kept_revoked : ℕ
kept_revoked = 7 * 24 * 3600

-- revoked_at < now() - interval '7 days', which NULL does not satisfy.
abbrev pub revoked_before : ℕ → Option ℕ → Bool
revoked_before now none = false
revoked_before now (some t) = ltb (t + kept_revoked) now

abbrev pub dead : ℕ → RefreshToken → Bool
dead now t = ltb t.expires_at now || revoked_before now t.revoked_at

-- `janitor`: DELETE FROM refresh_tokens; a failure is logged.
unfoldable pub clean_tokens : ℕ → List RefreshToken → List RefreshToken
clean_tokens now ts = where_rows (λ t. not (dead now t)) ts

unfoldable pub janitor : Call → Accounts → Accounts
unfolding clean_tokens
janitor k a =
    if k.fails 0 then a else record a { refresh_tokens = clean_tokens k.now a.refresh_tokens }

abbrev pub platform_admin : Call → String → String → User
platform_admin k email hash = record {
  id = k.new_id;
  name = "Platform Admin";
  email = email;
  password_hash = hash;
  is_platform_admin = true;
  status = "active";
  created_at = k.now;
  updated_at = k.now;
}

-- The flag is false on an error, which ends the program.
unfoldable pub insert_admin : Call → String → Option String → Db → Bool × Db
insert_admin k email none db = (false, db)
insert_admin k email (some hash) db =
    if k.fails 1 || any (λ u. u.id == k.new_id || u.email == email) db.users
    then (false, db)
    else (true, record db { users = db.users ++ platform_admin k email hash ∷ [] })

unfoldable pub admin_password : Crypto → Call → String → Option String → Db → Bool × Db
unfolding insert_admin
admin_password c k email none db = (false, db)
admin_password c k email (some password) db =
    insert_admin k email (c.hash_password k.salt password) db

-- RandomPassword gives the password where the configuration has none.
unfoldable pub new_admin : Crypto → Call → String → String → Db → Bool × Db
unfolding admin_password
new_admin c k email password db =
    admin_password c k email (if password == "" then k.random else some password) db

-- `bootstrapAdmin`, with the email and the password of the configuration.
unfoldable pub bootstrap_admin : Crypto → Call → String → String → Db → Bool × Db
unfolding new_admin
bootstrap_admin c k email password db =
    if k.fails 0
    then (false, db)
    else (elim db.users [ [] ↦ new_admin c k email password db | u ∷ us ↦ (true, db) ])

not_accepted :
    (now later : ℕ) (hash : String) (t : RefreshToken)
    → now ≤ later
    → dead now t ≡ true
    → accepts later hash t ≡ false
not_accepted now later hash t l d = elim (Option-cases t.revoked_at) [
  | inl e ↦ ground (arith, e, d)
  | inr (at, e) ↦ ground (arith, e)
]

-- The janitor takes no token that a refresh would accept then or later: every refresh finds the
-- row that it would have found without the pass.
pub clean_tokens-accepts :
    (now later : ℕ) (hash : String) (ts : List RefreshToken)
    → now ≤ later
    → find? (accepts later hash) (clean_tokens now ts) ≡ find? (accepts later hash) ts
unfolding clean_tokens where_rows
clean_tokens-accepts now later hash [] l = refl
clean_tokens-accepts now later hash (t ∷ ts) l =
    let rest = clean_tokens-accepts now later hash ts l in
    elim (Bool-cases (dead now t)) [
      | inr n ↦ elim (Bool-cases (accepts later hash t)) [
        | inl y ↦ rw (n, y) refl
        | inr m ↦ rw (n, m) rest
      ]
      | inl d ↦ rw (d, not_accepted now later hash t l d) rest
    ]
