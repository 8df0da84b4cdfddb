-- ===== src/Auth/Sound/Session.antt =====
-- The tokens of a login, used: the access token with the API, the refresh token for a refresh.
use ai_website_builder.Common.{
  ℕ, ◌+◌, ◌<◌, String, Bool, true, false, ◌||◌, ◌==◌, ◌≡◌, ◌≢◌, ◌∙◌, refl, Option, none, some, List,
  [], ◌∷◌, ◌++◌, find?, update_rows, Bool-cases, inl, inr, arith, eq_iff, ltb, if◌then◌else◌, ◌≤◌,
  or_false_left, or_false_right,
}
use ai_website_builder.Common.Strings.{cut_prefix}
use ai_website_builder.Db.{Db, User}
use ai_website_builder.Http.Reply.{Request, AuthInfo, Handler, signed_in, refuse}
use ai_website_builder.Http.Access.{Claims, user_by_id, require_auth}
use ai_website_builder.Http.Access.Grants.{require_auth_complete}
use ai_website_builder.Auth.{
  RefreshToken, AccessClaims, Accounts, Crypto, Call, new_token, token_taken, claims_of,
  insert_token, with_random, with_access, issue_tokens, accepts, owner, revoke_where, refresh_reply,
  rotate, handle_refresh, refresh_token_ttl, revoke,
}
use ai_website_builder.Auth.Sound.{Issues}

-- What the API relies on of the jwt library: it accepts what was signed, with its claims, until the
-- token expires, and no longer.
pub record IsVerifier (sign : AccessClaims → Option String) (verify : ℕ → String → Option Claims)
    : Type 0 where
  pub present : (s : AccessClaims) (t : String) → sign s ≡ some t → (t == "") ≡ false
  pub accepts_early :
      (s : AccessClaims) (t : String) (now : ℕ)
      → sign s ≡ some t
      → now < s.expires_at
      → verify now t
        ≡ some (record { user_id = s.user_id; is_platform_admin = s.is_platform_admin })
  pub refuses_late :
      (s : AccessClaims) (t : String) (now : ℕ)
      → sign s ≡ some t
      → s.expires_at ≤ now
      → verify now t ≡ none

-- The access token that a login or a refresh issues opens the API for its user for 15 minutes, under
-- the flag that the account has at the time of the request, and is answered 401 after that: on a
-- request with this token, when the account is active, the database does not fail, and tokens are
-- checked as `IsVerifier` says.
pub issued-require_auth :
    (c : Crypto) (k : Call) (u v : User) (access token : String) (a b : Accounts)
    (verify : ℕ → String → Option Claims) (req : Request) (next : AuthInfo → Handler) (db : Db)
    → Issues c k u access token a b
    → IsVerifier c.sign verify
    → cut_prefix req.authorization "Bearer " ≡ some access
    → req.fails 0 ≡ false
    → user_by_id db u.id ≡ some v
    → (v.status == "active") ≡ true
    → require_auth (verify req.now) req next db ≡ (
        if ltb req.now (k.now + 900)
        then next
            (record {
              user_id = u.id;
              is_platform_admin = v.is_platform_admin;
              tenant_id = "";
              role = "";
            })
            db
        else refuse 401 "invalid or expired token" db)
unfolding require_auth
issued-require_auth c k u v access token a b verify req next db i laws bearer up known active =
    let full = laws.present _ access i.signed in
    elim (Bool-cases (ltb req.now (k.now + 900))) [
      | inl early ↦ rw early (
          require_auth_complete (verify req.now) req next db u.id v.is_platform_admin up (record {
            token = access;
            bearer = bearer;
            present = full;
            claims = record { user_id = u.id; is_platform_admin = u.is_platform_admin };
            parsed = laws.accepts_early _ access req.now i.signed (ground (arith, early));
            user = v;
            known = known;
            active = active;
            same_id = refl;
            same_flag = refl;
          }))
      | inr late ↦
          let gone = laws.refuses_late _ access req.now i.signed (ground (arith, late)) in
          rw (late, bearer, full, gone) refl
    ]

last_accepted :
    (now : ℕ) (id : String) (t : RefreshToken) (ts : List RefreshToken)
    → token_taken id t.token_hash ts ≡ false
    → accepts now t.token_hash t ≡ true
    → find? (accepts now t.token_hash) (ts ++ t ∷ []) ≡ some t
last_accepted now id t [] free good = rw good refl
last_accepted now id t (s ∷ ts) free good =
    let here = s.id == id || s.token_hash == t.token_hash in
    let rest = last_accepted now id t ts (or_false_right here _ free) good in
    let other : (s.token_hash == t.token_hash) ≡ false =
      or_false_right (s.id == id) _ (or_false_left here _ free) in
    rw other rest

taken-revoked :
    (now : ℕ) (p : RefreshToken → Bool) (id hash : String) (ts : List RefreshToken)
    → token_taken id hash (update_rows p (revoke now) ts) ≡ token_taken id hash ts
unfolding update_rows
taken-revoked now p id hash [] = refl
taken-revoked now p id hash (t ∷ ts) = elim (Bool-cases (p t)) [
  | inl y ↦ rw (y, taken-revoked now p id hash ts) refl
  | inr n ↦ rw (n, taken-revoked now p id hash ts) refl
]

issue_tokens_ok :
    (c : Crypto) (k : Call) (u : User) (access token : String) (a : Accounts)
    → c.sign (claims_of k.now u) ≡ some access
    → k.random ≡ some token
    → token_taken k.new_id (c.hash_token token) a.refresh_tokens ≡ false
    → (issue_tokens c k false u a).0 ≡ some (access, token)
unfolding issue_tokens with_access with_random insert_token
issue_tokens_ok c k u access token a s r free = rw (s, r, free) refl

refresh_reply_ok :
    (u : User) (access token : String) (p : Option (String × String) × Accounts)
    → p.0 ≡ some (access, token)
    → (refresh_reply u p).0 ≡ (record { status = 200; body = signed_in access token u })
unfolding refresh_reply
refresh_reply_ok u access token (none, b) e = cc
refresh_reply_ok u access token (some (x, y), b) e = ground (arith, e)

-- The refresh token that a login or a refresh issued is good until it expires: within 30 days a
-- refresh with it answers 200 with the next pair, while refresh_tokens is as the call left it, the
-- user of the row is found and active, and the new pair can be issued.
pub issued-refresh :
    (c : Crypto) (k k' : Call) (u v : User) (access token access' token' : String)
    (a b s : Accounts)
    → Issues c k u access token a b
    → s.refresh_tokens ≡ b.refresh_tokens
    → k'.now < k.now + refresh_token_ttl
    → token ≢ ""
    → ((n : ℕ) → k'.fails n ≡ false)
    → find? (λ w. w.id == u.id) s.db.users ≡ some v
    → (v.status == "active") ≡ true
    → c.sign (claims_of k'.now v) ≡ some access'
    → k'.random ≡ some token'
    → token_taken k'.new_id (c.hash_token token') s.refresh_tokens ≡ false
    → (handle_refresh c k' (some token) s).0
      ≡ (record { status = 200; body = signed_in access' token' v })
unfolding handle_refresh rotate owner refresh_reply
issued-refresh c k k' u v access token access' token' a b s i same early full up known active sign
      random free =
    let row = new_token k u.id (c.hash_token token) in
    let here : find? (accepts k'.now (c.hash_token token)) s.refresh_tokens ≡ some row =
      rw (same, i.stored)
        (last_accepted k'.now k.new_id row a.refresh_tokens i.free
          (ground (arith, early, eq_iff (c.hash_token token) (c.hash_token token)))) in
    let given =
      issue_tokens_ok c k' v access' token' (revoke_where k'.now (λ t. t.id == row.id) s) sign
        random
        (taken-revoked k'.now (λ t. t.id == row.id) k'.new_id (c.hash_token token') s.refresh_tokens
          ∙ free) in
    let present : (token == "") ≡ false = elim (Bool-cases (token == "")) [
      | inl empty ↦ absurd (full ((eq_iff token "").0 empty))
      | inr n ↦ n
    ] in
    rw (present, up 0, here, known, active, up 1, up 2) (refresh_reply_ok v access' token' _ given)
