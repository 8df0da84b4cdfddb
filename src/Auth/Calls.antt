-- ===== src/Auth/Calls.antt =====
-- The calls that reach the sessions, one after another, and what each does to refresh_tokens.
use ai_website_builder.Common.{
  String, ◌<>◌, Bool, true, false, not, ◌||◌, ◌==◌, ◌≡◌, refl, subst, Option, none, some, List, [],
  ◌∷◌, ◌++◌, where_rows, update_rows, if◌then◌else◌, if_cases, ap, or_false_right, find?, is_none,
  Bool-cases, inl, inr, ltb, byte_len, ◌&&◌,
}
use ai_website_builder.Cache.{MemCache}
use ai_website_builder.Cache.RateLimit.{rate_limit}
use ai_website_builder.Db.{Db, User}
use ai_website_builder.Http.Reply.{Response, AuthInfo}
use ai_website_builder.Auth.{
  RefreshToken, Accounts, Crypto, Call, new_token, token_taken, insert_token, with_random,
  with_access, issue_tokens, login_reply, login_user, login, handle_login, refresh_reply, rotate,
  handle_refresh, handle_logout, save_password, check_current, handle_change_password, revoke,
  revoke_where, accepts, owner,
}
use ai_website_builder.Auth.Janitor.{janitor, clean_tokens}

-- A call with its decoded body; `elsewhere` is any other part of the program, which leaves the
-- sessions alone.
pub data Op : Type 0 where
  signs_in : String → Option (String × String) → Op
  refreshes : Option String → Op
  signs_out : Option String → Op
  changes_password : AuthInfo → Option (String × String) → Op
  cleans : Op
  elsewhere : Db → MemCache → Op

module _ (c : Crypto) where
  unfoldable pub step : Call → Op → Accounts → Accounts
  step k (signs_in ip body) a = (handle_login c k ip body a).1
  step k (refreshes body) a = (handle_refresh c k body a).1
  step k (signs_out body) a = (handle_logout c k body a).1
  step k (changes_password ai body) a = (handle_change_password c k ai body a).1
  step k cleans a = janitor k a
  step k (elsewhere db cache) a = record a { db = db; cache = cache }

  unfoldable pub run : List (Call × Op) → Accounts → Accounts
  unfolding step
  run [] a = a
  run ((k, op) ∷ rest) a = run rest (step k op a)

  -- The hash of the refresh token that a call would issue.
  abbrev pub hashed : Option String → Option String
  hashed none = none
  hashed (some token) = some (c.hash_token token)

-- What a call does to the table: rows are added under a fresh key, revoked or deleted.
pub data Moves (k : Call) (issued : Option String)
    : List RefreshToken → List RefreshToken → Type 0 where
  stays : {ts : List RefreshToken} → Moves k issued ts ts
  adds :
      {ts : List RefreshToken} (user hash : String)
      → issued ≡ some hash
      → token_taken k.new_id hash ts ≡ false
      → Moves k issued ts (ts ++ new_token k user hash ∷ [])
  revokes :
      {ts : List RefreshToken} (p : RefreshToken → Bool)
      → Moves k issued ts (update_rows p (revoke k.now) ts)
  deletes : {ts : List RefreshToken} (p : RefreshToken → Bool) → Moves k issued ts (where_rows p ts)
  joins :
      {ts us vs : List RefreshToken}
      → Moves k issued ts us
      → Moves k issued us vs
      → Moves k issued ts vs

module _ (c : Crypto) (k : Call) where
  abbrev Kept : Accounts → Accounts → Type 0
  Kept a b = Moves k (hashed c k.random) a.refresh_tokens b.refresh_tokens

  record Done (a : Accounts) (r : Response × Accounts) : Type 0 where
    kept : Kept a r.1

  insert_token-Kept :
      (failed : Bool) (user access token hash : String) (a : Accounts)
      → hashed c k.random ≡ some hash
      → Kept a (insert_token k failed user access token hash a).1
  unfolding insert_token
  insert_token-Kept failed user access token hash a e =
      elim (Bool-cases (failed || token_taken k.new_id hash a.refresh_tokens)) [
        | inl t ↦ rw t stays
        | inr n ↦ rw n (adds user hash e (or_false_right failed _ n))
      ]

  with_random-Kept :
      (failed : Bool) (user access : String) (random : Option String) (a : Accounts)
      → k.random ≡ random
      → Kept a (with_random c k failed user access random a).1
  unfolding with_random
  with_random-Kept failed user access none a e = stays
  with_random-Kept failed user access (some token) a e =
      insert_token-Kept failed user access token (c.hash_token token) a (ap (hashed c) e)

  pub issue_tokens-Kept :
      (failed : Bool) (u : User) (a : Accounts) → Kept a (issue_tokens c k failed u a).1
  unfolding issue_tokens
  issue_tokens-Kept failed u a = issued (c.sign _)
    where
      issued : (o : Option String) → Kept a (with_access c k failed u.id o a).1
      issued none = stays
      issued (some access) = with_random-Kept failed u.id access k.random a refl

  login_reply-Kept :
      (u : User) (a : Accounts) (r : Option (String × String) × Accounts)
      → Kept a r.1
      → Kept a (login_reply k u r).1
  unfolding login_reply
  login_reply-Kept u a (none, b) h = h
  login_reply-Kept u a (some p, b) h = h

  pub refresh_reply-Kept :
      (u : User) (a : Accounts) (r : Option (String × String) × Accounts)
      → Kept a r.1
      → Kept a (refresh_reply u r).1
  unfolding refresh_reply
  refresh_reply-Kept u a (none, b) h = h
  refresh_reply-Kept u a (some p, b) h = h

  login_user-Kept :
      (password : String) (o : Option User) (a : Accounts) → Done a (login_user c k password o a)
  unfolding login_user
  login_user-Kept password none a = record { kept = stays }
  login_user-Kept password (some u) a =
      if_cases (Done a) (not (c.check_password u.password_hash password)) _ _
        (λ _. record { kept = stays })
        λ _.
          if_cases (Done a) (not (u.status == "active")) _ _ (λ _. record { kept = stays })
            λ _. record { kept = login_reply-Kept u a _ (issue_tokens-Kept (k.fails 1) u a) }

  login-Kept : (body : Option (String × String)) (a : Accounts) → Done a (login c k body a)
  unfolding login
  login-Kept none a = record { kept = stays }
  login-Kept (some (email, password)) a =
      if_cases (Done a) (k.fails 0) _ _ (λ _. record { kept = stays })
        λ _. login_user-Kept password _ a

  rotate-Kept : (o : Option (RefreshToken × User)) (a : Accounts) → Done a (rotate c k o a)
  unfolding rotate
  rotate-Kept none a = record { kept = stays }
  rotate-Kept (some (t, u)) a =
      if_cases (Done a) (not (u.status == "active")) _ _ (λ _. record { kept = stays })
        λ _.
          if_cases (Done a) (k.fails 1) _ _ (λ _. record { kept = stays })
            λ _. record {
              kept = refresh_reply-Kept u a _ (
                  joins (revokes _)
                    (issue_tokens-Kept (k.fails 2) u (revoke_where k.now (λ s. s.id == t.id) a)));
            }

  refresh-Kept : (body : Option String) (a : Accounts) → Done a (handle_refresh c k body a)
  unfolding handle_refresh
  refresh-Kept none a = record { kept = stays }
  refresh-Kept (some token) a =
      if_cases (Done a) (token == "") _ _ (λ _. record { kept = stays })
        λ _.
          if_cases (Done a) (k.fails 0) _ _ (λ _. record { kept = stays })
            λ _.
              rotate-Kept (owner a.db (find? (accepts k.now (c.hash_token token)) a.refresh_tokens))
                a

  logout-Kept : (body : Option String) (a : Accounts) → Done a (handle_logout c k body a)
  unfolding handle_logout
  logout-Kept none a = record { kept = stays }
  logout-Kept (some token) a =
      if_cases (Done a) (token == "") _ _ (λ _. record { kept = stays })
        λ _.
          if_cases (Done a) (k.fails 0) _ _ (λ _. record { kept = stays })
            λ _. record {
              kept = revokes (λ t. t.token_hash == c.hash_token token && is_none t.revoked_at);
            }

  saved :
      (b : Bool) (user : String) (a a' : Accounts)
      → a'.refresh_tokens ≡ a.refresh_tokens
      → Kept a
          (if b then a' else revoke_where k.now (λ t. t.user_id == user && is_none t.revoked_at) a')
  saved true user a a' e = subst (λ ts. Moves k (hashed c k.random) ts a'.refresh_tokens) e stays
  saved false user a a' e =
      let p : RefreshToken → Bool = λ t. t.user_id == user && is_none t.revoked_at in
      subst (λ ts. Moves k (hashed c k.random) ts (update_rows p (revoke k.now) a'.refresh_tokens))
        e (revokes p)

  save_password-Kept :
      (user : String) (o : Option String) (a : Accounts) → Done a (save_password c k user o a)
  unfolding save_password
  save_password-Kept user none a = record { kept = stays }
  save_password-Kept user (some hash) a =
      if_cases (Done a) (k.fails 1) _ _ (λ _. record { kept = stays })
        λ _. record { kept = saved (k.fails 2) user a _ refl }

  check_current-Kept :
      (user current new : String) (o : Option User) (a : Accounts)
      → Done a (check_current c k user current new o a)
  unfolding check_current
  check_current-Kept user current new none a = record { kept = stays }
  check_current-Kept user current new (some u) a =
      if_cases (Done a) (not (c.check_password u.password_hash current)) _ _
        (λ _. record { kept = stays }) λ _. save_password-Kept user _ a

  change_password-Kept :
      (ai : AuthInfo) (body : Option (String × String)) (a : Accounts)
      → Done a (handle_change_password c k ai body a)
  unfolding handle_change_password
  change_password-Kept ai none a = record { kept = stays }
  change_password-Kept ai (some (current, new)) a =
      if_cases (Done a) (ltb (byte_len new) 8) _ _ (λ _. record { kept = stays })
        λ _.
          if_cases (Done a) (k.fails 0) _ _ (λ _. record { kept = stays })
            λ _. check_current-Kept ai.user_id current new _ a

  handle_login-Kept :
      (ip : String) (body : Option (String × String)) (a : Accounts)
      → Done a (handle_login c k ip body a)
  unfolding handle_login
  handle_login-Kept ip body a =
      if_cases (Done a) (not (rate_limit k.now ("login:" <> ip) 10 60 a.cache).0) _ _
        (λ _. record { kept = stays })
        (λ _. record {
          kept =
              (login-Kept body
                (record a { cache = (rate_limit k.now ("login:" <> ip) 10 60 a.cache).1 })).kept;
        })

  pub step-Kept : (op : Op) (a : Accounts) → Kept a (step c k op a)
  unfolding step janitor clean_tokens
  step-Kept (signs_in ip body) a = (handle_login-Kept ip body a).kept
  step-Kept (refreshes body) a = (refresh-Kept body a).kept
  step-Kept (signs_out body) a = (logout-Kept body a).kept
  step-Kept (changes_password ai body) a = (change_password-Kept ai body a).kept
  step-Kept cleans a = elim (Bool-cases (k.fails 0)) [
    | inl t ↦ rw t stays
    | inr n ↦ rw n (deletes _)
  ]
  step-Kept (elsewhere db cache) a = stays
