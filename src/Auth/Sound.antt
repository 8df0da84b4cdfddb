-- ===== src/Auth/Sound.antt =====
-- Who gets tokens from a login and from a refresh, and what the tokens are good for.
pub mod Session
use ai_website_builder.Common.{
  ℕ, ◌+◌, String, Bool, true, false, not, ◌&&◌, ◌==◌, ◌≡◌, ◌≢◌, refl, sym, subst, Option, none,
  some, List, [], ◌∷◌, ◌++◌, find?, if◌then◌else◌, if_cases, Bool-cases, Option-cases, inl, inr,
  arith, ltb, ◌||◌, or_false_right,
}
use ai_website_builder.Db.{Db, User}
use ai_website_builder.Http.Reply.{Response, Body, message, signed_in}
use ai_website_builder.Auth.{
  RefreshToken, Accounts, Crypto, Call, new_token, token_taken, claims_of, insert_token,
  with_random, with_access, issue_tokens, login_reply, login_user, login, user_by_email, accepts,
  owner, revoke_where, refresh_reply, rotate, handle_refresh,
}

module _ (c : Crypto) (k : Call) where
  -- The pair of tokens, and its row in the table.
  pub record Issues (u : User) (access token : String) (a b : Accounts) : Type 0 where
    pub signed : c.sign (claims_of k.now u) ≡ some access
    pub random : k.random ≡ some token
    pub free : token_taken k.new_id (c.hash_token token) a.refresh_tokens ≡ false
    pub stored : b.refresh_tokens ≡ a.refresh_tokens ++ new_token k u.id (c.hash_token token) ∷ []
    pub same_db : b.db ≡ a.db

  -- An answer of 200 carries tokens that were issued, to the user that it shows.
  record Grants (who : User → Type 0) (a : Accounts) (r : Response × Accounts) : Type 0 where
    granted :
        r.0.status ≡ 200
        → (u : User) × (access : String) × (token : String) × (b : Accounts) × who u
          × Issues u access token a b
          × (r.0.body ≡ signed_in access token u)
          × (r.1.refresh_tokens ≡ b.refresh_tokens)

  bad :
      (who : User → Type 0) (a : Accounts) (r : Response × Accounts)
      → r.0.status ≢ 200
      → Grants who a r
  bad who a r h = record { granted = λ ok. absurd (h ok) }

  -- What issue_tokens returns.
  abbrev Pair : User → Accounts → Option (String × String) × Accounts → Type 0
  Pair u a (none, b) = Unit
  Pair u a (some (access, token), b) = Issues u access token a b

  insert_token-Pair :
      (failed : Bool) (u : User) (access token : String) (a : Accounts)
      → c.sign (claims_of k.now u) ≡ some access
      → k.random ≡ some token
      → Pair u a (insert_token k failed u.id access token (c.hash_token token) a)
  unfolding insert_token
  insert_token-Pair failed u access token a s r =
      elim (Bool-cases (failed || token_taken k.new_id (c.hash_token token) a.refresh_tokens)) [
        | inl t ↦ rw t tt
        | inr n ↦ rw n (record {
          signed = s;
          random = r;
          free = or_false_right failed _ n;
          stored = refl;
          same_db = refl;
        })
      ]

  with_random-Pair :
      (failed : Bool) (u : User) (access : String) (o : Option String) (a : Accounts)
      → c.sign (claims_of k.now u) ≡ some access
      → k.random ≡ o
      → Pair u a (with_random c k failed u.id access o a)
  unfolding with_random
  with_random-Pair failed u access none a s r = tt
  with_random-Pair failed u access (some token) a s r =
      insert_token-Pair failed u access token a s r

  with_access-Pair :
      (failed : Bool) (u : User) (o : Option String) (a : Accounts)
      → c.sign (claims_of k.now u) ≡ o
      → Pair u a (with_access c k failed u.id o a)
  unfolding with_access
  with_access-Pair failed u none a s = tt
  with_access-Pair failed u (some access) a s = with_random-Pair failed u access k.random a s refl

  pub issue_tokens-Pair :
      (failed : Bool) (u : User) (a : Accounts) → Pair u a (issue_tokens c k failed u a)
  unfolding issue_tokens
  issue_tokens-Pair failed u a = with_access-Pair failed u (c.sign (claims_of k.now u)) a refl

  login_reply-Grants :
      (who : User → Type 0) (u : User) (a : Accounts) (p : Option (String × String) × Accounts)
      → who u
      → Pair u a p
      → Grants who a (login_reply k u p)
  unfolding login_reply
  login_reply-Grants who u a (none, b) w h = bad who a _ (λ e. omega arith)
  login_reply-Grants who u a (some (access, token), b) w h = record {
    granted = λ ok. (u, access, token, b, w, h, refl, refl);
  }

  refresh_reply-Grants :
      (who : User → Type 0) (u : User) (a : Accounts) (p : Option (String × String) × Accounts)
      → who u
      → Pair u a p
      → Grants who a (refresh_reply u p)
  unfolding refresh_reply
  refresh_reply-Grants who u a (none, b) w h = bad who a _ (λ e. omega arith)
  refresh_reply-Grants who u a (some (access, token), b) w h = record {
    granted = λ ok. (u, access, token, b, w, h, refl, refl);
  }

  -- The user of the email, with the password, and active.
  pub record MayLogin (email password : String) (db : Db) (u : User) : Type 0 where
    pub known : user_by_email c email db ≡ some u
    pub right : c.check_password u.password_hash password ≡ true
    pub active : (u.status == "active") ≡ true

  login_user-Grants :
      (email password : String) (o : Option User) (a : Accounts)
      → user_by_email c email a.db ≡ o
      → Grants (MayLogin email password a.db) a (login_user c k password o a)
  unfolding login_user
  login_user-Grants email password none a e = bad _ a _ (λ e. omega arith)
  login_user-Grants email password (some u) a e =
      let who = MayLogin email password a.db in
      if_cases (Grants who a) (not (c.check_password u.password_hash password)) _ _
        (λ _. bad who a _ (λ e. omega arith))
        λ right.
          if_cases (Grants who a) (not (u.status == "active")) _ _
            (λ _. bad who a _ (λ e. omega arith))
            λ active.
              login_reply-Grants who u a _
                (record {
                  known = e;
                  right = ground (arith, right);
                  active = ground (arith, active);
                })
                (issue_tokens-Pair (k.fails 1) u a)

  login-Grants :
      (email password : String) (a : Accounts)
      → Grants (MayLogin email password a.db) a (login c k (some (email, password)) a)
  unfolding login
  login-Grants email password a =
      let who = MayLogin email password a.db in
      if_cases (Grants who a) (k.fails 0) _ _ (λ _. bad who a _ (λ e. omega arith))
        (λ _. login_user-Grants email password (user_by_email c email a.db) a refl)

  -- A login answers 200 only to the email and the password of an active user. It then carries an
  -- access token signed for that user and the time of the call, and the fresh refresh token whose
  -- hash the one new row of refresh_tokens holds for that user.
  pub login_sound :
      (email password : String) (a : Accounts)
      → (login c k (some (email, password)) a).0.status ≡ 200
      → (u : User) × (access : String) × (token : String) × (b : Accounts) × MayLogin email password
          a.db u
        × Issues u access token a b
        × ((login c k (some (email, password)) a).0.body ≡ signed_in access token u)
        × ((login c k (some (email, password)) a).1.refresh_tokens ≡ b.refresh_tokens)
  login_sound email password a = (login-Grants email password a).granted

  -- The row and the user that a refresh goes by.
  pub record MayRefresh (token : String) (a : Accounts) (u : User) : Type 0 where
    pub row : RefreshToken
    pub accepted : find? (accepts k.now (c.hash_token token)) a.refresh_tokens ≡ some row
    pub owned : find? (λ v. v.id == row.user_id) a.db.users ≡ some u
    pub active : (u.status == "active") ≡ true
