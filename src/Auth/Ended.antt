-- ===== src/Auth/Ended.antt =====
-- What ends a session: the refresh that uses its token, a logout, and a change of the password.
use ai_website_builder.Common.{
  String, Bool, true, false, not, ◌&&◌, ◌==◌, ◌≡◌, ◌≢◌, refl, Option, none, some, List, All,
  All-map, find?, if_cases, is_none, arith, eq_iff, ltb, byte_len,
}
use ai_website_builder.Common.Tables.{AtMostOne-ids, found_unique, All-pure, All-updated}
use ai_website_builder.Db.{Db, User}
use ai_website_builder.Http.Reply.{Response, AuthInfo}
use ai_website_builder.Auth.{
  RefreshToken, Accounts, Crypto, Call, accepts, owner, revoke, revoke_where, handle_refresh,
  handle_logout, handle_change_password, check_current, save_password, rotate,
}
use ai_website_builder.Auth.Calls.{Op, run, hashed, issue_tokens-Kept, refresh_reply-Kept}
use ai_website_builder.Auth.Rotation.{
  Distinct, same_token, Spent, Fresh, Moves-Spent, run-Spent, refresh-Spent,
}

-- A reply that says that all went well ends the sessions with the hash.
record Ends (hash : String) (r : Response × Accounts) : Type 0 where
  ended : r.0.status ≡ 200 → Spent hash r.1.refresh_tokens

refused : (hash : String) (r : Response × Accounts) → r.0.status ≢ 200 → Ends hash r
refused hash r bad = record { ended = λ ok. absurd (bad ok) }

-- The row that a test of the hash finds is the only one with the hash.
only_one :
    (q : RefreshToken → Bool) (hash : String) (ts : List RefreshToken) (t : RefreshToken)
    → Distinct ts
    → ((y : RefreshToken) → q y ≡ true → (y.token_hash == hash) ≡ true)
    → find? q ts ≡ some t
    → All (λ y. (y.token_hash == hash) ≡ true → y ≡ t) ts
only_one q hash ts t d sub e =
    found_unique (λ y. y.token_hash == hash) q ts t sub
      (AtMostOne-ids same_token (λ y. y.token_hash == hash) ts
        (λ x y h g.
          ground (
            arith,
            (eq_iff x.token_hash hash).0 h,
            (eq_iff y.token_hash hash).0 g,
            eq_iff hash hash,
          ))
        d)
      e

module _ (c : Crypto) (k : Call) where
  rotated :
      (hash : String) (t : RefreshToken) (u : User) (a : Accounts)
      → hashed c k.random ≢ some hash
      → All (λ y. (y.token_hash == hash) ≡ true → y ≡ t) a.refresh_tokens
      → Ends hash (rotate c k (some (t, u)) a)
  unfolding rotate
  rotated hash t u a fresh one =
      if_cases (Ends hash) (not (u.status == "active")) _ _ (λ _. refused hash _ (λ e. omega arith))
        λ _.
          if_cases (Ends hash) (k.fails 1) _ _ (λ _. refused hash _ (λ e. omega arith))
            λ _.
              (let b : Accounts = revoke_where k.now (λ s. s.id == t.id) a in
                record {
                  ended = λ ok.
                      Moves-Spent hash fresh
                        (refresh_reply-Kept c k u b _ (issue_tokens-Kept c k (k.fails 2) u b))
                        (All-updated _ (λ s. s.id == t.id) (revoke k.now) a.refresh_tokens
                          (All-pure _ (λ y sel same. refl) a.refresh_tokens)
                          (All-map _ _
                            (λ y only out same. ground (arith, only same, out, eq_iff t.id t.id))
                            a.refresh_tokens one));
                })

  rotate-owner :
      (hash : String) (t : RefreshToken) (o : Option User) (db : Db) (a : Accounts)
      → find? (λ u. u.id == t.user_id) db.users ≡ o
      → hashed c k.random ≢ some hash
      → All (λ y. (y.token_hash == hash) ≡ true → y ≡ t) a.refresh_tokens
      → Ends hash (rotate c k (owner db (some t)) a)
  unfolding owner rotate
  rotate-owner hash t none db a e fresh one = rw e (refused hash _ (λ e. omega arith))
  rotate-owner hash t (some u) db a e fresh one = rw e (rotated hash t u a fresh one)

  rotate_found :
      (token : String) (o : Option RefreshToken) (a : Accounts)
      → Distinct a.refresh_tokens
      → hashed c k.random ≢ some (c.hash_token token)
      → find? (accepts k.now (c.hash_token token)) a.refresh_tokens ≡ o
      → Ends (c.hash_token token) (rotate c k (owner a.db o) a)
  unfolding owner rotate
  rotate_found token none a d fresh e = refused _ _ (λ e. omega arith)
  rotate_found token (some t) a d fresh e =
      rotate-owner (c.hash_token token) t (find? (λ u. u.id == t.user_id) a.db.users) a.db a refl
        fresh
        (only_one (accepts k.now (c.hash_token token)) (c.hash_token token) a.refresh_tokens t d
          (λ y h. ground (arith, h)) e)

  refresh-Ends :
      (token : String) (a : Accounts)
      → Distinct a.refresh_tokens
      → hashed c k.random ≢ some (c.hash_token token)
      → Ends (c.hash_token token) (handle_refresh c k (some token) a)
  unfolding handle_refresh
  refresh-Ends token a d fresh =
      let hash = c.hash_token token in
      if_cases (Ends hash) (token == "") _ _ (λ _. refused hash _ (λ e. omega arith))
        λ _.
          if_cases (Ends hash) (k.fails 0) _ _ (λ _. refused hash _ (λ e. omega arith))
            λ _. rotate_found token (find? (accepts k.now hash) a.refresh_tokens) a d fresh refl

  logout-Ends :
      (token : String) (a : Accounts) → Ends (c.hash_token token) (handle_logout c k (some token) a)
  unfolding handle_logout
  logout-Ends token a =
      let hash = c.hash_token token in
      if_cases (Ends hash) (token == "") _ _ (λ _. refused hash _ (λ e. omega arith))
        λ _.
          if_cases (Ends hash) (k.fails 0) _ _ (λ _. refused hash _ (λ e. omega arith))
            λ _. record {
              ended = λ ok.
                  All-updated _ (λ t. t.token_hash == hash && is_none t.revoked_at) (revoke k.now)
                    a.refresh_tokens (All-pure _ (λ y sel same. refl) a.refresh_tokens)
                    (All-pure _ (λ y out same. ground (arith, out, same)) a.refresh_tokens);
            }

  password-Ends :
      (user hash : String) (new : Option String) (a : Accounts)
      → k.fails 2 ≡ false
      → All (λ y. (y.token_hash == hash) ≡ true → (y.user_id == user) ≡ true) a.refresh_tokens
      → Ends hash (save_password c k user new a)
  unfolding save_password
  password-Ends user hash none a went own = refused hash _ (λ e. omega arith)
  password-Ends user hash (some new) a went own =
      if_cases (Ends hash) (k.fails 1) _ _ (λ _. refused hash _ (λ e. omega arith))
        λ _. record {
          ended = λ ok. rw went (
              All-updated _ (λ t. t.user_id == user && is_none t.revoked_at) (revoke k.now)
                a.refresh_tokens (All-pure _ (λ y sel same. refl) a.refresh_tokens)
                (All-map _ _ (λ y o out same. ground (arith, o same, out)) a.refresh_tokens own));
        }

  current-Ends :
      (user hash current new : String) (o : Option User) (a : Accounts)
      → k.fails 2 ≡ false
      → All (λ y. (y.token_hash == hash) ≡ true → (y.user_id == user) ≡ true) a.refresh_tokens
      → Ends hash (check_current c k user current new o a)
  unfolding check_current
  current-Ends user hash current new none a went own = refused hash _ (λ e. omega arith)
  current-Ends user hash current new (some u) a went own =
      if_cases (Ends hash) (not (c.check_password u.password_hash current)) _ _
        (λ _. refused hash _ (λ e. omega arith))
        (λ _. password-Ends user hash (c.hash_password k.salt new) a went own)

  change_password-Ends :
      (ai : AuthInfo) (hash : String) (body : Option (String × String)) (a : Accounts)
      → k.fails 2 ≡ false
      → All (λ y. (y.token_hash == hash) ≡ true → (y.user_id == ai.user_id) ≡ true) a.refresh_tokens
      → Ends hash (handle_change_password c k ai body a)
  unfolding handle_change_password
  change_password-Ends ai hash none a went own = refused hash _ (λ e. omega arith)
  change_password-Ends ai hash (some (current, new)) a went own =
      if_cases (Ends hash) (ltb (byte_len new) 8) _ _ (λ _. refused hash _ (λ e. omega arith))
        λ _.
          if_cases (Ends hash) (k.fails 0) _ _ (λ _. refused hash _ (λ e. omega arith))
            λ _.
              current-Ends ai.user_id hash current new (find? (λ u. u.id == ai.user_id) a.db.users)
                a went own

-- A refresh token is good once: after a refresh with it that answered 200, whatever calls to the
-- sessions follow, no refresh with it answers 200 again. The keys of refresh_tokens are distinct
-- before, and no call issues a token with the same hash.
pub refresh-once :
    (c : Crypto) (k k' : Call) (token : String) (calls : List (Call × Op)) (a : Accounts)
    → Distinct a.refresh_tokens
    → hashed c k.random ≢ some (c.hash_token token)
    → Fresh c (c.hash_token token) calls
    → (handle_refresh c k (some token) a).0.status ≡ 200
    → (handle_refresh c k'
        (some token)
        (run c calls (handle_refresh c k (some token) a).1)).0.status
      ≢ 200
refresh-once c k k' token calls a d fresh later ok =
    refresh-Spent c k' token _
      (run-Spent c _ calls _ later ((refresh-Ends c k token a d fresh).ended ok))

-- After a logout that answered 200, whatever calls to the sessions follow, no refresh with its
-- token answers 200, when none of the calls issues a token with the same hash.
pub logout-ends :
    (c : Crypto) (k k' : Call) (token : String) (calls : List (Call × Op)) (a : Accounts)
    → Fresh c (c.hash_token token) calls
    → (handle_logout c k (some token) a).0.status ≡ 200
    → (handle_refresh c k' (some token) (run c calls (handle_logout c k (some token) a).1)).0.status
      ≢ 200
logout-ends c k k' token calls a later ok =
    refresh-Spent c k' token _ (run-Spent c _ calls _ later ((logout-Ends c k token a).ended ok))

-- After a change of password that answered 200 and whose revocation did not fail, no refresh with
-- a token that the user had before answers 200, whatever calls to the sessions follow. The keys of
-- refresh_tokens are distinct before, and no call issues a token with the same hash.
pub change_password-ends :
    (c : Crypto) (k k' : Call) (ai : AuthInfo) (body : Option (String × String)) (token : String)
    (row : RefreshToken) (calls : List (Call × Op)) (a : Accounts)
    → Distinct a.refresh_tokens
    → find? (λ t. t.token_hash == c.hash_token token) a.refresh_tokens ≡ some row
    → row.user_id ≡ ai.user_id
    → k.fails 2 ≡ false
    → Fresh c (c.hash_token token) calls
    → (handle_change_password c k ai body a).0.status ≡ 200
    → let after = run c calls (handle_change_password c k ai body a).1 in
      (handle_refresh c k' (some token) after).0.status ≢ 200
change_password-ends c k k' ai body token row calls a d found own went later ok =
    let hash = c.hash_token token in
    let one = only_one (λ t. t.token_hash == hash) hash a.refresh_tokens row d (λ y h. h) found in
    let mine =
      All-map _ _ (λ y only same. ground (arith, only same, own, eq_iff ai.user_id ai.user_id))
        a.refresh_tokens one in
    refresh-Spent c k' token _ (
      run-Spent c hash calls _ later ((change_password-Ends c k ai hash body a went mine).ended ok))
