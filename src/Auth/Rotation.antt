-- ===== src/Auth/Rotation.antt =====
-- A refresh token is good for one refresh, and for none once it is revoked.
use ai_website_builder.Common.{
  ℕ, String, Bool, true, false, ◌||◌, ◌==◌, ◌≡◌, ◌≢◌, refl, subst, Option, none, some, List, [],
  ◌∷◌, All, All-append, All-where_rows, find?, is_none, Bool-cases, inl, inr, arith, eq_iff,
}
use ai_website_builder.Common.Tables.{
  Apart, any-false, All-pure, All-update_rows, Apart-append, Apart-where_rows,
  Apart-update_rows_same,
}
use ai_website_builder.Auth.{
  RefreshToken, Accounts, Crypto, Call, accepts, owner, revoke, handle_refresh, rotate,
}
use ai_website_builder.Auth.Calls.{
  Op, step, run, hashed, Moves, stays, adds, revokes, deletes, joins, step-Kept,
}

-- Two rows with the id or the hash of one another.
abbrev pub same_token : RefreshToken → RefreshToken → Bool
same_token s t = s.id == t.id || s.token_hash == t.token_hash

-- The keys of refresh_tokens.
abbrev pub Distinct : List RefreshToken → Type 0
Distinct ts = Apart same_token ts

-- No row with the hash is still good.
abbrev pub Spent : String → List RefreshToken → Type 0
Spent hash ts = All (λ t. t.token_hash == hash ≡ true → is_none t.revoked_at ≡ false) ts

module _ {k : Call} {issued : Option String} where
  pub Moves-Distinct :
      {ts us : List RefreshToken} → Moves k issued ts us → Distinct ts → Distinct us
  Moves-Distinct stays h = h
  Moves-Distinct (adds {ts} user hash e free) h =
      Apart-append same_token ts _ h (any-false _ ts free)
  Moves-Distinct (revokes {ts} p) h =
      Apart-update_rows_same same_token p (revoke k.now) ts (λ x y. refl) (λ x y. refl) h
  Moves-Distinct (deletes {ts} p) h = Apart-where_rows same_token p ts h
  Moves-Distinct (joins m n) h = Moves-Distinct n (Moves-Distinct m h)

  pub Moves-Spent :
      {ts us : List RefreshToken} (hash : String)
      → issued ≢ some hash
      → Moves k issued ts us
      → Spent hash ts
      → Spent hash us
  Moves-Spent hash fresh stays h = h
  Moves-Spent hash fresh (adds {ts} user other e free) h =
      All-append _ ts _ h
        ((λ same. absurd (fresh (subst (λ o. issued ≡ some o) ((eq_iff other hash).0 same) e))), tt)
  Moves-Spent hash fresh (revokes {ts} p) h =
      All-update_rows _ p (revoke k.now) ts h (All-pure _ (λ y t old same. refl) ts)
  Moves-Spent hash fresh (deletes {ts} p) h = All-where_rows _ p ts h
  Moves-Spent hash fresh (joins m n) h = Moves-Spent hash fresh n (Moves-Spent hash fresh m h)

module _ (c : Crypto) where
  -- None of the calls issues a token with the hash.
  abbrev pub Fresh : String → List (Call × Op) → Type 0
  Fresh hash [] = Unit
  Fresh hash ((k, op) ∷ rest) = (hashed c k.random ≢ some hash) × Fresh hash rest

  pub run-Spent :
      (hash : String) (calls : List (Call × Op)) (a : Accounts)
      → Fresh hash calls
      → Spent hash a.refresh_tokens
      → Spent hash (run c calls a).refresh_tokens
  unfolding run
  run-Spent hash [] a f h = h
  run-Spent hash ((k, op) ∷ rest) a f h =
      run-Spent hash rest (step c k op a) f.1 (Moves-Spent hash f.0 (step-Kept c k op a) h)

  -- However the calls to the sessions follow one another, no two rows of refresh_tokens ever have
  -- the same id or the same hash, when none had before.
  pub run-Distinct :
      (calls : List (Call × Op)) (a : Accounts)
      → Distinct a.refresh_tokens
      → Distinct (run c calls a).refresh_tokens
  unfolding run
  run-Distinct [] a h = h
  run-Distinct ((k, op) ∷ rest) a h =
      run-Distinct rest (step c k op a) (Moves-Distinct (step-Kept c k op a) h)

  none_accepted :
      (now : ℕ) (hash : String) (ts : List RefreshToken)
      → Spent hash ts
      → find? (accepts now hash) ts ≡ none
  none_accepted now hash [] h = refl
  none_accepted now hash (t ∷ ts) h = elim (Bool-cases (t.token_hash == hash)) [
    | inl e ↦ ground (arith, h.0 e, none_accepted now hash ts h.1, e)
    | inr n ↦ ground (arith, none_accepted now hash ts h.1, n)
  ]

  pub refresh-Spent :
      (k : Call) (token : String) (a : Accounts)
      → Spent (c.hash_token token) a.refresh_tokens
      → (handle_refresh c k (some token) a).0.status ≢ 200
  unfolding handle_refresh
  refresh-Spent k token a h =
      let e = none_accepted k.now (c.hash_token token) a.refresh_tokens h in
      unfold rotate in unfold owner in ground (arith, e)
