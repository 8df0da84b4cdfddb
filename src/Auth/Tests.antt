-- ===== src/Auth/Tests.antt =====
-- Calls to the sessions of internal/httpapi/handlers_auth.go on a small database.
use ai_website_builder.Common.{
  nat_eq, ltb, not, Bool, ℕ, ◌≡◌, ◌≢◌, refl, String, ◌<>◌, true, false, ◌&&◌, ◌||◌, ◌==◌, Option,
  none, some, List, [], ◌∷◌, find?, arith, update_rows, if◌then◌else◌, Bool-cases, inl, inr, eq_iff,
  subst,
}
use ai_website_builder.Cache.{new_memory}
use ai_website_builder.Db.{User}
use ai_website_builder.Http.Fixtures.{small_db, eve}
use ai_website_builder.Common.Strings.{cut_prefix}
use ai_website_builder.Http.Access.{Claims, require_auth}
use ai_website_builder.Http.Reply.{AuthInfo, Request, Handler, reply, done, signed_in}
use ai_website_builder.Auth.{
  RefreshToken, AccessClaims, Accounts, Crypto, Call, new_token, login, handle_refresh,
  handle_logout, handle_change_password, accepts,
}
use ai_website_builder.Auth.Calls.{Op, signs_in, refreshes, cleans, run}
use ai_website_builder.Auth.Janitor.{clean_tokens, clean_tokens-accepts}
use ai_website_builder.Auth.Rotation.{Fresh}
use ai_website_builder.Auth.Sound.{Issues, MayLogin, login_sound}
use ai_website_builder.Auth.Sound.Session.{issued-refresh, issued-require_auth, IsVerifier}
use ai_website_builder.Auth.Ended.{refresh-once, logout-ends, change_password-ends}

-- Hashes that show what they hash.
abbrev plain : Crypto
plain = record {
  hash_token = λ t. "#" <> t;
  check_password = λ hash pw. (hash == "h" && pw == "eve's") || hash == "b" <> pw;
  hash_password = λ salt pw. some ("b" <> pw);
  sign = λ s. some ("jwt" <> s.user_id);
  sql_lower = λ s. s;
  sql_le = λ a b. true;
}

abbrev at_time : ℕ → String → String → Call
at_time now id token = record {
  now = now;
  new_id = id;
  random = some token;
  salt = "";
  fails = λ n. false;
}

abbrev eves_token : RefreshToken
eves_token = new_token (at_time 10 "r1" "a") "u1" "#a"

abbrev accounts : Accounts
accounts = record { db = small_db; refresh_tokens = eves_token ∷ []; cache = new_memory }

abbrev later_calls : List (Call × Op)
later_calls =
    (at_time 40 "r3" "c", refreshes (some "b"))
    ∷ (at_time 50 "r4" "d", cleans)
    ∷ (at_time 60 "r5" "e", signs_in "1.2.3.4" (some ("eve@x.org", "eve's")))
    ∷ []

differ : (a b : String) → (a == b) ≡ false → some a ≢ some b
differ a b n e = ground (arith, n, e, eq_iff a b)

later_calls-Fresh : Fresh plain "#a" later_calls
later_calls-Fresh = (differ "#c" "#a" refl, (differ "#d" "#a" refl, (differ "#e" "#a" refl, tt)))

refresh-once_example :
    (handle_refresh plain (at_time 70 "r9" "z") (some "a") (
      run plain later_calls
        (handle_refresh plain (at_time 30 "r2" "b") (some "a") accounts).1)).0.status
    ≢ 200
unfolding handle_refresh update_rows
refresh-once_example =
    refresh-once plain (at_time 30 "r2" "b") (at_time 70 "r9" "z") "a" later_calls accounts (tt, tt)
      (differ "#b" "#a" refl) later_calls-Fresh refl

logout-ends_example :
    (handle_refresh plain (at_time 70 "r9" "z") (some "a") (
      run plain later_calls
        (handle_logout plain (at_time 30 "r2" "b") (some "a") accounts).1)).0.status
    ≢ 200
unfolding handle_logout
logout-ends_example =
    logout-ends plain (at_time 30 "r2" "b") (at_time 70 "r9" "z") "a" later_calls accounts
      later_calls-Fresh refl

abbrev eve_signed_in : AuthInfo
eve_signed_in = record { user_id = "u1"; is_platform_admin = false; tenant_id = ""; role = "" }

change_password-ends_example :
    let changed =
      handle_change_password plain
        (at_time 30 "r2" "b")
        eve_signed_in
        (some ("eve's", "longer one"))
        accounts in
    let after = run plain later_calls changed.1 in
    (handle_refresh plain (at_time 70 "r9" "z") (some "a") after).0.status ≢ 200
unfolding handle_change_password
change_password-ends_example =
    change_password-ends plain (at_time 30 "r2" "b") (at_time 70 "r9" "z") eve_signed_in
      (some ("eve's", "longer one")) "a" eves_token later_calls accounts (tt, tt) refl refl refl
      later_calls-Fresh refl

login_sound_example :
    let k = at_time 30 "r2" "b" in
    let out = login plain k (some ("eve@x.org", "eve's")) accounts in
    (u : User) × (access : String) × (token : String) × (b : Accounts) × MayLogin plain k
      "eve@x.org" "eve's" accounts.db u
    × Issues plain k u access token accounts b
    × (out.0.body ≡ signed_in access token u)
    × (out.1.refresh_tokens ≡ b.refresh_tokens)
unfolding login
login_sound_example = login_sound plain (at_time 30 "r2" "b") "eve@x.org" "eve's" accounts refl

abbrev pair_issued : Accounts
pair_issued = record accounts {
  refresh_tokens = eves_token ∷ new_token (at_time 30 "r2" "b") "u1" "#b" ∷ [];
}

eve-Issues : Issues plain (at_time 30 "r2" "b") eve "jwtu1" "b" accounts pair_issued
eve-Issues = record { signed = refl; random = refl; free = refl; stored = refl; same_db = refl }

issued-refresh_example :
    (handle_refresh plain (at_time 99 "r3" "c") (some "b") pair_issued).0
    ≡ (record { status = 200; body = signed_in "jwtu1" "c" eve })
issued-refresh_example =
    issued-refresh plain (at_time 30 "r2" "b") (at_time 99 "r3" "c") eve eve "jwtu1" "b" "jwtu1" "c"
      accounts pair_issued pair_issued eve-Issues refl (omega arith)
      (λ e. absurd (ground (arith, e, eq_iff "b" ""))) (λ n. refl) refl refl refl refl refl

clean_tokens-accepts_example :
    find? (accepts 90 "#a") (clean_tokens 80 (eves_token ∷ []))
    ≡ find? (accepts 90 "#a") (eves_token ∷ [])
clean_tokens-accepts_example = clean_tokens-accepts 80 90 "#a" (eves_token ∷ []) (omega arith)

-- Signs eve's token of the 30th second only.
abbrev is_eves : AccessClaims → Bool
is_eves s = s.user_id == "u1" && not s.is_platform_admin && nat_eq s.expires_at 930

abbrev stamped : Crypto
stamped = record plain { sign = λ s. if is_eves s then some "ju1" else none }

abbrev claims_at : ℕ → String → Option Claims
claims_at now t =
    if t == "ju1" && ltb now 930
    then some (record { user_id = "u1"; is_platform_admin = false })
    else none

abbrev bearer : Request
bearer = record {
  authorization = "Bearer ju1";
  tenant = "";
  now = 40;
  new_id = "";
  fails = λ n. false;
}

abbrev echo : AuthInfo → Handler
echo ai = reply 200 done

signed_token :
    (s : AccessClaims) (t : String)
    → stamped.sign s ≡ some t
    → ("ju1" ≡ t) × ("u1" ≡ s.user_id) × (s.is_platform_admin ≡ false) × (s.expires_at ≡ 930)
signed_token s t e = elim (Bool-cases (is_eves s)) [
  | inl y ↦ ground (arith, y, e, eq_iff s.user_id "u1")
  | inr n ↦ absurd (ground (arith, n, e))
]

stamped-IsVerifier : IsVerifier stamped.sign claims_at
stamped-IsVerifier = record {
  present = λ s t e. subst (λ t. (t == "") ≡ false) (signed_token s t e).0 refl;
  accepts_early = λ s t now e early.
      let (token, user, plain_user, until) = signed_token s t e in
      subst
        (λ t.
          claims_at now t
          ≡ some (record { user_id = s.user_id; is_platform_admin = s.is_platform_admin }))
        token (ground (arith, user, plain_user, until, early));
  refuses_late = λ s t now e late.
      let (token, user, plain_user, until) = signed_token s t e in
      subst (λ t. claims_at now t ≡ none) token (ground (arith, until, late));
}

issued-require_auth_example :
    require_auth (claims_at 40) bearer echo small_db ≡ echo eve_signed_in small_db
unfolding cut_prefix
issued-require_auth_example =
    issued-require_auth stamped (at_time 30 "r2" "b") eve eve "ju1" "b" accounts pair_issued
      claims_at bearer echo small_db
      (record { signed = refl; random = refl; free = refl; stored = refl; same_db = refl })
      stamped-IsVerifier refl refl refl refl
