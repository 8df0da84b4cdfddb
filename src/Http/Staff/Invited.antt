-- ===== src/Http/Staff/Invited.antt =====
-- What an invitation, a removal and the disabling of a tenant mean for those who want to enter.
use ai_website_builder.Common.{
  ℕ, String, Bool, true, false, not, ◌||◌, ◌==◌, ◌≡◌, ◌≢◌, ◌∙◌, refl, sym, ap, subst, inl, inr, ◌⊎◌,
  Option, none, some, List, [], ◌∷◌, ◌++◌, find?, any, where_rows, update_rows, if_cases, arith,
  Bool-cases,
}
use ai_website_builder.Common.Strings.{trim_space}
use ai_website_builder.Common.Dict.{Dict}
use ai_website_builder.Models.Json.{Json, str}
use ai_website_builder.Models.Roles.{valid_role}
use ai_website_builder.Db.{Db, User, TenantUser, record_audit}
use ai_website_builder.Auth.{Crypto}
use ai_website_builder.Http.Text.{valid_email}
use ai_website_builder.Http.Reply.{Request, Response, AuthInfo, Handler, invited}
use ai_website_builder.Http.Access.{membership, tenant_route, Claims}
use ai_website_builder.Http.Access.Grants.{
  Grants, as_platform_admin, as_member, CanEnter, IsCaller, tenant_route_sound, IsRefused,
}
use ai_website_builder.Http.Members.{
  InviteRequest, Draw, is_member, new_member, new_user, upsert_found, upsert_member, invite_reply,
  assign_user, user_taken, insert_user, create_user, invite_user, invite, handle_invite_user,
  handle_remove_tenant_user, with_role,
}
use ai_website_builder.Http.Staff.Desk.{self}

find?-append :
    {A : Type 0} (p : A → Bool) (xs : List A) (z : A)
    → find? p xs ≡ none
    → p z ≡ true
    → find? p (xs ++ z ∷ []) ≡ some z
find?-append p [] z e t = rw t refl
find?-append p (x ∷ xs) z e t = elim (Bool-cases (p x)) [
  | inl y ↦ absurd (ground (arith, y, e))
  | inr n ↦ rw n (find?-append p xs z (rw n at e) t)
]

pub find?-update_rows :
    {A : Type 0} (p : A → Bool) (f : A → A) (xs : List A) (x : A)
    → ((y : A) → p (f y) ≡ p y)
    → find? p xs ≡ some x
    → find? p (update_rows p f xs) ≡ some (f x)
unfolding update_rows
find?-update_rows p f [] x k e = cc
find?-update_rows p f (y ∷ ys) x k e = elim (Bool-cases (p y)) [
  | inl t ↦ let same : y ≡ x = ground (arith, t, e) in rw (t, k y, t) (ap (λ z. some (f z)) same)
  | inr n ↦ rw (n, n) (find?-update_rows p f ys x k (rw n at e))
]

find?-removed :
    {A : Type 0} (p : A → Bool) (xs : List A) → find? p (where_rows (λ x. not (p x)) xs) ≡ none
unfolding where_rows
find?-removed p [] = refl
find?-removed p (x ∷ xs) = elim (Bool-cases (p x)) [
  | inl t ↦ rw t (find?-removed p xs)
  | inr n ↦ rw (n, n) (find?-removed p xs)
]

module _ (req : Request) (ai : AuthInfo) where
  -- A reply of 201 carries a membership that is now this user's, with the role that was asked.
  record Assigns (user password role : String) (us : List User) (r : Response × Db) : Type 0 where
    assigned :
        r.0.status ≡ 201
        → (m : TenantUser) × (r.0.body ≡ invited m password)
          × (membership r.1 ai.tenant_id user ≡ some m)
          × (m.role ≡ role)
          × (r.1.users ≡ us)

  -- What the upsert returns is the membership that a request of the user would find.
  abbrev Found : String → String → List User → Option TenantUser × Db → Type 0
  Found user role us (none, db) = Unit
  Found user role us (some m, db) =
      (membership db ai.tenant_id user ≡ some m) × (m.role ≡ role) × (db.users ≡ us)

  upsert_found-Found :
      (user role : String) (o : Option TenantUser) (db : Db)
      → find? (is_member ai.tenant_id user) db.tenant_users ≡ o
      → Found user role db.users (upsert_found req ai.tenant_id user role o db)
  unfolding upsert_found
  upsert_found-Found user role none db e =
      elim (Bool-cases (any (λ m. m.id == req.new_id) db.tenant_users)) [
        | inl t ↦ rw t tt
        | inr n ↦ rw n (
          find?-append (is_member ai.tenant_id user) db.tenant_users
              (new_member req ai.tenant_id user role) e (rw (self ai.tenant_id, self user) refl),
          refl,
          refl,
        )
      ]
  upsert_found-Found user role (some m) db e = (
    find?-update_rows (is_member ai.tenant_id user) (with_role role) db.tenant_users m (λ y. refl)
        e,
    refl,
    refl,
  )

  upsert_member-Found :
      (user role : String) (db : Db)
      → Found user role db.users (upsert_member req ai.tenant_id user role db)
  unfolding upsert_member
  upsert_member-Found user role db = elim (Bool-cases (req.fails 2)) [
    | inl t ↦ rw t tt
    | inr n ↦
        rw n (
          upsert_found-Found user role (find? (is_member ai.tenant_id user) db.tenant_users) db
            refl)
  ]

  audited-membership :
      (fails : Bool) (user : String) (now : ℕ) (t u action entity id : String) (meta : Dict Json)
      (db : Db)
      → membership (record_audit fails now t u action entity id meta db) ai.tenant_id user
        ≡ membership db ai.tenant_id user
  unfolding record_audit
  audited-membership true user now t u action entity id meta db = refl
  audited-membership false user now t u action entity id meta db = refl

  audited-users :
      (fails : Bool) (now : ℕ) (t u action entity id : String) (meta : Dict Json) (db : Db)
      → (record_audit fails now t u action entity id meta db).users ≡ db.users
  unfolding record_audit
  audited-users true now t u action entity id meta db = refl
  audited-users false now t u action entity id meta db = refl

  invite_reply-Assigns :
      (body : InviteRequest) (user password : String) (us : List User) (r : Option TenantUser × Db)
      → Found user body.role us r
      → Assigns user password body.role us (invite_reply req ai body user password r)
  unfolding invite_reply
  invite_reply-Assigns body user password us (none, db) h = record {
    assigned = λ ok. absurd (omega (arith, ok));
  }
  invite_reply-Assigns body user password us (some m, db) (member, role, same) = record {
    assigned = λ ok. (
      m,
      refl,
      audited-membership (req.fails 3) user req.now ai.tenant_id ai.user_id "user.invited" "user"
            user (("email", str body.email) ∷ ("role", str body.role) ∷ []) db
          ∙ member,
      role,
      audited-users (req.fails 3) req.now ai.tenant_id ai.user_id "user.invited" "user" user
            (("email", str body.email) ∷ ("role", str body.role) ∷ []) db
          ∙ same,
    );
  }

  assign_user-Assigns :
      (body : InviteRequest) (user password : String) (db : Db)
      → Assigns user password body.role db.users (assign_user req ai body user password db)
  unfolding assign_user
  assign_user-Assigns body user password db =
      invite_reply-Assigns body user password db.users _ (upsert_member-Found user body.role db)

-- Who is invited under an email: the account that has it, or a new one, whose password is the one
-- that was drawn.
abbrev pub Invitee : Crypto → Draw → String → List User → List User → User → String → Type 0
Invitee c d email before after u password =
    ((find? (λ v. c.sql_lower v.email == email) before ≡ some u)
      × (password ≡ "")
      × (after ≡ before))
    ⊎ ((find? (λ v. c.sql_lower v.email == email) before ≡ none)
        × (u.id ≡ d.user_id)
        × (u.email ≡ email)
        × (u.status ≡ "active")
        × (u.is_platform_admin ≡ false)
        × (d.random ≡ some password)
        × (c.hash_password d.salt password ≡ some u.password_hash)
        × (after ≡ before ++ u ∷ []))

module _ (req : Request) (ai : AuthInfo) (c : Crypto) (d : Draw) where
  -- A reply of 201 has made the invitee a member, with the role that was asked.
  record Invites (body : InviteRequest) (before : List User) (r : Response × Db) : Type 0 where
    joined :
        r.0.status ≡ 201
        → (u : User) × (password : String) × (m : TenantUser) × Invitee c d body.email before
            r.1.users u password
          × (r.0.body ≡ invited m password)
          × (membership r.1 ai.tenant_id u.id ≡ some m)
          × (m.role ≡ body.role)

  refused :
      (body : InviteRequest) (before : List User) (r : Response × Db)
      → r.0.status ≢ 201
      → Invites body before r
  refused body before r bad = record { joined = λ ok. absurd (bad ok) }

  invites :
      (body : InviteRequest) (before us : List User) (u : User) (password : String)
      (r : Response × Db)
      → Invitee c d body.email before us u password
      → Assigns req ai u.id password body.role us r
      → Invites body before r
  invites body before us u password r who a = record {
    joined = λ ok.
        let (m, shown, member, role, same) = a.assigned ok in
        (
          u,
          password,
          m,
          subst (λ after. Invitee c d body.email before after u password) (sym same) who,
          shown,
          member,
          role,
        );
  }

  insert_user-Invites :
      (body : InviteRequest) (password : String) (o : Option String) (db : Db)
      → find? (λ v. c.sql_lower v.email == body.email) db.users ≡ none
      → d.random ≡ some password
      → c.hash_password d.salt password ≡ o
      → Invites body db.users (insert_user req ai d body password o db)
  unfolding insert_user
  insert_user-Invites body password none db new drawn hashed =
      refused body db.users _ (λ e. omega arith)
  insert_user-Invites body password (some hash) db new drawn hashed =
      let u = new_user req d body hash in
      let us = db.users ++ u ∷ [] in
      if_cases (Invites body db.users) (req.fails 1 || user_taken d.user_id body.email db.users) _ _
        (λ _. refused body db.users _ (λ e. omega arith))
        (λ _.
          invites body db.users us u password _
            (inr (new, refl, refl, refl, refl, drawn, hashed, refl))
            (assign_user-Assigns req ai body d.user_id password (record db { users = us })))

  create_user-Invites :
      (body : InviteRequest) (o : Option String) (db : Db)
      → find? (λ v. c.sql_lower v.email == body.email) db.users ≡ none
      → d.random ≡ o
      → Invites body db.users (create_user c req ai d body o db)
  unfolding create_user
  create_user-Invites body none db new drawn = refused body db.users _ (λ e. omega arith)
  create_user-Invites body (some password) db new drawn =
      insert_user-Invites body password (c.hash_password d.salt password) db new drawn refl

  invite_user-Invites :
      (body : InviteRequest) (o : Option User) (db : Db)
      → find? (λ v. c.sql_lower v.email == body.email) db.users ≡ o
      → Invites body db.users (invite_user c req ai d body o db)
  unfolding invite_user
  invite_user-Invites body (some u) db known =
      invites body db.users db.users u "" _ (inl (known, refl, refl))
        (assign_user-Assigns req ai body u.id "" db)
  invite_user-Invites body none db new = create_user-Invites body d.random db new refl

  invite-Invites :
      (body : InviteRequest) (db : Db) → Invites body db.users (invite c req ai d body db)
  unfolding invite
  invite-Invites body db =
      let I = Invites body db.users in
      let stop = refused body db.users in
      if_cases I (not (valid_email body.email)) _ _ (λ _. stop _ (λ e. omega arith))
        λ _.
          if_cases I (not (valid_role body.role)) _ _ (λ _. stop _ (λ e. omega arith))
            λ _.
              if_cases I (req.fails 0) _ _ (λ _. stop _ (λ e. omega arith))
                λ _.
                  invite_user-Invites body (find? (λ u. c.sql_lower u.email == body.email) db.users)
                    db refl

-- An invitation that answers 201 has made the invitee a member of the tenant, with the role that was
-- asked: the membership in the answer is the one that the next request of that user goes by. The
-- invitee is the account that has the email of the body, trimmed and in lower case, if there is one,
-- and then no account changes. Otherwise it is a new account with this email, active and no
-- platform admin, whose password is the drawn one that the answer shows.
pub handle_invite_user-membership :
    (c : Crypto) (to_lower : String → String) (req : Request) (ai : AuthInfo) (d : Draw)
    (body : InviteRequest) (db : Db)
    → (handle_invite_user c to_lower req ai d (some body) db).0.status ≡ 201
    → let r = handle_invite_user c to_lower req ai d (some body) db in
      (u : User) × (password : String) × (m : TenantUser) × Invitee c d
        (to_lower (trim_space body.email))
        db.users
        r.1.users
        u
        password
      × (r.0.body ≡ invited m password)
      × (membership r.1 ai.tenant_id u.id ≡ some m)
      × (m.role ≡ body.role)
unfolding handle_invite_user
handle_invite_user-membership c to_lower req ai d body db =
    (invite-Invites req ai c d (record body { email = to_lower (trim_space body.email) }) db).joined

-- Where nobody can enter, the middleware refuses.
pub nobody :
    (parse : String → Option Claims) (min : String) (req : Request) (next : AuthInfo → Handler)
    (db : Db)
    → ((ai : AuthInfo) → CanEnter parse min req db ai → ⊥)
    → IsRefused db (tenant_route parse min req next db)
nobody parse min req next db shut = elim (tenant_route_sound parse min req next db) [
  | inl refused ↦ refused
  | inr (ai, can, e) ↦ absurd (shut ai can)
]

-- The callers that a token names are this user, who is no platform admin.
abbrev pub IsOnly : (String → Option Claims) → Request → Db → String → Type 0
IsOnly parse req db user =
    (id : String) (admin : Bool) → IsCaller parse req db id admin → (id ≡ user) × (admin ≡ false)

no_grant :
    (db : Db) (tenant user : String) (role : String)
    → membership db tenant user ≡ none
    → Grants db tenant user false role
    → ⊥
no_grant db tenant user role gone (as_platform_admin t known admin e) = ground (arith, admin)
no_grant db tenant user role gone (as_member t m known plain active member e) =
    ground (arith, sym gone ∙ member)

removed :
    (req : Request) (ai : AuthInfo) (user : String) (db : Db)
    → (handle_remove_tenant_user req ai user db).0.status ≡ 200
    → membership (handle_remove_tenant_user req ai user db).1 ai.tenant_id user ≡ none
unfolding handle_remove_tenant_user
removed req ai user db ok = elim (Bool-cases (req.fails 0)) [
  | inl down ↦ absurd (ground (arith, down, ok))
  | inr up ↦ elim (Bool-cases (any (is_member ai.tenant_id user) db.tenant_users)) [
    | inr n ↦ absurd (ground (arith, up, n, ok))
    | inl t ↦
        rw (up, t)
          (audited-membership req ai (req.fails 1) user req.now ai.tenant_id ai.user_id
              "user.removed" "user" user [] _
            ∙ find?-removed (is_member ai.tenant_id user) db.tenant_users)
  ]
]

-- Once a removal has answered 200, no request of the removed user to the tenant reaches a handler:
-- every route of the tenant answers it 401 or 403 and changes nothing, unless the user is a
-- platform admin.
pub handle_remove_tenant_user-IsRefused :
    (req later : Request) (ai : AuthInfo) (user min : String) (parse : String → Option Claims)
    (next : AuthInfo → Handler) (db : Db)
    → (handle_remove_tenant_user req ai user db).0.status ≡ 200
    → later.tenant ≡ ai.tenant_id
    → IsOnly parse later (handle_remove_tenant_user req ai user db).1 user
    → let after = (handle_remove_tenant_user req ai user db).1 in
      IsRefused after (tenant_route parse min later next after)
handle_remove_tenant_user-IsRefused req later ai user min parse next db ok same only =
    let after = (handle_remove_tenant_user req ai user db).1 in
    nobody parse min later next after (λ who can.
      let (id, plain) = only who.user_id who.is_platform_admin can.caller in
      no_grant after ai.tenant_id user who.role (removed req ai user db ok) (
        subst (λ tenant. Grants after tenant user false who.role) same
          (subst (λ u. Grants after later.tenant u false who.role) id
            (subst (λ a. Grants after later.tenant who.user_id a who.role) plain can.grants))))
