-- ===== src/Http/Staff/Desk.antt =====
-- The handlers of a tenant's users are changes within the tenant of the request.
use ai_website_builder.Common.{
  String, Bool, true, false, not, ◌||◌, ◌==◌, ◌≡◌, refl, List, [], ◌∷◌, any, find?, if_cases,
  Option, none, some, arith, Bool-cases, inl, inr, or_false_right, eq_iff, and_left,
}
use ai_website_builder.Common.Strings.{trim_space}
use ai_website_builder.Models.Roles.{valid_role}
use ai_website_builder.Db.{Db, User, TenantUser}
use ai_website_builder.Auth.{Crypto}
use ai_website_builder.Http.Text.{valid_email}
use ai_website_builder.Http.Reply.{Request, AuthInfo}
use ai_website_builder.Http.Members.{
  InviteRequest, Draw, is_member, new_member, upsert_found, upsert_member, invite_reply,
  assign_user, new_user, user_taken, insert_user, create_user, invite_user, invite,
  handle_invite_user, role_asked, handle_update_tenant_user, handle_remove_tenant_user,
  handle_list_tenant_users,
}
use ai_website_builder.Http.Staff.{
  Change, adds_user, adds_member, sets_role, removes_members, joins,
}
use ai_website_builder.Http.Staff.Handlers.{Does, still, audits, refused}

find?-none : {A : Type 0} (p : A → Bool) (xs : List A) → find? p xs ≡ none → any p xs ≡ false
find?-none p [] e = refl
find?-none p (x ∷ xs) e = elim (Bool-cases (p x)) [
  | inl t ↦ absurd (ground (arith, t, e))
  | inr n ↦ rw n (find?-none p xs (rw n at e))
]

pub self : (s : String) → (s == s) ≡ true
self s = (eq_iff s s).1 refl

module _ (req : Request) (ai : AuthInfo) (db : Db) where
  upsert_found-Does :
      (user role : String) (o : Option TenantUser) (db' : Db)
      → valid_role role ≡ true
      → find? (is_member ai.tenant_id user) db'.tenant_users ≡ o
      → Change ai.tenant_id db' (upsert_found req ai.tenant_id user role o db').1
  unfolding upsert_found
  upsert_found-Does user role none db' ok e =
      elim (Bool-cases (any (λ m. m.id == req.new_id) db'.tenant_users)) [
        | inl t ↦ rw t (still ai.tenant_id db')
        | inr n ↦ rw n (
            adds_member (new_member req ai.tenant_id user role) (self ai.tenant_id) n
              (find?-none (is_member ai.tenant_id user) db'.tenant_users e) ok)
      ]
  upsert_found-Does user role (some m) db' ok e =
      sets_role (is_member ai.tenant_id user) role (λ m sel. and_left _ _ sel) ok

  upsert_member-Does :
      (user role : String) (db' : Db)
      → valid_role role ≡ true
      → Change ai.tenant_id db' (upsert_member req ai.tenant_id user role db').1
  unfolding upsert_member
  upsert_member-Does user role db' ok = elim (Bool-cases (req.fails 2)) [
    | inl t ↦ rw t (still ai.tenant_id db')
    | inr n ↦ rw n (
        upsert_found-Does user role (find? (is_member ai.tenant_id user) db'.tenant_users) db' ok
          refl)
  ]

  invite_reply-Does :
      (body : InviteRequest) (user password : String) (r : Option TenantUser × Db)
      → Change ai.tenant_id db r.1
      → Does ai.tenant_id db (invite_reply req ai body user password r)
  unfolding invite_reply
  invite_reply-Does body user password (none, db') c = record { changed = c }
  invite_reply-Does body user password (some m, db') c = record {
    changed = audits ai.tenant_id _ _ _ _ _ _ _ _ db db' c;
  }

  assign_user-Does :
      (body : InviteRequest) (user password : String) (db' : Db)
      → valid_role body.role ≡ true
      → Change ai.tenant_id db db'
      → Does ai.tenant_id db (assign_user req ai body user password db')
  unfolding assign_user
  assign_user-Does body user password db' ok c =
      invite_reply-Does body user password _ (joins c (upsert_member-Does user body.role db' ok))

  insert_user-Does :
      (d : Draw) (body : InviteRequest) (password : String) (o : Option String)
      → valid_role body.role ≡ true
      → Does ai.tenant_id db (insert_user req ai d body password o db)
  unfolding insert_user
  insert_user-Does d body password none ok = refused ai.tenant_id db _ refl
  insert_user-Does d body password (some hash) ok =
      if_cases (Does ai.tenant_id db) (req.fails 1 || user_taken d.user_id body.email db.users) _ _
        (λ _. refused ai.tenant_id db _ refl)
        λ n.
          assign_user-Does body d.user_id password _ ok
            (adds_user (new_user req d body hash) (or_false_right (req.fails 1) _ n))

  create_user-Does :
      (c : Crypto) (d : Draw) (body : InviteRequest) (o : Option String)
      → valid_role body.role ≡ true
      → Does ai.tenant_id db (create_user c req ai d body o db)
  unfolding create_user
  create_user-Does c d body none ok = refused ai.tenant_id db _ refl
  create_user-Does c d body (some password) ok =
      insert_user-Does d body password (c.hash_password d.salt password) ok

  invite_user-Does :
      (c : Crypto) (d : Draw) (body : InviteRequest) (o : Option User)
      → valid_role body.role ≡ true
      → Does ai.tenant_id db (invite_user c req ai d body o db)
  unfolding invite_user
  invite_user-Does c d body none ok = create_user-Does c d body d.random ok
  invite_user-Does c d body (some u) ok =
      assign_user-Does body u.id "" db ok (still ai.tenant_id db)

  invite-Does :
      (c : Crypto) (d : Draw) (body : InviteRequest)
      → Does ai.tenant_id db (invite c req ai d body db)
  unfolding invite
  invite-Does c d body =
      let D = Does ai.tenant_id db in
      let stop = refused ai.tenant_id db in
      if_cases D (not (valid_email body.email)) _ _ (λ _. stop _ refl)
        λ _.
          if_cases D (not (valid_role body.role)) _ _ (λ _. stop _ refl)
            λ ok.
              if_cases D (req.fails 0) _ _ (λ _. stop _ refl)
                λ _.
                  invite_user-Does c d body
                    (find? (λ u. c.sql_lower u.email == body.email) db.users) (ground (arith, ok))

  pub invite_user_route-Does :
      (c : Crypto) (to_lower : String → String) (d : Draw) (body : Option InviteRequest)
      → Does ai.tenant_id db (handle_invite_user c to_lower req ai d body db)
  unfolding handle_invite_user
  invite_user_route-Does c to_lower d none = refused ai.tenant_id db _ refl
  invite_user_route-Does c to_lower d (some body) =
      invite-Does c d (record body { email = to_lower (trim_space body.email) })

  pub list_users-Does : Does ai.tenant_id db (handle_list_tenant_users req ai db)
  unfolding handle_list_tenant_users
  list_users-Does =
      if_cases (Does ai.tenant_id db) (req.fails 0) _ _ (λ _. refused ai.tenant_id db _ refl)
        (λ _. refused ai.tenant_id db _ refl)

  pub update_user-Does :
      (user : String) (body : Option String)
      → Does ai.tenant_id db (handle_update_tenant_user req ai user body db)
  unfolding handle_update_tenant_user
  update_user-Does user body =
      let D = Does ai.tenant_id db in
      let stop = refused ai.tenant_id db in
      if_cases D (not (valid_role (role_asked body))) _ _ (λ _. stop _ refl)
        λ ok.
          if_cases D (req.fails 0) _ _ (λ _. stop _ refl)
            λ _.
              if_cases D (not (any (is_member ai.tenant_id user) db.tenant_users)) _ _
                (λ _. stop _ refl)
                λ _. record {
                  changed = audits ai.tenant_id _ _ _ _ _ _ _ _ db _ (
                      sets_role (is_member ai.tenant_id user) (role_asked body)
                        (λ m sel. and_left _ _ sel) (ground (arith, ok)));
                }

  pub remove_user-Does :
      (user : String) → Does ai.tenant_id db (handle_remove_tenant_user req ai user db)
  unfolding handle_remove_tenant_user
  remove_user-Does user =
      let D = Does ai.tenant_id db in
      let stop = refused ai.tenant_id db in
      if_cases D (req.fails 0) _ _ (λ _. stop _ refl)
        λ _.
          if_cases D (not (any (is_member ai.tenant_id user) db.tenant_users)) _ _
            (λ _. stop _ refl)
            λ _. record {
              changed = audits ai.tenant_id _ _ _ _ _ _ _ _ db _ (
                  removes_members (λ m. not (is_member ai.tenant_id user m))
                    (λ m other. rw other refl));
            }
