-- ===== src/Http/Members.antt =====
-- internal/httpapi/handlers_tenants.go: the handlers of a tenant's users.
use ai_website_builder.Common.{
  String, Bool, false, not, ◌&&◌, ◌||◌, ◌==◌, Option, none, some, List, [], ◌∷◌, ◌++◌, find?, any,
  where_rows, update_rows, if◌then◌else◌, leb,
}
use ai_website_builder.Common.Sort.{sort_by}
use ai_website_builder.Common.Strings.{trim_space}
use ai_website_builder.Models.Json.{str}
use ai_website_builder.Models.Roles.{valid_role}
use ai_website_builder.Db.{Db, User, TenantUser, record_audit}
use ai_website_builder.Auth.{Crypto}
use ai_website_builder.Http.Text.{valid_email}
use ai_website_builder.Http.Reply.{
  Request, Response, Member, members, invited, done, AuthInfo, Handler, refuse, internal_error,
  reply,
}

-- JOIN users u ON u.id = tu.user_id
unfoldable pub joined : TenantUser → List User → List Member
joined m [] = []
joined m (u ∷ us) =
    if u.id == m.user_id
    then record { membership = m; user_name = u.name; user_email = u.email } ∷ joined m us
    else joined m us

unfoldable pub members_of : String → List User → List TenantUser → List Member
unfolding joined
members_of tenant us [] = []
members_of tenant us (m ∷ ms) =
    (if m.tenant_id == tenant then joined m us else []) ++ members_of tenant us ms

unfoldable pub handle_list_tenant_users : Request → AuthInfo → Handler
unfolding members_of
handle_list_tenant_users req ai db =
    if req.fails 0
    then internal_error db
    else reply 200
        (members (
          sort_by (λ m n. leb m.membership.created_at n.membership.created_at)
            (members_of ai.tenant_id db.users db.tenant_users)))
        db

pub record InviteRequest : Type 0 where
  pub name : String
  pub email : String
  pub role : String

-- What the invitation draws: the id of a new user, the random bytes of its password in hexadecimal
-- digits (`none` is an error), and the salt of the hash.
pub record Draw : Type 0 where
  pub user_id : String
  pub random : Option String
  pub salt : String

abbrev pub is_member : String → String → TenantUser → Bool
is_member tenant user m = m.tenant_id == tenant && m.user_id == user

abbrev pub new_member : Request → String → String → String → TenantUser
new_member req tenant user role = record {
  id = req.new_id;
  tenant_id = tenant;
  user_id = user;
  role = role;
  created_at = req.now;
}

abbrev pub with_role : String → TenantUser → TenantUser
with_role role m = record m { role = role }

-- INSERT INTO tenant_users ... ON CONFLICT (tenant_id, user_id) DO UPDATE SET role; `none` is an
-- error.
unfoldable pub upsert_found :
    Request → String → String → String → Option TenantUser → Db → Option TenantUser × Db
upsert_found req tenant user role none db =
    if any (λ m. m.id == req.new_id) db.tenant_users
    then (none, db)
    else (let m = new_member req tenant user role in
        (some m, record db { tenant_users = db.tenant_users ++ m ∷ [] }))
upsert_found req tenant user role (some m) db = (
  some (with_role role m),
  record db { tenant_users = update_rows (is_member tenant user) (with_role role) db.tenant_users },
)

unfoldable pub upsert_member : Request → String → String → String → Db → Option TenantUser × Db
unfolding upsert_found
upsert_member req tenant user role db =
    if req.fails 2
    then (none, db)
    else upsert_found req tenant user role (find? (is_member tenant user) db.tenant_users) db

unfoldable pub invite_reply :
    Request → AuthInfo → InviteRequest → String → String → Option TenantUser × Db → Response × Db
invite_reply req ai body user password (none, db) = internal_error db
invite_reply req ai body user password (some m, db) = reply 201 (invited m password) (
    record_audit (req.fails 3) req.now ai.tenant_id ai.user_id "user.invited" "user" user
      (("email", str body.email) ∷ ("role", str body.role) ∷ []) db)

-- An empty password: the user was there before.
unfoldable pub assign_user : Request → AuthInfo → InviteRequest → String → String → Handler
unfolding upsert_member invite_reply
assign_user req ai body user password db =
    invite_reply req ai body user password (upsert_member req ai.tenant_id user body.role db)

abbrev pub new_user : Request → Draw → InviteRequest → String → User
new_user req d body hash = record {
  id = d.user_id;
  name = trim_space (if trim_space body.name == "" then body.email else body.name);
  email = body.email;
  password_hash = hash;
  is_platform_admin = false;
  status = "active";
  created_at = req.now;
  updated_at = req.now;
}

-- The primary key and UNIQUE (email).
abbrev pub user_taken : String → String → List User → Bool
user_taken id email us = any (λ u. u.id == id || u.email == email) us

unfoldable pub insert_user :
    Request → AuthInfo → Draw → InviteRequest → String → Option String → Handler
unfolding assign_user
insert_user req ai d body password none db = internal_error db
insert_user req ai d body password (some hash) db =
    if req.fails 1 || user_taken d.user_id body.email db.users
    then internal_error db
    else assign_user req ai body d.user_id password
        (record db { users = db.users ++ new_user req d body hash ∷ [] })

module _ (c : Crypto) where
  unfoldable pub create_user : Request → AuthInfo → Draw → InviteRequest → Option String → Handler
  unfolding insert_user
  create_user req ai d body none db = internal_error db
  create_user req ai d body (some password) db =
      insert_user req ai d body password (c.hash_password d.salt password) db

  unfoldable pub invite_user : Request → AuthInfo → Draw → InviteRequest → Option User → Handler
  unfolding create_user
  invite_user req ai d body none = create_user req ai d body d.random
  invite_user req ai d body (some u) = assign_user req ai body u.id ""

  -- The email of the body is in lower case; SELECT id FROM users WHERE lower(email) = $1
  unfoldable pub invite : Request → AuthInfo → Draw → InviteRequest → Handler
  unfolding invite_user
  invite req ai d body db =
      if not (valid_email body.email)
      then refuse 400 "valid email is required" db
      else if not (valid_role body.role)
      then refuse 400 "role must be tenant_admin, editor or viewer" db
      else if req.fails 0
      then internal_error db
      else invite_user req ai d body (find? (λ u. c.sql_lower u.email == body.email) db.users) db

  -- `to_lower` is strings.ToLower with its Unicode tables.
  unfoldable pub handle_invite_user :
      (String → String) → Request → AuthInfo → Draw → Option InviteRequest → Handler
  unfolding invite
  handle_invite_user to_lower req ai d none db = refuse 400 "invalid request body" db
  handle_invite_user to_lower req ai d (some body) db =
      invite req ai d (record body { email = to_lower (trim_space body.email) }) db

abbrev pub role_asked : Option String → String
role_asked none = ""
role_asked (some role) = role

-- A body that does not decode is refused like a role that is none.
unfoldable pub handle_update_tenant_user : Request → AuthInfo → String → Option String → Handler
handle_update_tenant_user req ai user body db =
    if not (valid_role (role_asked body))
    then refuse 400 "role must be tenant_admin, editor or viewer" db
    else if req.fails 0
    then internal_error db
    else if not (any (is_member ai.tenant_id user) db.tenant_users)
    then refuse 404 "membership not found" db
    else reply 200 done (
        record_audit (req.fails 1) req.now ai.tenant_id ai.user_id "user.role_changed" "user" user
          (("role", str (role_asked body)) ∷ [])
          (record db {
            tenant_users =
                update_rows (is_member ai.tenant_id user) (with_role (role_asked body))
                  db.tenant_users;
          }))

unfoldable pub handle_remove_tenant_user : Request → AuthInfo → String → Handler
handle_remove_tenant_user req ai user db =
    if req.fails 0
    then internal_error db
    else if not (any (is_member ai.tenant_id user) db.tenant_users)
    then refuse 404 "membership not found" db
    else reply 200 done (
        record_audit (req.fails 1) req.now ai.tenant_id ai.user_id "user.removed" "user" user []
          (record db {
            tenant_users = where_rows (λ m. not (is_member ai.tenant_id user m)) db.tenant_users;
          }))
