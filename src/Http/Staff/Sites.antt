-- ===== src/Http/Staff/Sites.antt =====
-- The handlers of websites are changes within the tenant of the request.
use ai_website_builder.Common.{
  String, false, ◌||◌, ◌==◌, ◌≡◌, refl, any, find?, if_cases, Option, none, some, or_false_right,
  and_right,
}
use ai_website_builder.Common.Strings.{trim_space}
use ai_website_builder.Db.{Db, Website}
use ai_website_builder.Http.Reply.{Request, AuthInfo}
use ai_website_builder.Http.Tenants.{bad_activity}
use ai_website_builder.Http.Websites.{
  WebsiteRequest, WebsiteUpdate, new_website, handle_create_website, handle_list_websites,
  is_website, found_website, handle_get_website, updated_website, save_website,
  handle_update_website,
}
use ai_website_builder.Http.Staff.{adds_website, sets_websites}
use ai_website_builder.Http.Staff.Handlers.{Does, audits, refused, activity}
use ai_website_builder.Http.Staff.Desk.{self}

module _ (req : Request) (ai : AuthInfo) (db : Db) where
  pub create_website-Does :
      (body : Option WebsiteRequest) → Does ai.tenant_id db (handle_create_website req ai body db)
  unfolding handle_create_website
  create_website-Does none = refused ai.tenant_id db _ refl
  create_website-Does (some body) =
      let D = Does ai.tenant_id db in
      let stop = refused ai.tenant_id db in
      if_cases D (trim_space body.name == "") _ _ (λ _. stop _ refl)
        λ _.
          if_cases D (req.fails 0 || any (λ w. w.id == req.new_id) db.websites) _ _
            (λ _. stop _ refl)
            λ n. record {
              changed = audits ai.tenant_id _ _ _ _ _ _ _ _ db _ (
                  adds_website (new_website req ai body) (self ai.tenant_id)
                    (or_false_right (req.fails 0) _ n) refl);
            }

  pub list_websites-Does : Does ai.tenant_id db (handle_list_websites req ai db)
  unfolding handle_list_websites
  list_websites-Does =
      if_cases (Does ai.tenant_id db) (req.fails 0) _ _ (λ _. refused ai.tenant_id db _ refl)
        (λ _. refused ai.tenant_id db _ refl)

  pub get_website-Does : (id : String) → Does ai.tenant_id db (handle_get_website req ai id db)
  unfolding handle_get_website
  get_website-Does id =
      if_cases (Does ai.tenant_id db) (req.fails 0) _ _ (λ _. refused ai.tenant_id db _ refl)
        (λ _. found (find? (is_website id ai.tenant_id) db.websites))
    where
      found : (o : Option Website) → Does ai.tenant_id db (found_website o db)
      found none = refused ai.tenant_id db _ refl
      found (some w) = refused ai.tenant_id db _ refl

  save_website-Does :
      (id : String) (u : WebsiteUpdate) (o : Option Website)
      → bad_activity u.status ≡ false
      → Does ai.tenant_id db (save_website req ai id u o db)
  unfolding save_website
  save_website-Does id u none ok = refused ai.tenant_id db _ refl
  save_website-Does id u (some w) ok = record {
    changed = audits ai.tenant_id _ _ _ _ _ _ _ _ db _ (
        sets_websites (is_website id ai.tenant_id) (updated_website req.now u)
          (λ w sel. and_right _ _ sel) (λ w. (refl, refl, activity u.status w.status ok)));
  }

  pub update_website-Does :
      (id why : String) (body : Option WebsiteUpdate)
      → Does ai.tenant_id db (handle_update_website req ai id why body db)
  unfolding handle_update_website
  update_website-Does id why none = refused ai.tenant_id db _ refl
  update_website-Does id why (some u) =
      let D = Does ai.tenant_id db in
      let stop = refused ai.tenant_id db in
      if_cases D (bad_activity u.status) _ _ (λ _. stop _ refl)
        λ ok.
          if_cases D (req.fails 0) _ _ (λ _. stop _ refl)
            λ _. save_website-Does id u (find? (is_website id ai.tenant_id) db.websites) ok
