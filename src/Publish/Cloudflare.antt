-- ===== src/Publish/Cloudflare.antt =====
-- internal/publish/cloudflare.go: AwaitDeployment, on the answers that come before the deadline.
use ai_website_builder.Common.{
  String, not, ◌&&◌, ◌||◌, ◌==◌, Option, none, some, List, [], ◌∷◌, if◌then◌else◌,
}

pub record CfDeployment : Type 0 where
  pub id : String
  pub commit_hash : String
  pub stage_name : String
  pub stage_status : String

-- One round of the loop: an error of the request, the list of deployments, or that list and the
-- end of the context while waiting for the next round.
pub data Poll : Type 0 where
  request_failed : String → Poll
  listed : List CfDeployment → Poll
  listed_last : List CfDeployment → String → Poll

pub data CfError : Type 0 where
  stage_failed waiting_failed : String → CfError

-- The loop over deployments: the id and the failed stage, if there is one.
unfoldable pub settled : String → List CfDeployment → Option (String × Option CfError)
settled commit [] = none
settled commit (d ∷ ds) =
    let rest = settled commit ds in
    if not (d.commit_hash == commit)
    then rest
    else if d.stage_status == "failure"
        || d.stage_status == "failed"
        || d.stage_status == "canceled"
    then some (d.id, some (stage_failed d.stage_name))
    else if d.stage_status == "success" && d.stage_name == "deploy"
    then some (d.id, none)
    else rest

-- The id, which may be empty, and the error, if there is one.
abbrev or_else :
    Option (String × Option CfError) → String × Option CfError → String × Option CfError
or_else none r = r
or_else (some o) r = o

unfoldable pub await : String → List Poll → String × Option CfError
await commit [] = ("", none)
await commit (request_failed e ∷ polls) = ("", some (waiting_failed e))
await commit (listed ds ∷ polls) = or_else (settled commit ds) (await commit polls)
await commit (listed_last ds e ∷ polls) = or_else (settled commit ds) ("", some (waiting_failed e))
