-- ===== src/Models/Roles.antt =====
-- internal/models/models.go: the tenant roles, ordered by privilege.
use ai_website_builder.Common.{ℕ, String, Bool, ◌==◌, ◌||◌, leb, if◌then◌else◌}

abbrev pub viewer : String
viewer = "viewer"

abbrev pub editor : String
editor = "editor"

abbrev pub tenant_admin : String
tenant_admin = "tenant_admin"

-- A role that the map lacks has rank 0.
abbrev pub role_rank : String → ℕ
role_rank role =
    if role == viewer
    then 1
    else if role == editor
    then 2
    else if role == tenant_admin
    then 3
    else 0

unfoldable pub role_at_least : String → String → Bool
role_at_least role min = leb (role_rank min) (role_rank role)

unfoldable pub valid_role : String → Bool
valid_role role = role == viewer || role == editor || role == tenant_admin
