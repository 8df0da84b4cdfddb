-- ===== src/Config/Tests.antt =====
-- internal/config/config.go: a .env file, and two starts without JWT_SECRET.
use ai_website_builder.Common.{ℕ, String, ◌<>◌, ◌≡◌, refl, none, some, List, [], ◌∷◌, arith}
use ai_website_builder.Common.Dict.{Dict, lookup, insert}
use ai_website_builder.Common.Strings.{
  cut_prefix, cut_at, contains_text, trim_space, trim_quotes, trim_left, trim_right,
}
use ai_website_builder.Config.{
  Config, whole, no_dir, hex_encode, set_env, load_line, load_lines, load_dot_env, load,
}
use ai_website_builder.Config.Restart.{load_restart}

abbrev dot_env : List String
dot_env =
    "# local settings" ∷ " PORT = \"9090\" " ∷ "PORT=1" ∷ "DATA_DIR='data'" ∷ "ADMIN_EMAIL" ∷ "=x"
    ∷ []

abbrev env : Dict String
env = ("DATA_DIR", "set") ∷ []

-- The environment wins over the file, the first line over a later one.
dot_env_loaded : load_dot_env (some dot_env) env ≡ (("DATA_DIR", "set") ∷ ("PORT", "9090") ∷ [])
unfolding load_dot_env load_lines load_line set_env lookup insert cut_prefix cut_at contains_text
    trim_space trim_quotes trim_left trim_right
dot_env_loaded = refl

abbrev bytes : List ℕ
bytes = 0 ∷ 1 ∷ 254 ∷ 255 ∷ 0 ∷ 1 ∷ 254 ∷ 255 ∷ 0 ∷ 1 ∷ 254 ∷ 255 ∷ 0 ∷ 1 ∷ 254 ∷ 255 ∷ []

hex_encoded : hex_encode (0 ∷ 31 ∷ 255 ∷ []) ≡ "001fff"
unfolding hex_encode
hex_encoded = refl

abbrev slash : String → String → String
slash dir file = dir <> "/" <> file

-- A short secret is replaced, and the new one stays.
load_restart_example :
    (cfg : Config) × (disk : Dict String) × (load slash
        (some dot_env)
        (some bytes)
        whole
        env
        (("set/.jwt_secret", "short") ∷ [])
      ≡ some (cfg, disk))
    × (load slash (some dot_env) none no_dir env disk ≡ some (cfg, disk))
load_restart_example =
    load_restart slash (some dot_env) bytes none no_dir env (("set/.jwt_secret", "short") ∷ [])
      (omega arith)
