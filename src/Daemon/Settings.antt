-- ===== src/Daemon/Settings.antt =====
-- cmd/daemon/daemon.go and dsn_default.go, dsn_qa.go: how the settings of the daemon are found.
pub mod Origins
use Prim.Native.Char.{Char}
use skills.Prelude.{ℕ, ◌*◌, String, Bool, Option, none, some, List, [], ◌∷◌, same, if◌then◌else◌}
use skills.Prelude.Strings.{replace_all, split}
use skills.Config.{Koanf, Os}
use skills.Email.Console.{second}

-- `dotKey`.
unfoldable pub dot_key : String → String
dot_key key = replace_all key "-" "."

-- `k` is the loaded `config.K`; a flag's value is found by its name. The functions of the same name
-- in cmd/mcp-bridge/bridge.go have the same text.
module _ {K : Type 0} (koanf : Koanf K) (k : K) where
  -- `resolveString`.
  unfoldable pub resolve_string : (String → String) → String → String
  resolve_string flags key =
      if koanf.exists k (dot_key key) then koanf.string k (dot_key key) else flags key

  -- `resolveInt`.
  unfoldable pub resolve_int : (String → ℕ) → String → ℕ
  resolve_int flags key =
      if koanf.exists k (dot_key key) then koanf.int k (dot_key key) else flags key

  -- `resolveDuration`.
  unfoldable pub resolve_duration : (String → ℕ) → String → ℕ
  unfolding resolve_int
  resolve_duration flags key = resolve_int flags key * second

-- `resolveDSN` of each build.
unfoldable pub resolve_dsn : Bool → String → String
resolve_dsn qa dsn = if qa then ":memory:" else dsn

abbrev pub default_origins : List String
default_origins = "localhost:*" ∷ "127.0.0.1:*" ∷ []

-- The loop over the comma-separated pieces; `trim_space` is `strings.TrimSpace`.
unfoldable pub nonblank : (String → String) → List String → List String
nonblank trim_space [] = []
nonblank trim_space (o ∷ pieces) =
    let trimmed = trim_space o in
    let rest = nonblank trim_space pieces in if same trimmed "" then rest else trimmed ∷ rest

-- `origins` if there are any.
abbrev pub or_else : List String → List String → List String
or_else [] others = others
or_else (o ∷ origins) others = o ∷ origins

module _ {K : Type 0} (koanf : Koanf K) (k : K) (os : Os) (trim_space : String → String) where
  -- The environment variable, read directly.
  unfoldable pub origins_of_env : List String
  origins_of_env =
      let value = os.getenv "NOTIFIER_WS_ALLOWED_ORIGINS" in
      if same value "" then [] else nonblank trim_space (split value ",")

  -- `resolveAllowedOrigins`.
  unfoldable pub resolve_allowed_origins : List String
  resolve_allowed_origins =
      let configured : List String =
        if koanf.exists k "ws.allowed_origins" then koanf.strings k "ws.allowed_origins" else [] in
      or_else configured (or_else origins_of_env default_origins)
