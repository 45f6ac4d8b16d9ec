-- ===== src/Config.antt =====
-- internal/config/config.go, and the pre-run of the root command in internal/cli/root.go. The koanf
-- library, the environment and the file system are parameters.
pub mod Keys
pub mod Ready
use skills.Prelude.{ℕ, String, ◌<>◌, Bool, Option, none, some, List, [], ◌∷◌, same, if◌then◌else◌}
use skills.Prelude.Strings.{replace_all, trim_prefix}
use skills.Domain.Errors.{Error, wrap}

-- `koanf.Koanf` as far as it is used: a new instance; `Load` with the YAML file of a path, and
-- with the environment variables of a prefix under the keys that a function gives them, each with
-- the instance after it and its error; and the queries. Integers are taken as not negative.
pub record Koanf (K : Type 0) : Type 0 where
  pub new : K
  pub load_file : String → K → K × Option Error
  pub load_env : String → (String → String) → K → K × Option Error
  pub exists : K → String → Bool
  pub string : K → String → String
  pub int : K → String → ℕ
  pub strings : K → String → List String

-- `os` and `path/filepath` as far as they are used, `to_lower` being `strings.ToLower`.
pub record Os : Type 0 where
  pub getenv : String → String
  pub user_home_dir : String
  pub join : List String → String
  pub dir : String → String
  pub mkdir_all : String → Option Error
  pub to_lower : String → String

abbrev pub service_name : String
service_name = "notifier"

abbrev pub env_prefix : String
env_prefix = "NOTIFIER_"

module _ (os : Os) where
  -- The key of an environment variable, from the function that `Load` passes.
  unfoldable pub env_key : String → String
  env_key s = replace_all (os.to_lower (trim_prefix s env_prefix)) "_" "."

  -- `ConfigPath`.
  unfoldable pub config_path : String
  config_path =
      let base = os.getenv "XDG_CONFIG_HOME" in
      let base' = if same base "" then os.join (os.user_home_dir ∷ ".config" ∷ []) else base in
      os.join (base' ∷ service_name ∷ "config.yaml" ∷ [])

  -- `StatePath`.
  unfoldable pub state_path : String
  state_path =
      let base = os.getenv "XDG_STATE_HOME" in
      let base' =
        if same base "" then os.join (os.user_home_dir ∷ ".local" ∷ "state" ∷ []) else base in
      os.join (base' ∷ service_name ∷ [])

  -- The loop of `InitDirs`: the first error ends it.
  unfoldable pub make_dirs : List String → Option Error
  make_dirs [] = none
  make_dirs (d ∷ dirs) = elim (os.mkdir_all d) [
    | some e ↦ some (wrap ("create directory " <> d) e)
    | none ↦ make_dirs dirs
  ]

  -- `InitDirs`.
  unfoldable pub init_dirs : Option Error
  unfolding make_dirs
  init_dirs = make_dirs (os.dir config_path ∷ state_path ∷ [])

  module _ {K : Type 0} (koanf : Koanf K) where
    -- `Load`: the new value of the global `K`, and the error.
    unfoldable pub load : K × Option Error
    load =
        let (k, _) = koanf.load_file config_path koanf.new in
        let (k', failed) = koanf.load_env env_prefix env_key k in
        (k', elim failed [ some e ↦ some (wrap "load env config" e) | none ↦ none ])

    -- `PersistentPreRunE`: `k` is the global instance before it.
    unfoldable pub pre_run : K → K × Option Error
    pre_run k = elim init_dirs [ some e ↦ (k, some e) | none ↦ load ]
