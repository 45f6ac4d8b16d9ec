-- ===== src/Config/Keys.antt =====
-- Which environment variable sets which flag of the commands.
use skills.Prelude.{String, ◌<>◌, true, false, ◌≡◌, ◌≢◌, refl, subst, arith}
use skills.Prelude.Strings.{
  replace_all, has_char, trim_prefix, replace_all-has_char, replace_all-replace_all,
  trim_prefix-append,
}
use skills.Config.{Koanf, Os, env_prefix, config_path, env_key, load}
use skills.Daemon.Settings.{dot_key, resolve_string}

-- The variable that stands for a flag: the prefix, then the flag in upper case with underscores.
abbrev pub variable : (String → String) → String → String
variable to_upper key = env_prefix <> to_upper (replace_all key "-" "_")

module _ (os : Os) where
  -- Whatever the environment holds and however letters are lowered, no environment variable is
  -- stored under the key `ws.allowed_origins`, by which the allowed origins are looked up.
  pub env_key-ne-allowed_origins : (s : String) → env_key os s ≢ "ws.allowed_origins"
  unfolding env_key has_char
  env_key-ne-allowed_origins s e =
      let clean : has_char (env_key os s) "_" ≡ false =
        replace_all-has_char (os.to_lower (trim_prefix s env_prefix)) "_" "." refl in
      let found = subst (λ t. has_char t "_" ≡ false) e clean in ground arith

  -- A variable's key is the key of its flag.
  env_key-variable :
      (to_upper : String → String) (key : String)
      → os.to_lower (to_upper (replace_all key "-" "_")) ≡ replace_all key "-" "_"
      → has_char key "_" ≡ false
      → env_key os (variable to_upper key) ≡ dot_key key
  unfolding env_key dot_key
  env_key-variable to_upper key low clean =
      rw (trim_prefix-append env_prefix (to_upper (replace_all key "-" "_")), low)
        (replace_all-replace_all key "-" "_" "." clean)

-- What koanf documents of a variable that is set, no other variable having its key: after the
-- environment is loaded, the key exists and has the variable's value.
abbrev pub Sets : {K : Type 0} → Koanf K → (String → String) → String → String → Type 0
Sets koanf cb name value =
    (k : _)
    → (koanf.exists (koanf.load_env env_prefix cb k).0 (cb name) ≡ true)
      × (koanf.string (koanf.load_env env_prefix cb k).0 (cb name) ≡ value)

module _ {K : Type 0} (os : Os) (koanf : Koanf K) (flags : String → String)
    (to_upper : String → String) (key value : String) where
  -- For a flag whose name has no underscore, where lowering undoes the upper case of its variable
  -- and koanf stores a variable that is set under its key: once the configuration is loaded, the
  -- flag resolves to the value of its variable, whatever the file and the command line say.
  pub resolve_string-load :
      os.to_lower (to_upper (replace_all key "-" "_")) ≡ replace_all key "-" "_"
      → has_char key "_" ≡ false
      → Sets koanf (env_key os) (variable to_upper key) value
      → resolve_string koanf (load os koanf).0 flags key ≡ value
  unfolding load resolve_string
  resolve_string-load low clean sets =
      let same = env_key-variable os to_upper key low clean in
      let stored = sets (koanf.load_file (config_path os) koanf.new).0 in
      rw (← same, stored.0) (stored.1)
