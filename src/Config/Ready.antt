-- ===== src/Config/Ready.antt =====
-- What the pre-run of every command leaves behind.
use skills.Prelude.{Option-cases, [], ◌∷◌, ◌⊎◌, inl, inr, ◌≡◌, ◌↔◌, none, arith}
use skills.Config.{
  Koanf, Os, config_path, state_path, make_dirs, init_dirs, env_prefix, env_key, load, pre_run,
}

module _ {K : Type 0} (os : Os) (koanf : Koanf K) where
  -- The pre-run succeeds exactly when both directories can be made and the environment can be
  -- loaded, whether or not the configuration file can be; and where a directory cannot be made, the
  -- configuration stays as it was.
  pub pre_run-succeeds :
      (k : K)
      → (((pre_run os koanf k).1 ≡ none) ↔ (
          (os.mkdir_all (os.dir (config_path os)) ≡ none)
          × (os.mkdir_all (state_path os) ≡ none)
          × ((koanf.load_env env_prefix
                (env_key os)
                (koanf.load_file (config_path os) koanf.new).0).1
              ≡ none)))
        × ((init_dirs os ≡ none) ⊎ ((pre_run os koanf k).0 ≡ k))
  unfolding pre_run init_dirs make_dirs load
  pre_run-succeeds k = (
    ((λ h. ground arith), (λ h. ground arith)),
    elim (Option-cases (make_dirs os (os.dir (config_path os) ∷ state_path os ∷ []))) [
      | inl n ↦ inl n
      | inr (e, p) ↦ inr (ground arith)
    ],
  )
