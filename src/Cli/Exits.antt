-- ===== src/Cli/Exits.antt =====
-- When the process exits with which status.
use skills.Prelude.{
  ℕ, String, Bool, ◌≡◌, ◌↔◌, ◌⊎◌, refl, Option, none, some, List, inl, inr, arith, Option-cases,
}
use skills.Domain.Errors.{Error}
use skills.Config.{Koanf, Os, config_path, state_path, env_prefix, env_key, pre_run}
use skills.Config.Ready.{pre_run-succeeds}
use skills.Daemon.Server.{Services, Ending, Effect, returned, panicked, server_config, run_server}
use skills.Bridge.{Http, Event, bridge}
use skills.Cli.{
  RunE, run_with_fs, run_bridge, RootCommand, new_root_cmd, Flags, Parsed, done, selected,
  bridge_settings, nothing, exit, daemon_process, bridge_process, run, execute,
}

module _ {K : Type 0} (os : Os) (koanf : Koanf K) (services : Services) (http : Http) (qa : Bool)
    (shown : String → ℕ → String) (lines : List String) (scan_error : Option Error) where
  -- The run function of a command returns no error.
  abbrev pub Returns : RunE → String → K → Flags → Type 0
  Returns run_with_fs version k flags =
      (run_server services
        (server_config koanf k flags.get_string flags.get_int (flags.get_bool "dev") version) os qa
        shown).0
      ≡ returned none
  Returns run_bridge version k flags =
      let (url, token) = bridge_settings koanf k flags.get_string in
      (bridge http url token scan_error 0 lines).0 ≡ none

  -- The directories can be made and the environment can be loaded.
  abbrev pub IsReady : Type 0
  IsReady =
      (os.mkdir_all (os.dir (config_path os)) ≡ none)
      × (os.mkdir_all (state_path os) ≡ none)
      × ((koanf.load_env env_prefix (env_key os) (koanf.load_file (config_path os) koanf.new).0).1
          ≡ none)

  abbrev pub Succeeds : Parsed → String → K → Type 0
  Succeeds (done e) version k = e ≡ none
  Succeeds (selected command flags) version k =
      IsReady × Returns command.run_e version (pre_run os koanf k).0 flags

  run-exit :
      (run_e : RunE) (version : String) (k : K) (flags : Flags)
      → ((run os koanf services http qa shown lines scan_error run_e version k flags).status
          ≡ exit 0)
        ↔ Returns run_e version k flags
  unfolding run
  run-exit run_with_fs version k flags = daemon_exit _
    where
      daemon_exit :
          (r : Ending × List Effect) → ((daemon_process r).status ≡ exit 0) ↔ (r.0 ≡ returned none)
      daemon_exit (returned none, effects) = ((λ _. refl), (λ _. refl))
      daemon_exit (returned (some e), effects) =
          ((λ p. absurd (ground arith)), (λ p. absurd (ground arith)))
      daemon_exit (panicked, effects) = ((λ p. absurd (cc)), (λ p. absurd (cc)))
  run-exit run_bridge version k flags = bridge_exit _
    where
      bridge_exit :
          (r : Option Error × List Event) → ((bridge_process r).status ≡ exit 0) ↔ (r.0 ≡ none)
      bridge_exit (none, events) = ((λ _. refl), (λ _. refl))
      bridge_exit (some e, events) = ((λ p. absurd (ground arith)), (λ p. absurd (cc)))

  -- The process exits with status 0 exactly when cobra ends by itself without an error (help, the
  -- version), or it selects a command, both directories can be made, the environment can be
  -- loaded, and the command's run function returns no error; and nothing of a command is run
  -- unless the directories and the environment are ready.
  pub execute-Exits :
      (parse : RootCommand → Parsed) (version : String) (k : K)
      → let p = execute os koanf services http qa shown lines scan_error parse version k in
        ((p.status ≡ exit 0) ↔ Succeeds (parse (new_root_cmd version)) version k)
        × ((p.ran ≡ nothing) ⊎ IsReady)
  unfolding execute
  execute-Exits parse version k = go _ refl
    where
      go :
          (x : Parsed)
          → parse (new_root_cmd version) ≡ x
          → let p = execute os koanf services http qa shown lines scan_error parse version k in
            ((p.status ≡ exit 0) ↔ Succeeds (parse (new_root_cmd version)) version k)
            × ((p.ran ≡ nothing) ⊎ IsReady)
      go (done none) q = rw (q, execute) (((λ _. refl), (λ _. refl)), inl refl)
      go (done (some e)) q =
          rw (q, execute) (((λ p. absurd (ground arith)), (λ p. absurd (cc))), inl refl)
      go (selected command flags) q =
          let ((ready, enough), _) = pre_run-succeeds os koanf k in
          elim (Option-cases (pre_run os koanf k).1) [
            | inl p ↦
                let (then_runs, enough_run) =
                  run-exit command.run_e version (pre_run os koanf k).0 flags in
                rw (q, execute, p)
                  (((λ s. (ready p, then_runs s)), (λ c. enough_run c.1)), inr (ready p))
            | inr (e, p) ↦
                rw (q, execute, p)
                  (
                    ((λ s. absurd (ground arith)), (λ c. let n = enough c.0 in absurd (cc))),
                    inl refl,
                  )
          ]
