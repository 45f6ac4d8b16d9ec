-- ===== src/Daemon/Server/Serving.antt =====
-- What the serving part of the daemon leaves, from the start of the workers to its end.
use skills.Prelude.{
  ℕ, String, Bool, true, false, not, ◌≡◌, ◌≢◌, ◌⊎◌, inl, inr, refl, none, some, List, [], ◌∷◌, ◌++◌,
  if◌then◌else◌, arith, Bool-cases, Option-cases,
}
use skills.Daemon.Server.{
  ServerConfig, Services, Effect, shut_mcp, cancelled_hub, cancelled_runner, runner_stopped, logged,
  returned, Run, shutdown_timeout, error_log, shut_down, serve, with_frontend,
}
use skills.Daemon.Server.Protocol.{Held, keeps, all_held, serving, keeps-error_log}

module _ (s : Services) (cfg : ServerConfig) (strict : Bool) where
  abbrev pub after_shutdown : Held
  after_shutdown = record {
    store = true;
    hub = false;
    runner = false;
    listener = false;
    over = true;
    jobs = not (s.runner_done (shutdown_timeout cfg));
  }

  abbrev shutdown_end : List Effect
  shutdown_end =
      cancelled_hub
      ∷ cancelled_runner
      ∷ (if s.runner_done (shutdown_timeout cfg)
          then runner_stopped
          else logged "shutdown timeout waiting for runner")
      ∷ []

  shut_down-keeps : keeps strict serving (shut_down s cfg).1 ≡ some after_shutdown
  unfolding shut_down keeps
  shut_down-keeps =
      rw
        (
          keeps-error_log strict (record all_held { over = true }) "http shutdown"
              (s.http_shutdown (shutdown_timeout cfg))
              (shut_mcp
                ∷ (error_log "mcp shutdown" (s.mcp_shutdown (shutdown_timeout cfg))
                    ++ shutdown_end)),
          keeps-error_log strict (record all_held { over = true }) "mcp shutdown"
              (s.mcp_shutdown (shutdown_timeout cfg)) shutdown_end,
        )
        (elim (Bool-cases (s.runner_done (shutdown_timeout cfg))) [ inl c ↦ rw c | inr c ↦ rw c ])

  -- From the workers on: a failure keeps all but the listener, and the shutdown leaves the store.
  abbrev pub Serves : Run → Type 0
  Serves r =
      ((over : Bool) × (keeps strict all_held r.1 ≡ some (record all_held { over = over }))
        × (r.0 ≢ returned none))
      ⊎ ((keeps strict all_held r.1 ≡ some after_shutdown) × (r.0 ≡ returned none))

  serve-Serves : (addr : String) → Serves (serve s cfg addr)
  unfolding serve keeps
  serve-Serves addr = elim (Option-cases (s.server_error addr)) [
    | inl n ↦ rw n (inr (shut_down-keeps, refl))
    | inr (e, p) ↦ rw p (inl (true, refl, λ q. ground arith))
  ]

  module _ (shown : String → ℕ → String) where
    pub with_frontend-Serves : Serves (with_frontend s cfg shown)
    unfolding with_frontend keeps shutdown_timeout
    with_frontend-Serves = elim (Bool-cases cfg.dev) [
      | inl d ↦ elim (Option-cases (s.parse_url cfg.dev_url)) [
        | inl n ↦ rw (d, n) (serve-Serves (shown cfg.bind cfg.port))
        | inr (e, p) ↦ rw (d, p) (inl (false, refl, λ q. ground arith))
      ]
      | inr d ↦ elim (Option-cases s.sub_fs) [
        | inl n ↦ rw (d, n) (serve-Serves (shown cfg.bind cfg.port))
        | inr (e, p) ↦ rw (d, p) (inl (false, refl, λ q. ground arith))
      ]
    ]
