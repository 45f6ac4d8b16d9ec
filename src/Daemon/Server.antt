-- ===== src/Daemon/Server.antt =====
-- cmd/daemon/daemon.go, `RunServer`: what it acquires and releases, in which order, whatever
-- fails. What it calls is a parameter with the error that it returns.
pub mod Protocol
pub mod Serving
pub mod Releases
use text.Mathlib.Text.{starts_with}
use skills.Prelude.{
  ℕ, ◌*◌, String, ◌<>◌, Bool, true, false, Option, none, some, List, [], ◌∷◌, ◌++◌, same, ◌==◌,
  if◌then◌else◌,
}
use skills.Domain.Errors.{Error, wrap}
use skills.Config.{Koanf, Os, state_path}
use skills.Email.Console.{second}
use skills.Daemon.Settings.{resolve_string, resolve_int, resolve_duration, resolve_dsn}

pub record ServerConfig : Type 0 where
  pub bind : String
  pub port : ℕ
  pub dsn : String
  pub smtp_host : String
  pub smtp_port : ℕ
  pub smtp_from : String
  pub version : String
  pub dev : Bool
  pub dev_url : String
  pub shutdown_timeout : ℕ

-- `runWithFS`: the settings of the command; `flag`, `int_flag` and `dev` are the flags of the
-- command line, and `version` the root command's.
unfoldable pub server_config :
    {K : Type 0} → Koanf K → K → (String → String) → (String → ℕ) → Bool → String → ServerConfig
unfolding resolve_string resolve_int resolve_duration
server_config koanf k flag int_flag dev version = record {
  bind = resolve_string koanf k flag "bind";
  port = resolve_int koanf k int_flag "port";
  dsn = resolve_string koanf k flag "db";
  smtp_host = resolve_string koanf k flag "smtp-host";
  smtp_port = resolve_int koanf k int_flag "smtp-port";
  smtp_from = resolve_string koanf k flag "smtp-from";
  version = version;
  dev = dev;
  dev_url = resolve_string koanf k flag "dev-url";
  shutdown_timeout = resolve_duration koanf k int_flag "shutdown-timeout";
}

-- How the parts answer: `db.Open`, the seeding and the queue for a DSN of PostgreSQL or not, the
-- email sender, `url.Parse` of the dev server's URL, `fs.Sub`; then how the serving ends, with
-- the server's error or, for `none`, with the signal; whether the two shutdowns fail within the
-- time given, and whether the runner has ended when it is over.
pub record Services : Type 0 where
  pub open_db : String → Option Error
  pub run_seed : Bool → Option Error
  pub new_queue : Bool → Option Error
  pub new_sender : String → ℕ → String → Option Error
  pub parse_url : String → Option Error
  pub sub_fs : Option Error
  pub server_error : String → Option Error
  pub http_shutdown : ℕ → Option Error
  pub mcp_shutdown : ℕ → Option Error
  pub runner_done : ℕ → Bool

-- `listened` is the start of the HTTP server, and `server_ended` its end with an error of its own.
pub data Effect : Type 0 where
  opened_store : String → Effect
  started_hub started_runner : Effect
  listened : String → Effect
  server_ended shut_http shut_mcp cancelled_hub cancelled_runner runner_stopped closed_store :
      Effect
  logged : String → Effect

-- `return err`, and the panic of `NewSPADevProxy`.
pub data Ending : Type 0 where
  returned : Option Error → Ending
  panicked : Ending

abbrev pub Run : Type 0
Run = Ending × List Effect

abbrev pub fails : String → Error → Run
fails text e = (returned (some (wrap text e)), [])

-- `defer`: the effect comes at the end of the function, whatever its ending.
abbrev pub deferring : Effect → Run → Run
deferring effect (ending, effects) = (ending, effects ++ (effect ∷ []))

abbrev pub after : List Effect → Run → Run
after effects (ending, rest) = (ending, effects ++ rest)

unfoldable pub error_log : String → Option Error → List Effect
error_log text none = []
error_log text (some e) = logged text ∷ []

-- The shutdown timeout, 60 seconds for 0.
unfoldable pub shutdown_timeout : ServerConfig → ℕ
shutdown_timeout cfg = if cfg.shutdown_timeout == 0 then 60 * second else cfg.shutdown_timeout

module _ (s : Services) (cfg : ServerConfig) where
  -- From the signal on: the five steps of the shutdown.
  unfoldable pub shut_down : Run
  shut_down =
      let timeout = shutdown_timeout cfg in
      (
        returned none,
        logged "shutdown signal received"
            ∷ shut_http
            ∷ (error_log "http shutdown" (s.http_shutdown timeout)
                ++ (shut_mcp
                    ∷ (error_log "mcp shutdown" (s.mcp_shutdown timeout)
                        ++ (cancelled_hub
                            ∷ cancelled_runner
                            ∷ (if s.runner_done timeout
                                then runner_stopped
                                else logged "shutdown timeout waiting for runner")
                            ∷ [])))),
      )

  -- From the mux on: the server runs until the signal or its own error.
  unfoldable pub serve : String → Run
  unfolding shut_down
  serve addr = after (listened addr ∷ []) (elim (s.server_error addr) [
    | some e ↦ after (server_ended ∷ []) (fails "server error" e)
    | none ↦ shut_down
  ])

  -- The choice of the handler of the frontend, and the rest; `shown` is `fmt.Sprintf("%s:%d", …)`.
  unfoldable pub with_frontend : (String → ℕ → String) → Run
  unfolding serve
  with_frontend shown =
      let rest = serve (shown cfg.bind cfg.port) in
      if cfg.dev
      then elim (s.parse_url cfg.dev_url) [
        | some e ↦ (panicked, [])
        | none ↦ after (logged "dev mode: proxying to Vite" ∷ []) rest
      ]
      else elim s.sub_fs [ some e ↦ fails "embedded SPA" e | none ↦ rest ]

  -- From the hub on, with the deferred cancellations of the two contexts.
  unfoldable pub with_workers : (String → ℕ → String) → Run
  unfolding with_frontend
  with_workers shown = deferring cancelled_hub (
      after (started_hub ∷ [])
        (deferring cancelled_runner (after (started_runner ∷ []) (with_frontend shown))))

  -- From the opened store on.
  unfoldable pub with_store : (String → ℕ → String) → String → Run
  unfolding with_workers
  with_store shown dsn = elim (s.run_seed (starts_with dsn "postgres")) [
    | some e ↦ fails "run seed" e
    | none ↦ elim (s.new_queue (starts_with dsn "postgres")) [
      | some e ↦ fails "create notification queue" e
      | none ↦ elim (s.new_sender cfg.smtp_host cfg.smtp_port cfg.smtp_from) [
        | some e ↦ fails "create smtp sender" e
        | none ↦ with_workers shown
      ]
    ]
  ]

  -- The DSN: forced in QA builds, and a file in the state directory by default.
  unfoldable pub effective_dsn : Os → Bool → String
  effective_dsn os qa =
      let dsn = resolve_dsn qa cfg.dsn in
      if same dsn "" then os.join (state_path os ∷ "notifier.db" ∷ []) else dsn

  -- `RunServer`.
  unfoldable pub run_server : Os → Bool → (String → ℕ → String) → Run
  unfolding with_store effective_dsn
  run_server os qa shown =
      let dsn = effective_dsn os qa in
      elim (s.open_db dsn) [
        | some e ↦ fails "open store" e
        | none ↦ deferring closed_store (after (opened_store dsn ∷ []) (with_store shown dsn))
      ]
