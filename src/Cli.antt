-- ===== src/Cli.antt =====
-- internal/cli/root.go, main.go, and `NewCmd` with the run functions of cmd/daemon/daemon.go and
-- cmd/mcp-bridge/bridge.go: the commands with their flags, and the exit of the process.
pub mod Declared
pub mod Exits
use skills.Prelude.{ℕ, String, Bool, true, false, Option, none, some, List, [], ◌∷◌}
use skills.Domain.Errors.{Error}
use skills.Config.{Koanf, Os, pre_run}
use skills.Daemon.Settings.{resolve_string}
use skills.Daemon.Server.{
  ServerConfig, server_config, Services, Effect, Ending, returned, panicked, run_server,
}
use skills.Bridge.{Http, Event, bridge}

-- The default of a flag by its type.
pub data FlagValue : Type 0 where
  string : String → FlagValue
  int : ℕ → FlagValue
  bool : Bool → FlagValue

pub record Flag : Type 0 where
  pub name : String
  pub value : FlagValue
  pub usage : String

-- `RunE` of the two commands.
pub data RunE : Type 0 where
  run_with_fs run_bridge : RunE

pub record Command : Type 0 where
  pub use_line : String
  pub short : String
  pub long : String
  pub run_e : RunE
  pub flags : List Flag

-- `daemon.NewCmd`.
abbrev pub daemon_command : Command
daemon_command = record {
  use_line = "daemon";
  short = "Start the HTTP server";
  long = "";
  run_e = run_with_fs;
  flags =
      (record { name = "bind"; value = string "127.0.0.1"; usage = "Bind address" })
      ∷ (record { name = "port"; value = int 8080; usage = "Listen port" })
      ∷ (record {
        name = "db";
        value = string "";
        usage = "Database DSN (empty = SQLite in XDG state dir)";
      })
      ∷ (record { name = "smtp-host"; value = string "127.0.0.1"; usage = "SMTP server host" })
      ∷ (record { name = "smtp-port"; value = int 1025; usage = "SMTP server port" })
      ∷ (record {
        name = "smtp-from";
        value = string "notifier@localhost";
        usage = "Email sender address";
      })
      ∷ (record {
        name = "dev";
        value = bool false;
        usage = "Enable dev mode (proxy to Vite dev server)";
      })
      ∷ (record {
        name = "dev-url";
        value = string "http://localhost:5173";
        usage = "Vite dev server URL";
      })
      ∷ (record {
        name = "shutdown-timeout";
        value = int 60;
        usage = "Shutdown timeout in seconds";
      })
      ∷ [];
}

-- `mcpbridge.NewCmd`.
abbrev pub bridge_command : Command
bridge_command = record {
  use_line = "mcp-bridge";
  short = "Stdio-to-HTTP MCP bridge";
  long =
      "Reads JSON-RPC messages from stdin, forwards them to the MCP HTTP endpoint, and relays responses to stdout.";
  run_e = run_bridge;
  flags =
      (record {
        name = "url";
        value = string "http://127.0.0.1:8080/mcp";
        usage = "MCP endpoint URL";
      })
      ∷ (record { name = "token"; value = string ""; usage = "Auth token for MCP requests" })
      ∷ [];
}

pub record RootCommand : Type 0 where
  pub use_line : String
  pub short : String
  pub version : String
  pub commands : List Command

-- `NewRootCmd`, with the version that `main` passes on.
abbrev pub new_root_cmd : String → RootCommand
new_root_cmd version = record {
  use_line = "notifier";
  short = "Notification service";
  version = version;
  commands = daemon_command ∷ bridge_command ∷ [];
}

-- `cmd.Flags()` after the command line: `GetString`, `GetInt` and `GetBool`, whose errors are
-- dropped.
pub record Flags : Type 0 where
  pub get_string : String → String
  pub get_int : String → ℕ
  pub get_bool : String → Bool

-- What cobra makes of a command line: it ends by itself (help, the version, a usage error), or it
-- runs a command.
pub data Parsed : Type 0 where
  done : Option Error → Parsed
  selected : Command → Flags → Parsed

-- The settings that `runBridge` resolves.
unfoldable pub bridge_settings : {K : Type 0} → Koanf K → K → (String → String) → String × String
unfolding resolve_string
bridge_settings koanf k flags =
    (resolve_string koanf k flags "url", resolve_string koanf k flags "token")

-- What a process has done when it exits.
pub data Ran : Type 0 where
  nothing : Ran
  daemon : List Effect → Ran
  bridged : List Event → Ran

pub data Exit : Type 0 where
  exit : ℕ → Exit
  crash : Exit

pub record Process : Type 0 where
  pub status : Exit
  pub stderr : List Error
  pub ran : Ran

-- From the error of `root.Execute` on.
abbrev pub finish : Option Error → Ran → Process
finish none ran = record { status = exit 0; stderr = []; ran = ran }
finish (some e) ran = record { status = exit 1; stderr = e ∷ []; ran = ran }

abbrev pub daemon_process : Ending × List Effect → Process
daemon_process (returned e, effects) = finish e (daemon effects)
daemon_process (panicked, effects) = record { status = crash; stderr = []; ran = daemon effects }

abbrev pub bridge_process : Option Error × List Event → Process
bridge_process (failed, events) = finish failed (bridged events)

module _ {K : Type 0} (os : Os) (koanf : Koanf K) (services : Services) (http : Http) (qa : Bool)
    (shown : String → ℕ → String) (lines : List String) (scan_error : Option Error) where
  -- `runWithFS` and `runBridge`, on the configuration `k`; `lines` is the standard input.
  unfoldable pub run : RunE → String → K → Flags → Process
  run run_with_fs version k flags =
      let cfg =
        server_config koanf k flags.get_string flags.get_int (flags.get_bool "dev") version in
      daemon_process (run_server services cfg os qa shown)
  run run_bridge version k flags =
      let (url, token) = bridge_settings koanf k flags.get_string in
      bridge_process (bridge http url token scan_error 0 lines)

  -- `Execute`; `k` is the global configuration before it.
  unfoldable pub execute : (RootCommand → Parsed) → String → K → Process
  unfolding run
  execute parse version k = elim (parse (new_root_cmd version)) [
    | done e ↦ finish e nothing
    | selected command flags ↦
        let (k', failed) = pre_run os koanf k in
        elim failed [ some e ↦ finish (some e) nothing | none ↦ run command.run_e version k' flags ]
  ]
