-- ===== src/Cli/Declared.antt =====
-- The settings of the commands and the flags that these declare.
use skills.Prelude.{
  ℕ, zero, suc, String, Bool, ◌≡◌, refl, ap, subst, Option, some, List, All, get_elem?, arith,
}
use skills.Domain.Errors.{Error}
use skills.Config.{Koanf, Os}
use skills.Daemon.Settings.{resolve_string, resolve_int, resolve_duration}
use skills.Daemon.Server.{server_config, Services, run_server}
use skills.Bridge.{Http, bridge}
use skills.Cli.{
  string, int, bool, Flag, Command, daemon_command, bridge_command, new_root_cmd, Flags,
  bridge_settings, daemon_process, bridge_process, run,
}

-- Two command lines give a flag the same value, read as its type.
abbrev pub Agrees : Flags → Flags → Flag → Type 0
Agrees f g flag = elim flag.value [
  | string _ ↦ f.get_string flag.name ≡ g.get_string flag.name
  | int _ ↦ f.get_int flag.name ≡ g.get_int flag.name
  | bool _ ↦ f.get_bool flag.name ≡ g.get_bool flag.name
]

module _ {K : Type 0} (koanf : Koanf K) (k : K) (f g : Flags) where
  server_config-Agrees :
      (version : String)
      → All (Agrees f g) daemon_command.flags
      → server_config koanf k f.get_string f.get_int (f.get_bool "dev") version
        ≡ server_config koanf k g.get_string g.get_int (g.get_bool "dev") version
  unfolding server_config resolve_string resolve_int resolve_duration
  server_config-Agrees version
        (bind, (port, (db, (host, (smtp, (from, (dev, (url, (timeout, _))))))))) =
      rw (bind, port, db, host, smtp, from, dev, url, timeout) refl

  bridge_settings-Agrees :
      All (Agrees f g) bridge_command.flags
      → bridge_settings koanf k f.get_string ≡ bridge_settings koanf k g.get_string
  unfolding bridge_settings resolve_string
  bridge_settings-Agrees (url, (token, _)) = rw (url, token) refl

-- What a command of the program does depends on the command line through the flags that it declares
-- alone, each read as the type that it is declared with: two command lines that agree on these give
-- the same run, for every configuration, version and standard input.
pub run-Declared :
    {K : Type 0} (os : Os) (koanf : Koanf K) (services : Services) (http : Http) (qa : Bool)
    (shown : String → ℕ → String) (lines : List String) (scan_error : Option Error)
    (version : String) (k : K) (f g : Flags) (i : ℕ) (command : Command)
    → get_elem? (new_root_cmd version).commands i ≡ some command
    → All (Agrees f g) command.flags
    → run os koanf services http qa shown lines scan_error command.run_e version k f
      ≡ run os koanf services http qa shown lines scan_error command.run_e version k g
unfolding run
run-Declared os koanf services http qa shown lines scan_error version k f g zero command e agrees =
    let here : daemon_command ≡ command = ground arith in
    subst
      (λ c.
        All (Agrees f g) c.flags
        → run os koanf services http qa shown lines scan_error c.run_e version k f
          ≡ run os koanf services http qa shown lines scan_error c.run_e version k g)
      here
      (λ a.
        ap (λ cfg. daemon_process (run_server services cfg os qa shown))
          (server_config-Agrees koanf k f g version a))
      agrees
run-Declared os koanf services http qa shown lines scan_error version k f g (suc zero) command e
      agrees =
    let here : bridge_command ≡ command = ground arith in
    subst
      (λ c.
        All (Agrees f g) c.flags
        → run os koanf services http qa shown lines scan_error c.run_e version k f
          ≡ run os koanf services http qa shown lines scan_error c.run_e version k g)
      here
      (λ a.
        ap
          (λ (settings : String × String).
            bridge_process (bridge http settings.0 settings.1 scan_error 0 lines))
          (bridge_settings-Agrees koanf k f g a))
      agrees
run-Declared os koanf services http qa shown lines scan_error version k f g (suc (suc i)) command e
      agrees =
    absurd (ground arith)
