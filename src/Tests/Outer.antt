-- ===== src/Tests/Outer.antt =====
-- Theorems on the daemon, the bridge, the configuration, the middleware and the connection at
-- concrete inputs.
use skills.Prelude.{
  String, true, false, ◌≡◌, ◌≢◌, ◌↔◌, refl, Option, none, some, [], ◌∷◌, same, same_refl,
  if◌then◌else◌, List,
}
use skills.Prelude.Strings.{replace_all, has_char}
use skills.Domain.Types.{EmailMessage}
use skills.Domain.Errors.{plain, is, Error}
use skills.Checks.{new_id}
use skills.Config.{Koanf, Os, env_key, load}
use skills.Config.Keys.{variable, Sets, resolve_string-load}
use skills.Daemon.Settings.{resolve_string}
use skills.Daemon.Server.{ServerConfig, Services, run_server}
use skills.Daemon.Server.Releases.{Keeps, run_server-Keeps}
use skills.Bridge.{Http, answered}
use skills.Email.Smtp.{Gomail, SmtpSender, IsForeign, compose, send, send-Delivers}
use skills.Worker.Attempt.{verdict, permanent}
use skills.Backend.Connection.{
  Driver, Effect, did, opened, required, Opens, open_connection, open_connection-Opens,
}
use skills.Api.Middleware.{HttpRequest, Handler, write_header, write, with_middleware}
use skills.Api.Middleware.Answers.{is_proper, IsAnswered, with_middleware-IsAnswered}
use skills.Tests.Fixtures.{env, world_of}

-- One environment variable, `NOTIFIER_SMTP_HOST`, and no file.
abbrev pub koanf : Koanf (Option (String × String))
koanf = record {
  new = none;
  load_file = λ path k. (k, some (plain "no such file"));
  load_env = λ prefix cb k. (some (cb "NOTIFIER_SMTP_HOST", "mail.work.org"), none);
  exists = λ k key. elim k [ none ↦ false | some (key', v) ↦ same key' key ];
  string = λ k key. elim k [ none ↦ "" | some (key', v) ↦ v ];
  int = λ k key. 0;
  strings = λ k key. [];
}

abbrev pub os : Os
os = record {
  getenv = λ name. if same name "NOTIFIER_WS_ALLOWED_ORIGINS" then "a.org,,b.org" else "";
  user_home_dir = "/home/ann";
  join = λ parts. elim parts [ [] ↦ "" | p ∷ ps ↦ p ];
  dir = λ path. path;
  mkdir_all = λ path. none;
  to_lower = λ s. if same s "SMTP_HOST" then "smtp_host" else s;
}

abbrev to_upper : String → String
to_upper s = if same s "smtp_host" then "SMTP_HOST" else s

abbrev flags : String → String
flags key = "127.0.0.1"

koanf-Sets : Sets koanf (env_key os) (variable to_upper "smtp-host") "mail.work.org"
unfolding same replace_all
koanf-Sets k = (same_refl (env_key os "NOTIFIER_SMTP_HOST"), refl)

resolve_string-load_example :
    resolve_string koanf (load os koanf).0 flags "smtp-host" ≡ "mail.work.org"
unfolding same replace_all has_char
resolve_string-load_example =
    resolve_string-load os koanf flags to_upper "smtp-host" "mail.work.org" refl refl koanf-Sets

abbrev pub services : Services
services = record {
  open_db = λ dsn. none;
  run_seed = λ postgres. none;
  new_queue = λ postgres. none;
  new_sender = λ host port from. none;
  parse_url = λ url. none;
  sub_fs = none;
  server_error = λ addr. none;
  http_shutdown = λ timeout. some (plain "deadline exceeded");
  mcp_shutdown = λ timeout. none;
  runner_done = λ timeout. true;
}

abbrev config : ServerConfig
config = record {
  bind = "127.0.0.1";
  port = 8080;
  dsn = "";
  smtp_host = "127.0.0.1";
  smtp_port = 1025;
  smtp_from = "notifier@localhost";
  version = "dev";
  dev = false;
  dev_url = "";
  shutdown_timeout = 0;
}

run_server-Keeps_example : Keeps services config (run_server services config os false (λ b p. b))
run_server-Keeps_example = run_server-Keeps services config os false (λ b p. b)

abbrev pub http : Http
http = record { new_request = λ url. none; exchange = λ k r. answered r.body; trim_space = λ s. s }

abbrev gomail : Gomail
gomail = record {
  new_client = λ host port. none;
  set_from = λ a. none;
  set_to = λ to. none;
  dial_and_send = λ m. some (plain "connection refused");
}

abbrev sender : SmtpSender
sender = record { from = "notifier@localhost" }

abbrev dan_message : EmailMessage
dan_message = record {
  to = "dan@work.org" ∷ [];
  subject = "s";
  html = "h";
  text = "t";
  request_id = "req_1";
}

gomail-IsForeign : IsForeign gomail (λ d. none)
unfolding is
gomail-IsForeign = record {
  context = λ d. refl;
  from = λ a. refl;
  to = λ a. refl;
  dial = λ m. refl;
}

send-Delivers_example :
    ((send gomail (λ d. none) sender dan_message ≡ none) ↔ (
      ◌≡◌ {A = Option Error} none none
      × (gomail.set_from "notifier@localhost" ≡ none)
      × (gomail.set_to ("dan@work.org" ∷ []) ≡ none)
      × (gomail.dial_and_send (compose gomail sender dan_message) ≡ none)))
    × (verdict (send gomail (λ d. none) sender dan_message) ≢ permanent)
send-Delivers_example = send-Delivers gomail (λ d. none) gomail-IsForeign sender dan_message

abbrev driver : Driver
driver step = none

open_connection-Opens_example :
    Opens driver (required false "file.db") (open_connection driver "file.db")
    × ((rest : List Effect) × ((open_connection driver "file.db").1
          ≡ did (opened "sqlite" "file.db") ∷ rest))
unfolding same
open_connection-Opens_example = open_connection-Opens driver "file.db"

abbrev get_root : HttpRequest
get_root = record {
  method = "GET";
  path = "/";
  query = λ key. "";
  body = "";
  request_id = none;
  recorded = false;
}

-- A handler that writes a status and a body, and panics.
abbrev handler : Handler
handler r w = (
  record {
    path = r.path;
    calls = write_header 201 ∷ write "x" ∷ [];
    panicked = some "boom";
    log = [];
  },
  w,
)

with_middleware-IsAnswered_example :
    IsAnswered
      (new_id env "req" (world_of [])).0
      get_root
      (handler
        (record get_root { request_id = some (new_id env "req" (world_of [])).0; recorded = true })
        (new_id env "req" (world_of [])).1).0
      (with_middleware env handler get_root (world_of [])).0
unfolding is_proper
with_middleware-IsAnswered_example =
    with_middleware-IsAnswered env handler get_root (world_of []) refl
