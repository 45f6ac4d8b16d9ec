-- ===== src/Api/Middleware.antt =====
-- internal/infra/httpapi/middleware.go. A handler is what it does to the response writer, the panic
-- that it ends in, if any, the path that it leaves in the request, and its log lines.
pub mod Answers
use skills.Prelude.{
  ℕ, String, ◌<>◌, Bool, true, false, ◌||◌, Option, none, some, List, [], ◌∷◌, ◌++◌, if◌then◌else◌,
}
use skills.World.{World}
use skills.Environment.{Env}
use skills.Checks.{new_id}

-- The calls of `http.ResponseWriter`; `set_header` is `w.Header().Set`.
pub data Call : Type 0 where
  set_header : String → String → Call
  write_header : ℕ → Call
  write : String → Call

-- A request, with the values of its query's parameters, the request ID in its context and whether
-- its response writer is a `*statusRecorder`.
pub record HttpRequest : Type 0 where
  pub method : String
  pub path : String
  pub query : String → String
  pub body : String
  pub request_id : Option String
  pub recorded : Bool

pub data LogLine : Type 0 where
  request_line : String → String → ℕ → String → LogLine
  panic_line : String → String → String → LogLine

-- `path` is what `r.URL.Path` holds at the end: the copies of a request share its URL.
pub record Outcome : Type 0 where
  pub path : String
  pub calls : List Call
  pub panicked : Option String
  pub log : List LogLine

abbrev pub Handler : Type 0
Handler = HttpRequest → World → Outcome × World

-- `statusRecorder`; what it embeds gets every call unchanged.
pub record StatusRecorder : Type 0 where
  pub status : ℕ
  pub written : Bool

-- `WriteHeader` and `Write`.
unfoldable pub record_call : StatusRecorder → Call → StatusRecorder
record_call r (set_header k v) = r
record_call r (write_header code) = record { status = code; written = true }
record_call r (write text) = record { status = r.status; written = true }

unfoldable pub record_calls : StatusRecorder → List Call → StatusRecorder
unfolding record_call
record_calls r [] = r
record_calls r (c ∷ calls) = record_calls (record_call r c) calls

abbrev pub fresh_recorder : StatusRecorder
fresh_recorder = record { status = 200; written = false }

-- `RequestIDFromContext`.
unfoldable pub request_id_from_context : HttpRequest → String
request_id_from_context r = elim r.request_id [ none ↦ "" | some id ↦ id ]

-- `http.Error`.
abbrev pub http_error : String → ℕ → List Call
http_error text code =
    set_header "Content-Type" "text/plain; charset=utf-8"
    ∷ set_header "X-Content-Type-Options" "nosniff"
    ∷ write_header code
    ∷ write (text <> "\n")
    ∷ []

-- `WithRequestID`.
unfoldable pub with_request_id : Env → Handler → Handler
with_request_id env next r w =
    let (id, w1) = new_id env "req" w in
    let (o, w2) = next (record r { request_id = some id }) w1 in
    (record o { calls = set_header "X-Request-ID" id ∷ o.calls }, w2)

-- The line that `WithRequestLogging` logs after the handler, which a panic leaves before.
unfoldable pub log_request : HttpRequest → Outcome → Outcome
log_request r o = elim o.panicked [
  | some p ↦ o
  | none ↦ record o {
    log =
        o.log
        ++ (request_line r.method o.path (record_calls fresh_recorder o.calls).status
              (request_id_from_context r)
            ∷ []);
  }
]

-- `WithRequestLogging`.
unfoldable pub with_request_logging : Handler → Handler
unfolding log_request
with_request_logging next r w =
    let (o, w1) = next (record r { recorded = true }) w in (log_request r o, w1)

-- What the deferred function of `WithPanicRecovery` writes after the calls of the handler.
unfoldable pub recovery_calls : Bool → List Call → List Call
recovery_calls recorded calls =
    if recorded
    then if (record_calls fresh_recorder calls).written
      then []
      else http_error "internal server error" 500
    else http_error "internal server error" 500

-- The deferred function.
unfoldable pub recover_from : HttpRequest → Outcome → Outcome
unfolding recovery_calls
recover_from r o = elim o.panicked [
  | none ↦ o
  | some p ↦ record {
    path = o.path;
    calls = o.calls ++ recovery_calls r.recorded o.calls;
    panicked = none;
    log = o.log ++ (panic_line p r.method o.path ∷ []);
  }
]

-- `WithPanicRecovery`.
unfoldable pub with_panic_recovery : Handler → Handler
unfolding recover_from
with_panic_recovery next r w = let (o, w1) = next r w in (recover_from r o, w1)

-- `WithMiddleware`.
unfoldable pub with_middleware : Env → Handler → Handler
unfolding with_request_id with_request_logging with_panic_recovery
with_middleware env next = with_request_id env (with_request_logging (with_panic_recovery next))
