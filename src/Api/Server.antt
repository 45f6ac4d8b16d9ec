-- ===== src/Api/Server.antt =====
-- cmd/daemon/daemon.go, `RunServer`: the table of the HTTP mux and the handler that is served. The
-- handlers' own log lines are left out.
pub mod Routes
use skills.Prelude.{ℕ, String, Option, none, List, [], ◌∷◌, ◌++◌}
use skills.World.{World}
use skills.Environment.{Env}
use skills.Store.{Store}
use skills.Api.Response.{Body, empty, Response}
use skills.Api.Notify.{handle_notify}
use skills.Api.Reset.{handle_reset}
use skills.Api.List.{handle_list, handle_health}
use skills.Api.Middleware.{
  Call, set_header, write_header, write, HttpRequest, Outcome, Handler, request_id_from_context,
  with_middleware,
}

-- What the handlers use of encoding/json and strconv: the email in a body, what `strconv.Atoi`
-- makes of a page limit, with `none` for an error and for a negative number, and the encoding of
-- a response.
pub record Codec : Type 0 where
  pub decode_notify : String → Option String
  pub decode_reset : String → Option String
  pub atoi : String → Option ℕ
  pub encode : Body → String

-- `http.NewServeMux` with the patterns and handlers registered on it, and `http.StripPrefix`.
pub record NetHttp : Type 0 where
  pub serve_mux : List (String × Handler) → Handler
  pub strip_prefix : String → Handler → Handler

-- The calls of `writeJSON`; only the `WriteHeader` of `HandleReset` has an empty body.
unfoldable pub written : Codec → Response → List Call
written codec r = elim r.body [
  | empty ↦ write_header r.code ∷ []
  | _ ↦
      set_header "Content-Type" "application/json"
      ∷ write_header r.code
      ∷ write (codec.encode r.body)
      ∷ []
]

unfoldable pub outcome : Codec → HttpRequest → Response × World → Outcome × World
unfolding written
outcome codec r (a, w) =
    (record { path = r.path; calls = written codec a; panicked = none; log = [] }, w)

module _ (env : Env) (codec : Codec) (store : Store) where
  unfoldable pub serve_health : Handler
  unfolding outcome
  serve_health r w = outcome codec r (handle_health store w)

  unfoldable pub serve_notify : Handler
  unfolding outcome
  serve_notify r w =
      outcome codec r
        (handle_notify env store (request_id_from_context r) (codec.decode_notify r.body) w)

  unfoldable pub serve_reset : Handler
  unfolding outcome
  serve_reset r w =
      outcome codec r
        (handle_reset env store (request_id_from_context r) (codec.decode_reset r.body) w)

  unfoldable pub serve_list : Handler
  unfolding outcome
  serve_list r w =
      outcome codec r (handle_list env store (codec.atoi (r.query "limit")) (r.query "after") w)

  module _ (net : NetHttp) (ws mcp spa : Handler) where
    -- The mux; the handlers of the WebSocket, of MCP and of the frontend are given.
    unfoldable pub routes : List (String × Handler)
    routes =
        ("GET /v1/health", serve_health)
        ∷ ("POST /v1/notify", serve_notify)
        ∷ ("POST /v1/notify/reset", serve_reset)
        ∷ ("GET /v1/notifications", serve_list)
        ∷ ("GET /v1/ws", ws)
        ∷ ("/mcp/", net.strip_prefix "/mcp" mcp)
        ∷ ("/", spa)
        ∷ []

    unfoldable pub http_handler : Handler
    unfolding routes
    http_handler = with_middleware env (net.serve_mux routes)
