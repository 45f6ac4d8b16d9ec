-- ===== src/Api/Server/Routes.antt =====
-- A request of the API from the client to the handler and back.
use text.Mathlib.TextLemmas.{append-nil}
use skills.Prelude.{
  ℕ, String, true, ◌<>◌, ◌≡◌, ◌∙◌, refl, sym, subst, ap, Option, none, some, List, [], ◌∷◌, same,
  if◌then◌else◌,
}
use skills.World.{World}
use skills.Environment.{Env}
use skills.Store.{Store}
use skills.Checks.{new_id}
use skills.Api.Response.{Body, Response}
use skills.Api.Notify.{handle_notify}
use skills.Api.Reset.{handle_reset}
use skills.Api.List.{handle_list, handle_health}
use skills.Api.Middleware.{
  Call, set_header, write_header, write, HttpRequest, request_line, Outcome, Handler,
  with_middleware, record_calls, fresh_recorder, request_id_from_context,
}
use skills.Api.Middleware.Answers.{received}
use skills.Api.Server.{
  Codec, NetHttp, written, outcome, serve_health, serve_notify, serve_reset, serve_list, routes,
  http_handler,
}

unfoldable pub registered : String → List (String × Handler) → Option Handler
registered pattern [] = none
registered pattern ((p, h) ∷ table) = if same pattern p then some h else registered pattern table

-- A request whose method and path are spelled as a pattern of the table goes to that pattern's
-- handler: no pattern that matches it is more specific. The patterns of a table without wildcards.
abbrev pub IsExact : NetHttp → List (String × Handler) → Type 0
IsExact net table =
    (r : HttpRequest) (w : World) (h : Handler)
    → registered (r.method <> (" " <> r.path)) table ≡ some h
    → net.serve_mux table r w ≡ h r w

pub data Endpoint : Type 0 where
  health : Endpoint
  notify : Endpoint
  reset : Endpoint
  notifications : Endpoint

abbrev pub pattern : Endpoint → String
pattern health = "GET /v1/health"
pattern notify = "POST /v1/notify"
pattern reset = "POST /v1/notify/reset"
pattern notifications = "GET /v1/notifications"

-- The response to a request under the request ID `id`.
abbrev pub respond_to :
    Env → Codec → Store → Endpoint → String → HttpRequest → World → Response × World
respond_to env codec store health id r w = handle_health store w
respond_to env codec store notify id r w = handle_notify env store id (codec.decode_notify r.body) w
respond_to env codec store reset id r w = handle_reset env store id (codec.decode_reset r.body) w
respond_to env codec store notifications id r w =
    handle_list env store (codec.atoi (r.query "limit")) (r.query "after") w

status-written :
    (codec : Codec) (code : ℕ) (body : Body)
    → (record_calls fresh_recorder (written codec (record { code = code; body = body }))).status
      ≡ code
unfolding written record_calls
status-written codec code Body.empty = refl
status-written codec code (Body.error e) = refl
status-written codec code (Body.notify_response id) = refl
status-written codec code (Body.list_response items meta) = refl
status-written codec code (Body.health text) = refl

abbrev answer : Codec → String → HttpRequest → Response × World → Outcome × World
answer codec id r a = (
  record {
    path = r.path;
    calls = set_header "X-Request-ID" id ∷ written codec a.0;
    panicked = none;
    log = request_line r.method r.path a.0.code id ∷ [];
  },
  a.1,
)

through :
    (env : Env) (codec : Codec) (next : Handler) (r : HttpRequest) (w : World)
    (a : Response × World)
    → next
        (record r { request_id = some (new_id env "req" w).0; recorded = true })
        (new_id env "req" w).1
      ≡ outcome codec r a
    → with_middleware env next r w ≡ answer codec (new_id env "req" w).0 r a
unfolding with_middleware request_id_from_context outcome
through env codec next r w a h =
    let s : (record_calls fresh_recorder (written codec a.0)).status ≡ a.0.code =
      status-written codec a.0.code a.0.body in
    rw (h, s)

served :
    (env : Env) (codec : Codec) (store : Store) (net : NetHttp) (ws mcp spa : Handler)
    (e : Endpoint) (r : HttpRequest) (w : World) (id : String)
    → IsExact net (routes env codec store net ws mcp spa)
    → r.request_id ≡ some id
    → r.method <> (" " <> r.path) ≡ pattern e
    → net.serve_mux (routes env codec store net ws mcp spa) r w
      ≡ outcome codec r (respond_to env codec store e id r w)
unfolding routes registered serve_health serve_notify serve_reset serve_list request_id_from_context
    same
served env codec store net ws mcp spa health r w id exact named p =
    exact r w (serve_health env codec store) (rw p)
served env codec store net ws mcp spa notify r w id exact named p =
    exact r w (serve_notify env codec store) (rw p) ∙ rw named
served env codec store net ws mcp spa reset r w id exact named p =
    exact r w (serve_reset env codec store) (rw p) ∙ rw named
served env codec store net ws mcp spa notifications r w id exact named p =
    exact r w (serve_list env codec store) (rw p)

-- No handler reads whether the writer is recorded.
respond_to-seen :
    (env : Env) (codec : Codec) (store : Store) (e : Endpoint) (id : String) (r : HttpRequest)
    (w : World)
    → respond_to env codec store e id (record r { request_id = some id; recorded = true }) w
      ≡ respond_to env codec store e id r w
respond_to-seen env codec store health id r w = refl
respond_to-seen env codec store notify id r w = refl
respond_to-seen env codec store reset id r w = refl
respond_to-seen env codec store notifications id r w = refl

answered_to :
    (env : Env) (codec : Codec) (store : Store) (net : NetHttp) (ws mcp spa : Handler)
    (e : Endpoint) (r : HttpRequest) (w : World)
    → IsExact net (routes env codec store net ws mcp spa)
    → r.method <> (" " <> r.path) ≡ pattern e
    → let (id, w1) = new_id env "req" w in
      http_handler env codec store net ws mcp spa r w
      ≡ answer codec id r (respond_to env codec store e id r w1)
unfolding http_handler outcome
answered_to env codec store net ws mcp spa e r w exact p =
    let (id, w1) = new_id env "req" w in
    let seen : HttpRequest = record r { request_id = some id; recorded = true } in
    through env codec (net.serve_mux (routes env codec store net ws mcp spa)) r w
      (respond_to env codec store e id r w1)
      (served env codec store net ws mcp spa e seen w1 id exact refl p
        ∙ ap (λ a. outcome codec seen a) (respond_to-seen env codec store e id r w1))

-- The header as it is when the first call that sends something comes; later settings are lost.
unfoldable pub sent_header : List Call → List (String × String)
sent_header [] = []
sent_header (set_header k v ∷ calls) = (k, v) ∷ sent_header calls
sent_header (write_header code ∷ calls) = []
sent_header (write text ∷ calls) = []

-- The body: all that is written.
unfoldable pub sent_body : List Call → String
sent_body [] = ""
sent_body (set_header k v ∷ calls) = sent_body calls
sent_body (write_header code ∷ calls) = sent_body calls
sent_body (write text ∷ calls) = text <> sent_body calls

abbrev pub body_text : Codec → Body → String
body_text codec Body.empty = ""
body_text codec (Body.error e) = codec.encode (Body.error e)
body_text codec (Body.notify_response id) = codec.encode (Body.notify_response id)
body_text codec (Body.list_response items meta) = codec.encode (Body.list_response items meta)
body_text codec (Body.health text) = codec.encode (Body.health text)

-- The content type, for a body that is not empty.
abbrev pub content_type : Body → List (String × String)
content_type Body.empty = []
content_type (Body.error e) = ("Content-Type", "application/json") ∷ []
content_type (Body.notify_response id) = ("Content-Type", "application/json") ∷ []
content_type (Body.list_response items meta) = ("Content-Type", "application/json") ∷ []
content_type (Body.health text) = ("Content-Type", "application/json") ∷ []

-- What the client of a request gets for the response `a` under the request ID `id`, and what is
-- logged.
pub record Receives (codec : Codec) (id : String) (r : HttpRequest) (a : Response × World)
    (result : Outcome × World) : Type 0 where
  pub no_panic : result.0.panicked ≡ none
  pub status : received result.0.calls ≡ a.0.code
  pub header : sent_header result.0.calls ≡ ("X-Request-ID", id) ∷ content_type a.0.body
  pub body : sent_body result.0.calls ≡ body_text codec a.0.body
  pub logged : result.0.log ≡ request_line r.method r.path a.0.code id ∷ []
  pub world : result.1 ≡ a.1

answer-Receives :
    (codec : Codec) (id : String) (r : HttpRequest) (code : ℕ) (body : Body) (w : World)
    → let a : Response × World = (record { code = code; body = body }, w) in
      Receives codec id r a (answer codec id r a)
unfolding written received sent_header sent_body
answer-Receives codec id r code Body.empty w = record {
  no_panic = refl;
  status = refl;
  header = refl;
  body = refl;
  logged = refl;
  world = refl;
}
answer-Receives codec id r code body w = record {
  no_panic = refl;
  status = refl;
  header = refl;
  body = append-nil _;
  logged = refl;
  world = refl;
}

-- With a mux that sends a request to the pattern that its method and path spell, a request of one
-- of the four endpoints of the API is answered with the response of its handler, run in the world
-- with the next ID issued: the client gets that response's status, its encoded body (none for an
-- empty one) and, when the response is sent, a header with the request ID and the JSON content
-- type of a body that is not empty; no panic gets out, and one line is logged with the request's
-- method and path, the same status and the same request ID, which is also the one that the
-- handler puts in a job.
pub http_handler-Answers :
    (env : Env) (codec : Codec) (store : Store) (net : NetHttp) (ws mcp spa : Handler)
    (e : Endpoint) (r : HttpRequest) (w : World)
    → IsExact net (routes env codec store net ws mcp spa)
    → r.method <> (" " <> r.path) ≡ pattern e
    → Receives codec
        (new_id env "req" w).0
        r
        (respond_to env codec store e (new_id env "req" w).0 r (new_id env "req" w).1)
        (http_handler env codec store net ws mcp spa r w)
http_handler-Answers env codec store net ws mcp spa e r w exact p =
    let (id, w1) = new_id env "req" w in
    let a = respond_to env codec store e id r w1 in
    subst (Receives codec id r a) (sym (answered_to env codec store net ws mcp spa e r w exact p))
      (answer-Receives codec id r a.0.code a.0.body a.1)
