-- ===== src/Tests/Served.antt =====
-- Theorems on the served API at concrete inputs.
use skills.Prelude.{String, Bool, false, same, ◌<>◌, refl, ap, Option, none, some, List, [], ◌∷◌}
use skills.Checks.{new_id}
use skills.Api.Response.{empty, error, notify_response, list_response, health}
use skills.Api.Middleware.{HttpRequest, Handler, write, http_error}
use skills.Api.Server.{Codec, NetHttp, routes, http_handler}
use skills.Api.Server.Routes.{
  registered, IsExact, notify, Receives, respond_to, http_handler-Answers,
}
use skills.Tests.Fixtures.{env, store, world_of}

-- A body is the email itself, and a response is its ID or its error.
abbrev codec : Codec
codec = record {
  decode_notify = λ body. some body;
  decode_reset = λ body. some body;
  atoi = λ v. none;
  encode = λ b. elim b [
    | empty ↦ ""
    | error text ↦ text
    | notify_response id ↦ id
    | list_response items meta ↦ ""
    | health text ↦ text
  ];
}

abbrev not_found : Handler
not_found r w = (
  record { path = r.path; calls = http_error "404 page not found" 404; panicked = none; log = [] },
  w,
)

abbrev serve_found : Option Handler → Handler
serve_found none = not_found
serve_found (some h) = h

-- The handler of the pattern that the request spells.
abbrev serve : List (String × Handler) → Handler
serve table r w = serve_found (registered (r.method <> (" " <> r.path)) table) r w

abbrev net : NetHttp
net = record { serve_mux = serve; strip_prefix = λ prefix h. h }

net-IsExact : IsExact net (routes env codec store net not_found not_found not_found)
net-IsExact r w h e = ap (λ found. serve_found found r w) e

abbrev post_notify : HttpRequest
post_notify = record {
  method = "POST";
  path = "/v1/notify";
  query = λ key. "";
  body = "cat@work.org";
  request_id = none;
  recorded = false;
}

http_handler-Answers_example :
    Receives codec
      (new_id env "req" (world_of [])).0
      post_notify
      (respond_to env codec store notify
        (new_id env "req" (world_of [])).0
        post_notify
        (new_id env "req" (world_of [])).1)
      (http_handler env codec store net not_found not_found not_found post_notify (world_of []))
http_handler-Answers_example =
    http_handler-Answers env codec store net not_found not_found not_found notify post_notify
      (world_of []) net-IsExact refl

-- A build of the frontend with its page alone.
abbrev is_page : String → Bool
is_page name = same name "index.html"

abbrev serve_page : Handler
serve_page r w =
    (record { path = r.path; calls = write "<html>" ∷ []; panicked = none; log = [] }, w)

abbrev get_settings : HttpRequest
get_settings = record post_notify { method = "GET"; path = "/settings" }
