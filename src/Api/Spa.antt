-- ===== src/Api/Spa.antt =====
-- internal/infra/httpapi/spa.go. `stat` says whether `fs.Stat` finds a name, and `file_server` is
-- `http.FileServer` on the same file system.
use text.Mathlib.Text.{starts_with}
use skills.Prelude.{String, Bool, true, false, ◌≡◌, List, ◌∷◌, same, if◌then◌else◌}
use skills.Prelude.Strings.{trim_prefix}
use skills.World.{World}
use skills.Environment.{Env}
use skills.Api.Middleware.{Call, HttpRequest, Handler, set_header, with_middleware}

-- The name that is looked up.
unfoldable pub file_name : String → String
file_name path = if same path "/" then "index.html" else trim_prefix path "/"

-- `NewSPAHandler`. `r.URL.Path` is set in the request that the handler is given.
unfoldable pub new_spa_handler : (String → Bool) → Handler → Handler
unfolding file_name
new_spa_handler stat file_server r w =
    let (served, w1) = file_server r w in
    if stat (file_name r.path)
    then if starts_with (file_name r.path) "assets/"
      then (
        record served {
          calls = set_header "Cache-Control" "public, max-age=31536000, immutable" ∷ served.calls;
        },
        w1,
      )
      else (served, w1)
    else file_server (record r { path = "/" }) w

-- What a request of `r.path` gets behind the middleware.
pub data IsServed (env : Env) (stat : String → Bool) (file_server : Handler) (r : HttpRequest)
    (w : World) : Type 0 where
  fallback :
      stat (file_name r.path) ≡ false
      → with_middleware env (new_spa_handler stat file_server) r w
        ≡ with_middleware env (new_spa_handler stat file_server) (record r { path = "/" }) w
      → IsServed env stat file_server r w
  page :
      stat (file_name r.path) ≡ true
      → starts_with (file_name r.path) "assets/" ≡ false
      → with_middleware env (new_spa_handler stat file_server) r w
        ≡ with_middleware env file_server r w
      → IsServed env stat file_server r w
  asset :
      (id : String) (calls : List Call)
      → stat (file_name r.path) ≡ true
      → starts_with (file_name r.path) "assets/" ≡ true
      → (with_middleware env file_server r w).0.calls ≡ set_header "X-Request-ID" id ∷ calls
      → with_middleware env (new_spa_handler stat file_server) r w ≡ (
        record (with_middleware env file_server r w).0 {
          calls =
              set_header "X-Request-ID" id
              ∷ set_header "Cache-Control" "public, max-age=31536000, immutable"
              ∷ calls;
        },
        (with_middleware env file_server r w).1,
      )
      → IsServed env stat file_server r w
