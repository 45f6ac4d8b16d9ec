-- ===== src/Api/DevProxy.antt =====
-- internal/infra/httpapi/devproxy.go. `parse` is `url.Parse`, and `reverse_proxy` is
-- `httputil.NewSingleHostReverseProxy`.
use skills.Prelude.{String, Option, none, some}
use skills.Domain.Errors.{Result, ok, err}
use skills.Api.Middleware.{Handler}

-- `NewSPADevProxy`; `none` is its panic.
unfoldable pub new_spa_dev_proxy :
    {Url : Type 0} (parse : String → Result Url) (reverse_proxy : Url → Handler) (dev_url : String)
    → Option Handler
new_spa_dev_proxy parse reverse_proxy dev_url = elim (parse dev_url) [
  | err e ↦ none
  | ok target ↦ some (reverse_proxy target)
]
