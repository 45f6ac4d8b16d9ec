-- ===== src/Bridge.antt =====
-- cmd/mcp-bridge/bridge.go: JSON-RPC lines from the standard input go to the MCP endpoint one by
-- one, and the answers go to the standard output. The HTTP client is a parameter.
pub mod Forwards
use skills.Prelude.{
  ℕ, suc, String, ◌<>◌, Bool, Option, none, some, List, [], ◌∷◌, ◌++◌, same, if◌then◌else◌,
}
use skills.Domain.Errors.{Error, wrap}

-- A request; its method is POST.
pub record Request : Type 0 where
  pub url : String
  pub content_type : String
  pub authorization : Option String
  pub body : String

-- How a request can end: `client.Do` fails, reading the body fails, or there is a body.
pub data Exchange : Type 0 where
  failed : Error → Exchange
  unread : Error → Exchange
  answered : String → Exchange

-- `new_request` is the error of `http.NewRequestWithContext`, which the URL alone can cause here;
-- `exchange k` is what becomes of the k-th request; `trim_space` is `bytes.TrimSpace`.
pub record Http : Type 0 where
  pub new_request : String → Option Error
  pub exchange : ℕ → Request → Exchange
  pub trim_space : String → String

-- What the bridge does, in order.
pub data Event : Type 0 where
  posted : Request → Event
  wrote : String → Event

module _ (http : Http) (url token : String) where
  unfoldable pub request : String → Request
  request line = record {
    url = url;
    content_type = "application/json";
    authorization = if same token "" then none else some ("Bearer " <> token);
    body = line;
  }

  -- What is done with the answer: one line for a body, and a log entry otherwise.
  unfoldable pub relay : Exchange → List Event
  relay (failed e) = []
  relay (unread e) = []
  relay (answered body) = wrote (http.trim_space body) ∷ []

  -- The loop of `Bridge` over the lines that the scanner finds, `k` requests after its start;
  -- `scan_error` is the scanner's error at the end.
  unfoldable pub bridge : Option Error → ℕ → List String → Option Error × List Event
  bridge scan_error k [] = (scan_error, [])
  bridge scan_error k (line ∷ lines) =
      let skipped = bridge scan_error k lines in
      let rest = bridge scan_error (suc k) lines in
      if same (http.trim_space line) "" then skipped else elim (http.new_request url) [
        | some e ↦ (some (wrap "create request" e), [])
        | none ↦
            (rest.0, posted (request line) ∷ (relay (http.exchange k (request line)) ++ rest.1))
      ]
