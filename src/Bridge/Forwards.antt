-- ===== src/Bridge/Forwards.antt =====
-- What the bridge forwards and what it relays.
use skills.Prelude.{ℕ, suc, String, Option, none, some, List, [], ◌∷◌, ◌++◌, same, if◌then◌else◌}
use skills.Domain.Errors.{Error, wrap}
use skills.Bridge.{Http, Event, posted, request, relay}

module _ (http : Http) (url token : String) where
  -- The lines that are no blank lines.
  unfoldable pub messages : List String → List String
  messages [] = []
  messages (line ∷ lines) =
      let rest = messages lines in if same (http.trim_space line) "" then rest else line ∷ rest

  -- One request for each message in order, each followed by its answer.
  unfoldable pub exchanges : ℕ → List String → List Event
  exchanges k [] = []
  exchanges k (line ∷ lines) =
      posted (request http url token line)
      ∷ (relay http url token (http.exchange k (request http url token line))
          ++ exchanges (suc k) lines)

  -- What the bridge is to do with the messages: with a URL that no request can be made of, it
  -- stops at the first one.
  unfoldable pub expected : Option Error → ℕ → List String → Option Error × List Event
  expected scan_error k [] = (scan_error, [])
  expected scan_error k (line ∷ lines) = elim (http.new_request url) [
    | none ↦ (scan_error, exchanges k (line ∷ lines))
    | some e ↦ (some (wrap "create request" e), [])
  ]
