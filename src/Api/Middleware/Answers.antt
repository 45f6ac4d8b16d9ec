-- ===== src/Api/Middleware/Answers.antt =====
-- What a client gets and what is logged, whatever the handler does.
use skills.Prelude.{
  ℕ, String, Bool, true, false, ◌||◌, ◌≡◌, ◌∙◌, refl, ap, none, some, List, [], ◌∷◌, ◌++◌,
  if◌then◌else◌, arith, Bool-cases, inl, inr,
}
use skills.World.{World}
use skills.Environment.{Env}
use skills.Checks.{new_id}
use skills.Api.Middleware.{
  Call, set_header, write_header, write, HttpRequest, LogLine, request_line, Outcome, Handler,
  record_calls, fresh_recorder, StatusRecorder, request_id_from_context, http_error, recovery_calls,
  recover_from, log_request, with_middleware,
}

-- The status of the response: of the first call that sends one, and 200 with no such call. No
-- handler here sends an informational status.
unfoldable pub received : List Call → ℕ
received [] = 200
received (set_header k v ∷ calls) = received calls
received (write_header code ∷ calls) = code
received (write text ∷ calls) = 200

-- Whether anything is sent.
unfoldable pub sends : List Call → Bool
sends [] = false
sends (set_header k v ∷ calls) = sends calls
sends (write_header code ∷ calls) = true
sends (write text ∷ calls) = true

unfoldable pub no_status : List Call → Bool
no_status [] = true
no_status (set_header k v ∷ calls) = no_status calls
no_status (write_header code ∷ calls) = false
no_status (write text ∷ calls) = no_status calls

-- The status is set at most once, and before the body: `net/http` ignores any other.
unfoldable pub is_proper : List Call → Bool
unfolding no_status
is_proper [] = true
is_proper (set_header k v ∷ calls) = is_proper calls
is_proper (write_header code ∷ calls) = no_status calls
is_proper (write text ∷ calls) = no_status calls

written-eq :
    (calls : List Call) (r : StatusRecorder)
    → (record_calls r calls).written ≡ (r.written || sends calls)
unfolding record_calls sends
written-eq [] r = ground arith
written-eq (set_header k v ∷ calls) r = written-eq calls r
written-eq (write_header code ∷ calls) r =
    written-eq calls (record { status = code; written = true }) ∙ ground arith
written-eq (write text ∷ calls) r =
    written-eq calls (record { status = r.status; written = true }) ∙ ground arith

kept_status :
    (calls : List Call) (r : StatusRecorder)
    → no_status calls ≡ true
    → (record_calls r calls).status ≡ r.status
unfolding record_calls no_status
kept_status [] r h = refl
kept_status (set_header k v ∷ calls) r h = kept_status calls r h
kept_status (write_header code ∷ calls) r h = absurd (ground arith)
kept_status (write text ∷ calls) r h =
    kept_status calls (record { status = r.status; written = true }) h

-- The recorder keeps the status that the client gets.
status-received :
    (calls : List Call)
    → is_proper calls ≡ true
    → (record_calls fresh_recorder calls).status ≡ received calls
unfolding record_calls is_proper received
status-received [] h = refl
status-received (set_header k v ∷ calls) h = status-received calls h
status-received (write_header code ∷ calls) h =
    kept_status calls (record { status = code; written = true }) h
status-received (write text ∷ calls) h =
    kept_status calls (record { status = 200; written = true }) h

received-error :
    (calls : List Call) (text : String) (code : ℕ)
    → sends calls ≡ false
    → (received (calls ++ http_error text code) ≡ code)
      × (is_proper (calls ++ http_error text code) ≡ true)
unfolding received sends is_proper no_status
received-error [] text code h = (refl, refl)
received-error (set_header k v ∷ calls) text code h = received-error calls text code h
received-error (write_header c ∷ calls) text code h = absurd (ground arith)
received-error (write t ∷ calls) text code h = absurd (ground arith)

append_nil : (calls : List Call) → calls ++ [] ≡ calls
append_nil [] = refl
append_nil (c ∷ calls) = ap (λ cs. c ∷ cs) (append_nil calls)

-- The response to a handler's calls: 500 after a panic that came before anything was sent.
abbrev pub expected_status : Outcome → ℕ
expected_status o = elim o.panicked [
  | none ↦ received o.calls
  | some p ↦ if sends o.calls then received o.calls else 500
]

-- Inside the logging: what panic recovery makes of a handler's outcome.
module _ (r : HttpRequest) (rec : r.recorded ≡ true) (o : Outcome)
    (proper : is_proper o.calls ≡ true) where
  recovered_panic : (recover_from r o).panicked ≡ none
  unfolding recover_from
  recovered_panic = ground arith

  recovered_path : (recover_from r o).path ≡ o.path
  unfolding recover_from
  recovered_path = ground arith

  recovered_calls :
      (received (recover_from r o).calls ≡ expected_status o)
      × (is_proper (recover_from r o).calls ≡ true)
  unfolding recover_from recovery_calls
  recovered_calls = elim (Bool-cases (sends o.calls)) [
    | inl b ↦ ground (arith, append_nil o.calls, written-eq o.calls fresh_recorder)
    | inr b ↦
        let (code, fine) = received-error o.calls "internal server error" 500 b in
        ground (arith, written-eq o.calls fresh_recorder)
  ]

module _ (r : HttpRequest) (o : Outcome) where
  log_request_panicked : (log_request r o).panicked ≡ o.panicked
  unfolding log_request
  log_request_panicked = ground arith

  log_request_calls : (log_request r o).calls ≡ o.calls
  unfolding log_request
  log_request_calls = ground arith

  log_request_log :
      o.panicked ≡ none
      → is_proper o.calls ≡ true
      → (log_request r o).log
        ≡ o.log
          ++ (request_line r.method o.path (received o.calls) (request_id_from_context r) ∷ [])
  unfolding log_request
  log_request_log h k = ground (arith, status-received o.calls)

-- The response and the log line of a request whose handler had the outcome `o` under the request ID
-- `id`.
pub record IsAnswered (id : String) (r : HttpRequest) (o result : Outcome) : Type 0 where
  pub no_panic : result.panicked ≡ none
  pub status : received result.calls ≡ expected_status o
  pub header : (calls : List Call) × (result.calls ≡ set_header "X-Request-ID" id ∷ calls)
  pub logged :
      (lines : List LogLine) × (result.log
        ≡ lines ++ (request_line r.method o.path (expected_status o) id ∷ []))

-- A handler that on this request sets its status at most once and before its body, run behind the
-- middleware: it sees a fresh request ID in its context, no panic gets out, the client gets the
-- handler's own status, and 500 if the handler panicked before it had sent anything; the first
-- header set is the request ID, and the last log line has the request's method, the path that the
-- handler left in it, the status that the client got, and the same request ID.
pub with_middleware-IsAnswered :
    (env : Env) (next : Handler) (r : HttpRequest) (w : World)
    → is_proper
        (next
          (record r { request_id = some (new_id env "req" w).0; recorded = true })
          (new_id env "req" w).1).0.calls
      ≡ true
    → IsAnswered
        (new_id env "req" w).0
        r
        (next
          (record r { request_id = some (new_id env "req" w).0; recorded = true })
          (new_id env "req" w).1).0
        (with_middleware env next r w).0
unfolding with_middleware request_id_from_context received
with_middleware-IsAnswered env next r w proper =
    let id = (new_id env "req" w).0 in
    let seen : HttpRequest = record r { request_id = some id; recorded = true } in
    let o = (next seen (new_id env "req" w).1).0 in
    let (status, fine) = recovered_calls seen refl o proper in
    let quiet = recovered_panic seen refl o proper in
    let named : HttpRequest = record r { request_id = some id } in
    let inner = recover_from seen o in
    record {
      no_panic = log_request_panicked named inner ∙ quiet;
      status = ap received (log_request_calls named inner) ∙ status;
      header = ((log_request named inner).calls, refl);
      logged = (
        inner.log,
        log_request_log named inner quiet fine
            ∙ ap (λ (code : ℕ). inner.log ++ (request_line r.method inner.path code id ∷ [])) status
            ∙ ap (λ path. inner.log ++ (request_line r.method path (expected_status o) id ∷ []))
                (recovered_path seen refl o proper),
      );
    }
