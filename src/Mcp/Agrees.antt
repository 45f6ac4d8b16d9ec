-- ===== src/Mcp/Agrees.antt =====
-- The MCP tools and the HTTP handlers do the same to the service: `send_notification` as POST
-- /v1/notify, and `reset_notification` as POST /v1/notify/reset.
use skills.Prelude.{
  String, ◌≡◌, ◌∙◌, ◌↔◌, ◌⊎◌, refl, sym, ap, false, none, some, ◌∷◌, arith, same, inl, inr,
  Option-cases,
}
use skills.World.{World}
use skills.Environment.{Env, EmailJobPayload}
use skills.Database.{next_call, statement}
use skills.Queue.{enqueue}
use skills.Checks.{new_id, validate_email, check_reset_allowed}
use skills.Store.{Store}
use skills.Domain.Types.{pending, Trigger, Notification}
use skills.Domain.Errors.{Error, plain, wrap, Result, ok, err}
use skills.Firing.{store_machine}
use skills.Api.Code
use skills.Api.Response.{Response, empty, notify_response, write_json}
use skills.Api.Notify
use skills.Api.Notify.{new_notification, handle_notify}
use skills.Api.Reset
use skills.Api.Reset.{cleared, handle_reset}
use skills.Mcp.{
  ToolResult, sent, reset_done, create_and_enqueue, send_notification, clear_and_enqueue,
  reset_found, reset_notification,
}

result-cases : {A : Type 0} (r : Result A) → ((e : Error) × (r ≡ err e)) ⊎ ((a : A) × (r ≡ ok a))
result-cases (err e) = inl (e, refl)
result-cases (ok a) = inr (a, refl)

abbrev pub job : String → String → String → EmailJobPayload
job id email request_id = record { notification_id = id; email = email; request_id = request_id }

abbrev pub queued : Env → EmailJobPayload → World → World
queued env p w = record w { state = record w.state { queue = env.marshal p ∷ w.state.queue } }

-- Two worlds that are the same, but for the request ID in the job that was queued last:
-- `request_id` in the first, and none in the second.
pub data SameButId (env : Env) (request_id : String) (a b : World) : Type 0 where
  alike : a ≡ b → SameButId env request_id a b
  one_job :
      (id email : String) (v : World)
      → a ≡ queued env (job id email request_id) v
      → b ≡ queued env (job id email "") v
      → SameButId env request_id a b

-- A message is queued whatever its payload is, or not.
enqueue-cases :
    (env : Env) (w : World)
    → ((e : Error) × (v : World) × ((payload : String) → enqueue env payload w ≡ (some e, v)))
      ⊎ ((v : World) × ((payload : String)
            → enqueue env payload w
              ≡ (none, record v { state = record v.state { queue = payload ∷ v.state.queue } })))
unfolding enqueue statement
enqueue-cases env w = elim (Option-cases (env.faults w.calls)) [
  | inr (text, f) ↦
      inl (wrap "enqueue notification" (plain text), next_call w, λ payload. ground arith)
  | inl n ↦ inr (next_call w, λ payload. ground arith)
]

module _ (env : Env) (store : Store) (request_id : String) where
  -- What a handler does under a request ID, and under none.
  abbrev Relabelled : Response × World → Response × World → Type 0
  Relabelled a b = (a.0 ≡ b.0) × SameButId env request_id a.1 b.1

  Relabelled-eq : (a b : Response × World) → a ≡ b → Relabelled a b
  Relabelled-eq a b e = (ap (λ x. x.0) e, alike (ap (λ x. x.1) e))

  Relabelled-job :
      (a b : Response × World) (answer : Response) (id email : String) (v : World)
      → a ≡ (answer, queued env (job id email request_id) v)
      → b ≡ (answer, queued env (job id email "") v)
      → Relabelled a b
  Relabelled-job a b answer id email v p q = (
    ap (λ x. x.0) p ∙ sym (ap (λ x. x.0) q),
    one_job id email v (ap (λ x. x.1) p) (ap (λ x. x.1) q),
  )

  create-Relabelled :
      (email : String) (w : World)
      → Relabelled
          (Notify.create_and_enqueue env store request_id email w)
          (Notify.create_and_enqueue env store "" email w)
  unfolding Notify.create_and_enqueue new_id
  create-Relabelled email w =
      let id = (new_id env "ntf" w).0 in
      let created = store.create_notification (new_notification id email) (new_id env "ntf" w).1 in
      elim (result-cases created.0) [
        | inl (e, failed) ↦ Relabelled-eq _ _ (ground arith)
        | inr (n, got) ↦ elim (enqueue-cases env created.1) [
          | inl (e, v, fails) ↦
              let one = fails (env.marshal (job id email request_id)) in
              let two = fails (env.marshal (job id email "")) in Relabelled-eq _ _ (ground arith)
          | inr (v, puts) ↦
              let one = puts (env.marshal (job id email request_id)) in
              let two = puts (env.marshal (job id email "")) in
              Relabelled-job _ _ (write_json Code.accepted (notify_response id)) id email v
                (ground arith) (ground arith)
        ]
      ]

  notify-Relabelled :
      (email : String) (w : World)
      → Relabelled
          (handle_notify env store request_id (some email) w)
          (handle_notify env store "" (some email) w)
  unfolding handle_notify
  notify-Relabelled email w = elim (Option-cases (validate_email env email)) [
    | inr (e, v) ↦ Relabelled-eq _ _ (ground arith)
    | inl v ↦ rw (v, handle_notify) (create-Relabelled email w)
  ]

  clear-Relabelled :
      (n : Notification) (w : World)
      → Relabelled
          (Reset.clear_and_enqueue env store request_id n w)
          (Reset.clear_and_enqueue env store "" n w)
  unfolding Reset.clear_and_enqueue
  clear-Relabelled n w =
      let logged = (store.log_transition "notification" n.id n.status pending Trigger.reset w).1 in
      let updated = store.update_notification (cleared n) logged in
      elim (result-cases updated.0) [
        | inl (e, failed) ↦ Relabelled-eq _ _ (ground arith)
        | inr (m, got) ↦ elim (enqueue-cases env updated.1) [
          | inl (e, v, fails) ↦
              let one = fails (env.marshal (job n.id n.email request_id)) in
              let two = fails (env.marshal (job n.id n.email "")) in
              Relabelled-eq _ _ (ground arith)
          | inr (v, puts) ↦
              let one = puts (env.marshal (job n.id n.email request_id)) in
              let two = puts (env.marshal (job n.id n.email "")) in
              Relabelled-job _ _ (write_json Code.no_content empty) n.id n.email v (ground arith)
                (ground arith)
        ]
      ]

  reset-Relabelled :
      (email : String) (w : World)
      → Relabelled
          (handle_reset env store request_id (some email) w)
          (handle_reset env store "" (some email) w)
  unfolding handle_reset Reset.reset_found
  reset-Relabelled email w = elim (result-cases (store.get_notification_by_email email w).0) [
    | inl (e, failed) ↦ Relabelled-eq _ _ (ground arith)
    | inr (n, got) ↦
        let w1 = (store.get_notification_by_email email w).1 in
        let sm = store_machine store n.id n.retry_limit n.retry_count in
        elim (Option-cases (check_reset_allowed n.status n.retry_count n.retry_limit)) [
          | inr (e, c) ↦ Relabelled-eq _ _ (ground arith)
          | inl c ↦ elim (Option-cases (env.fire sm Trigger.reset w1).0) [
            | inr (e, f) ↦ Relabelled-eq _ _ (ground arith)
            | inl f ↦
                let after = (env.fire sm Trigger.reset w1).1 in
                let p : handle_reset env store request_id (some email) w
                    ≡ Reset.clear_and_enqueue env store request_id n after =
                  ground arith in
                let q : handle_reset env store "" (some email) w
                    ≡ Reset.clear_and_enqueue env store "" n after =
                  ground arith in
                rw (p, q) (clear-Relabelled n after)
          ]
        ]
  ]

module _ (env : Env) (store : Store) where
  abbrev SameReset : Response × World → ToolResult × World → Type 0
  SameReset a b = (a.1 ≡ b.1) × ((a.0 ≡ write_json Code.no_content empty) ↔ (b.0 ≡ reset_done))

  clear-SameReset :
      (n : Notification) (w : World)
      → SameReset (Reset.clear_and_enqueue env store "" n w) (clear_and_enqueue env store n w)
  unfolding Reset.clear_and_enqueue clear_and_enqueue
  clear-SameReset n w = ground arith

  found-SameReset :
      (n : Notification) (w : World)
      → SameReset (Reset.reset_found env store "" n w) (reset_found env store n w)
  unfolding Reset.reset_found reset_found
  found-SameReset n w =
      let moved =
        (env.fire (store_machine store n.id n.retry_limit n.retry_count) Trigger.reset w).1 in
      let same = clear-SameReset n moved in ground arith

  reset_unlabelled :
      (email : String) (w : World)
      → same email "" ≡ false
      → SameReset (handle_reset env store "" (some email) w) (reset_notification env store email w)
  unfolding handle_reset reset_notification
  reset_unlabelled email w h = elim (result-cases (store.get_notification_by_email email w).0) [
    | inl (e, failed) ↦ ground arith
    | inr (n, got) ↦
        let same = found-SameReset n (store.get_notification_by_email email w).1 in ground arith
  ]

  abbrev SameNotify : Response × World → ToolResult × World → Type 0
  SameNotify a b =
      (a.1 ≡ b.1)
      × ((id : String) → (a.0 ≡ write_json Code.accepted (notify_response id)) ↔ (b.0 ≡ sent id))

  create-SameNotify :
      (email : String) (w : World)
      → SameNotify
          (Notify.create_and_enqueue env store "" email w)
          (create_and_enqueue env store email w)
  unfolding Notify.create_and_enqueue create_and_enqueue
  create-SameNotify email w = ground arith

  notify_unlabelled :
      (email : String) (w : World)
      → same email "" ≡ false
      → SameNotify (handle_notify env store "" (some email) w) (send_notification env store email w)
  unfolding handle_notify send_notification
  notify_unlabelled email w h = ground (arith, create-SameNotify email w)

-- For an email that is not empty and any request ID, the send tool leaves the same world as the
-- notify handler, whatever fails, but for the request ID in the job that is queued: the handler's
-- job has that of its request, and the tool's has none. The tool names an id exactly when the
-- handler answers 202 with it.
pub notify_agrees :
    (env : Env) (store : Store) (request_id email : String) (w : World)
    → same email "" ≡ false
    → let a = handle_notify env store request_id (some email) w in
      let b = send_notification env store email w in
      SameButId env request_id a.1 b.1
      × ((id : String) → (a.0 ≡ write_json Code.accepted (notify_response id)) ↔ (b.0 ≡ sent id))
notify_agrees env store request_id email w h =
    let (answers, worlds) = notify-Relabelled env store request_id email w in
    let (world, ids) = notify_unlabelled env store email w h in (rw world at worlds, rw answers ids)

-- For an email that is not empty and any request ID, the reset tool leaves the same world as the
-- reset handler, whatever fails, but for the request ID in the job that is queued: the handler's
-- job has that of its request, and the tool's has none. The tool succeeds exactly when the
-- handler answers 204.
pub reset_agrees :
    (env : Env) (store : Store) (request_id email : String) (w : World)
    → same email "" ≡ false
    → let a = handle_reset env store request_id (some email) w in
      let b = reset_notification env store email w in
      SameButId env request_id a.1 b.1
      × ((a.0 ≡ write_json Code.no_content empty) ↔ (b.0 ≡ reset_done))
reset_agrees env store request_id email w h =
    let (answers, worlds) = reset-Relabelled env store request_id email w in
    let (world, done) = reset_unlabelled env store email w h in
    (rw world at worlds, rw answers done)
