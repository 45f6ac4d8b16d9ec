-- ===== src/Api/Notify.antt =====
-- internal/infra/httpapi/notify.go, `HandleNotify`. The request is what the JSON decoder made of
-- the body, read up to its limit: an email, or nothing.
pub mod Accepts
use skills.Prelude.{ℕ, String, Option, none, some, if◌then◌else◌}
use skills.Domain.Types.{pending, default_retry_limit, Notification}
use skills.Domain.Errors.{Error, already_notified, ok, err, is, error_text}
use skills.World.{World}
use skills.Environment.{Env}
use skills.Checks.{new_id, validate_email}
use skills.Queue.{enqueue}
use skills.Store.{Store}
use skills.Api.Code
use skills.Api.Response.{Response, Body, error, notify_response, write_json}

abbrev pub internal_error : Response
internal_error = write_json Code.internal_server_error (error "internal server error")

-- The record that a request for `email` creates; the store fills in the times.
abbrev pub new_notification : String → String → Notification
new_notification id email = record {
  id = id;
  email = email;
  status = pending;
  retry_count = 0;
  retry_limit = default_retry_limit;
  created_at = 0;
  updated_at = 0;
}

module _ (env : Env) (store : Store) (request_id : String) where
  unfoldable pub create_and_enqueue : String → World → Response × World
  create_and_enqueue email w =
      let (id, w1) = new_id env "ntf" w in
      let (created, w2) = store.create_notification (new_notification id email) w1 in
      elim created [
        | err e ↦ (
          if is e already_notified
              then write_json Code.conflict (error "already notified")
              else internal_error,
          w2,
        )
        | ok _ ↦
            let payload =
              env.marshal
                (record { notification_id = id; email = email; request_id = request_id }) in
            let (failed, w3) = enqueue env payload w2 in
            elim failed [
              | some _ ↦ (internal_error, w3)
              | none ↦ (write_json Code.accepted (notify_response id), w3)
            ]
      ]

  unfoldable pub handle_notify : Option String → World → Response × World
  handle_notify none w = (write_json Code.bad_request (error "invalid JSON body"), w)
  handle_notify (some email) w = elim (validate_email env email) [
    | some e ↦ (write_json Code.unprocessable_entity (error (error_text e)), w)
    | none ↦ create_and_enqueue email w
  ]
