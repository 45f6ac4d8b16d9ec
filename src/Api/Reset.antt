-- ===== src/Api/Reset.antt =====
-- internal/infra/httpapi/reset.go, `HandleReset`.
pub mod Clears
pub mod Resets
use skills.Prelude.{ℕ, String, Option, none, some, if◌then◌else◌}
use skills.Domain.Types.{pending, Trigger, Notification}
use skills.Domain.Errors.{Error, not_found, ok, err, is, error_text}
use skills.Domain.Machine.{configure_state_machine}
use skills.World.{World}
use skills.Environment.{Env}
use skills.Checks.{check_reset_allowed}
use skills.Queue.{enqueue}
use skills.Store.{Store}
use skills.Api.Code
use skills.Api.Response.{Response, Body, empty, error, write_json}
use skills.Api.Notify.{internal_error}

-- The notification that is written back. `n.UpdatedAt = time.Time{}` is the time 0.
abbrev pub cleared : Notification → Notification
cleared n = record n { status = pending; retry_count = 0; updated_at = 0 }

module _ (env : Env) (store : Store) (request_id : String) where
  -- From the fired trigger on.
  unfoldable pub clear_and_enqueue : Notification → World → Response × World
  clear_and_enqueue n w =
      let w1 = (store.log_transition "notification" n.id n.status pending Trigger.reset w).1 in
      let (updated, w2) = store.update_notification (cleared n) w1 in
      elim updated [
        | err _ ↦ (internal_error, w2)
        | ok _ ↦
            let payload =
              env.marshal
                (record { notification_id = n.id; email = n.email; request_id = request_id }) in
            let (failed, w3) = enqueue env payload w2 in
            elim failed [
              | some _ ↦ (internal_error, w3)
              | none ↦ (write_json Code.no_content empty, w3)
            ]
      ]

  unfoldable pub reset_found : Notification → World → Response × World
  reset_found n w = elim (check_reset_allowed n.status n.retry_count n.retry_limit) [
    | some e ↦ (write_json Code.conflict (error (error_text e)), w)
    | none ↦
        let sm =
          configure_state_machine (store.notification_state_accessor n.id)
            (store.notification_state_mutator n.id) n.retry_limit n.retry_count in
        let (fired, w1) = env.fire sm Trigger.reset w in
        elim fired [ some _ ↦ (internal_error, w1) | none ↦ clear_and_enqueue n w1 ]
  ]

  unfoldable pub handle_reset : Option String → World → Response × World
  handle_reset none w = (write_json Code.bad_request (error "invalid JSON body"), w)
  handle_reset (some email) w =
      let (loaded, w1) = store.get_notification_by_email email w in
      elim loaded [
        | err e ↦ (
          if is e not_found then write_json Code.not_found (error "not found") else internal_error,
          w1,
        )
        | ok n ↦ reset_found n w1
      ]
