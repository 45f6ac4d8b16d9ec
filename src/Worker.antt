-- ===== src/Worker.antt =====
-- internal/infra/queue/worker.go: `EmailWorker`, over any backend. The result of `handle` is the
-- error that the job runner gets: `none` acknowledges the job, an error leaves it to be received
-- again. Calls of slog are left out.
pub mod Steps
pub mod Attempt
pub mod Conclude
pub mod Refines
pub mod Stuck
pub mod Retries
pub mod Changes
pub mod Sound
pub mod Exhausted
pub mod Trail
use skills.Prelude.{String, ◌<>◌, Bool, Option, none, some, [], ◌∷◌, ◌+◌, if◌then◌else◌}
use skills.Domain.Types.{
  Status, pending, sending, delivered, failed, not_sent, to_int, status_string, Trigger,
  trigger_string, Notification, EmailMessage,
}
use skills.Domain.Errors.{Error, wrap, Result, ok, err, example_domain, is}
use skills.Domain.Machine.{StateMachine, configure_state_machine}
use skills.World.{World}
use skills.Environment.{Env, EmailJobPayload}
use skills.Store.{Store}
use skills.Email.{render_notification, send_email}

-- The trigger with which the worker takes up a notification.
unfoldable pub send_trigger : Status → Trigger
send_trigger not_sent = Trigger.retry
send_trigger _ = Trigger.send

unfoldable pub message : EmailJobPayload → String → String → EmailMessage
message job html text = record {
  to = job.email ∷ [];
  subject = "You have a new notification";
  html = html;
  text = text;
  request_id = job.request_id;
}

module _ (env : Env) (store : Store) (has_broadcaster : Bool) where
  -- `broadcastState`.
  unfoldable pub broadcast_state : String → Status → World → World
  broadcast_state id s w =
      if has_broadcaster
      then record w {
        state = record w.state {
          broadcasts = (record { id = id; state = status_string s }) ∷ w.state.broadcasts;
        };
      }
      else w

  -- `fireAndLog`: a failure to log is not an error.
  unfoldable pub fire_and_log :
      StateMachine → Notification → Status → Trigger → Status → World → Option Error × World
  fire_and_log sm n from trigger to w =
      let (fired, w1) = env.fire sm trigger w in
      elim fired [
        | some e ↦ (some (wrap ("fire " <> trigger_string trigger) e), w1)
        | none ↦ (none, (store.log_transition "notification" n.id from to trigger w1).1)
      ]

  -- The branch of a permanent failure, and that of exhausted retries.
  unfoldable pub give_up : StateMachine → Notification → World → Option Error × World
  give_up sm n w =
      let (_, w1) = fire_and_log sm n sending Trigger.failed failed w in
      (none, broadcast_state n.id failed w1)

  -- A transient failure: `soft_fail`, and `failed` where its guard refuses.
  unfoldable pub soft_fail : StateMachine → Notification → Error → World → Option Error × World
  soft_fail sm n e w =
      let (fired, w1) = env.fire sm Trigger.soft_fail w in
      elim fired [
        | some _ ↦ give_up sm n w1
        | none ↦
            let w2 =
              (store.log_transition "notification" n.id sending not_sent Trigger.soft_fail w1).1 in
            let w3 = broadcast_state n.id not_sent w2 in
            let m = record n { status = not_sent; retry_count = n.retry_count + 1 } in
            (some (wrap "send email" e), (store.update_notification m w3).1)
      ]

  -- What follows the sender's answer.
  unfoldable pub conclude :
      StateMachine → Notification → Option Error → World → Option Error × World
  conclude sm n (some e) w = if is e example_domain then give_up sm n w else soft_fail sm n e w
  conclude sm n none w =
      let (fired, w1) = fire_and_log sm n sending Trigger.delivered delivered w in
      elim fired [
        | some e ↦ (some (wrap "fire delivered" e), w1)
        | none ↦ (none, broadcast_state n.id delivered w1)
      ]

  -- From the rendering on, with the row in `sending`.
  unfoldable pub deliver :
      EmailJobPayload → StateMachine → Notification → World → Option Error × World
  deliver job sm n w =
      elim (render_notification env
        (record { email = job.email; id = job.notification_id; request_id = job.request_id })) [
          | err e ↦ (some (wrap "render template" e), w)
          | ok (html, text) ↦
              let (sent, w1) = send_email env (message job html text) w in conclude sm n sent w1
        ]

  -- From the loaded notification on.
  unfoldable pub process : EmailJobPayload → Notification → World → Option Error × World
  process job n w =
      let sm =
        configure_state_machine (store.notification_state_accessor n.id)
          (store.notification_state_mutator n.id) n.retry_limit n.retry_count in
      let (fired, w1) = fire_and_log sm n n.status (send_trigger n.status) sending w in
      elim fired [
        | some e ↦ (some e, w1)
        | none ↦ deliver job sm (record n { status = sending }) (broadcast_state n.id sending w1)
      ]

  -- `Handle`. A payload that does not parse is acknowledged.
  unfoldable pub handle : String → World → Option Error × World
  handle payload w = elim (env.unmarshal payload) [
    | none ↦ (none, w)
    | some job ↦
        let (loaded, w1) = store.get_notification_by_email job.email w in
        elim loaded [ err e ↦ (some (wrap "get notification" e), w1) | ok n ↦ process job n w1 ]
  ]
