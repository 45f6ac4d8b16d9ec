-- ===== src/Tests/Seen.antt =====
-- What a client sees of a job at concrete inputs.
use skills.Prelude.{String, ◌<>◌, true, false, ◌≡◌, refl, inl, List, [], ◌∷◌, same, arith, contains}
use skills.World.{StateMessage, World}
use skills.Database.{statement, by_email, by_id, update_row, conflicts}
use skills.Worker.{
  handle, process, fire_and_log, send_trigger, deliver, conclude, broadcast_state, give_up, message,
  soft_fail,
}
use skills.Sqlite.{
  log_transition, update_notification, get_notification_by_email, notification_state_accessor,
  notification_state_mutator, format_rfc3339, parse_rfc3339, scan, set_status,
}
use skills.Domain.Machine.{configure_state_machine, permitted, lifecycle}
use skills.Email.{render_notification}
use skills.Domain.Errors.{is}
use skills.Domain.Types.{status, status_string, to_int, trigger_int, trigger_string}
use skills.Worker.Retries.{redeliver}
use skills.Hub.{Hub, Event, broadcast_to, try_send, drain, step}
use skills.Hub.Members.{member}
use skills.Hub.Safe.{IsHub}
use skills.Hub.Delivery.{delivered, broadcasts, said, written}
use skills.Service.Seen.{IsRelayed}
use skills.Service.Seen.Clients.{Sees, redeliver-Sees}
use skills.Tests.Fixtures.{
  fire_model, env, env-IsStateless, env-Healthy, store, contract, bob_job, bob_pending, world,
}

abbrev encode : StateMessage → String
encode m = m.id <> (":" <> m.state)

-- One client is connected.
abbrev connected : Hub
connected = record {
  clients = 0 ∷ [];
  max_conns = 2;
  channels = λ c. record { buffer = []; closed = false };
  next = 1;
}

connected-IsHub : IsHub connected
unfolding member
connected-IsHub = record {
  distinct = (refl, tt);
  room = omega arith;
  known = λ c m. ground arith;
  closed = λ c l. ground arith;
  bounded = λ c. omega arith;
}

abbrev tell : String → Event
tell msg = Event.broadcast (λ cs. cs) msg

-- Two receptions of Bob's job, whose sender times out, and a write between them.
abbrev events : List Event
events =
    tell "ntf_u0:sending"
    ∷ tell "ntf_u0:not_sent"
    ∷ Event.write 0
    ∷ tell "ntf_u0:sending"
    ∷ tell "ntf_u0:not_sent"
    ∷ []

abbrev tried : World
tried = (redeliver env store true 2 (env.marshal bob_job) world).1

events-IsRelayed : IsRelayed encode [] tried.state.broadcasts events
unfolding redeliver handle same get_notification_by_email statement process fire_and_log fire_model
    configure_state_machine notification_state_accessor permitted send_trigger
    notification_state_mutator deliver render_notification conclude by_email by_id update_row is
    lifecycle status status_string to_int trigger_int trigger_string format_rfc3339 parse_rfc3339
    scan set_status broadcast_state give_up message soft_fail contains log_transition
    update_notification broadcasts said
events-IsRelayed = refl

-- What the client got and gets.
frames : delivered 0 events connected ≡ "ntf_u0:sending" ∷ []
unfolding delivered written step broadcast_to try_send drain
frames = refl

redeliver-Sees_example : Sees encode "bob@fail.com" tried 0 events connected
unfolding same conflicts by_email render_notification status
redeliver-Sees_example =
    redeliver-Sees env store env-IsStateless contract env-Healthy (env.marshal bob_job)
      {job = bob_job} encode 0 events connected 1 world bob_pending refl refl (refl, (refl, tt))
      refl (inl refl) connected-IsHub (omega arith)
      (
        (λ cs. ((λ u. u), (λ c. refl))),
        (
          (λ cs. ((λ u. u), (λ c. refl))),
          (tt, ((λ cs. ((λ u. u), (λ c. refl))), ((λ cs. ((λ u. u), (λ c. refl))), tt))),
        ),
      )
      events-IsRelayed
