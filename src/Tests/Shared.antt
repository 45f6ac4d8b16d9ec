-- ===== src/Tests/Shared.antt =====
-- Handlers between the statements of others, at concrete inputs.
use skills.Prelude.{contains, length, ◌≡◌, ◌==◌, if◌then◌else◌, same, true, refl, some, arith}
use skills.World.{World}
use skills.Database.{statement, by_email, by_id, update_row, conflicts}
use skills.Worker.{
  handle, process, fire_and_log, send_trigger, deliver, conclude, broadcast_state, give_up, message,
  soft_fail,
}
use skills.Sqlite.{
  log_transition, update_notification, get_notification_by_email, notification_state_accessor,
  notification_state_mutator, format_rfc3339, parse_rfc3339, scan, set_status,
}
use skills.Domain.Machine.{configure_state_machine, permitted, lifecycle}
use skills.Email.{render_notification}
use skills.Domain.Errors.{is}
use skills.Domain.Types.{status, status_string, to_int, trigger_int, trigger_string}
use skills.Worker.Sound.{IsSound}
use skills.Service.Shared.{disturbed, contract-Keeps}
use skills.Service.Shared.Served.{
  receive, reset_tool, notify, perform, perform-Sound, disturbed-IsSound,
}
use skills.Tests.Fixtures.{fire_model, env, env-IsStateless, store, contract, world}

-- Before each statement, a tool resets Bob's notification and a request asks for another one.
abbrev others : World → World
others w =
    perform env store true (notify "req_2" (some "cat@work.org"))
      (perform env store true (reset_tool "bob@fail.com") w)

others-keep : (w : World) → IsSound w.state → IsSound (others w).state
others-keep w i =
    let keeps = contract-Keeps env store contract in
    perform-Sound env store true env-IsStateless keeps (notify "req_2" (some "cat@work.org")) _
      (perform-Sound env store true env-IsStateless keeps (reset_tool "bob@fail.com") w i)

world-IsSound : IsSound world.state
unfolding same conflicts
world-IsSound = record {
  table = (refl, (refl, tt));
  rows = ((omega arith, omega arith), ((omega arith, omega arith), tt));
}

disturbed-IsSound_example :
    IsSound
      (perform env (disturbed others store) true (receive "ntf_u0|bob@fail.com|req_1") world).state
disturbed-IsSound_example =
    disturbed-IsSound env store true others env-IsStateless contract others-keep
      (receive "ntf_u0|bob@fail.com|req_1") world world-IsSound

-- Another job for Bob's notification runs between the two statements of the first trigger: the
-- statement that reads the status and the one that writes it.
abbrev second_job : World → World
second_job w =
    if w.calls == 2 then perform env store true (receive "ntf_u0|bob@fail.com|req_1") w else w

abbrev both_jobs : World
both_jobs =
    perform env (disturbed second_job store) true (receive "ntf_u0|bob@fail.com|req_1") world

-- Each of the two finds the notification pending and sends the email.
two_mails : length both_jobs.state.mailbox ≡ 2
unfolding perform handle same disturbed get_notification_by_email statement process fire_and_log
    fire_model configure_state_machine notification_state_accessor permitted send_trigger
    notification_state_mutator deliver render_notification conclude by_email by_id update_row is
    lifecycle status status_string to_int trigger_int trigger_string format_rfc3339 parse_rfc3339
    scan set_status broadcast_state give_up message soft_fail contains log_transition
    update_notification
two_mails = refl
