-- ===== src/Tests.antt =====
-- The theorems of the other modules at concrete inputs, over the SQLite backend.
mod Fixtures
mod Payloads
mod Queued
mod Seen
mod Requests
mod Delivery
mod Outer
mod Served
mod Jobs
mod Pumps
mod Shared
mod Commands
use skills.Prelude.{
  zero, suc, ◌==◌, if◌then◌else◌, ℕ, String, ◌<>◌, ◌+◌, ◌*◌, ◌≤◌, ◌<◌, true, false, ◌≡◌, ◌≢◌, ◌↔◌,
  ◌⊎◌, refl, inl, inr, Option, none, some, List, [], ◌∷◌, length, same, contains, All, arith,
}
use skills.Domain.Types.{
  Status, sending, not_sent, status, to_int, Trigger, trigger_int, EmailMessage,
}
use skills.Domain.Machine.{lifecycle, permitted, configure_state_machine}
use skills.Domain.Lifecycle.{Edge, permitted_iff_edge}
use skills.Domain.Errors.{is, plain}
use skills.World.{Row, World}
use skills.Environment.{Env}
use skills.Database.{by_email, by_id, update_row, statement, insert_row, conflicts}
use skills.Store.Contract.{IsStore}
use skills.Sqlite.{
  scan, create_notification, insert_values, get_notification_by_email, update_notification,
  notification_state_accessor, notification_state_mutator, log_transition,
}
use skills.Queue.{enqueue, flavor_sqlite}
use skills.Checks.{new_id, validate_email, check_reset_allowed}
use skills.Backend.{open_store}
use skills.Backend.Contract.{open_store-IsStore}
use skills.Email.{render_notification}
use skills.Worker.{handle, message}
use skills.Worker.Attempt.{plan, verdict, expected_mail}
use skills.Worker.Refines.{data_of, handle-Ends}
use skills.Worker.Refines.Endings.{Ends}
use skills.Worker.Stuck.{handle_idle}
use skills.Worker.Exhausted.{Exhausts, redeliver-Exhausts}
use skills.Worker.Changes.{Changes}
use skills.Worker.Changes.Handled.{handle-Changes}
use skills.Worker.Sound.{IsSound}
use skills.Service.Runs.{Call, serve, serve-IsSound}
use skills.Worker.Retries.{redeliver, Settled, redeliver-Settled}
use skills.Api.Notify
use skills.Api.Notify.{handle_notify}
use skills.Api.Notify.Accepts.{Accepts, handle_notify-Accepts}
use skills.Api.Reset
use skills.Api.Reset.{handle_reset}
use skills.Api.Reset.Clears.{reset_job}
use skills.Api.Reset.Resets.{Resets, handle_reset-Resets}
use skills.Api.List.{page_limit, decode_cursor, handle_list}
use skills.Api.List.Pages.{Lists, handle_list-Lists}
use skills.Mcp.{send_notification, reset_notification}
use skills.Service.Notified.{notify_job, notify-Settled}
use skills.Service.Renewed.{reset-Settled}
use skills.Firing.{Fired, fire-Fired, store_machine}
use skills.Hub.{Hub, Channel, empty_channel, broadcast_to, Event, new_hub, run}
use skills.Hub.Members.{member}
use skills.Hub.Broadcast.{After, broadcast_to-After}
use skills.Mcp.{tool_limit, list_notifications}
use skills.Mcp.Pages.{ToolLists, list_notifications-ToolLists, tool_limit-page_limit}
use skills.Hub.Safe.{IsHub, run-IsHub}
use skills.Tests.Fixtures.{
  bob_pending, ann_delivered, ann_sending, world, stuck_world, ann_world, bob_message, fire_model,
  env, store, contract, env-IsStateless, env-Healthy, env-ReportsUnique, bob_job, ann_job, row_of,
  world_of,
}

permitted_iff_edge_example :
    (permitted (lifecycle 3 1) sending Trigger.soft_fail ≡ some not_sent)
    ↔ Edge 3 1 sending Trigger.soft_fail not_sent
permitted_iff_edge_example = permitted_iff_edge 3 1 sending not_sent Trigger.soft_fail

open_store-IsStore_example : IsStore env (open_store env "file.db")
open_store-IsStore_example =
    open_store-IsStore env "file.db" ((λ p. absurd (ground arith)), (λ _. env-ReportsUnique))

handle-Ends_example :
    Ends true bob_pending
      (expected_mail bob_job "<p>ntf_u0</p>" "ntf_u0")
      (plan (verdict (some (plain "timeout"))) 3 0)
      world.state
      (handle env store true (env.marshal bob_job) world)
unfolding same by_email render_notification conflicts status message contains
handle-Ends_example =
    handle-Ends env store env-IsStateless contract env-Healthy true (env.marshal bob_job) world
      {job = bob_job} {row = bob_pending} refl (refl, (refl, tt)) refl (inl refl) refl refl

handle_idle_example :
    ((handle env store true (env.marshal ann_job) stuck_world).0 ≢ none)
    × ((handle env store true (env.marshal ann_job) stuck_world).1.state ≡ stuck_world.state)
unfolding same by_email conflicts status contains
handle_idle_example =
    handle_idle env store env-IsStateless contract true (env.marshal ann_job) stuck_world
      {job = ann_job} {row = ann_sending} refl (refl, (refl, tt)) refl ((λ p. cc), (λ p. cc))

redeliver-Settled_example :
    Settled "bob@fail.com" 3 0 world (redeliver env store true 4 (env.marshal bob_job) world)
unfolding same by_email render_notification conflicts status contains
redeliver-Settled_example =
    redeliver-Settled env store env-IsStateless contract env-Healthy true (env.marshal bob_job)
      {job = bob_job} 4 world bob_pending refl refl (refl, (refl, tt)) refl (inl refl) (omega arith)
      (omega arith)

redeliver-Exhausts_example :
    Exhausts "bob@fail.com" 3 0 (redeliver env store true 4 (env.marshal bob_job) world)
unfolding same by_email render_notification conflicts status contains verdict is message
redeliver-Exhausts_example =
    redeliver-Exhausts env store env-IsStateless contract env-Healthy true (env.marshal bob_job)
      {job = bob_job} {html = "<p>ntf_u0</p>"} {text = "ntf_u0"} (λ k. refl) 4 world bob_pending
      refl refl (refl, (refl, tt)) refl (inl refl) (omega arith) (omega arith)

handle-Changes_example :
    Changes "ntf_u0" 3 0 world.state (handle env store true (env.marshal bob_job) world).1.state
unfolding same by_email conflicts contains
handle-Changes_example =
    handle-Changes env store env-IsStateless contract true (env.marshal bob_job) world
      {job = bob_job} {row = bob_pending} refl (refl, (refl, tt)) refl
