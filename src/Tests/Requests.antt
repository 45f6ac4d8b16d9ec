-- ===== src/Tests/Requests.antt =====
-- Theorems on requests and tools at concrete inputs.
use skills.Prelude.{String, ◌<>◌, ◌≤◌, true, ◌≡◌, ◌↔◌, refl, some, [], ◌∷◌, same, contains}
use skills.Domain.Types.{status, to_int, trigger_int}
use skills.Domain.Machine.{lifecycle, permitted, configure_state_machine}
use skills.Database.{by_email, by_id, update_row, statement, insert_row, conflicts}
use skills.Sqlite.{
  scan, create_notification, insert_values, get_notification_by_email, update_notification,
  notification_state_accessor, notification_state_mutator, log_transition,
}
use skills.Queue.{enqueue, flavor_sqlite}
use skills.Checks.{new_id, validate_email, check_reset_allowed}
use skills.Email.{render_notification}
use skills.Worker.Retries.{redeliver, Settled}
use skills.Api.Notify
use skills.Api.Notify.{handle_notify}
use skills.Api.Notify.Accepts.{Accepts}
use skills.Api.Reset
use skills.Api.Reset.{handle_reset}
use skills.Api.Reset.Resets.{Resets, handle_reset-Resets}
use skills.Api.List.{page_limit}
use skills.Api.Code
use skills.Api.Response.{empty, notify_response, write_json}
use skills.Mcp.{sent, reset_done, send_notification, reset_notification}
use skills.Mcp.Agrees.{SameButId, reset_agrees, notify_agrees}
use skills.Service.Notified.{notify_job, notify-Settled}
use skills.Service.Renewed.{reset-Settled}
use skills.Mcp.{tool_limit, list_notifications}
use skills.Mcp.Pages.{ToolLists, list_notifications-ToolLists, tool_limit-page_limit}
use skills.Tests.Fixtures.{
  ann_delivered, world, ann_world, fire_model, env, store, contract, env-IsStateless, env-Healthy,
  ann_job,
}

handle_reset-Resets_example :
    Resets env "req_1" "ann@work.org" world
      (handle_reset env store "req_1" (some "ann@work.org") world)
unfolding same conflicts
handle_reset-Resets_example =
    handle_reset-Resets env store env-IsStateless contract "req_1" "ann@work.org" world
      (refl, (refl, tt))

reset_agrees_example :
    let a = handle_reset env store "req_1" (some "ann@work.org") world in
    let b = reset_notification env store "ann@work.org" world in
    SameButId env "req_1" a.1 b.1 × ((a.0 ≡ write_json Code.no_content empty) ↔ (b.0 ≡ reset_done))
unfolding same
reset_agrees_example = reset_agrees env store "req_1" "ann@work.org" world refl

notify_agrees_example :
    let a = handle_notify env store "req_1" (some "bob@fail.com") ann_world in
    let b = send_notification env store "bob@fail.com" ann_world in
    SameButId env "req_1" a.1 b.1
    × ((id : String) → (a.0 ≡ write_json Code.accepted (notify_response id)) ↔ (b.0 ≡ sent id))
unfolding same
notify_agrees_example = notify_agrees env store "req_1" "bob@fail.com" ann_world refl

notify-Settled_example :
    ((handle_notify env store "req_1" (some "bob@fail.com") ann_world).1.state.queue
      ≡ notify_job env "req_1" "bob@fail.com" ann_world ∷ [])
    × Settled "bob@fail.com" 3 0
        (handle_notify env store "req_1" (some "bob@fail.com") ann_world).1
        (redeliver env store true 8
          (notify_job env "req_1" "bob@fail.com" ann_world)
          (handle_notify env store "req_1" (some "bob@fail.com") ann_world).1)
unfolding same contains conflicts new_id validate_email handle_notify Notify.create_and_enqueue
    create_notification insert_values statement insert_row enqueue render_notification
notify-Settled_example =
    notify-Settled env store env-IsStateless contract env-Healthy
      (λ d. ("<p>" <> (d.id <> "</p>"), d.id, refl)) true flavor_sqlite "req_1" "bob@fail.com"
      ann_world (refl, tt) refl refl

reset-Settled_example :
    ((handle_reset env store "req_1" (some "ann@work.org") world).1.state.queue
      ≡ env.marshal ann_job ∷ [])
    × Settled "ann@work.org" 3 0 (handle_reset env store "req_1" (some "ann@work.org") world).1 (
        redeliver env store true 4
          (env.marshal ann_job)
          (handle_reset env store "req_1" (some "ann@work.org") world).1)
unfolding same contains conflicts by_email by_id update_row handle_reset Reset.reset_found
    Reset.clear_and_enqueue check_reset_allowed get_notification_by_email scan status
    configure_state_machine fire_model notification_state_accessor permitted lifecycle
    notification_state_mutator log_transition update_notification statement enqueue
    render_notification to_int trigger_int
reset-Settled_example =
    reset-Settled env store env-IsStateless contract env-Healthy
      (λ d. ("<p>" <> (d.id <> "</p>"), d.id, refl)) true "req_1" "ann@work.org" world ann_delivered
      (refl, (refl, tt)) refl refl refl

list_notifications-ToolLists_example :
    (1 ≤ tool_limit (some 1))
    × (tool_limit (some 1) ≤ 100)
    × ToolLists contract.scan env
        (tool_limit (some 1))
        "ntf_u0"
        world
        (list_notifications env store "ntf_u0" (some 1) world)
list_notifications-ToolLists_example =
    list_notifications-ToolLists env store contract "ntf_u0" (some 1) world

tool_limit-page_limit_example : (tool_limit (some 500) ≡ page_limit (some 500)) ↔ (500 ≤ 100)
tool_limit-page_limit_example = tool_limit-page_limit 500
