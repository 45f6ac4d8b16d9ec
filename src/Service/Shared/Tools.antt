-- ===== src/Service/Shared/Tools.antt =====
-- The four MCP tools over a store that keeps the invariant, whatever else happens between their
-- statements.
use skills.Prelude.{ℕ, String, Option, inl, inr, Bool-cases, Option-cases, same}
use skills.Domain.Types.{Trigger, Notification, pending}
use skills.World.{World}
use skills.Environment.{Env, IsStateless}
use skills.Checks.{new_id, validate_email, check_reset_allowed}
use skills.Queue.{enqueue}
use skills.Store.{Store}
use skills.Firing.{store_machine}
use skills.Api.Notify.{new_notification}
use skills.Api.Reset.{cleared}
use skills.Mcp.{
  tool_limit, create_and_enqueue, send_notification, clear_and_enqueue, reset_found,
  reset_notification, list_notifications, check_health,
}
use skills.Service.Shared.{Sound, Keeps, Result-cases}
use skills.Service.Shared.Work.{fire-IsFired}
use skills.Service.Shared.Requests.{enqueue-Sound, new_notification-IsWritable, cleared-IsWritable}

module _ (env : Env) (store : Store) (law : IsStateless env) (keeps : Keeps store) where
  tool_create-Sound :
      (email : String) (w : World) → Sound w → Sound (create_and_enqueue env store email w).1
  unfolding create_and_enqueue new_id
  tool_create-Sound email w i =
      let (id, w1) = new_id env "ntf" w in
      let n = new_notification id email in
      let (created, w2) = store.create_notification n w1 in
      let j : Sound w2 = keeps.create n w1 (new_notification-IsWritable id email) i in
      elim (Result-cases created) [
        | inl (e, p) ↦ rw (create_and_enqueue, p) j
        | inr (m, p) ↦
            let payload =
              env.marshal (record { notification_id = id; email = email; request_id = "" }) in
            elim (Option-cases (enqueue env payload w2).0) [
              | inl q ↦ rw (create_and_enqueue, p, q) (enqueue-Sound env payload w2 j)
              | inr (e, q) ↦ rw (create_and_enqueue, p, q) (enqueue-Sound env payload w2 j)
            ]
      ]

  pub send_notification-Sound :
      (email : String) (w : World) → Sound w → Sound (send_notification env store email w).1
  unfolding send_notification
  send_notification-Sound email w i = elim (Bool-cases (same email "")) [
    | inl q ↦ rw (send_notification, q) i
    | inr q ↦ elim (Option-cases (validate_email env email)) [
      | inl p ↦ rw (send_notification, q, p) (tool_create-Sound email w i)
      | inr (e, p) ↦ rw (send_notification, q, p) i
    ]
  ]

  tool_clear-Sound :
      (n : Notification) (w : World) → Sound w → Sound (clear_and_enqueue env store n w).1
  unfolding clear_and_enqueue
  tool_clear-Sound n w i =
      let w1 = (store.log_transition "notification" n.id n.status pending Trigger.reset w).1 in
      let j1 : Sound w1 = keeps.log "notification" n.id n.status pending Trigger.reset w i in
      let (updated, w2) = store.update_notification (cleared n) w1 in
      let j : Sound w2 = keeps.update (cleared n) w1 (cleared-IsWritable n) j1 in
      elim (Result-cases updated) [
        | inl (e, p) ↦ rw (clear_and_enqueue, p) j
        | inr (m, p) ↦
            let payload =
              env.marshal (record { notification_id = n.id; email = n.email; request_id = "" }) in
            elim (Option-cases (enqueue env payload w2).0) [
              | inl q ↦ rw (clear_and_enqueue, p, q) (enqueue-Sound env payload w2 j)
              | inr (e, q) ↦ rw (clear_and_enqueue, p, q) (enqueue-Sound env payload w2 j)
            ]
      ]

  tool_reset-Sound : (n : Notification) (w : World) → Sound w → Sound (reset_found env store n w).1
  unfolding reset_found
  tool_reset-Sound n w i =
      let sm = store_machine store n.id n.retry_limit n.retry_count in
      let f = fire-IsFired env store law keeps n.id n.retry_limit n.retry_count Trigger.reset w i in
      elim (Option-cases (check_reset_allowed n.status n.retry_count n.retry_limit)) [
        | inr (e, p) ↦ rw (reset_found, p) i
        | inl p ↦ elim (Option-cases (env.fire sm Trigger.reset w).0) [
          | inl q ↦ rw (reset_found, p, q) (tool_clear-Sound n _ f.sound)
          | inr (e, q) ↦ rw (reset_found, p, q) f.sound
        ]
      ]

  pub reset_notification-Sound :
      (email : String) (w : World) → Sound w → Sound (reset_notification env store email w).1
  unfolding reset_notification
  reset_notification-Sound email w i =
      let (loaded, w1) = store.get_notification_by_email email w in
      let j : Sound w1 = keeps.get email w i in
      elim (Bool-cases (same email "")) [
        | inl q ↦ rw (reset_notification, q) i
        | inr q ↦ elim (Result-cases loaded) [
          | inl (e, p) ↦ rw (reset_notification, q, p) j
          | inr (n, p) ↦ rw (reset_notification, q, p) (tool_reset-Sound n w1 j)
        ]
      ]

  pub list_notifications-Sound :
      (after : String) (asked : Option ℕ) (w : World)
      → Sound w
      → Sound (list_notifications env store after asked w).1
  unfolding list_notifications
  list_notifications-Sound after asked w i =
      let (fetched, w1) = store.list_notifications after (tool_limit asked) w in
      let j : Sound w1 = keeps.list after (tool_limit asked) w i in
      elim (Result-cases fetched) [
        | inl (e, p) ↦ rw (list_notifications, p) j
        | inr (ns, p) ↦ elim (Result-cases (store.count_notifications w1).0) [
          | inl (e, q) ↦ rw (list_notifications, p, q) (keeps.count w1 j)
          | inr (n, q) ↦ rw (list_notifications, p, q) (keeps.count w1 j)
        ]
      ]

  pub check_health-Sound : (w : World) → Sound w → Sound (check_health env store w).1
  unfolding check_health
  check_health-Sound w i = elim (Option-cases (store.ping w).0) [
    | inl p ↦ rw (check_health, p) (keeps.ping w i)
    | inr (e, p) ↦ rw (check_health, p) (keeps.ping w i)
  ]
