-- ===== src/Service/Shared/Requests.antt =====
-- Requests and tool calls over a store that keeps the invariant, whatever else happens between
-- their statements.
use skills.Prelude.{ℕ, ◌+◌, String, Option, none, some, arith, inl, inr, Option-cases}
use skills.Domain.Types.{to_int, Trigger, Notification, pending}
use skills.World.{World}
use skills.Environment.{Env, IsStateless}
use skills.Checks.{new_id, validate_email, check_reset_allowed}
use skills.Queue.{enqueue}
use skills.Queue.Effect.{enqueue-Writes}
use skills.Store.{Store}
use skills.Firing.{store_machine}
use skills.Api.Notify
use skills.Api.Notify.{new_notification, handle_notify}
use skills.Api.Reset
use skills.Api.Reset.{cleared, handle_reset}
use skills.Api.List.{handle_list, handle_health, respond, page_limit, decode_cursor}
use skills.Service.Shared.{Sound, IsWritable, Keeps, writes, Result-cases}
use skills.Service.Shared.Work.{fire-IsFired}

pub enqueue-Sound :
    (env : Env) (payload : String) (w : World) → Sound w → Sound (enqueue env payload w).1
enqueue-Sound env payload w i =
    writes env w i _ _ (λ _. record { table = i.table; rows = i.rows })
      (enqueue-Writes env payload w)

pub new_notification-IsWritable : (id email : String) → IsWritable (new_notification id email)
unfolding to_int
new_notification-IsWritable id email = (omega arith, omega arith)

pub cleared-IsWritable : (n : Notification) → IsWritable (cleared n)
unfolding to_int
cleared-IsWritable n = (omega arith, omega arith)

module _ (env : Env) (store : Store) (law : IsStateless env) (keeps : Keeps store) where
  module _ (request_id : String) where
    notify_create-Sound :
        (email : String) (w : World)
        → Sound w
        → Sound (Notify.create_and_enqueue env store request_id email w).1
    unfolding Notify.create_and_enqueue new_id
    notify_create-Sound email w i =
        let (id, w1) = new_id env "ntf" w in
        let n = new_notification id email in
        let (created, w2) = store.create_notification n w1 in
        let j : Sound w2 = keeps.create n w1 (new_notification-IsWritable id email) i in
        elim (Result-cases created) [
          | inl (e, p) ↦ rw (Notify.create_and_enqueue, p) j
          | inr (m, p) ↦
              let payload =
                env.marshal
                  (record { notification_id = id; email = email; request_id = request_id }) in
              elim (Option-cases (enqueue env payload w2).0) [
                | inl q ↦ rw (Notify.create_and_enqueue, p, q) (enqueue-Sound env payload w2 j)
                | inr (e, q) ↦ rw (Notify.create_and_enqueue, p, q) (enqueue-Sound env payload w2 j)
              ]
        ]

    pub handle_notify-Sound :
        (email : Option String) (w : World)
        → Sound w
        → Sound (handle_notify env store request_id email w).1
    unfolding handle_notify
    handle_notify-Sound none w i = i
    handle_notify-Sound (some email) w i = elim (Option-cases (validate_email env email)) [
      | inl p ↦ rw (handle_notify, p) (notify_create-Sound email w i)
      | inr (e, p) ↦ rw (handle_notify, p) i
    ]

    reset_clear-Sound :
        (n : Notification) (w : World)
        → Sound w
        → Sound (Reset.clear_and_enqueue env store request_id n w).1
    unfolding Reset.clear_and_enqueue
    reset_clear-Sound n w i =
        let w1 = (store.log_transition "notification" n.id n.status pending Trigger.reset w).1 in
        let j1 : Sound w1 = keeps.log "notification" n.id n.status pending Trigger.reset w i in
        let (updated, w2) = store.update_notification (cleared n) w1 in
        let j : Sound w2 = keeps.update (cleared n) w1 (cleared-IsWritable n) j1 in
        elim (Result-cases updated) [
          | inl (e, p) ↦ rw (Reset.clear_and_enqueue, p) j
          | inr (m, p) ↦
              let payload =
                env.marshal
                  (record { notification_id = n.id; email = n.email; request_id = request_id }) in
              elim (Option-cases (enqueue env payload w2).0) [
                | inl q ↦ rw (Reset.clear_and_enqueue, p, q) (enqueue-Sound env payload w2 j)
                | inr (e, q) ↦ rw (Reset.clear_and_enqueue, p, q) (enqueue-Sound env payload w2 j)
              ]
        ]

    reset_found-Sound :
        (n : Notification) (w : World)
        → Sound w
        → Sound (Reset.reset_found env store request_id n w).1
    unfolding Reset.reset_found
    reset_found-Sound n w i =
        let sm = store_machine store n.id n.retry_limit n.retry_count in
        let f =
          fire-IsFired env store law keeps n.id n.retry_limit n.retry_count Trigger.reset w i in
        elim (Option-cases (check_reset_allowed n.status n.retry_count n.retry_limit)) [
          | inr (e, p) ↦ rw (Reset.reset_found, p) i
          | inl p ↦ elim (Option-cases (env.fire sm Trigger.reset w).0) [
            | inl q ↦ rw (Reset.reset_found, p, q) (reset_clear-Sound n _ f.sound)
            | inr (e, q) ↦ rw (Reset.reset_found, p, q) f.sound
          ]
        ]

    pub handle_reset-Sound :
        (email : Option String) (w : World)
        → Sound w
        → Sound (handle_reset env store request_id email w).1
    unfolding handle_reset
    handle_reset-Sound none w i = i
    handle_reset-Sound (some email) w i =
        let (loaded, w1) = store.get_notification_by_email email w in
        let j : Sound w1 = keeps.get email w i in
        elim (Result-cases loaded) [
          | inl (e, p) ↦ rw (handle_reset, p) j
          | inr (n, p) ↦ rw (handle_reset, p) (reset_found-Sound n w1 j)
        ]

  pub handle_list-Sound :
      (asked : Option ℕ) (after : String) (w : World)
      → Sound w
      → Sound (handle_list env store asked after w).1
  unfolding handle_list respond
  handle_list-Sound asked after w i =
      let limit = page_limit asked in
      let (fetched, w1) = store.list_notifications (decode_cursor env after) (limit + 1) w in
      let j : Sound w1 = keeps.list (decode_cursor env after) (limit + 1) w i in
      elim (Result-cases fetched) [
        | inl (e, p) ↦ rw (handle_list, p) j
        | inr (ns, p) ↦ elim (Result-cases (store.count_notifications w1).0) [
          | inl (e, q) ↦ rw (handle_list, p, respond, q) (keeps.count w1 j)
          | inr (n, q) ↦ rw (handle_list, p, respond, q) (keeps.count w1 j)
        ]
      ]

  pub handle_health-Sound : (w : World) → Sound w → Sound (handle_health store w).1
  unfolding handle_health
  handle_health-Sound w i = elim (Option-cases (store.ping w).0) [
    | inl p ↦ rw (handle_health, p) (keeps.ping w i)
    | inr (e, p) ↦ rw (handle_health, p) (keeps.ping w i)
  ]
