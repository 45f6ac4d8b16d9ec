-- ===== src/Mcp.antt =====
-- internal/infra/mcp/tools.go: the four MCP tools. An argument that is missing is "".
pub mod Agrees
pub mod Pages
pub mod Server
use skills.Prelude.{
  ℕ, ◌+◌, String, Bool, true, false, ◌||◌, Option, none, some, List, map, same, ltb, ◌==◌,
  if◌then◌else◌,
}
use skills.Domain.Types.{pending, Trigger, Notification}
use skills.Domain.Errors.{Error, not_found, already_notified, ok, err, is, error_text}
use skills.Domain.Machine.{configure_state_machine}
use skills.World.{World}
use skills.Environment.{Env}
use skills.Checks.{new_id, validate_email, check_reset_allowed}
use skills.Queue.{enqueue}
use skills.Store.{Store}
use skills.Api.Response.{Item}
use skills.Api.Notify.{new_notification}
use skills.Api.Reset.{cleared}
use skills.Api.List.{item, total_pages}

-- `NewToolResultError`, and `NewToolResultText` with what the text says.
pub data ToolResult : Type 0 where
  failure : String → ToolResult
  sent : String → ToolResult
  reset_done : ToolResult
  listed : List Item → ℕ → ℕ → ToolResult
  healthy : String → ToolResult

-- The limit of `list_notifications`, `none` standing for a missing one and for a
-- negative one.
unfoldable pub tool_limit : Option ℕ → ℕ
tool_limit none = 20
tool_limit (some n) = if n == 0 || ltb 100 n then 20 else n

module _ (env : Env) (store : Store) where
  unfoldable pub create_and_enqueue : String → World → ToolResult × World
  create_and_enqueue email w =
      let (id, w1) = new_id env "ntf" w in
      let (created, w2) = store.create_notification (new_notification id email) w1 in
      elim created [
        | err e ↦
            (failure (if is e already_notified then "already notified" else "internal error"), w2)
        | ok _ ↦
            let payload =
              env.marshal (record { notification_id = id; email = email; request_id = "" }) in
            let (failed, w3) = enqueue env payload w2 in
            elim failed [ some _ ↦ (failure "internal error", w3) | none ↦ (sent id, w3) ]
      ]

  unfoldable pub send_notification : String → World → ToolResult × World
  send_notification email w =
      if same email "" then (failure "email is required", w) else elim (validate_email env email) [
        | some e ↦ (failure (error_text e), w)
        | none ↦ create_and_enqueue email w
      ]

  unfoldable pub clear_and_enqueue : Notification → World → ToolResult × World
  clear_and_enqueue n w =
      let w1 = (store.log_transition "notification" n.id n.status pending Trigger.reset w).1 in
      let (updated, w2) = store.update_notification (cleared n) w1 in
      elim updated [
        | err _ ↦ (failure "internal error", w2)
        | ok _ ↦
            let payload =
              env.marshal (record { notification_id = n.id; email = n.email; request_id = "" }) in
            let (failed, w3) = enqueue env payload w2 in
            elim failed [ some _ ↦ (failure "internal error", w3) | none ↦ (reset_done, w3) ]
      ]

  unfoldable pub reset_found : Notification → World → ToolResult × World
  reset_found n w = elim (check_reset_allowed n.status n.retry_count n.retry_limit) [
    | some e ↦ (failure (error_text e), w)
    | none ↦
        let sm =
          configure_state_machine (store.notification_state_accessor n.id)
            (store.notification_state_mutator n.id) n.retry_limit n.retry_count in
        let (fired, w1) = env.fire sm Trigger.reset w in
        elim fired [ some _ ↦ (failure "internal error", w1) | none ↦ clear_and_enqueue n w1 ]
  ]

  unfoldable pub reset_notification : String → World → ToolResult × World
  reset_notification email w =
      let (loaded, w1) = store.get_notification_by_email email w in
      if same email "" then (failure "email is required", w) else elim loaded [
        | err e ↦ (failure (if is e not_found then "not found" else "internal error"), w1)
        | ok n ↦ reset_found n w1
      ]

  unfoldable pub list_notifications : String → Option ℕ → World → ToolResult × World
  list_notifications after asked w =
      let limit = tool_limit asked in
      let (fetched, w1) = store.list_notifications after limit w in
      elim fetched [
        | err _ ↦ (failure "internal error", w1)
        | ok ns ↦
            let (counted, w2) = store.count_notifications w1 in
            elim counted [
              | err _ ↦ (failure "internal error", w2)
              | ok total ↦ (listed (map item ns) total (total_pages total limit), w2)
            ]
      ]

  unfoldable pub check_health : World → ToolResult × World
  check_health w =
      let (failed, w1) = store.ping w in
      elim failed [ some _ ↦ (healthy "unhealthy", w1) | none ↦ (healthy "healthy", w1) ]
