-- ===== src/Service/Shared/Served.antt =====
-- Every request, tool call and job, with others between its statements.
use skills.Prelude.{ℕ, String, Bool, Option}
use skills.World.{World}
use skills.Environment.{Env, IsStateless}
use skills.Store.{Store}
use skills.Store.Contract.{IsStore}
use skills.Worker.{handle}
use skills.Worker.Sound.{IsSound}
use skills.Api.Notify.{handle_notify}
use skills.Api.Reset.{handle_reset}
use skills.Api.List.{handle_list, handle_health}
use skills.Mcp.{send_notification, reset_notification, list_notifications, check_health}
use skills.Service.Shared.{disturbed, Sound, Keeps, disturbed-Keeps, contract-Keeps}
use skills.Service.Shared.Work.{handle-Sound}
use skills.Service.Shared.Requests.{
  handle_notify-Sound, handle_reset-Sound, handle_list-Sound, handle_health-Sound,
}
use skills.Service.Shared.Tools.{
  send_notification-Sound, reset_notification-Sound, list_notifications-Sound, check_health-Sound,
}

-- A request, with its request ID and what the decoder made of it; a call of an MCP tool; or the
-- reception of a job.
pub data Task : Type 0 where
  notify reset : String → Option String → Task
  page : Option ℕ → String → Task
  health : Task
  send_tool reset_tool : String → Task
  list_tool : String → Option ℕ → Task
  health_tool : Task
  receive : String → Task

module _ (env : Env) (store : Store) (b : Bool) where
  unfoldable pub perform : Task → World → World
  perform (Task.notify request_id email) w = (handle_notify env store request_id email w).1
  perform (Task.reset request_id email) w = (handle_reset env store request_id email w).1
  perform (Task.page asked after) w = (handle_list env store asked after w).1
  perform Task.health w = (handle_health store w).1
  perform (Task.send_tool email) w = (send_notification env store email w).1
  perform (Task.reset_tool email) w = (reset_notification env store email w).1
  perform (Task.list_tool after asked) w = (list_notifications env store after asked w).1
  perform Task.health_tool w = (check_health env store w).1
  perform (Task.receive payload) w = (handle env store b payload w).1

pub perform-Sound :
    (env : Env) (store : Store) (b : Bool)
    → IsStateless env
    → Keeps store
    → (task : Task) (w : World) → Sound w
    → Sound (perform env store b task w)
unfolding perform
perform-Sound env store b law k (Task.notify request_id email) w i =
    handle_notify-Sound env store law k request_id email w i
perform-Sound env store b law k (Task.reset request_id email) w i =
    handle_reset-Sound env store law k request_id email w i
perform-Sound env store b law k (Task.page asked after) w i =
    handle_list-Sound env store law k asked after w i
perform-Sound env store b law k Task.health w i = handle_health-Sound env store law k w i
perform-Sound env store b law k (Task.send_tool email) w i =
    send_notification-Sound env store law k email w i
perform-Sound env store b law k (Task.reset_tool email) w i =
    reset_notification-Sound env store law k email w i
perform-Sound env store b law k (Task.list_tool after asked) w i =
    list_notifications-Sound env store law k after asked w i
perform-Sound env store b law k Task.health_tool w i = check_health-Sound env store law k w i
perform-Sound env store b law k (Task.receive payload) w i =
    handle-Sound env store law k b payload w i

-- Over a backend that keeps the contract and with `stateless` as documented: any request, tool
-- call or job, with any failures, keeps the invariant of the table (unique ids and emails, known
-- statuses, retry counts up to their limits), even if before each of its calls of the store
-- others do anything to the database that keeps that invariant.
pub disturbed-IsSound :
    (env : Env) (store : Store) (b : Bool) (others : World → World)
    → IsStateless env
    → IsStore env store
    → ((w : World) → IsSound w.state → IsSound (others w).state)
    → (task : Task) (w : World) → IsSound w.state
    → IsSound (perform env (disturbed others store) b task w).state
disturbed-IsSound env store b others law contract keeps task w i =
    perform-Sound env (disturbed others store) b law
      (disturbed-Keeps others store keeps (contract-Keeps env store contract)) task w i
