-- ===== src/Worker/Refines.antt =====
-- `Handle` does what one delivery attempt is meant to do, on every answer of the sender.
pub mod Endings
use mathlib.Core.Option
use skills.Prelude.{
  ℕ, ◌+◌, ◌≡◌, ◌≢◌, ◌↔◌, ◌⊎◌, refl, ap, ◌∙◌, String, Bool, true, Option, none, some, ◌∷◌, ltb,
  Bool-cases, inl, inr, length, same_refl, arith,
}
use skills.Domain.Types.{
  Status, status, pending, sending, delivered, failed, not_sent, status-to_int, Trigger,
  Notification, EmailMessage,
}
use skills.Domain.Errors.{Error, ok, example_domain, is}
use skills.Domain.Machine.{StateMachine, lifecycle, permitted}
use skills.World.{Row, State, World}
use skills.Environment.{Env, EmailJobPayload, NotificationData, Healthy, IsStateless}
use skills.Database.{by_email, by_id, update_row}
use skills.Database.Table.{
  IsTable, by_id-update_row, by_id_of_by_email, update_row-update_row, update_row_settles,
}
use skills.Store.{Store}
use skills.Store.Contract.{IsStore, put_status, put_columns, log_row}
use skills.Email.{render_notification, send_email}
use skills.Firing.{store_machine}
use skills.Worker.{
  send_trigger, message, broadcast_state, conclude, deliver, process, handle, fire_and_log,
}
use skills.Worker.Steps.{get_healthy, fire_and_log_healthy}
use skills.Worker.Conclude.{
  conclude_accepted, conclude_permanent, conclude_exhausted, conclude_retry, broadcast-state,
  moved_state,
}
use skills.Worker.Attempt.{
  verdict, Plan, plan, retry_or_fail, expected_mail, attempted_row, announce, attempt_state,
}
use skills.Worker.Refines.Endings.{Ends, sent_state, Ends-conclude}

permitted_start :
    (limit count : ℕ) (s : Status)
    → (s ≡ pending) ⊎ (s ≡ not_sent)
    → permitted (lifecycle limit count) s (send_trigger s) ≡ some sending
unfolding permitted lifecycle send_trigger
permitted_start limit count s (inl e) = rw e
permitted_start limit count s (inr e) = rw e

abbrev pub data_of : EmailJobPayload → NotificationData
data_of job = record { email = job.email; id = job.notification_id; request_id = job.request_id }

module _ (env : Env) (store : Store) (b : Bool) where
  handle-eq :
      (payload : String) (job : EmailJobPayload) (n : Notification) (w w1 : World)
      → env.unmarshal payload ≡ some job
      → store.get_notification_by_email job.email w ≡ (ok n, w1)
      → handle env store b payload w ≡ process env store b job n w1
  unfolding handle
  handle-eq payload job n w w1 parsed got = rw (parsed, handle, got, got)

  process-eq :
      (job : EmailJobPayload) (n : Notification) (w w1 : World)
      → fire_and_log env store b
          (store_machine store n.id n.retry_limit n.retry_count)
          n
          n.status
          (send_trigger n.status)
          sending
          w
        ≡ (none, w1)
      → process env store b job n w
        ≡ deliver env store b job
            (store_machine store n.id n.retry_limit n.retry_count)
            (record n { status = sending })
            (broadcast_state env store b n.id sending w1)
  unfolding process
  process-eq job n w w1 fired = rw (fired, process, fired)

  deliver-eq :
      (job : EmailJobPayload) (sm : StateMachine) (n : Notification) (w : World)
      (html text : String)
      → render_notification env (data_of job) ≡ ok (html, text)
      → deliver env store b job sm n w
        ≡ conclude env store b sm n
            (env.send (length w.state.mailbox) (message job html text))
            (send_email env (message job html text) w).1
  unfolding deliver
  deliver-eq job sm n w html text rendered = rw (rendered, deliver)

module _ (env : Env) (store : Store) (law : IsStateless env) (contract : IsStore env store)
    (healthy : Healthy env) (b : Bool) (payload : String) (w : World) {job : EmailJobPayload}
    {row : Row} {html text : String} where
  -- The same with what the code renders and the message that it makes.
  pub handle-Plan :
      env.unmarshal payload ≡ some job
      → IsTable w.state.rows
      → by_email job.email w.state.rows ≡ some row
      → (status row.status ≡ pending) ⊎ (status row.status ≡ not_sent)
      → render_notification env (data_of job) ≡ ok (html, text)
      → let msg = message job html text in
        let answer = env.send (length w.state.mailbox) msg in
        Ends b row msg
          (plan (verdict answer) row.retry_limit row.retry_count)
          w.state
          (handle env store b payload w)
  handle-Plan parsed is_table found ready rendered =
      let (w1, got, same1) = get_healthy env store law contract healthy job.email w row found in
      let n : Notification = contract.scan row in
      let shows = contract.scan-Shows row in
      let by_own_id : by_id row.id w.state.rows ≡ some row =
        by_id_of_by_email _ _ _ is_table found in
      let (t0, w2, fired, moved) =
        fire_and_log_healthy env store law contract healthy b n n.status sending
          (send_trigger n.status) w1 row (rw (shows.id, same1) by_own_id)
          (rw shows.status (permitted_start n.retry_limit n.retry_count _ ready)) in
      let v : World = broadcast_state env store b n.id sending w2 in
      let msg : EmailMessage = message job html text in
      let w3 : World = record v { state = record v.state { mailbox = msg ∷ v.state.mailbox } } in
      let before : w3.state
          ≡ sent_state env store law contract healthy b row (record n { status = sending }) w w3 t0
              msg =
        rw (
          broadcast-state env store law contract healthy b n sending w2,
          moved,
          same1,
          shows.id,
          shows.status,
        ) in
      let boxes : v.state.mailbox ≡ w.state.mailbox =
        rw (broadcast-state env store law contract healthy b n sending w2, moved, same1) in
      let sm = store_machine store n.id n.retry_limit n.retry_count in
      let runs : handle env store b payload w
          ≡ conclude env store b sm (record n { status = sending })
              (env.send (length w.state.mailbox) msg) w3 =
        handle-eq env store b payload job n w w1 parsed got
        ∙ process-eq env store b job n w1 w2 fired
        ∙ deliver-eq env store b job sm (record n { status = sending }) v html text rendered
        ∙ ap
            (λ boxes'.
              conclude env store b sm (record n { status = sending }) (env.send (length boxes') msg)
                w3)
            boxes in
      rw runs (
        Ends-conclude env store law contract healthy b row (record n { status = sending }) w w3 t0
          msg (shows.id, shows.retry_count, shows.retry_limit) is_table by_own_id before
          (env.send (length w.state.mailbox) msg))

rendered_bodies :
    (env : Env) (d : NotificationData) (html text : String)
    → env.execute_html d ≡ ok html
    → env.execute_text d ≡ ok text
    → render_notification env d ≡ ok (html, text)
unfolding render_notification
rendered_bodies env d html text h t = ground arith

-- Over a backend that keeps the contract and with `stateless` as documented, one run of `Handle`
-- on a payload that parses, in a table whose ids and emails are unique, with the payload's
-- notification pending or waiting for a retry, a driver that does not fail and two templates that
-- render, ends as the sender's answer and the retry count say: that row alone changes, by status,
-- count and time; two audit rows are added, two messages are broadcast if there is a broadcaster,
-- and one email is handed over, to the job's address, with the HTML template's body as HTML, the
-- text template's as text and the job's request ID; and it returns no error exactly when the job
-- is done.
pub handle-Ends :
    (env : Env) (store : Store)
    → IsStateless env
    → IsStore env store
    → Healthy env
    → (b : Bool) (payload : String) (w : World) {job : EmailJobPayload} {row : Row}
      {html text : String}
    → env.unmarshal payload ≡ some job
    → IsTable w.state.rows
    → by_email job.email w.state.rows ≡ some row
    → (status row.status ≡ pending) ⊎ (status row.status ≡ not_sent)
    → env.execute_html (data_of job) ≡ ok html
    → env.execute_text (data_of job) ≡ ok text
    → let msg = expected_mail job html text in
      let answer = env.send (length w.state.mailbox) msg in
      Ends b row msg
        (plan (verdict answer) row.retry_limit row.retry_count)
        w.state
        (handle env store b payload w)
unfolding message
handle-Ends env store law contract healthy b payload w {job} {row} {html} {text} parsed is_table
      found ready in_html in_text =
    handle-Plan env store law contract healthy b payload w parsed is_table found ready
      (rendered_bodies env (data_of job) html text in_html in_text)
