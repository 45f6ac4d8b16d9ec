-- ===== src/Worker/Changes/Handled.antt =====
-- From one delivery up to the whole of `Handle`.
use skills.Prelude.{ℕ, ◌≡◌, refl, sym, String, Bool, Option, none, some, arith}
use skills.Domain.Types.{Status, status, sending, Notification}
use skills.Domain.Errors.{Error, Result, ok, err}
use skills.Domain.Machine.{lifecycle, permitted}
use skills.Domain.Lifecycle.{Edge}
use skills.World.{Row, State, World}
use skills.Environment.{Env, EmailJobPayload, IsStateless}
use skills.Database.{by_id, by_email}
use skills.Database.Table.{IsTable, by_id_of_by_email}
use skills.Store.{Store}
use skills.Store.Contract.{Gets, IsStore}
use skills.Email.{render_notification}
use skills.Firing.{store_machine}
use skills.Worker.{send_trigger, fire_and_log, deliver, process, handle, message}
use skills.Worker.Changes.{Change, Changes, Reaches, broadcast-Changes, fire_and_log-Changes}
use skills.Worker.Changes.Answered.{conclude-Changes}

-- A status from which the worker's first trigger fires has the edge that is logged.
first_edge :
    (limit count : ℕ) (s d : Status)
    → permitted (lifecycle limit count) s (send_trigger s) ≡ some d
    → Edge limit count s (send_trigger s) sending
unfolding permitted lifecycle send_trigger
first_edge limit count Status.pending d h = Edge.send
first_edge limit count Status.not_sent d h = Edge.retry
first_edge limit count Status.sending d h = absurd (ground arith)
first_edge limit count Status.delivered d h = absurd (ground arith)
first_edge limit count Status.failed d h = absurd (ground arith)
first_edge limit count (Status.other k) d h = absurd (ground arith)

Changes-eq :
    {id id1 : String} {limit limit1 count count1 : ℕ} {s s1 s2 : State}
    → id1 ≡ id
    → limit1 ≡ limit
    → count1 ≡ count
    → s1 ≡ s
    → Changes id limit count s s2
    → Changes id1 limit1 count1 s1 s2
Changes-eq e f g h c = rw (e, f, g, h) c

module _ (env : Env) (store : Store) (law : IsStateless env) (contract : IsStore env store)
    (b : Bool) where
  deliver-Changes :
      (job : EmailJobPayload) (n : Notification) (s : State) (w : World)
      → Reaches env store law contract b n s w
      → Reaches env store law contract b n s
          (deliver env store b job (store_machine store n.id n.retry_limit n.retry_count) n w).1
  unfolding deliver
  deliver-Changes job n s w c = go _ refl
    where
      go :
          (r : Result (String × String))
          → render_notification env
              (record { email = job.email; id = job.notification_id; request_id = job.request_id })
            ≡ r
          → Reaches env store law contract b n s
              (deliver env store b job (store_machine store n.id n.retry_limit n.retry_count) n w).1
      go (err e) r = rw (deliver, r) c
      go (ok (html, text)) r =
          rw (deliver, r)
            (conclude-Changes env store law contract b n s _ _
              (Changes.change w.state c (Change.mailed (message job html text) refl)))

  process-Changes :
      (job : EmailJobPayload) (n : Notification) (w : World) (row : Row)
      → by_id n.id w.state.rows ≡ some row
      → n.status ≡ status row.status
      → Reaches env store law contract b n w.state (process env store b job n w).1
  unfolding process
  process-Changes job n w row found shown = go _ refl
    where
      first :
          Reaches env store law contract b n w.state
            (fire_and_log env store b
              (store_machine store n.id n.retry_limit n.retry_count)
              n
              n.status
              (send_trigger n.status)
              sending
              w).1
      first =
          fire_and_log-Changes env store law contract b n w.state n.status sending
            (send_trigger n.status) w (Changes.done refl)
            (λ row' d m p.
              let same : row' ≡ row = ground arith in
              let here : status row'.status ≡ n.status = rw (same, shown) in
              first_edge n.retry_limit n.retry_count n.status d (rw here at p))

      go :
          (r : Option Error × World)
          → fire_and_log env store b
              (store_machine store n.id n.retry_limit n.retry_count)
              n
              n.status
              (send_trigger n.status)
              sending
              w
            ≡ r
          → Reaches env store law contract b n w.state (process env store b job n w).1
      go (some e, w1) r = rw (r, process, r) (rw r at first)
      go (none, w1) r =
          rw (r, process, r)
            (deliver-Changes job (record n { status = sending }) w.state _
              (broadcast-Changes env store law contract b n w.state sending w1 (rw r at first)))

  -- Over a backend that keeps the contract and with `stateless` as documented, in a table whose
  -- ids and emails are unique, a job for the email of a row, with any failures of the driver, the
  -- templates and the sender: all that `Handle` does is a sequence of changes for that row. They
  -- are a move of its status along an edge of the lifecycle, an audit row for an edge of the
  -- lifecycle, a broadcast, an email, and an incremented retry count where it was below the
  -- limit.
  pub handle-Changes :
      (payload : String) (w : World) {job : EmailJobPayload} {row : Row}
      → env.unmarshal payload ≡ some job
      → IsTable w.state.rows
      → by_email job.email w.state.rows ≡ some row
      → Changes row.id row.retry_limit row.retry_count w.state
          (handle env store b payload w).1.state
  unfolding handle
  handle-Changes payload w {job} {row} parsed table found = go (contract.get job.email w)
    where
      go :
          Gets env w contract.scan job.email (store.get_notification_by_email job.email w)
          → Changes row.id row.retry_limit row.retry_count w.state
              (handle env store b payload w).1.state
      go (Gets.broken e w1 k i r q) = rw (parsed, handle, r, r) (Changes.done q)
      go (Gets.missing e w1 m i r q) = rw (parsed, handle, r, r) (Changes.done q)
      go (Gets.found row' w1 m r q) =
          let same : row' ≡ row = ground arith in
          let shows = contract.scan-Shows row in
          let c =
            process-Changes job (contract.scan row) w1 row
              (rw (shows.id, q) (by_id_of_by_email _ _ _ table found)) shows.status in
          rw (parsed, handle, r, same, r)
            (Changes-eq (sym shows.id) (sym shows.retry_limit) (sym shows.retry_count) (sym q) c)
