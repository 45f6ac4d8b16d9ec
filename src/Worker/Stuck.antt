-- ===== src/Worker/Stuck.antt =====
-- A job whose notification is not waiting to be sent, with any failures of the driver.
use skills.Prelude.{ℕ, ◌≡◌, ◌≢◌, ◌∙◌, String, Bool, Option, none, some, arith}
use skills.Domain.Types.{Status, status, Notification}
use skills.Domain.Errors.{Error}
use skills.Domain.Machine.{lifecycle, permitted}
use skills.World.{Row, World}
use skills.Environment.{Env, EmailJobPayload, IsStateless}
use skills.Database.{by_email, by_id}
use skills.Database.Table.{IsTable, by_id_of_by_email}
use skills.Store.{Store}
use skills.Store.Contract.{Gets, IsStore}
use skills.Firing.{store_machine, Fired, fire-Fired}
use skills.Worker.{send_trigger, fire_and_log, process, handle}

-- No edge leads from the status to `sending`: neither `pending` nor `not_sent`.
abbrev pub IsIdle : Status → Type 0
IsIdle s = (s ≢ Status.pending) × (s ≢ Status.not_sent)

permitted_idle :
    (limit count : ℕ) (s : Status)
    → IsIdle s
    → permitted (lifecycle limit count) s (send_trigger s) ≡ none
unfolding permitted lifecycle send_trigger
permitted_idle limit count s h = ground arith

abbrev Rejects : Option Error × World → World → Type 0
Rejects r w = (r.0 ≢ none) × (r.1.state ≡ w.state)

module _ (env : Env) (store : Store) (law : IsStateless env) (contract : IsStore env store)
    (b : Bool) where
  process-Rejects :
      (job : EmailJobPayload) (n : Notification) (w : World) (row : Row)
      → by_id n.id w.state.rows ≡ some row
      → n.status ≡ status row.status
      → IsIdle (status row.status)
      → Rejects (process env store b job n w) w
  unfolding process fire_and_log
  process-Rejects job n w row found shown idle =
      go (
        fire-Fired env store law contract n.id n.retry_limit n.retry_count (send_trigger n.status)
          w)
    where
      go :
          Fired env n.id n.retry_limit n.retry_count (send_trigger n.status) w (
            env.fire
              (store_machine store n.id n.retry_limit n.retry_count)
              (send_trigger n.status)
              w)
          → Rejects (process env store b job n w) w
      go (Fired.broken e w1 k r s) = rw (r, fire_and_log, process, r, r) (λ c. cc, s)
      go (Fired.missing e w1 m r s) = rw (r, fire_and_log, process, r, r) (λ c. cc, s)
      go (Fired.refused row' e w1 m p r s) = rw (r, fire_and_log, process, r, r) (λ c. cc, s)
      go (Fired.moved row' d now w1 m p r s) =
          let same : row' ≡ row = ground arith in
          let p' : permitted (lifecycle n.retry_limit n.retry_count) (status row.status)
                (send_trigger (status row.status))
              ≡ some d =
            rw (shown, same) at p in
          absurd
            (ground (arith, permitted_idle n.retry_limit n.retry_count (status row.status) idle))

  -- Over a backend that keeps the contract and with `stateless` as documented, in a table whose
  -- ids and emails are unique, a job whose notification is `sending`, `delivered`, `failed` or of
  -- an unknown status is an error, whatever the driver does, and changes no row, log, queue,
  -- broadcast or mail.
  pub handle_idle :
      (payload : String) (w : World) {job : EmailJobPayload} {row : Row}
      → env.unmarshal payload ≡ some job
      → IsTable w.state.rows
      → by_email job.email w.state.rows ≡ some row
      → IsIdle (status row.status)
      → ((handle env store b payload w).0 ≢ none)
        × ((handle env store b payload w).1.state ≡ w.state)
  unfolding handle
  handle_idle payload w {job} {row} parsed table found idle = go (contract.get job.email w)
    where
      go :
          Gets env w contract.scan job.email (store.get_notification_by_email job.email w)
          → Rejects (handle env store b payload w) w
      go (Gets.broken e w1 k i r s) = rw (parsed, handle, r, r) (λ c. cc, s)
      go (Gets.missing e w1 m i r s) = rw (parsed, handle, r, r) (λ c. cc, s)
      go (Gets.found row' w1 m r s) =
          let same : row' ≡ row = ground arith in
          let shows = contract.scan-Shows row in
          let (x, y) =
            process-Rejects job (contract.scan row) w1 row
              (rw (shows.id, s) (by_id_of_by_email _ _ _ table found)) shows.status idle in
          rw (parsed, handle, r, same, r) (x, y ∙ s)
