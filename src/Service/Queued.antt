-- ===== src/Service/Queued.antt =====
-- The jobs in the queue beside the rows of the table, under the changes that the backend and the
-- worker make to the table.
pub mod Served
use mathlib.Core.Option
use skills.Prelude.{
  ℕ, String, Bool, ◌≡◌, refl, ap, false, Option, none, some, List, [], ◌∷◌, arith, All, same,
  same_iff, inl, inr, Option-cases, if◌then◌else◌,
}
use skills.Domain.Types.{pending}
use skills.World.{Row, State, World}
use skills.Environment.{Env, EmailJobPayload, IsStateless, Survives}
use skills.Database.{by_email, by_id, update_row, conflicts}
use skills.Database.Table.{
  Keeps, touch, by_id-update_row, by_email-update_row, by_id_of_by_email, email_of_by_email,
}
use skills.Store.{Store}
use skills.Store.Contract.{Stores, IsStore, put_status, put_columns}
use skills.Worker.{handle}
use skills.Worker.Changes.{Change, Changes}
use skills.Worker.Changes.Handled.{handle-Changes}
use skills.Worker.Sound.{IsSound, handle_unknown}
use skills.Api.Response.{Response}
use skills.Api.Notify.{new_notification, handle_notify}
use skills.Api.Notify.Accepts.{Accepts, handle_notify-Accepts, issued_id, job_of}
use skills.Api.Reset.{handle_reset}
use skills.Api.Reset.Clears.{Clears, reset_row, reset_job}
use skills.Api.Reset.Resets.{Resets, handle_reset-Resets}
use skills.Service.Runs.{Call, perform, serve, perform-IsSound}

-- The job's id and its email find one row.
abbrev pub Names : EmailJobPayload → List Row → Type 0
Names job rows =
    (row : Row) × (by_id job.notification_id rows ≡ some row) × (by_email job.email rows ≡ some row)

-- The payload is a job that names a row.
abbrev pub Queues : Env → List Row → String → Type 0
Queues env rows payload =
    (job : EmailJobPayload) × (env.unmarshal payload ≡ some job) × Names job rows

abbrev pub IsQueued : Env → State → Type 0
IsQueued env s = All (Queues env s.rows) s.queue

by_id_of_insert :
    (row found : Row) (i : String) (rows : List Row)
    → conflicts row rows ≡ false
    → by_id i rows ≡ some found
    → by_id i (row ∷ rows) ≡ some found
unfolding conflicts by_id
by_id_of_insert row found i [] c h = cc
by_id_of_insert row found i (r ∷ rows) c h = ground (
  arith,
  same_iff row.id i,
  same_iff r.id i,
  same_iff r.id row.id,
  by_id_of_insert row found i rows,
)

by_email_of_insert :
    (row found : Row) (e : String) (rows : List Row)
    → conflicts row rows ≡ false
    → by_email e rows ≡ some found
    → by_email e (row ∷ rows) ≡ some found
unfolding conflicts by_email
by_email_of_insert row found e [] c h = cc
by_email_of_insert row found e (r ∷ rows) c h = ground (
  arith,
  same_iff row.email e,
  same_iff r.email e,
  same_iff r.email row.email,
  by_email_of_insert row found e rows,
)

pub by_id_of_head :
    (row : Row) (i : String) (rows : List Row) → row.id ≡ i → by_id i (row ∷ rows) ≡ some row
unfolding by_id
by_id_of_head row i rows e = ground (arith, same_iff row.id i)

pub by_email_of_head :
    (row : Row) (e : String) (rows : List Row) → row.email ≡ e → by_email e (row ∷ rows) ≡ some row
unfolding by_email
by_email_of_head row e rows q = ground (arith, same_iff row.email e)

pub update_row-Names :
    (i : String) (f : Row → Row) (job : EmailJobPayload) (rows : List Row)
    → Keeps f
    → Names job rows
    → Names job (update_row i f rows)
update_row-Names i f job rows keeps (row, h, m) = (
  touch i f row,
  rw (by_id-update_row i f keeps job.notification_id rows, h) refl,
  rw (by_email-update_row i f keeps job.email rows, m) refl,
)

pub insert-Names :
    (row : Row) (job : EmailJobPayload) (rows : List Row)
    → conflicts row rows ≡ false
    → Names job rows
    → Names job (row ∷ rows)
insert-Names row job rows fresh (found, h, m) = (
  found,
  by_id_of_insert row found job.notification_id rows fresh h,
  by_email_of_insert row found job.email rows fresh m,
)

module _ (env : Env) where
  pub update_row-Queued :
      (i : String) (f : Row → Row) (rows : List Row) (queue : List String)
      → Keeps f
      → All (Queues env rows) queue
      → All (Queues env (update_row i f rows)) queue
  update_row-Queued i f rows [] keeps h = tt
  update_row-Queued i f rows (payload ∷ queue) keeps ((job, parsed, names), rest) = (
    (job, parsed, update_row-Names i f job rows keeps names),
    update_row-Queued i f rows queue keeps rest,
  )

  pub insert-Queued :
      (row : Row) (rows : List Row) (queue : List String)
      → conflicts row rows ≡ false
      → All (Queues env rows) queue
      → All (Queues env (row ∷ rows)) queue
  insert-Queued row rows [] fresh h = tt
  insert-Queued row rows (payload ∷ queue) fresh ((job, parsed, names), rest) = (
    (job, parsed, insert-Names row job rows fresh names),
    insert-Queued row rows queue fresh rest,
  )

  module _ (id : String) (limit count : ℕ) where
    Change-IsQueued : {s s1 : State} → Change id limit count s s1 → IsQueued env s → IsQueued env s1
    Change-IsQueued {s} (Change.moved row t d now m e q) h =
        rw q (update_row-Queued id (put_status d now) s.rows s.queue (λ r. (refl, refl)) h)
    Change-IsQueued (Change.logged from to t e q) h = rw q h
    Change-IsQueued (Change.announced m q) h = rw q h
    Change-IsQueued (Change.mailed m q) h = rw q h
    Change-IsQueued {s} (Change.counted n now a b c l q) h =
        rw q (update_row-Queued id (put_columns n now) s.rows s.queue (λ r. (refl, refl)) h)

    pub Changes-IsQueued :
        {s s1 : State} → Changes id limit count s s1 → IsQueued env s → IsQueued env s1
    Changes-IsQueued (Changes.done q) h = rw q h
    Changes-IsQueued (Changes.change s2 c x) h = Change-IsQueued x (Changes-IsQueued c h)
