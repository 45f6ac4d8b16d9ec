-- ===== src/Seed/Settles.antt =====
-- The seeded database of a QA build.
use skills.Prelude.{
  ℕ, ◌+◌, ◌≤◌, ◌<◌, String, Bool, true, false, ◌≡◌, ◌⊎◌, inl, inr, refl, ap, ◌∙◌, Option, none,
  some, List, [], ◌∷◌, All, same, arith,
}
use skills.Domain.Types.{status, to_int, pending, not_sent}
use skills.Domain.Errors.{Error, Result, ok}
use skills.World.{Row, LogRow, World}
use skills.Environment.{Env, EmailJobPayload, Healthy, IsStateless, Survives}
use skills.Database.{by_email, statement, insert_row, conflicts, next_call}
use skills.Database.Table.{IsTable}
use skills.Store.{Store}
use skills.Store.Contract.{IsStore}
use skills.Worker.Retries.{redeliver, Settled, redeliver-Settled}
use skills.Service.{Renders}
use skills.Queue.{Flavor, queue_opts}
use skills.Seed.{
  Insert, notification, transition, seed_row, seed_job, seed_sql, seed_jobs, exec_inserts,
  enqueue_jobs, run_seed,
}

-- The rows and audit entries of inserts, each newest first, before others.
unfoldable pub rows_of : List Insert → List Row → List Row
rows_of [] rows = rows
rows_of (notification row ∷ inserts) rows = rows_of inserts (row ∷ rows)
rows_of (transition entry ∷ inserts) rows = rows_of inserts rows

unfoldable pub log_of : List Insert → List LogRow → List LogRow
log_of [] log = log
log_of (notification row ∷ inserts) log = log_of inserts log
log_of (transition entry ∷ inserts) log = log_of inserts (entry ∷ log)

unfoldable pub payloads : Env → List EmailJobPayload → List String → List String
payloads env [] queue = queue
payloads env (job ∷ jobs) queue = payloads env jobs (env.marshal job ∷ queue)

-- No row is refused.
abbrev Fresh : List Insert → List Row → Type 0
Fresh [] rows = Unit
Fresh (notification row ∷ inserts) rows = (conflicts row rows ≡ false) × Fresh inserts (row ∷ rows)
Fresh (transition entry ∷ inserts) rows = Fresh inserts rows

module _ (env : Env) where
  exec_inserts-eq :
      (inserts : List Insert) (w : World)
      → Fresh inserts w.state.rows
      → exec_inserts env inserts w ≡ (
        ok tt,
        record w {
          state = record w.state {
            rows = rows_of inserts w.state.rows;
            log = log_of inserts w.state.log;
          };
        },
      )
  unfolding exec_inserts rows_of log_of insert_row
  exec_inserts-eq [] w h = refl
  exec_inserts-eq (notification row ∷ inserts) w (f, h) =
      rw (f, exec_inserts, insert_row, f)
        (exec_inserts-eq inserts (record w { state = record w.state { rows = row ∷ w.state.rows } })
          h)
  exec_inserts-eq (transition entry ∷ inserts) w h =
      exec_inserts-eq inserts (record w { state = record w.state { log = entry ∷ w.state.log } }) h

  enqueue_jobs-eq :
      (healthy : Healthy env) (jobs : List EmailJobPayload) (w : World)
      → (w1 : World) × (enqueue_jobs env jobs w ≡ (none, w1))
        × (w1.state ≡ record w.state { queue = payloads env jobs w.state.queue })
  unfolding enqueue_jobs statement payloads
  enqueue_jobs-eq healthy [] w = (w, refl, refl)
  enqueue_jobs-eq healthy (job ∷ jobs) w =
      let (w1, e, s) = enqueue_jobs-eq healthy jobs (record w {
        calls = w.calls + 1;
        state = record w.state { queue = env.marshal job ∷ w.state.queue };
      }) in
      (w1, ground (arith, healthy w.calls), s)

-- A job whose notification is there, and settles within the receptions that the queue allows.
pub record JobSettles (env : Env) (store : Store) (b : Bool) (flavor : Flavor) (w : World)
    (job : EmailJobPayload) : Type 0 where
  pub row : Row
  pub found : by_email job.email w.state.rows ≡ some row
  pub same_id : row.id ≡ job.notification_id
  pub settled :
      Settled job.email row.retry_limit row.retry_count w
        (redeliver env store b (queue_opts flavor).max_receive (env.marshal job) w)

module _ (env : Env) (store : Store) (law : IsStateless env) (contract : IsStore env store)
    (healthy : Healthy env) (renders : Renders env) (b : Bool) (flavor : Flavor) (now : ℕ) where
  abbrev seeded_rows : List Row
  seeded_rows = rows_of (seed_sql now) []

  seeded-IsTable : IsTable seeded_rows
  unfolding rows_of seed_sql conflicts same
  seeded-IsTable = (refl, (refl, (refl, (refl, (refl, (refl, tt))))))

  seeded-Fresh : Fresh (seed_sql now) []
  unfolding seed_sql conflicts same
  seeded-Fresh = (refl, (refl, (refl, (refl, (refl, (refl, tt))))))

  statement_healthy :
      {A : Type 0} (body : World → Result A × World) (v : World)
      → statement env body v ≡ body (next_call v)
  unfolding statement
  statement_healthy body v = rw (healthy v.calls, statement)

  job_settles :
      (w : World) (row : Row) (job : EmailJobPayload)
      → w.state.rows ≡ seeded_rows
      → by_email job.email seeded_rows ≡ some row
      → row.id ≡ job.notification_id
      → (status row.status ≡ pending) ⊎ (status row.status ≡ not_sent)
      → row.retry_count ≤ row.retry_limit
      → row.retry_limit < 8 + row.retry_count
      → Survives env job
      → JobSettles env store b flavor w job
  job_settles w row job e found id ready c enough json =
      let (html, text, rendered) = renders _ in
      record {
        row = row;
        found = rw e found;
        same_id = id;
        settled =
            redeliver-Settled env store law contract healthy b (env.marshal job) 8 w row json
              rendered (rw e seeded-IsTable) (rw e found) ready c enough;
      }

  all_settle :
      (w : World)
      → w.state.rows ≡ seeded_rows
      → All (Survives env) seed_jobs
      → All (JobSettles env store b flavor w) seed_jobs
  unfolding seed_jobs rows_of seed_sql by_email same status to_int
  all_settle w e (j1, (j2, (j3, (j6, _)))) = (
    job_settles w (seed_row "ntf_seed-001" "alice@company.com" pending 0 now)
        (seed_job "ntf_seed-001" "alice@company.com" "req_seed-001") e refl refl (inl refl)
        (omega arith) (omega arith) j1,
    (
      job_settles w (seed_row "ntf_seed-002" "bob@company.com" pending 0 now)
          (seed_job "ntf_seed-002" "bob@company.com" "req_seed-002") e refl refl (inl refl)
          (omega arith) (omega arith) j2,
      (
        job_settles w (seed_row "ntf_seed-003" "charlie@example.com" pending 0 now)
            (seed_job "ntf_seed-003" "charlie@example.com" "req_seed-003") e refl refl (inl refl)
            (omega arith) (omega arith) j3,
        (
          job_settles w (seed_row "ntf_seed-006" "retry@company.com" not_sent 1 now)
              (seed_job "ntf_seed-006" "retry@company.com" "req_seed-006") e refl refl (inr refl)
              (omega arith) (omega arith) j6,
          tt,
        ),
      ),
    ),
  )

  -- What the seeding of an empty database leaves.
  abbrev pub Seeded : World → Option Error × World → Type 0
  Seeded w r =
      (w1 : World) × (r ≡ (none, w1))
      × IsTable w1.state.rows
      × (w1.state.queue ≡ payloads env seed_jobs w.state.queue)
      × All (JobSettles env store b flavor w1) seed_jobs

  -- Over a backend that keeps the contract and with `stateless` as documented, with a driver that
  -- does not fail, templates that render and payloads that JSON reads back: on a database with no
  -- notifications the seeding of a QA build succeeds, the ids and emails of its table are unique,
  -- its jobs are on the queue, and each of them, run from there, finds its notification under the
  -- id that it names and settles within the receptions that the queue allows, whatever the sender
  -- answers.
  pub run_seed-Settles :
      (w : World)
      → w.state.rows ≡ []
      → All (Survives env) seed_jobs
      → Seeded w (run_seed env true now w)
  unfolding run_seed
  run_seed-Settles w e json =
      let w0 = next_call w in
      let inserted =
        statement_healthy (exec_inserts env (seed_sql now)) w
        ∙ exec_inserts-eq env (seed_sql now) w0 (rw e seeded-Fresh) in
      let w1 = record w0 {
        state = record w0.state {
          rows = rows_of (seed_sql now) w0.state.rows;
          log = log_of (seed_sql now) w0.state.log;
        };
      } in
      let (w2, queued, s) = enqueue_jobs-eq env healthy seed_jobs w1 in
      let rows : w2.state.rows ≡ seeded_rows = ap (λ x. x.rows) s ∙ ap (rows_of (seed_sql now)) e in
      (
        w2,
        rw (inserted, inserted) queued,
        rw rows seeded-IsTable,
        ap (λ x. x.queue) s,
        all_settle w2 rows json,
      )
