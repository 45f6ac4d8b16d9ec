-- ===== src/Seed.antt =====
-- internal/infra/seed: seed_qa.go with its testdata/seed.sql, and seed_default.go.
pub mod Settles
use skills.Prelude.{ℕ, String, ◌<>◌, Bool, Option, none, some, List, [], ◌∷◌, if◌then◌else◌}
use skills.Domain.Types.{Status, pending, sending, delivered, failed, not_sent, to_int, Trigger}
use skills.Domain.Errors.{Error, wrap, Result, ok, err}
use skills.World.{Row, LogRow, World}
use skills.Environment.{Env, EmailJobPayload}
use skills.Database.{statement, insert_row, exec_log}
use skills.Store.Contract.{log_row}
use skills.Queue.{create_job}

-- The two kinds of statement in the file.
pub data Insert : Type 0 where
  notification : Row → Insert
  transition : LogRow → Insert

abbrev pub seed_row : String → String → Status → ℕ → ℕ → Row
seed_row id email s retry_count now = record {
  id = id;
  email = email;
  status = to_int s;
  retry_count = retry_count;
  retry_limit = 3;
  created_at = now;
  updated_at = now;
}

abbrev pub seed_log : String → Status → Status → Trigger → Insert
seed_log id from to t = transition (log_row "notification" id from to t)

-- testdata/seed.sql; the columns that it leaves out get the time of the statement by default.
unfoldable pub seed_sql : ℕ → List Insert
seed_sql now =
    notification (seed_row "ntf_seed-001" "alice@company.com" pending 0 now)
    ∷ notification (seed_row "ntf_seed-002" "bob@company.com" pending 0 now)
    ∷ notification (seed_row "ntf_seed-003" "charlie@example.com" pending 0 now)
    ∷ notification (seed_row "ntf_seed-004" "delivered@company.com" delivered 0 now)
    ∷ notification (seed_row "ntf_seed-005" "failed@company.com" failed 3 now)
    ∷ notification (seed_row "ntf_seed-006" "retry@company.com" not_sent 1 now)
    ∷ seed_log "ntf_seed-004" pending sending Trigger.send
    ∷ seed_log "ntf_seed-004" sending delivered Trigger.delivered
    ∷ seed_log "ntf_seed-005" pending sending Trigger.send
    ∷ seed_log "ntf_seed-005" sending not_sent Trigger.soft_fail
    ∷ seed_log "ntf_seed-005" not_sent sending Trigger.retry
    ∷ seed_log "ntf_seed-005" sending not_sent Trigger.soft_fail
    ∷ seed_log "ntf_seed-005" not_sent sending Trigger.retry
    ∷ seed_log "ntf_seed-005" sending not_sent Trigger.soft_fail
    ∷ seed_log "ntf_seed-005" not_sent sending Trigger.retry
    ∷ seed_log "ntf_seed-005" sending failed Trigger.failed
    ∷ seed_log "ntf_seed-006" pending sending Trigger.send
    ∷ seed_log "ntf_seed-006" sending not_sent Trigger.soft_fail
    ∷ []

abbrev pub seed_job : String → String → String → EmailJobPayload
seed_job id email request_id = record {
  notification_id = id;
  email = email;
  request_id = request_id;
}

-- `seedJobs`.
unfoldable pub seed_jobs : List EmailJobPayload
seed_jobs =
    seed_job "ntf_seed-001" "alice@company.com" "req_seed-001"
    ∷ seed_job "ntf_seed-002" "bob@company.com" "req_seed-002"
    ∷ seed_job "ntf_seed-003" "charlie@example.com" "req_seed-003"
    ∷ seed_job "ntf_seed-006" "retry@company.com" "req_seed-006"
    ∷ []

module _ (env : Env) where
  -- `db.Exec` of the file: its statements in order, up to the first that fails.
  unfoldable pub exec_inserts : List Insert → World → Result (Unit {0}) × World
  exec_inserts [] w = (ok tt, w)
  exec_inserts (notification row ∷ inserts) w =
      let (r, w1) = insert_row env row w in
      elim r [ err e ↦ (err e, w1) | ok _ ↦ exec_inserts inserts w1 ]
  exec_inserts (transition entry ∷ inserts) w = exec_inserts inserts (exec_log entry w).1

  -- The loop over the jobs.
  unfoldable pub enqueue_jobs : List EmailJobPayload → World → Option Error × World
  enqueue_jobs [] w = (none, w)
  enqueue_jobs (job ∷ jobs) w =
      let (r, w1) = statement env (create_job (env.marshal job)) w in
      elim r [
        | err e ↦ (some (wrap ("enqueue seed job " <> job.notification_id) e), w1)
        | ok _ ↦ enqueue_jobs jobs w1
      ]

  -- `RunSeed` of each build; `now` is the time of the statement, as the column holds it.
  unfoldable pub run_seed : Bool → ℕ → World → Option Error × World
  unfolding exec_inserts enqueue_jobs seed_sql seed_jobs
  run_seed qa now w =
      let (r, w1) = statement env (exec_inserts (seed_sql now)) w in
      let seeded : Option Error × World = elim r [
        | err e ↦ (some (wrap "run seed sql" e), w1)
        | ok _ ↦ enqueue_jobs seed_jobs w1
      ] in
      if qa then seeded else (none, w)
