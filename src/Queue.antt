-- ===== src/Queue.antt =====
-- internal/infra/queue/queue.go: the options of the queue and of its runner, and `Enqueue`. A job
-- is the body of its message; how `goqite` keeps and hands out the messages is not modelled.
pub mod Effect
use skills.Prelude.{ℕ, String, Option, none, some, ◌∷◌}
use skills.Domain.Errors.{Error, wrap, Result, ok, err}
use skills.World.{World}
use skills.Environment.{Env, EmailJobPayload}
use skills.Database.{statement}

pub data Flavor : Type 0 where
  flavor_sqlite flavor_postgres : Flavor

-- `goqite.NewOpts`; the timeout is in seconds.
pub record QueueOpts : Type 0 where
  pub name : String
  pub max_receive : ℕ
  pub timeout : ℕ
  pub sql_flavor : Flavor

abbrev pub queue_opts : Flavor → QueueOpts
queue_opts flavor = record {
  name = "notifications";
  max_receive = 8;
  timeout = 30;
  sql_flavor = flavor;
}

-- `jobs.NewRunnerOpts` of `NewJobRunner`, for a queue with its options; the interval is in
-- milliseconds.
pub record RunnerOpts : Type 0 where
  pub limit : ℕ
  pub poll_interval : ℕ
  pub queue : QueueOpts

abbrev pub runner_opts : QueueOpts → RunnerOpts
runner_opts queue = record { limit = 5; poll_interval = 500; queue = queue }

-- `jobs.Create` writes one message to the database.
abbrev pub create_job : String → World → Result (Unit {0}) × World
create_job payload w =
    (ok tt, record w { state = record w.state { queue = payload ∷ w.state.queue } })

-- `Enqueue`. What follows `jobs.Create` only logs.
unfoldable pub enqueue : Env → String → World → Option Error × World
enqueue env payload w =
    let (r, w') = statement env (create_job payload) w in
    elim r [ err e ↦ (some (wrap "enqueue notification" e), w') | ok _ ↦ (none, w') ]
