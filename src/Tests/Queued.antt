-- ===== src/Tests/Queued.antt =====
-- The queue and the table at a concrete sequence of calls.
use skills.Prelude.{refl, some, List, [], ◌∷◌, arith, same, true}
use skills.World.{World}
use skills.Environment.{Env}
use skills.Database.{by_email, by_id, conflicts}
use skills.Sqlite.{sqlite_store}
use skills.Sqlite.Contract.{sqlite_store-IsStore}
use skills.Worker.Sound.{IsSound}
use skills.Service.Runs.{Call, serve}
use skills.Service.Queued.{IsQueued}
use skills.Service.Queued.Served.{serve-IsQueued}
use skills.Tests.Fixtures.{env, env-IsStateless, env-ReportsUnique, bob_job, world}
use skills.Tests.Payloads.{marshal, unmarshal, unmarshal-marshal}

abbrev quoting_env : Env
quoting_env = record env { marshal = marshal; unmarshal = unmarshal }

-- Bob's notification is pending and its job is in the queue.
abbrev busy_world : World
busy_world = record world { state = record world.state { queue = marshal bob_job ∷ [] } }

-- A request for a new notification, one reception of Bob's job, and the reset of Ann's
-- notification.
abbrev calls : List Call
calls =
    Call.notify "req_2" (some "cat@work.org")
    ∷ Call.receive (marshal bob_job)
    ∷ Call.reset "req_3" (some "ann@work.org")
    ∷ []

busy_world-IsSound : IsSound busy_world.state
unfolding same conflicts
busy_world-IsSound = record {
  table = (refl, (refl, tt));
  rows = ((omega arith, omega arith), ((omega arith, omega arith), tt));
}

busy_world-IsQueued : IsQueued quoting_env busy_world.state
unfolding same by_id by_email
busy_world-IsQueued = ((bob_job, unmarshal-marshal bob_job, (_, refl, refl)), tt)

serve-IsQueued_example :
    IsSound (serve quoting_env (sqlite_store quoting_env) true calls busy_world).state
    × IsQueued quoting_env
        (serve quoting_env (sqlite_store quoting_env) true calls busy_world).state
serve-IsQueued_example =
    serve-IsQueued quoting_env (sqlite_store quoting_env) env-IsStateless
      (sqlite_store-IsStore quoting_env env-ReportsUnique) unmarshal-marshal true calls busy_world
      busy_world-IsSound busy_world-IsQueued
