-- ===== src/Tests/Jobs.antt =====
-- Theorems on jobs at concrete inputs.
use skills.Prelude.{
  String, ◌<>◌, true, refl, inl, Option, none, some, List, [], ◌∷◌, same, arith, if◌then◌else◌,
}
use skills.World.{World}
use skills.Environment.{Env, EmailJobPayload, IsStateless}
use skills.Domain.Types.{status, status_string, to_int}
use skills.Email.{render_notification}
use skills.Email.Console.{simulated_domains}
use skills.Database.{by_email, conflicts}
use skills.Store.{Store}
use skills.Sqlite.{sqlite_store}
use skills.Sqlite.Contract.{sqlite_store-IsStore}
use skills.Queue.{flavor_sqlite}
use skills.Worker.Retries.{redeliver}
use skills.Worker.Trail.{Trailed, redeliver-Trailed}
use skills.Service.{Renders}
use skills.Service.Simulated.{qa_env, Simulated, redeliver-Simulated}
use skills.Seed.{seed_jobs, run_seed}
use skills.Seed.Settles.{Seeded, run_seed-Settles}
use skills.Tests.Fixtures.{env, env-IsStateless, env-ReportsUnique, bob_job, row_of, world_of}

abbrev qa : Env
qa = qa_env env (λ s. s) (λ k d. none) simulated_domains

qa-IsStateless : IsStateless qa
qa-IsStateless sm t w = env-IsStateless sm t w

abbrev qa_store : Store
qa_store = sqlite_store qa

abbrev bob_world : World
bob_world = world_of (row_of "ntf_u0" "bob@fail.com" 0 0 ∷ [])

redeliver-Simulated_example :
    Simulated "bob@fail.com" "bob@fail.com" 3 0
      (redeliver qa qa_store true 4 (env.marshal bob_job) bob_world)
unfolding same by_email render_notification conflicts status
redeliver-Simulated_example =
    redeliver-Simulated env (λ s. s) (λ k d. none) (λ k d. refl) simulated_domains
      (λ e. ((λ h. h), (λ h. h))) qa_store qa-IsStateless
      (sqlite_store-IsStore qa env-ReportsUnique) (λ k. refl) true (env.marshal bob_job)
      {job = bob_job} 3 bob_world (row_of "ntf_u0" "bob@fail.com" 0 0) refl refl (refl, tt) refl
      (inl refl) (omega arith) (omega arith)

redeliver-Trailed_example :
    Trailed "bob@fail.com" "ntf_u0" bob_world
      (redeliver qa qa_store true 4 (env.marshal bob_job) bob_world)
unfolding same by_email render_notification conflicts status status_string to_int
redeliver-Trailed_example =
    redeliver-Trailed qa qa_store qa-IsStateless (sqlite_store-IsStore qa env-ReportsUnique)
      (λ k. refl) true (env.marshal bob_job) {job = bob_job} 4 bob_world
      (row_of "ntf_u0" "bob@fail.com" 0 0) refl refl (refl, tt) refl (inl refl) refl

-- The jobs of the seed are read back, and nothing else.
abbrev first_of : String → List EmailJobPayload → Option EmailJobPayload
first_of s [] = none
first_of s (job ∷ jobs) =
    let rest = first_of s jobs in if same job.notification_id s then some job else rest

abbrev seed_env : Env
seed_env = record env {
  marshal = λ job. job.notification_id;
  unmarshal = λ s. first_of s seed_jobs;
}

seed_env-IsStateless : IsStateless seed_env
seed_env-IsStateless sm t w = env-IsStateless sm t w

seed_env-Renders : Renders seed_env
unfolding render_notification
seed_env-Renders d = ("<p>" <> (d.id <> "</p>"), d.id, refl)

abbrev empty_world : World
empty_world = world_of []

run_seed-Settles_example :
    Seeded seed_env
      (sqlite_store seed_env)
      seed_env-IsStateless
      (sqlite_store-IsStore seed_env env-ReportsUnique)
      (λ k. refl)
      seed_env-Renders
      true
      flavor_sqlite
      0
      empty_world
      (run_seed seed_env true 0 empty_world)
unfolding same seed_jobs render_notification
run_seed-Settles_example =
    run_seed-Settles seed_env (sqlite_store seed_env) seed_env-IsStateless
      (sqlite_store-IsStore seed_env env-ReportsUnique) (λ k. refl) seed_env-Renders true
      flavor_sqlite 0 empty_world refl (refl, (refl, (refl, (refl, tt))))
