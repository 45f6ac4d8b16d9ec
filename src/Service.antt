-- ===== src/Service.antt =====
-- The two ends of the queue together: a request to internal/infra/httpapi, and the job that it
-- queues as internal/infra/queue/worker.go handles it.
pub mod Notified
pub mod Renewed
pub mod Runs
pub mod Queued
pub mod Seen
pub mod Shared
pub mod Simulated
use skills.Prelude.{String, ◌≡◌}
use skills.Environment.{Env, NotificationData}
use skills.Domain.Errors.{ok}
use skills.Email.{render_notification}

-- The templates render for every notification.
abbrev pub Renders : Env → Type 0
Renders env =
    (d : NotificationData) → (html text : String) × (render_notification env d ≡ ok (html, text))
