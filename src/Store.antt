-- ===== src/Store.antt =====
-- internal/domain/store.go: the storage interface of the handlers and the worker.
pub mod Contract
pub mod Roundtrip
use skills.Prelude.{ℕ, String, Option, List}
use skills.Domain.Types.{Status, Trigger, Notification}
use skills.Domain.Errors.{Error, Result}
use skills.World.{World}

-- A Go method that returns `error` returns `Option Error`. One that fills in its `*Notification`
-- returns the new value.
pub record Store : Type 0 where
  pub create_notification : Notification → World → Result Notification × World
  pub get_notification_by_email : String → World → Result Notification × World
  pub update_notification : Notification → World → Result Notification × World
  pub list_notifications : String → ℕ → World → Result (List Notification) × World
  pub count_notifications : World → Result ℕ × World
  pub log_transition : String → String → Status → Status → Trigger → World → Option Error × World
  pub notification_state_accessor : String → World → Result Status × World
  pub notification_state_mutator : String → Status → World → Option Error × World
  pub ping : World → Option Error × World
