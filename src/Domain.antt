-- ===== src/Domain.antt =====
-- internal/domain: the entity, its states and triggers, the errors, the state machine.
pub mod Types
pub mod Errors
pub mod Machine
pub mod Lifecycle
