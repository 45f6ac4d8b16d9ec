-- ===== src/Domain/Machine.antt =====
-- internal/domain/statemachine.go: the lifecycle that is handed to the `stateless` library.
use skills.Prelude.{
  ℕ, Bool, true, ◌&&◌, Option, none, some, List, [], ◌∷◌, ltb, ◌==◌, if◌then◌else◌,
}
use skills.Domain.Types.{
  Status, pending, sending, delivered, failed, not_sent, to_int, Trigger, trigger_int,
}
use skills.Domain.Errors.{Error, Result}
use skills.World.{World}

-- One `Permit(trigger, destination, guard)` under `Configure(source)`.
pub record Transition : Type 0 where
  pub source : Status
  pub trigger : Trigger
  pub destination : Status
  pub guard : Bool

pub record StateMachine : Type 0 where
  pub accessor : World → Result Status × World
  pub mutator : Status → World → Option Error × World
  pub transitions : List Transition

abbrev permit_if : Status → Trigger → Status → Bool → Transition
permit_if s t d g = record { source = s; trigger = t; destination = d; guard = g }

abbrev permit : Status → Trigger → Status → Transition
permit s t d = permit_if s t d true

-- The table that `ConfigureStateMachine` builds, in its order.
unfoldable pub lifecycle : ℕ → ℕ → List Transition
lifecycle retry_limit retry_count =
    permit pending Trigger.send sending
    ∷ permit sending Trigger.delivered delivered
    ∷ permit sending Trigger.failed failed
    ∷ permit_if sending Trigger.soft_fail not_sent (ltb retry_count retry_limit)
    ∷ permit delivered Trigger.reset pending
    ∷ permit failed Trigger.reset pending
    ∷ permit not_sent Trigger.retry sending
    ∷ permit not_sent Trigger.reset pending
    ∷ []

unfoldable pub configure_state_machine :
    (World → Result Status × World) → (Status → World → Option Error × World) → ℕ → ℕ → StateMachine
unfolding lifecycle
configure_state_machine accessor mutator retry_limit retry_count = record {
  accessor = accessor;
  mutator = mutator;
  transitions = lifecycle retry_limit retry_count;
}

-- What `stateless` documents of `Permit`: the transition of the state and trigger whose guard
-- holds.
unfoldable pub permitted : List Transition → Status → Trigger → Option Status
unfolding to_int trigger_int
permitted [] s t = none
permitted (p ∷ ps) s t =
    if to_int p.source == to_int s && (trigger_int p.trigger == trigger_int t && p.guard)
    then some p.destination
    else permitted ps s t
