-- ===== src/Domain/Lifecycle.antt =====
-- The transition diagram of openspec/specs/notification-state-machine, and that the table of
-- internal/domain/statemachine.go is that diagram.
use skills.Prelude.{ℕ, ◌<◌, ◌≡◌, refl, ◌↔◌, some, lt→ltb, arith}
use skills.Domain.Types.{Status, pending, sending, delivered, failed, not_sent, Trigger}
use skills.Domain.Machine.{lifecycle, permitted}

-- REQ-003 to REQ-008 and REQ-020 of the specification.
pub data Edge (limit count : ℕ) : Status → Trigger → Status → Type 0 where
  send : Edge limit count pending Trigger.send sending
  deliver : Edge limit count sending Trigger.delivered delivered
  fail : Edge limit count sending Trigger.failed failed
  soft_fail : count < limit → Edge limit count sending Trigger.soft_fail not_sent
  retry : Edge limit count not_sent Trigger.retry sending
  reset_delivered : Edge limit count delivered Trigger.reset pending
  reset_failed : Edge limit count failed Trigger.reset pending
  reset_not_sent : Edge limit count not_sent Trigger.reset pending

ruleset edges =
    (send, deliver, fail, soft_fail, retry, reset_delivered, reset_failed, reset_not_sent)

permitted_complete :
    {limit count : ℕ} {s d : Status} {t : Trigger}
    → Edge limit count s t d
    → permitted (lifecycle limit count) s t ≡ some d
unfolding permitted lifecycle
permitted_complete send = refl
permitted_complete deliver = refl
permitted_complete fail = refl
permitted_complete {limit} {count} (soft_fail h) = rw (lt→ltb count limit h)
permitted_complete retry = refl
permitted_complete reset_delivered = refl
permitted_complete reset_failed = refl
permitted_complete reset_not_sent = refl

permitted_sound :
    (limit count : ℕ) (s d : Status) (t : Trigger)
    → permitted (lifecycle limit count) s t ≡ some d
    → Edge limit count s t d
unfolding permitted lifecycle
permitted_sound limit count s d t h = grind (arith, edges)

-- For every retry limit and count, the configured machine permits a trigger from a status to a
-- status exactly when the specification's diagram has that edge.
pub permitted_iff_edge :
    (limit count : ℕ) (s d : Status) (t : Trigger)
    → (permitted (lifecycle limit count) s t ≡ some d) ↔ Edge limit count s t d
permitted_iff_edge limit count s d t =
    (permitted_sound limit count s d t, λ e. permitted_complete e)
