-- ===== src/Domain/Types.antt =====
-- internal/domain/types.go and email.go: statuses, triggers, the notification and the message.
use skills.Prelude.{ℕ, zero, suc, String, List, [], ◌∷◌, get_or, ◌≡◌, refl}

-- `type Status int`. The five constants, and every other int from 5 up: `other n` is Status(5 + n).
-- A negative int is never written to the column.
pub data Status : Type 0 where
  pending sending delivered failed not_sent : Status
  other : ℕ → Status

-- `int(s)`.
unfoldable pub to_int : Status → ℕ
to_int pending = 0
to_int sending = 1
to_int delivered = 2
to_int failed = 3
to_int not_sent = 4
to_int (other n) = suc (suc (suc (suc (suc n))))

-- `domain.Status(i)`.
unfoldable pub status : ℕ → Status
status zero = pending
status (suc zero) = sending
status (suc (suc zero)) = delivered
status (suc (suc (suc zero))) = failed
status (suc (suc (suc (suc zero)))) = not_sent
status (suc (suc (suc (suc (suc n))))) = other n

pub status-to_int : (s : Status) → status (to_int s) ≡ s
unfolding status to_int
status-to_int pending = refl
status-to_int sending = refl
status-to_int delivered = refl
status-to_int failed = refl
status-to_int not_sent = refl
status-to_int (other n) = refl

abbrev pub status_strings : List String
status_strings = "pending" ∷ "sending" ∷ "delivered" ∷ "failed" ∷ "not_sent" ∷ []

-- `Status.String`: the table within its bounds, "unknown" past them.
unfoldable pub status_string : Status → String
unfolding to_int
status_string s = get_or status_strings (to_int s) "unknown"

pub data Trigger : Type 0 where
  send delivered failed soft_fail retry reset : Trigger

unfoldable pub trigger_int : Trigger → ℕ
trigger_int Trigger.send = 0
trigger_int Trigger.delivered = 1
trigger_int Trigger.failed = 2
trigger_int Trigger.soft_fail = 3
trigger_int Trigger.retry = 4
trigger_int Trigger.reset = 5

abbrev pub trigger_strings : List String
trigger_strings = "send" ∷ "delivered" ∷ "failed" ∷ "soft_fail" ∷ "retry" ∷ "reset" ∷ []

-- `Trigger.String`.
unfoldable pub trigger_string : Trigger → String
unfolding trigger_int
trigger_string t = get_or trigger_strings (trigger_int t) "unknown"

abbrev pub default_retry_limit : ℕ
default_retry_limit = 3

-- Times are nanoseconds since `time.Time{}`.
pub record Notification : Type 0 where
  pub id : String
  pub email : String
  pub status : Status
  pub retry_count : ℕ
  pub retry_limit : ℕ
  pub created_at : ℕ
  pub updated_at : ℕ

pub record EmailMessage : Type 0 where
  pub to : List String
  pub subject : String
  pub html : String
  pub text : String
  pub request_id : String
