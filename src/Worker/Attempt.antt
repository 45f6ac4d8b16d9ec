-- ===== src/Worker/Attempt.antt =====
-- What one delivery attempt is meant to do to a notification, apart from how the worker does it:
-- the answer of the sender and the retry count decide the next status, the count, the trigger and
-- whether the job is done.
use skills.Prelude.{
  ℕ, ◌+◌, String, Bool, true, false, Option, none, some, List, [], ◌∷◌, ltb, if◌then◌else◌,
}
use skills.Domain.Types.{
  Status, status, sending, delivered, failed, not_sent, to_int, status_string, Trigger,
  EmailMessage,
}
use skills.Domain.Errors.{Error, example_domain, is}
use skills.World.{Row, StateMessage, State}
use skills.Environment.{EmailJobPayload}
use skills.Database.{update_row}
use skills.Store.Contract.{log_row}
use skills.Worker.{send_trigger}

pub data Verdict : Type 0 where
  accepted permanent transient : Verdict

unfoldable pub verdict : Option Error → Verdict
verdict none = accepted
verdict (some e) = if is e example_domain then permanent else transient

pub record Plan : Type 0 where
  pub final : Status
  pub trigger : Trigger
  pub count : ℕ
  pub done : Bool

abbrev pub retry_or_fail : Bool → ℕ → Plan
retry_or_fail true count = record {
  final = not_sent;
  trigger = Trigger.soft_fail;
  count = count + 1;
  done = false;
}
retry_or_fail false count = record {
  final = failed;
  trigger = Trigger.failed;
  count = count;
  done = true;
}

unfoldable pub plan : Verdict → ℕ → ℕ → Plan
plan accepted limit count = record {
  final = delivered;
  trigger = Trigger.delivered;
  count = count;
  done = true;
}
plan permanent limit count = record {
  final = failed;
  trigger = Trigger.failed;
  count = count;
  done = true;
}
plan transient limit count = retry_or_fail (ltb count limit) count

-- The email of a notification: its two bodies, and the request ID of the job.
abbrev pub expected_mail : EmailJobPayload → String → String → EmailMessage
expected_mail job html text = record {
  to = job.email ∷ [];
  subject = "You have a new notification";
  html = html;
  text = text;
  request_id = job.request_id;
}

-- The row after the attempt, `t` being the time of the last write.
abbrev pub attempted_row : Plan → ℕ → Row → Row
attempted_row p t row = record row {
  status = to_int p.final;
  retry_count = p.count;
  updated_at = t;
}

abbrev pub announce : Bool → String → Status → List StateMessage → List StateMessage
announce b id s rest = if b then (record { id = id; state = status_string s }) ∷ rest else rest

-- The whole state after the attempt: the columns of one row set, two audit rows, two messages to
-- the dashboard where a broadcaster is there, and one email handed to the sender.
abbrev pub attempt_state : Bool → Row → EmailMessage → Plan → ℕ → State → State
attempt_state b row msg p t s = record s {
  rows = update_row row.id (attempted_row p t) s.rows;
  log =
      log_row "notification" row.id sending p.final p.trigger
      ∷ log_row "notification" row.id (status row.status) sending (send_trigger (status row.status))
      ∷ s.log;
  broadcasts = announce b row.id p.final (announce b row.id sending s.broadcasts);
  mailbox = msg ∷ s.mailbox;
}
