-- ===== src/Environment.antt =====
-- What the program calls and does not implement: the database driver's failures, the clock, UUIDs,
-- the `stateless` library, JSON, address parsing, the templates and the email sender. A theorem
-- holds for every such environment; the laws that it needs are named at the end.
use skills.Prelude.{ℕ, String, ◌≡◌, Option, none, some}
use skills.Domain.Types.{Status, Trigger, EmailMessage}
use skills.Domain.Errors.{Error, Result, ok, err}
use skills.Domain.Machine.{StateMachine, permitted}
use skills.World.{Row, World}

-- internal/infra/queue/queue.go, `EmailJobPayload`.
pub record EmailJobPayload : Type 0 where
  pub notification_id : String
  pub email : String
  pub request_id : String

-- internal/infra/email/template.go, `NotificationData`.
pub record NotificationData : Type 0 where
  pub email : String
  pub id : String
  pub request_id : String

-- Where the reading of several rows fails: at the query, at the `Scan` of a row, or between rows.
pub data Listing : Type 0 where
  querying scanning iterating : Listing

pub record Env : Type 0 where
  -- The driver's error at the k-th statement, if it fails there.
  pub faults : ℕ → Option String
  -- Where the k-th statement fails, if it reads several rows.
  pub listing : ℕ → Listing
  -- The driver's error at an INSERT that breaks a UNIQUE constraint.
  pub unique_error : Row → String
  -- The k-th reading of the clock, and the k-th UUID.
  pub clock : ℕ → ℕ
  pub uuid : ℕ → String
  -- A time as a TIMESTAMPTZ column of PostgreSQL keeps it.
  pub timestamptz : ℕ → ℕ
  -- `StateMachine.FireCtx` of `stateless`.
  pub fire : StateMachine → Trigger → World → Option Error × World
  -- `json.Marshal` and `json.Unmarshal` at an `EmailJobPayload`.
  pub marshal : EmailJobPayload → String
  pub unmarshal : String → Option EmailJobPayload
  -- `mail.ParseAddress`, of which only the error is used, and the quoting of `%q`.
  pub parse_address : String → Option String
  pub quote : String → String
  -- `base64.StdEncoding`, on the bytes of a text.
  pub base64_encode : String → String
  pub base64_decode : String → Option String
  -- The two templates.
  pub execute_html : NotificationData → Result String
  pub execute_text : NotificationData → Result String
  -- `EmailSender.Send`, at the k-th message.
  pub send : ℕ → EmailMessage → Option Error

-- No statement fails for a reason of the driver's own.
abbrev pub Healthy : Env → Type 0
Healthy env = (k : ℕ) → env.faults k ≡ none

-- What `stateless` documents of a fired trigger with external storage: the state is read once by
-- the accessor, an unpermitted trigger is an error, and a permitted one writes its destination by
-- the mutator, whose error is the result.
pub data Fires (sm : StateMachine) (t : Trigger) (w : World) (r : Option Error × World)
    : Type 0 where
  unread :
      (e f : Error) (w1 : World) → sm.accessor w ≡ (err e, w1) → r ≡ (some f, w1) → Fires sm t w r
  refused :
      (s : Status) (f : Error) (w1 : World)
      → sm.accessor w ≡ (ok s, w1)
      → permitted sm.transitions s t ≡ none
      → r ≡ (some f, w1)
      → Fires sm t w r
  moved :
      (s d : Status) (w1 : World)
      → sm.accessor w ≡ (ok s, w1)
      → permitted sm.transitions s t ≡ some d
      → r ≡ sm.mutator d w1
      → Fires sm t w r

abbrev pub IsStateless : Env → Type 0
IsStateless env = (sm : StateMachine) (t : Trigger) (w : World) → Fires sm t w (env.fire sm t w)

-- A payload survives the queue.
abbrev pub Survives : Env → EmailJobPayload → Type 0
Survives env p = env.unmarshal (env.marshal p) ≡ some p
