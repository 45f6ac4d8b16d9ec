-- ===== src/Email/Smtp.antt =====
-- internal/infra/email/sender_default.go, with what it takes from sender.go: the sender of all
-- other builds, over SMTP. The `go-mail` library is a parameter.
use skills.Prelude.{
  ℕ, String, Bool, not, true, ◌≡◌, ◌≢◌, ◌↔◌, Option, none, some, List, same, if◌then◌else◌, arith,
}
use skills.Domain.Types.{EmailMessage}
use skills.Domain.Errors.{Error, wrap, is, example_domain, Result, ok, err}
use skills.Email.Console.{send_delay}
use skills.Worker.Attempt.{verdict, permanent}

-- `gomail.Msg`, as `Send` fills it in.
pub record Mail : Type 0 where
  pub from : String
  pub to : List String
  pub subject : String
  pub html : String
  pub text : String
  pub request_header : Option String

-- What `Send` calls of `go-mail`, each with its error: the check of the sender's address, that of
-- the recipients, and the delivery; and the constructor of a client, which keeps none of its
-- arguments that `Send` could see.
pub record Gomail : Type 0 where
  pub new_client : String → ℕ → Option Error
  pub set_from : String → Option Error
  pub set_to : List String → Option Error
  pub dial_and_send : Mail → Option Error

pub record SmtpSender : Type 0 where
  pub from : String

module _ (gomail : Gomail) where
  -- `NewSMTPSender`.
  unfoldable pub new_smtp_sender : String → ℕ → String → Result SmtpSender
  new_smtp_sender host port from = elim (gomail.new_client host port) [
    | some e ↦ err (wrap "create smtp client" e)
    | none ↦ ok (record { from = from })
  ]

  -- The message that is handed to the server.
  unfoldable pub compose : SmtpSender → EmailMessage → Mail
  compose s msg = record {
    from = s.from;
    to = msg.to;
    subject = msg.subject;
    html = msg.html;
    text = msg.text;
    request_header = if same msg.request_id "" then none else some msg.request_id;
  }

  -- `Send`; `done d` is the context's error if the context ends within the next `d` nanoseconds.
  unfoldable pub send : (ℕ → Option Error) → SmtpSender → EmailMessage → Option Error
  send done s msg = elim (done send_delay) [
    | some e ↦ some e
    | none ↦ elim (gomail.set_from s.from) [
      | some e ↦ some (wrap "set from" e)
      | none ↦ elim (gomail.set_to msg.to) [
        | some e ↦ some (wrap "set to" e)
        | none ↦ elim (gomail.dial_and_send (compose s msg)) [
          | some e ↦ some (wrap "smtp send" e)
          | none ↦ none
        ]
      ]
    ]
  ]

-- An error, if there is one, that is not `ErrExampleDomain`.
abbrev pub is_foreign : Option Error → Bool
is_foreign none = true
is_foreign (some e) = not (is e example_domain)

-- The errors of the library and of the context are not this program's own sentinel.
pub record IsForeign (gomail : Gomail) (done : ℕ → Option Error) : Type 0 where
  pub context : (d : ℕ) → is_foreign (done d) ≡ true
  pub from : (a : String) → is_foreign (gomail.set_from a) ≡ true
  pub to : (a : List String) → is_foreign (gomail.set_to a) ≡ true
  pub dial : (m : Mail) → is_foreign (gomail.dial_and_send m) ≡ true

module _ (gomail : Gomail) (done : ℕ → Option Error) (foreign : IsForeign gomail done)
    (s : SmtpSender) (msg : EmailMessage) where
  -- Where no error of the mail library or of the context is the program's own `ErrExampleDomain`:
  -- `Send` reports success exactly when the context outlives the delay, both addresses are accepted
  -- and the server accepts the composed message; and the worker never takes its result for a
  -- permanent failure, so that in builds without simulation every failure is retried.
  pub send-Delivers :
      ((send gomail done s msg ≡ none) ↔ (
        (done send_delay ≡ none)
        × (gomail.set_from s.from ≡ none)
        × (gomail.set_to msg.to ≡ none)
        × (gomail.dial_and_send (compose gomail s msg) ≡ none)))
      × (verdict (send gomail done s msg) ≢ permanent)
  unfolding send verdict is
  send-Delivers = (
    ((λ h. ground arith), (λ h. ground arith)),
    λ h. ground (
      arith,
      foreign.context send_delay,
      foreign.from s.from,
      foreign.to msg.to,
      foreign.dial (compose gomail s msg),
    ),
  )
