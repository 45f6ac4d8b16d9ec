-- ===== src/Email.antt =====
-- internal/infra/email: rendering (template.go) and the call of the sender (domain/email.go).
pub mod Console
pub mod Smtp
use skills.Prelude.{String, Option, ◌∷◌, length}
use skills.Domain.Types.{EmailMessage}
use skills.Domain.Errors.{Error, wrap, Result, ok, err}
use skills.World.{World}
use skills.Environment.{Env, NotificationData}

module _ (env : Env) where
  -- `RenderNotification`: the HTML body first, then the text.
  unfoldable pub render_notification : NotificationData → Result (String × String)
  render_notification d = elim (env.execute_html d) [
    | err e ↦ err (wrap "render html" e)
    | ok html ↦ elim (env.execute_text d) [
      | err e ↦ err (wrap "render text" e)
      | ok text ↦ ok (html, text)
    ]
  ]

  -- `w.sender.Send(ctx, msg)`: the message is handed over, and the sender says how it went.
  abbrev pub send_email : EmailMessage → World → Option Error × World
  send_email msg w = (
    env.send (length w.state.mailbox) msg,
    record w { state = record w.state { mailbox = msg ∷ w.state.mailbox } },
  )
