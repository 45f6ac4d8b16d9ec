-- ===== src/Api/Notify/Accepts.antt =====
-- What POST /v1/notify can do, whatever the driver does.
use skills.Prelude.{
  String, ◌<>◌, true, false, ◌≡◌, none, refl, ◌⊎◌, inl, inr, ◌∙◌, some, ◌∷◌, arith, Option-cases,
  Bool-cases,
}
use skills.Domain.Types.{Notification}
use skills.Domain.Errors.{already_notified, invalid_email, sentinel, wrap, error_text, ok, is}
use skills.World.{Row, World}
use skills.Environment.{Env, EmailJobPayload}
use skills.Database.{conflicts}
use skills.Checks.{new_id, validate_email}
use skills.Queue.{enqueue}
use skills.Queue.Effect.{enqueue-Writes}
use skills.Store.{Store}
use skills.Store.Contract.{Fault, Stores, Creates, Writes, IsStore, put_rows}
use skills.Api.Code
use skills.Api.Response.{Response, error, notify_response, write_json}
use skills.Api.Notify.{internal_error, new_notification, create_and_enqueue, handle_notify}

abbrev pub job_of : String → String → String → EmailJobPayload
job_of id email request_id = record { notification_id = id; email = email; request_id = request_id }

module _ (env : Env) (request_id email : String) (w : World) where
  abbrev pub issued_id : String
  issued_id = (new_id env "ntf" w).0

  -- The ways in which a request can end.
  pub data Accepts (r : Response × World) : Type 0 where
    invalid :
        (text : String)
        → env.parse_address email ≡ some text
        → r ≡ (
          write_json Code.unprocessable_entity
              (error (env.quote email <> ": invalid email address")),
          w,
        )
        → Accepts r
    taken :
        (row : Row)
        → env.parse_address email ≡ none
        → Stores row (new_notification issued_id email)
        → conflicts row w.state.rows ≡ true
        → r.0 ≡ write_json Code.conflict (error "already notified")
        → r.1.state ≡ w.state
        → Accepts r
    broken :
        env.parse_address email ≡ none
        → Fault env
        → (r.0 ≡ internal_error) ⊎ (r.0 ≡ write_json Code.conflict (error "already notified"))
        → r.1.state ≡ w.state
        → Accepts r
    lost :
        (row : Row)
        → env.parse_address email ≡ none
        → Fault env
        → Stores row (new_notification issued_id email)
        → conflicts row w.state.rows ≡ false
        → r.0 ≡ internal_error
        → r.1.state ≡ put_rows (row ∷ w.state.rows) w.state
        → Accepts r
    accepted :
        (row : Row)
        → env.parse_address email ≡ none
        → Stores row (new_notification issued_id email)
        → conflicts row w.state.rows ≡ false
        → r.0 ≡ write_json Code.accepted (notify_response issued_id)
        → r.1.state ≡ record w.state {
          rows = row ∷ w.state.rows;
          queue = env.marshal (job_of issued_id email request_id) ∷ w.state.queue;
        }
        → Accepts r

address-cases :
    (env : Env) (email : String)
    → ((text : String) × (env.parse_address email ≡ some text)
        × (validate_email env email ≡ some (wrap (env.quote email) (sentinel invalid_email))))
      ⊎ ((env.parse_address email ≡ none) × (validate_email env email ≡ none))
unfolding validate_email
address-cases env email = elim (Option-cases (env.parse_address email)) [
  | inr (text, p) ↦ inl (text, p, ground arith)
  | inl p ↦ inr (p, ground arith)
]

module _ (env : Env) (store : Store) (contract : IsStore env store) (request_id email : String)
    (w : World) (valid : env.parse_address email ≡ none) where
  enqueued :
      (row : Row) (m : Notification) (w2 : World)
      → Stores row (new_notification (issued_id env request_id email w) email)
      → conflicts row w.state.rows ≡ false
      → store.create_notification
          (new_notification (issued_id env request_id email w) email)
          (new_id env "ntf" w).1
        ≡ (ok m, w2)
      → w2.state ≡ put_rows (row ∷ w.state.rows) w.state
      → Accepts env request_id email w (create_and_enqueue env store request_id email w)
  unfolding create_and_enqueue
  enqueued row m w2 s c r q = go (
      enqueue-Writes env (env.marshal (job_of (issued_id env request_id email w) email request_id))
        w2)
    where
      go :
          Writes env w2
            (λ _. record w2.state {
              queue =
                  env.marshal (job_of (issued_id env request_id email w) email request_id)
                  ∷ w2.state.queue;
            })
            (enqueue env
              (env.marshal (job_of (issued_id env request_id email w) email request_id))
              w2)
          → Accepts env request_id email w (create_and_enqueue env store request_id email w)
      go (Writes.broken e w3 k u v) =
          rw (r, create_and_enqueue, r, u, r, u) (Accepts.lost row valid k s c refl (v ∙ q))
      go (Writes.written _ w3 u v) =
          rw (r, create_and_enqueue, r, u, r, u) (Accepts.accepted row valid s c refl (v ∙ rw q))

  created-Accepts :
      Creates env
        (new_id env "ntf" w).1
        (new_notification (issued_id env request_id email w) email)
        (store.create_notification
          (new_notification (issued_id env request_id email w) email)
          (new_id env "ntf" w).1)
      → Accepts env request_id email w (create_and_enqueue env store request_id email w)
  unfolding create_and_enqueue new_id
  created-Accepts (Creates.broken e w2 k r q) = elim (Bool-cases (is e already_notified)) [
    | inl i ↦ rw (r, create_and_enqueue, r, i) (Accepts.broken valid k (inr refl) q)
    | inr i ↦ rw (r, create_and_enqueue, r, i) (Accepts.broken valid k (inl refl) q)
  ]
  created-Accepts (Creates.taken row e w2 s c i r q) =
      rw (r, create_and_enqueue, r, i) (Accepts.taken row valid s c refl q)
  created-Accepts (Creates.created row m w2 s c r q) = enqueued row m w2 s c r q

pub handle_notify-Accepts :
    (env : Env) (store : Store)
    → IsStore env store
    → (request_id email : String) (w : World)
    → Accepts env request_id email w (handle_notify env store request_id (some email) w)
unfolding handle_notify error_text
handle_notify-Accepts env store contract request_id email w = elim (address-cases env email) [
  | inl (text, p, v) ↦ rw (v, handle_notify) (Accepts.invalid text p refl)
  | inr (p, v) ↦
      rw (v, handle_notify)
        (created-Accepts env store contract request_id email w p (
          contract.create (new_notification (issued_id env request_id email w) email)
            (new_id env "ntf" w).1))
]
