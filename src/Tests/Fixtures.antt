-- ===== src/Tests/Fixtures.antt =====
-- A concrete environment, in which the driver does not fail, and worlds to run the service on.
use skills.Prelude.{
  ℕ, ◌*◌, String, ◌<>◌, ◌≡◌, refl, Option, none, some, List, [], ◌∷◌, same, contains, if◌then◌else◌,
  ◌==◌, Option-cases, inl, inr,
}
use skills.Domain.Types.{Status, Trigger, EmailMessage}
use skills.Domain.Errors.{Error, Result, ok, err, plain, sentinel, wrap, example_domain, error_text}
use skills.Domain.Machine.{StateMachine, permitted}
use skills.World.{Row, World}
use skills.Environment.{querying, Env, EmailJobPayload, Fires, IsStateless, Healthy}
use skills.Worker.{message}
use skills.Store.{Store}
use skills.Store.Contract.{IsStore}
use skills.Sqlite.{sqlite_store, is_unique_violation}
use skills.Sqlite.Contract.{ReportsUnique, sqlite_store-IsStore}

-- A machine that reads the state, looks up the transition and writes its destination.
unfoldable pub fire_model : StateMachine → Trigger → World → Option Error × World
fire_model sm t w =
    let (read, w1) = sm.accessor w in
    elim read [
      | err e ↦ (some (wrap "state accessor" e), w1)
      | ok s ↦ elim (permitted sm.transitions s t) [
        | none ↦ (some (plain "trigger not permitted"), w1)
        | some d ↦ sm.mutator d w1
      ]
    ]

abbrev pub bob_job : EmailJobPayload
bob_job = record { notification_id = "ntf_u0"; email = "bob@fail.com"; request_id = "req_1" }

abbrev pub ann_job : EmailJobPayload
ann_job = record { notification_id = "ntf_a"; email = "ann@work.org"; request_id = "req_1" }

abbrev marshal_model : EmailJobPayload → String
marshal_model p = p.notification_id <> ("|" <> (p.email <> ("|" <> p.request_id)))

-- The payloads of the tests are read back; any other text is no payload.
abbrev unmarshal_model : String → Option EmailJobPayload
unmarshal_model s =
    if same s (marshal_model bob_job)
    then some bob_job
    else if same s (marshal_model ann_job)
    then some ann_job
    else none

-- @example.com is undeliverable, @fail.com times out.
abbrev send_model : ℕ → EmailMessage → Option Error
send_model k msg = elim msg.to [
  | [] ↦ none
  | to ∷ _ ↦
      if contains to "@example.com"
      then some (wrap "send" (sentinel example_domain))
      else if contains to "@fail.com"
      then some (plain "timeout")
      else none
]

abbrev pub env : Env
env = record {
  faults = λ _. none;
  listing = λ _. querying;
  unique_error = λ r. "UNIQUE constraint failed: notifications.email";
  clock = λ k. k * 1000000000;
  uuid = λ k. if k == 0 then "u0" else "u1";
  timestamptz = λ t. t;
  fire = fire_model;
  marshal = marshal_model;
  unmarshal = unmarshal_model;
  parse_address = λ a. if contains a "@" then none else some "mail: missing '@'";
  quote = λ s. s;
  base64_encode = λ s. s;
  base64_decode = λ s. some s;
  execute_html = λ d. ok ("<p>" <> (d.id <> "</p>"));
  execute_text = λ d. ok d.id;
  send = send_model;
}

pub env-IsStateless : IsStateless env
unfolding fire_model
env-IsStateless sm t w = go (sm.accessor w) refl
  where
    go : (r : Result Status × World) → sm.accessor w ≡ r → Fires sm t w (fire_model sm t w)
    go (err e, w1) a = Fires.unread e (wrap "state accessor" e) w1 a (rw (fire_model, a, a))
    go (ok s, w1) a = elim (Option-cases (permitted sm.transitions s t)) [
      | inl n ↦ Fires.refused s (plain "trigger not permitted") w1 a n (rw (fire_model, a, n, a))
      | inr (d, p) ↦ Fires.moved s d w1 a p (rw (fire_model, a, p, a))
    ]

pub env-Healthy : Healthy env
env-Healthy k = refl

pub env-ReportsUnique : ReportsUnique env
unfolding is_unique_violation contains error_text
env-ReportsUnique r = refl

abbrev pub store : Store
store = sqlite_store env

pub contract : IsStore env store
contract = sqlite_store-IsStore env env-ReportsUnique

abbrev pub row_of : String → String → ℕ → ℕ → Row
row_of id email status count = record {
  id = id;
  email = email;
  status = status;
  retry_count = count;
  retry_limit = 3;
  created_at = 0;
  updated_at = 0;
}

-- A world with these rows and nothing else.
abbrev pub world_of : List Row → World
world_of rows = record {
  state = record { rows = rows; log = []; queue = []; broadcasts = []; mailbox = [] };
  calls = 0;
  ticks = 0;
  issued = 0;
}

abbrev pub bob_pending : Row
bob_pending = row_of "ntf_u0" "bob@fail.com" 0 0

abbrev pub ann_delivered : Row
ann_delivered = row_of "ntf_a" "ann@work.org" 2 1

abbrev pub ann_sending : Row
ann_sending = row_of "ntf_a" "ann@work.org" 1 0

-- Bob's notification is pending, and Ann's delivered, or left in `sending`.
abbrev pub world : World
world = world_of (bob_pending ∷ ann_delivered ∷ [])

abbrev pub stuck_world : World
stuck_world = world_of (bob_pending ∷ ann_sending ∷ [])

abbrev pub ann_world : World
ann_world = world_of (ann_delivered ∷ [])

abbrev pub bob_message : EmailMessage
bob_message = message bob_job "<p>ntf_u0</p>" "ntf_u0"
