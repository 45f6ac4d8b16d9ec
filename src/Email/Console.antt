-- ===== src/Email/Console.antt =====
-- internal/infra/email/sender_qa.go, with what it takes from sender.go: the sender of QA builds,
-- which sends nothing and simulates the behaviour of some recipient domains.
pub mod Verdicts
use skills.Prelude.{
  ℕ, ◌*◌, String, ◌<>◌, Option, none, some, List, [], ◌∷◌, ◌++◌, get_or, ltb, if◌then◌else◌,
}
use skills.Prelude.Suffix.{has_suffix}
use skills.Domain.Types.{EmailMessage}
use skills.Domain.Errors.{Error, sentinel, plain, wrap, example_domain}

-- `time.Second`, in nanoseconds.
abbrev pub second : ℕ
second = 1000000000

-- `sendDelay`.
abbrev pub send_delay : ℕ
send_delay = 6 * second

pub record DomainAction : Type 0 where
  pub delay : ℕ
  pub error : Option Error
  pub label : String

abbrev pub example_action : DomainAction
example_action = record {
  delay = 0;
  error = some (sentinel example_domain);
  label = "simulated permanent failure for @example.com";
}

abbrev pub fail_action : DomainAction
fail_action = record {
  delay = 0;
  error = some (wrap "simulated timeout" (plain "context deadline exceeded"));
  label = "simulated timeout for @fail.com";
}

abbrev pub slow_action : DomainAction
slow_action = record {
  delay = 30 * second;
  error = none;
  label = "simulated slow delivery for @slow.com";
}

-- `simulatedDomains`, a map: a range visits its entries in any order.
abbrev pub simulated_domains : List (String × DomainAction)
simulated_domains =
    ("@example.com", example_action) ∷ ("@fail.com", fail_action) ∷ ("@slow.com", slow_action) ∷ []

-- What a call of `Send` does besides returning.
pub data Effect : Type 0 where
  logged : String → Effect
  waited : ℕ → Effect

-- The inner range: the first visited entry whose domain ends the address.
unfoldable pub match_address : List (String × DomainAction) → String → Option DomainAction
match_address [] lower = none
match_address ((suffix, action) ∷ domains) lower =
    if has_suffix lower suffix then some action else match_address domains lower

-- `to_lower` is `strings.ToLower`; `done d` is the context's error if the context ends within the
-- next `d` nanoseconds; `domains` is the map in the order in which it is visited.
module _ (to_lower : String → String) (done : ℕ → Option Error)
    (domains : List (String × DomainAction)) where
  -- `matchDomain`.
  unfoldable pub match_domain : List String → Option DomainAction
  match_domain [] = none
  match_domain (addr ∷ recipients) = elim (match_address domains (to_lower addr)) [
    | some action ↦ some action
    | none ↦ match_domain recipients
  ]

  -- The select of `time.After(delay)` and `ctx.Done()`, and what follows if the delay passes.
  unfoldable pub after_delay : ℕ → Option Error × List Effect → Option Error × List Effect
  after_delay delay rest = elim (done delay) [
    | some e ↦ (some e, logged "email send delay starting" ∷ waited delay ∷ [])
    | none ↦ (rest.0, logged "email send delay starting" ∷ waited delay ∷ rest.1)
  ]

  -- The action of a matched domain, after its delay.
  unfoldable pub act : DomainAction → EmailMessage → Option Error × List Effect
  act action msg = elim action.error [
    | some e ↦ (some (wrap ("send to " <> get_or msg.to 0 "") e), [])
    | none ↦ (none, logged "email sent (console)" ∷ [])
  ]

  -- `ConsoleSender.Send`.
  unfoldable pub send : EmailMessage → Option Error × List Effect
  send msg = elim (match_domain msg.to) [
    | some action ↦
        let (failed, effects) =
          if ltb 0 action.delay
          then after_delay action.delay (act action msg)
          else act action msg in
        (failed, logged action.label ∷ effects)
    | none ↦ after_delay send_delay (none, logged "email sent (console)" ∷ [])
  ]
