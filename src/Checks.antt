-- ===== src/Checks.antt =====
-- internal/domain/identity.go, validate.go and reset_guard.go.
use skills.Prelude.{ℕ, ◌+◌, String, ◌<>◌, ◌&&◌, Option, none, some, ltb, ◌==◌, if◌then◌else◌}
use skills.Domain.Types.{Status, not_sent, to_int}
use skills.Domain.Errors.{Error, sentinel, wrap, invalid_email, retries_remaining}
use skills.World.{World}
use skills.Environment.{Env}

-- `NewID`.
unfoldable pub new_id : Env → String → World → String × World
new_id env prefix w = (prefix <> ("_" <> env.uuid w.issued), record w { issued = w.issued + 1 })

-- `ValidateEmail`.
unfoldable pub validate_email : Env → String → Option Error
validate_email env email = elim (env.parse_address email) [
  | some _ ↦ some (wrap (env.quote email) (sentinel invalid_email))
  | none ↦ none
]

-- `CheckResetAllowed`.
unfoldable pub check_reset_allowed : Status → ℕ → ℕ → Option Error
unfolding to_int
check_reset_allowed s retry_count retry_limit =
    if to_int s == to_int not_sent && ltb retry_count retry_limit
    then some (sentinel retries_remaining)
    else none
