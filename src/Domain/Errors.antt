-- ===== src/Domain/Errors.antt =====
-- internal/domain/errors.go, and Go's error chains: sentinels, plain texts and `%w` wrapping.
use skills.Prelude.{String, ◌<>◌, Bool, true, false}

-- `errors.New` values that the code compares with `errors.Is`; the last is declared in
-- internal/infra/email/sender.go.
pub data Sentinel : Type 0 where
  not_found already_notified invalid_email retries_remaining example_domain : Sentinel

pub data Error : Type 0 where
  sentinel : Sentinel → Error
  plain : String → Error
  wrap : String → Error → Error

-- A Go result `(A, error)` of which one half is meant.
pub data Result {ℓ} (A : Type ℓ) : Type ℓ where
  ok : A → Result A
  err : Error → Result A

unfoldable pub sentinel_text : Sentinel → String
sentinel_text not_found = "not found"
sentinel_text already_notified = "already notified"
sentinel_text invalid_email = "invalid email address"
sentinel_text retries_remaining = "notification has retries remaining"
sentinel_text example_domain = "example.com: permanent delivery failure (simulated)"

-- `err.Error()`; `fmt.Errorf("%s: %w", s, e)` is `wrap s e`.
unfoldable pub error_text : Error → String
unfolding sentinel_text
error_text (sentinel s) = sentinel_text s
error_text (plain s) = s
error_text (wrap s e) = s <> (": " <> error_text e)

abbrev pub same_sentinel : Sentinel → Sentinel → Bool
same_sentinel not_found not_found = true
same_sentinel already_notified already_notified = true
same_sentinel invalid_email invalid_email = true
same_sentinel retries_remaining retries_remaining = true
same_sentinel example_domain example_domain = true
same_sentinel _ _ = false

-- `errors.Is`: the chain of wrapped errors is walked.
unfoldable pub is : Error → Sentinel → Bool
is (sentinel s) target = same_sentinel s target
is (plain _) target = false
is (wrap _ e) target = is e target
