-- ===== src/NodePlugin/Configuration.antt =====
-- nodeplugin/v1/validate.go: configuration calls and the status.
pub mod Status
use relayward_sdk.Base.{
  ℕ, Bool, not, ◌&&◌, ◌||◌, [], Option, none, some, Bytes, beq, ltb, ◌==◌, length, all,
  if◌then◌else◌, errorf, nil, num, int, error, wrapf, Check, err, ◌>>◌, ◌>>=◌, pass, reject_if,
  or_else_error,
}
use relayward_sdk.Base.Int.{ℤ, pos, eqb_ℤ}
use relayward_sdk.Unicode.{is_trimmed, has_no_control, runes}
use relayward_sdk.Agent.Events.{max_int64}
use relayward_sdk.Agent.Plugins.{plugin_configuration_digest}

abbrev pub maximum_status_message_bytes : ℕ
maximum_status_message_bytes = 512

-- The generated enum is an int32.
abbrev pub Health : Type 0
Health = ℤ

abbrev pub health_starting : Health
health_starting = pos 1

abbrev pub health_healthy : Health
health_healthy = pos 2

abbrev pub health_unhealthy : Health
health_unhealthy = pos 3

pub record ConfigurationRequest : Type 0 where
  pub generation : ℕ
  pub sha256 : Bytes
  pub json : Bytes

pub record ConfigurationValidated : Type 0 where
  pub generation : ℕ
  pub sha256 : Bytes

pub record ConfigurationApplied : Type 0 where
  pub generation : ℕ
  pub sha256 : Bytes

pub record GetStatusResponse : Type 0 where
  pub generation : ℕ
  pub configuration_sha256 : Bytes
  pub health : Health
  pub message : Bytes

module _ (sha256 : Bytes → Bytes) where
  unfoldable pub validate_configuration_request : Option ConfigurationRequest → Check
  validate_configuration_request none = err (error "request: required")
  validate_configuration_request (some value) = do
    reject_if (value.generation == 0 || ltb max_int64 value.generation)
        (errorf "generation: must be between 1 and %d" (num max_int64 nil))
    digest ← or_else_error (plugin_configuration_digest sha256 value.json) (wrapf "json: %w")
    reject_if (not (beq value.sha256 digest)) (error "sha256: does not match the configuration")

  -- Both answers must repeat the generation and the digest of a valid request.
  check_echo : ConfigurationRequest → Option (ℕ × Bytes) → Check
  check_echo request none = err (error "response: required")
  check_echo request (some (generation, digest)) =
      reject_if (not (generation == request.generation) || not (beq digest request.sha256))
        (error "response: generation and SHA-256 must match the request")

  echoes : Option ConfigurationRequest → Option (ℕ × Bytes) → Check
  echoes none response = pass
  echoes (some request) response = check_echo request response

  unfoldable pub validate_configuration_validated :
      Option ConfigurationRequest → Option ConfigurationValidated → Check
  unfolding echoes check_echo
  validate_configuration_validated request response = do
    validate_configuration_request request
    echoes request (elim response [ none ↦ none | some r ↦ some (r.generation, r.sha256) ])

  unfoldable pub validate_configuration_applied :
      Option ConfigurationRequest → Option ConfigurationApplied → Check
  unfolding echoes check_echo
  validate_configuration_applied request response = do
    validate_configuration_request request
    echoes request (elim response [ none ↦ none | some r ↦ some (r.generation, r.sha256) ])

-- A lowercase hexadecimal digit.
is_digest_rune : ℕ → Bool
is_digest_rune c = not ((ltb c b'0' || ltb b'9' c) && (ltb c b'a' || ltb b'f' c))

check_status_digest : GetStatusResponse → Check
check_status_digest value = do
  reject_if (ltb max_int64 value.generation)
      (errorf "generation: must not exceed %d" (num max_int64 nil))
  reject_if (not (length value.configuration_sha256 == 64))
      (error "configuration_sha256: invalid SHA-256 digest")
  reject_if (not (all is_digest_rune (runes value.configuration_sha256)))
      (error "configuration_sha256: invalid SHA-256 digest")

check_generation : GetStatusResponse → Check
check_generation value =
    if value.generation == 0
    then reject_if (not (beq value.configuration_sha256 []))
        (error "configuration_sha256: must be absent before a configuration is applied")
    else check_status_digest value

unfoldable pub validate_status_response : Option GetStatusResponse → Check
unfolding check_generation check_status_digest is_digest_rune
validate_status_response none = err (error "response: required")
validate_status_response (some value) = do
  check_generation value
  reject_if
      (not (
        eqb_ℤ value.health health_starting
        || eqb_ℤ value.health health_healthy
        || eqb_ℤ value.health health_unhealthy))
      (errorf "health: unsupported value %q" (int value.health nil))
  reject_if (eqb_ℤ value.health health_healthy && value.generation == 0)
      (error "health: a plugin without applied configuration cannot be healthy")
  reject_if
      (ltb maximum_status_message_bytes (length value.message) || not (is_trimmed value.message))
      (errorf "message: must contain at most %d trimmed bytes"
        (num maximum_status_message_bytes nil))
  reject_if (not (has_no_control value.message))
      (error "message: must not contain control characters")
