-- ===== src/Agent/Commands.antt =====
-- agent/v1/commands.go: commands, their results and acknowledgements, without the envelopes.
-- SHA-256 is a parameter, and so is the JSON encoding of a command.
use relayward_sdk.Base.{
  ℕ, ◌*◌, ◌^◌, not, ◌&&◌, ◌||◌, Option, none, some, Bytes, codes, beq, ltb, ◌==◌, length,
  if◌then◌else◌, errorf, nil, num, text, error, wrapf, Check, Result, ok, err, ◌>>◌, ◌>>=◌, pass,
  reject_if, or_else_error,
}
use relayward_sdk.Base.Int.{pos, ltb_ℤ}
use relayward_sdk.Regex.{Regex, times, match_string}
use relayward_sdk.Clock.{Time, is_zero, after, sub, hour}
use relayward_sdk.Json
use relayward_sdk.Json.{Codec}
use relayward_sdk.Encoding.{hex_encode}
use relayward_sdk.Protocol.{Problem, validate_problem, validate_idempotency_key, lower_hex}
use relayward_sdk.Agent.Validate.{kind_pattern}

abbrev pub status_succeeded : Bytes
status_succeeded = codes "succeeded"

abbrev pub status_failed : Bytes
status_failed = codes "failed"

abbrev pub maximum_command_payload_bytes : ℕ
maximum_command_payload_bytes = 512 * 2 ^ 10

abbrev pub maximum_command_output_bytes : ℕ
maximum_command_output_bytes = 256 * 2 ^ 10

abbrev pub maximum_command_lifetime : ℕ
maximum_command_lifetime = 24 * hour

-- ^[0-9a-f]{64}$
abbrev pub digest_pattern : Regex
digest_pattern = times 64 lower_hex

pub record Command : Type 0 where
  pub kind : Bytes
  pub issued_at : Time
  pub expires_at : Time
  pub payload : Bytes

pub record CommandResult : Type 0 where
  pub command_id : Bytes
  pub request_sha256 : Bytes
  pub status : Bytes
  pub completed_at : Time
  pub problem : Option Problem
  pub output : Bytes

pub record CommandResultAck : Type 0 where
  pub command_id : Bytes
  pub request_sha256 : Bytes
  pub server_time : Time

unfoldable pub validate_command : Command → Check
validate_command value = do
  reject_if (not (match_string kind_pattern value.kind) || ltb 128 (length value.kind))
      (error "kind: invalid command kind")
  reject_if (is_zero value.issued_at) (error "issued_at: must be set")
  reject_if (is_zero value.expires_at || not (after value.expires_at value.issued_at))
      (error "expires_at: must be after issued_at")
  reject_if (ltb_ℤ (pos maximum_command_lifetime) (sub value.expires_at value.issued_at))
      (errorf "expires_at: command lifetime exceeds %s" (num maximum_command_lifetime nil))
  reject_if
      (length value.payload == 0
        || ltb maximum_command_payload_bytes (length value.payload)
        || not (Json.valid value.payload))
      (errorf "payload: must contain at most %d bytes of valid JSON"
        (num maximum_command_payload_bytes nil))

-- `CommandDigest`
unfoldable pub command_digest : (Bytes → Bytes) → Codec Command → Command → Result Bytes
command_digest sha256 codec value = do
  validate_command value
  raw ← or_else_error (codec.marshal value) (wrapf "encode command digest input: %w")
  ok (hex_encode (sha256 raw))

check_failed : Option Problem → Check
check_failed none = err (error "problem: required for a failed command")
check_failed (some problem) = or_else_error (validate_problem problem) (wrapf "problem: %w")

check_succeeded : Option Problem → Check
check_succeeded none = pass
check_succeeded (some problem) = err (error "problem: must be absent for a successful command")

-- The `switch` on the status.
unfoldable pub check_status : CommandResult → Check
unfolding check_failed check_succeeded
check_status value =
    if beq value.status status_succeeded
    then check_succeeded value.problem
    else if beq value.status status_failed
    then check_failed value.problem
    else err (errorf "status: unsupported value %q" (text value.status nil))

unfoldable pub validate_command_result : CommandResult → Check
validate_command_result value = do
  or_else_error (validate_idempotency_key value.command_id)
      (λ _. error "command_id: invalid command ID")
  reject_if (not (match_string digest_pattern value.request_sha256))
      (error "request_sha256: invalid SHA-256 digest")
  reject_if (is_zero value.completed_at) (error "completed_at: must be set")
  check_status value
  reject_if
      (ltb maximum_command_output_bytes (length value.output)
        || (ltb 0 (length value.output) && not (Json.valid value.output)))
      (errorf "output: must contain at most %d bytes of valid JSON"
        (num maximum_command_output_bytes nil))

unfoldable pub validate_command_result_ack : CommandResultAck → Check
validate_command_result_ack value = do
  or_else_error (validate_idempotency_key value.command_id)
      (λ _. error "command_id: invalid command ID")
  reject_if (not (match_string digest_pattern value.request_sha256))
      (error "request_sha256: invalid SHA-256 digest")
  reject_if (is_zero value.server_time) (error "server_time: must be set")
