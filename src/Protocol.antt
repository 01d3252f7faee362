-- ===== src/Protocol.antt =====
-- protocol/envelope.go and protocol/problem.go: the message envelope and the error vocabulary.
-- The random source, the clock and the encoded payload are arguments of what uses them.
mod Tests
pub mod Distinct
pub mod Create
use relayward_sdk.Base.{
  ℕ, ◌+◌, Bool, false, not, ◌&&◌, ◌||◌, List, [], ◌∷◌, Bytes, codes, beq, ltb, ◌==◌, length,
  if◌then◌else◌, Result, ok, errorf, nil, num, text, error, wrapf, Check, ◌>>◌, ◌>>=◌, pass,
  reject_if, or_else_error,
}
use relayward_sdk.Regex.{Regex, Class, class, byte, seq, star, plus, times, up_to, match_string}
use relayward_sdk.Clock.{Time, is_zero, utc}
use relayward_sdk.Json
use relayward_sdk.Encoding.{hex_encode}
use relayward_sdk.Contract.{control_api_version, is_message_api_version, lower_alnum}

pub record Envelope : Type 0 where
  pub api_version : Bytes
  pub id : Bytes
  pub type_name : Bytes
  pub sent_at : Time
  pub correlation_id : Bytes
  pub idempotency_key : Bytes
  pub payload : Bytes

abbrev pub lower_hex : Regex
lower_hex = class ((b'0', b'9') ∷ (b'a', b'f') ∷ [])

abbrev pub lower : Regex
lower = class ((b'a', b'z') ∷ [])

-- ^[0-9a-f]{32}$
abbrev pub id_pattern : Regex
id_pattern = times 32 lower_hex

-- [a-z0-9_-]
abbrev pub name_byte : Regex
name_byte = class ((b'a', b'z') ∷ (b'0', b'9') ∷ (b'_', b'_') ∷ (b'-', b'-') ∷ [])

-- ^[a-z][a-z0-9]*(?:\.[a-z][a-z0-9_-]*)+$
abbrev pub type_pattern : Regex
type_pattern =
    seq lower (seq (star lower_alnum) (plus (seq (byte b'.') (seq lower (star name_byte)))))

abbrev pub alnum_class : Class
alnum_class = (b'A', b'Z') ∷ (b'a', b'z') ∷ (b'0', b'9') ∷ []

-- ^[A-Za-z0-9][A-Za-z0-9._:-]{0,127}$
abbrev pub idempotency_key_pattern : Regex
idempotency_key_pattern = seq (class alnum_class) (
    up_to 127 (
      class (
        (b'A', b'Z')
        ∷ (b'a', b'z')
        ∷ (b'0', b'9')
        ∷ (b'.', b'.')
        ∷ (b'_', b'_')
        ∷ (b':', b':')
        ∷ (b'-', b'-')
        ∷ [])))

unfoldable pub validate_idempotency_key : Bytes → Check
validate_idempotency_key value =
    reject_if (not (match_string idempotency_key_pattern value))
      (error "idempotency_key: invalid key")

unfoldable pub validate_envelope_fields : Envelope → Check
validate_envelope_fields value = do
  reject_if (not (match_string id_pattern value.id))
      (error "id: must contain 32 lowercase hexadecimal characters")
  reject_if (not (match_string type_pattern value.type_name) || ltb 128 (length value.type_name))
      (error "type: invalid message type")
  reject_if (is_zero value.sent_at) (error "sent_at: must be set")
  reject_if
      (not (beq value.correlation_id []) && not (match_string id_pattern value.correlation_id))
      (error "correlation_id: invalid message id")
  if beq value.idempotency_key [] then pass else validate_idempotency_key value.idempotency_key
  reject_if (length value.payload == 0 || not (Json.valid value.payload))
      (error "payload: must be valid JSON")

unfoldable pub validate_envelope : Envelope → Check
validate_envelope value = do
  reject_if (not (is_message_api_version value.api_version))
      (errorf "api_version: unsupported value %q" (text value.api_version nil))
  validate_envelope_fields value

unfoldable pub validate_envelope_version : Envelope → Bytes → Check
validate_envelope_version value api_version = do
  reject_if (not (is_message_api_version api_version) || not (beq value.api_version api_version))
      (errorf "api_version: unsupported value %q" (text value.api_version nil))
  validate_envelope_fields value

-- `rand.Read` on a buffer of the given length.
abbrev pub RandomSource : Type 0
RandomSource = ℕ → Result Bytes

-- `NewID`, whose buffer has sixteen bytes.
unfoldable pub new_id : RandomSource → Result Bytes
new_id random = do
  value ← or_else_error (random 16) (wrapf "generate message id: %w")
  ok (hex_encode value)

-- `encoded` is the result of `json.Marshal(payload)`, and `now` that of `time.Now()`.
unfoldable pub new_envelope_for :
    RandomSource → Time → Bytes → Bytes → Result Bytes → Result Envelope
unfolding new_id
new_envelope_for random now api_version message_type encoded = do
  id ← new_id random
  payload ← or_else_error encoded (wrapf "encode payload: %w")
  let value : Envelope = record {
    api_version = api_version;
    id = id;
    type_name = message_type;
    sent_at = utc now;
    correlation_id = [];
    idempotency_key = [];
    payload = payload;
  }
  validate_envelope value
  ok value

unfoldable pub new_envelope : RandomSource → Time → Bytes → Result Bytes → Result Envelope
new_envelope random now message_type encoded =
    new_envelope_for random now control_api_version message_type encoded

abbrev pub error_codes : List Bytes
error_codes =
    codes "invalid_argument"
    ∷ codes "unauthenticated"
    ∷ codes "permission_denied"
    ∷ codes "not_found"
    ∷ codes "conflict"
    ∷ codes "unsupported"
    ∷ codes "unavailable"
    ∷ codes "internal"
    ∷ []

-- `switch value { case …: }` over a list of constants.
unfoldable pub is_one_of : List Bytes → Bytes → Bool
is_one_of [] value = false
is_one_of (c ∷ cs) value = beq value c || is_one_of cs value

unfoldable pub valid_error_code : Bytes → Bool
unfolding is_one_of
valid_error_code code = is_one_of error_codes code

pub record FieldViolation : Type 0 where
  pub field : Bytes
  pub description : Bytes

pub record Problem : Type 0 where
  pub code : Bytes
  pub message : Bytes
  pub retryable : Bool
  pub violations : List FieldViolation

unfoldable pub check_violations : ℕ → List FieldViolation → Check
check_violations index [] = pass
check_violations index (violation ∷ rest) = do
  reject_if (beq violation.field [] || beq violation.description [])
      (errorf "violations[%d]: field and description are required" (num index nil))
  check_violations (index + 1) rest

-- `Problem.Validate`
unfoldable pub validate_problem : Problem → Check
unfolding check_violations
validate_problem problem = do
  reject_if (not (valid_error_code problem.code))
      (errorf "code: unsupported value %q" (text problem.code nil))
  reject_if (beq problem.message [] || ltb 500 (length problem.message))
      (error "message: must contain 1 to 500 characters")
  check_violations 0 problem.violations
