-- ===== src/NodePlugin/Services.antt =====
-- nodeplugin/v1/validate.go: service states and dynamic blocks.
pub mod Distinct
use relayward_sdk.Base.{
  ℕ, ◌+◌, ◌%◌, ◌^◌, Bool, true, false, not, ◌||◌, List, [], ◌∷◌, ◌++◌, Option, none, some, Bytes,
  codes, beq, ltb, ◌==◌, length, errorf, nil, num, cause, error, Check, err, ◌>>◌, pass, reject_if,
  or_else_error,
}
use relayward_sdk.Base.Int.{ℤ, pos, ltb_ℤ, eqb_ℤ}
use relayward_sdk.Regex.{match_string}
use relayward_sdk.Policy.{validate_identifier}
use relayward_sdk.Agent.Validate.{component_id_pattern, not_above}
use relayward_sdk.Agent.Events.{max_int64}
use relayward_sdk.Agent.Telemetry.{ParseIp, is_canonical_ip}

abbrev pub maximum_dynamic_blocks : ℕ
maximum_dynamic_blocks = 16384

-- The generated enum is an int32.
abbrev pub ServiceStateReason : Type 0
ServiceStateReason = ℤ

abbrev pub reason_active : ServiceStateReason
reason_active = pos 1

abbrev pub reason_administrator_disabled : ServiceStateReason
reason_administrator_disabled = pos 2

abbrev pub reason_expired : ServiceStateReason
reason_expired = pos 3

abbrev pub reason_quota_exceeded : ServiceStateReason
reason_quota_exceeded = pos 4

-- The answer to a request has the same fields, so one type serves for both messages.
pub record ServiceState : Type 0 where
  pub policy_generation : ℕ
  pub state_revision : ℕ
  pub authorization_id : Bytes
  pub service_id : Bytes
  pub enabled : Bool
  pub reason : ServiceStateReason

pub record DynamicBlock : Type 0 where
  pub authorization_id : Bytes
  pub service_id : Bytes
  pub source_ip : Bytes
  pub expires_at_unix_nano : ℤ

pub record ReplaceDynamicBlocksRequest : Type 0 where
  pub policy_generation : ℕ
  pub block_revision : ℕ
  pub blocks : List (Option DynamicBlock)

pub record ReplaceDynamicBlocksResponse : Type 0 where
  pub policy_generation : ℕ
  pub block_revision : ℕ
  pub block_count : ℕ

unfoldable pub validate_service_state : Bool → ServiceStateReason → Check
validate_service_state true reason =
    reject_if (not (eqb_ℤ reason reason_active)) (error "reason: enabled services must use active")
validate_service_state false reason =
    reject_if
      (not (
        eqb_ℤ reason reason_administrator_disabled
        || eqb_ℤ reason reason_expired
        || eqb_ℤ reason reason_quota_exceeded))
      (error "reason: disabled services require an enforcement reason")

-- A number from 1 to the largest int64.
abbrev pub bad_revision : ℕ → Bool
bad_revision n = n == 0 || ltb max_int64 n

unfoldable pub validate_set_service_state_request : Option ServiceState → Check
validate_set_service_state_request none = err (error "request: required")
validate_set_service_state_request (some value) = do
  reject_if (bad_revision value.policy_generation)
      (errorf "policy_generation: must be between 1 and %d" (num max_int64 nil))
  reject_if (bad_revision value.state_revision)
      (errorf "state_revision: must be between 1 and %d" (num max_int64 nil))
  validate_identifier (codes "authorization_id") value.authorization_id
  reject_if (not (match_string component_id_pattern value.service_id))
      (error "service_id: invalid service ID")
  validate_service_state value.enabled value.reason

abbrev pub same_bool : Bool → Bool → Bool
same_bool true b = b
same_bool false b = not b

check_state_echo : Option ServiceState → Option ServiceState → Check
check_state_echo none response = pass
check_state_echo (some request) none = err (error "response: required")
check_state_echo (some request) (some value) =
    reject_if
      (not (value.policy_generation == request.policy_generation)
        || not (value.state_revision == request.state_revision)
        || not (beq value.authorization_id request.authorization_id)
        || not (beq value.service_id request.service_id)
        || not (same_bool value.enabled request.enabled)
        || not (eqb_ℤ value.reason request.reason))
      (error "response: must echo the applied service state")

unfoldable pub validate_set_service_state_response :
    Option ServiceState → Option ServiceState → Check
unfolding check_state_echo
validate_set_service_state_response request response = do
  validate_set_service_state_request request
  check_state_echo request response

-- The three parts of the key, with a zero byte between them.
unfoldable pub block_key : DynamicBlock → Bytes
block_key block = block.authorization_id ++ 0 ∷ block.service_id ++ 0 ∷ block.source_ip

unfoldable pub check_blocks : ParseIp → ℕ → Option Bytes → List (Option DynamicBlock) → Check
check_blocks parse_ip index previous [] = pass
check_blocks parse_ip index previous (none ∷ rest) =
    err (errorf "blocks[%d]: required" (num index nil))
check_blocks parse_ip index previous (some block ∷ rest) = do
  or_else_error (validate_identifier (codes "authorization_id") block.authorization_id)
      (λ e. errorf "blocks[%d]: %w" (num index (cause e nil)))
  reject_if (not (match_string component_id_pattern block.service_id))
      (errorf "blocks[%d].service_id: invalid service ID" (num index nil))
  reject_if (not (is_canonical_ip parse_ip block.source_ip))
      (errorf "blocks[%d].source_ip: must be a canonical IP address" (num index nil))
  reject_if (not (ltb_ℤ (pos 0) block.expires_at_unix_nano))
      (errorf "blocks[%d].expires_at_unix_nano: must be greater than zero" (num index nil))
  reject_if (not_above previous (block_key block))
      (error "blocks: values must be sorted and unique")
  check_blocks parse_ip (index + 1) (some (block_key block)) rest

unfoldable pub validate_replace_dynamic_blocks_request :
    ParseIp → Option ReplaceDynamicBlocksRequest → Check
validate_replace_dynamic_blocks_request parse_ip none = err (error "request: required")
validate_replace_dynamic_blocks_request parse_ip (some value) = do
  reject_if (bad_revision value.policy_generation)
      (errorf "policy_generation: must be between 1 and %d" (num max_int64 nil))
  reject_if (bad_revision value.block_revision)
      (errorf "block_revision: must be between 1 and %d" (num max_int64 nil))
  reject_if (ltb maximum_dynamic_blocks (length value.blocks))
      (errorf "blocks: must contain at most %d values" (num maximum_dynamic_blocks nil))
  check_blocks parse_ip 0 none value.blocks

check_blocks_echo : Option ReplaceDynamicBlocksRequest → Option ReplaceDynamicBlocksResponse → Check
check_blocks_echo none response = pass
check_blocks_echo (some request) none = err (error "response: required")
check_blocks_echo (some request) (some value) =
    reject_if
      (not (value.policy_generation == request.policy_generation)
        || not (value.block_revision == request.block_revision)
        || not (value.block_count == length request.blocks % 2 ^ 32))
      (error "response: must echo the applied block set")

unfoldable pub validate_replace_dynamic_blocks_response :
    ParseIp → Option ReplaceDynamicBlocksRequest → Option ReplaceDynamicBlocksResponse → Check
unfolding check_blocks_echo
validate_replace_dynamic_blocks_response parse_ip request response = do
  validate_replace_dynamic_blocks_request parse_ip request
  check_blocks_echo request response
