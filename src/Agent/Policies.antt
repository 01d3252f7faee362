-- ===== src/Agent/Policies.antt =====
-- agent/v1/policies.go: policy reconciliation and policy status. The time zone database, SHA-256
-- and the JSON encodings are parameters.
pub mod Snapshot
use relayward_sdk.Base.{
  ℕ, ◌+◌, Bool, true, false, not, ◌||◌, List, [], ◌∷◌, ◌++◌, Option, none, some, Bytes, codes, beq,
  ltb, ◌==◌, length, errorf, nil, num, text, cause, error, wrapf, Check, Result, ok, err, ◌>>◌,
  ◌>>=◌, pass, reject_if, or_else_error,
}
use relayward_sdk.Regex.{match_string}
use relayward_sdk.Clock.{Time, is_zero, utc}
use relayward_sdk.Json.{Codec, decode_strict}
use relayward_sdk.Contract.{validate_plugin_id}
use relayward_sdk.Policy.{
  ResetRule, Period, LoadLocation, validate_identifier, validate_reset_rule, validate_period,
  current_period, same_period, bad_end,
}
use relayward_sdk.Agent.Validate.{component_id_pattern, not_above}
use relayward_sdk.Agent.Commands.{Command, validate_command}
use relayward_sdk.Agent.Events.{max_int64}

abbrev pub command_policy_reconcile : Bytes
command_policy_reconcile = codes "policy.reconcile"

abbrev pub policy_reason_active : Bytes
policy_reason_active = codes "active"

abbrev pub policy_reason_disabled : Bytes
policy_reason_disabled = codes "administrator_disabled"

abbrev pub policy_reason_expired : Bytes
policy_reason_expired = codes "expired"

abbrev pub policy_reason_quota_exceeded : Bytes
policy_reason_quota_exceeded = codes "quota_exceeded"

abbrev pub maximum_policies_per_snapshot : ℕ
maximum_policies_per_snapshot = 4096

abbrev pub maximum_bindings_per_policy : ℕ
maximum_bindings_per_policy = 256

pub record ServiceBinding : Type 0 where
  pub plugin_id : Bytes
  pub service_id : Bytes

pub record AuthorizationPolicy : Type 0 where
  pub authorization_id : Bytes
  pub started_at : Time
  pub enabled : Bool
  pub traffic_limit_bytes : Option ℕ
  pub reset : ResetRule
  pub current_period : Period
  pub expires_at : Option Time
  pub soft_ip_limit : Option ℕ
  pub activity_window_seconds : ℕ
  pub block_duration_seconds : ℕ
  pub bindings : List ServiceBinding

pub record PolicyReconcileCommand : Type 0 where
  pub generation : ℕ
  pub authorizations : List AuthorizationPolicy

-- `binding.PluginID + "\x00" + binding.ServiceID`
unfoldable pub binding_key : ServiceBinding → Bytes
binding_key binding = binding.plugin_id ++ 0 ∷ binding.service_id

-- The loop over the bindings.
unfoldable pub check_bindings : ℕ → Option Bytes → List ServiceBinding → Check
check_bindings index previous [] = pass
check_bindings index previous (binding ∷ rest) = do
  or_else_error (validate_plugin_id binding.plugin_id)
      (λ e. errorf "bindings[%d].plugin_id: %w" (num index (cause e nil)))
  reject_if (not (match_string component_id_pattern binding.service_id))
      (errorf "bindings[%d].service_id: invalid service ID" (num index nil))
  reject_if (not_above previous (binding_key binding))
      (error "bindings: values must be sorted by plugin_id and service_id and unique")
  check_bindings (index + 1) (some (binding_key binding)) rest

-- `value != nil && *value > maximum`, and the like for a range.
abbrev pub exceeds : ℕ → Option ℕ → Bool
exceeds maximum none = false
exceeds maximum (some n) = ltb maximum n

abbrev pub not_within : ℕ → ℕ → Option ℕ → Bool
not_within lo hi none = false
not_within lo hi (some n) = ltb n lo || ltb hi n

-- `err != nil || !SamePeriod(computed, value.CurrentPeriod)`
differs : Result Period → Period → Bool
differs (err e) period = true
differs (ok computed) period = not (same_period computed period)

module _ (load_location : LoadLocation) (sha256 : Bytes → Bytes) where
  unfoldable pub validate_authorization_policy : AuthorizationPolicy → Check
  unfolding differs
  validate_authorization_policy value = do
    validate_identifier (codes "authorization_id") value.authorization_id
    reject_if (is_zero value.started_at) (error "started_at: required")
    reject_if (exceeds max_int64 value.traffic_limit_bytes)
        (errorf "traffic_limit_bytes: must not exceed %d" (num max_int64 nil))
    or_else_error (validate_reset_rule load_location value.reset) (wrapf "reset: %w")
    or_else_error (validate_period sha256 value.current_period) (wrapf "current_period: %w")
    reject_if
        (differs
          (current_period load_location sha256 value.reset value.started_at
            value.current_period.starts_at)
          value.current_period)
        (error "current_period: does not match reset rule")
    reject_if (bad_end value.started_at value.expires_at)
        (error "expires_at: must be after started_at")
    reject_if (not_within 1 1024 value.soft_ip_limit)
        (error "soft_ip_limit: must be between 1 and 1024")
    reject_if (ltb value.activity_window_seconds 60 || ltb 86400 value.activity_window_seconds)
        (error "activity_window_seconds: must be between 60 and 86400")
    reject_if (ltb value.block_duration_seconds 60 || ltb 604800 value.block_duration_seconds)
        (error "block_duration_seconds: must be between 60 and 604800")
    reject_if (ltb maximum_bindings_per_policy (length value.bindings))
        (errorf "bindings: must contain at most %d values" (num maximum_bindings_per_policy nil))
    check_bindings 0 none value.bindings

  -- The loop over the authorizations.
  unfoldable pub check_authorizations : ℕ → Option Bytes → List AuthorizationPolicy → Check
  check_authorizations index previous [] = pass
  check_authorizations index previous (authorization ∷ rest) = do
    or_else_error (validate_authorization_policy authorization)
        (λ e. errorf "authorizations[%d]: %w" (num index (cause e nil)))
    reject_if (not_above previous authorization.authorization_id)
        (error "authorizations: values must be sorted by authorization_id and unique")
    check_authorizations (index + 1) (some authorization.authorization_id) rest

  unfoldable pub validate_policy_reconcile_command : PolicyReconcileCommand → Check
  validate_policy_reconcile_command value = do
    reject_if (value.generation == 0 || ltb max_int64 value.generation)
        (errorf "generation: must be between 1 and %d" (num max_int64 nil))
    reject_if (ltb maximum_policies_per_snapshot (length value.authorizations)) (
        errorf "authorizations: must contain at most %d values"
          (num maximum_policies_per_snapshot nil))
    check_authorizations 0 none value.authorizations

  unfoldable pub new_policy_reconcile_command :
      Codec PolicyReconcileCommand → PolicyReconcileCommand → Time → Time → Result Command
  new_policy_reconcile_command codec value issued_at expires_at = do
    validate_policy_reconcile_command value
    payload ← or_else_error (codec.marshal value) (wrapf "encode policy reconcile command: %w")
    let command : Command = record {
      kind = command_policy_reconcile;
      issued_at = utc issued_at;
      expires_at = utc expires_at;
      payload = payload;
    }
    validate_command command
    ok command

  unfoldable pub decode_policy_reconcile_command :
      Codec PolicyReconcileCommand → Command → Result PolicyReconcileCommand
  decode_policy_reconcile_command codec value = do
    validate_command value
    reject_if (not (beq value.kind command_policy_reconcile))
        (errorf "kind: must be %q" (text command_policy_reconcile nil))
    payload ←
        or_else_error (decode_strict codec value.payload)
          (wrapf "decode policy reconcile command: %w")
    validate_policy_reconcile_command payload
    ok payload
