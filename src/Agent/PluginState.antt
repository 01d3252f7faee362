-- ===== src/Agent/PluginState.antt =====
-- agent/v1/plugins.go: the observed state of a plugin, in the output of a reconciliation and in
-- the plugin's status events.
use relayward_sdk.Base.{
  ℕ, Bool, true, false, not, ◌||◌, List, [], Bytes, beq, ltb, ◌==◌, length, if◌then◌else◌, errorf,
  nil, num, text, error, wrapf, Check, Result, ok, err, ◌>>◌, ◌>>=◌, pass, reject_if, or_else_error,
}
use relayward_sdk.Regex.{match_string}
use relayward_sdk.Unicode.{is_trimmed, has_no_control}
use relayward_sdk.Json.{Codec, decode_strict}
use relayward_sdk.Contract.{validate_semantic_version}
use relayward_sdk.Agent.Validate.{validate_capabilities}
use relayward_sdk.Agent.Commands.{digest_pattern}
use relayward_sdk.Agent.Plugins.{
  plugin_state_running, plugin_state_stopped, plugin_state_absent, plugin_state_failed,
  plugin_health_healthy, plugin_health_unhealthy, plugin_health_unknown,
  maximum_plugin_status_reason_bytes, validate_plugin_identity,
}

pub record PluginReconcileOutput : Type 0 where
  pub plugin_id : Bytes
  pub generation : ℕ
  pub state : Bytes
  pub version : Bytes
  pub configuration_sha256 : Bytes

pub record PluginStatusEvent : Type 0 where
  pub plugin_id : Bytes
  pub generation : ℕ
  pub state : Bytes
  pub version : Bytes
  pub configuration_sha256 : Bytes
  pub health : Bytes
  pub reason : Bytes
  pub restart_count : ℕ
  pub capabilities : List Bytes

unfoldable pub validate_observed_plugin_state : Bytes → Bytes → Bytes → Check
validate_observed_plugin_state state version configuration_sha256 =
    if beq state plugin_state_absent
    then reject_if (not (beq version []) || not (beq configuration_sha256 []))
        (error "state: absent plugins must not include version or configuration_sha256")
    else (do
      reject_if (not (beq state plugin_state_running || beq state plugin_state_stopped))
          (errorf "state: unsupported value %q" (text state nil))
      or_else_error (validate_semantic_version version) (wrapf "version: %w")
      reject_if (not (match_string digest_pattern configuration_sha256))
          (error "configuration_sha256: invalid SHA-256 digest"))

unfoldable pub validate_plugin_reconcile_output : PluginReconcileOutput → Check
validate_plugin_reconcile_output value = do
  validate_plugin_identity value.plugin_id value.generation
  validate_observed_plugin_state value.state value.version value.configuration_sha256

unfoldable pub encode_plugin_reconcile_output :
    Codec PluginReconcileOutput → PluginReconcileOutput → Result Bytes
encode_plugin_reconcile_output codec value = do
  validate_plugin_reconcile_output value
  or_else_error (codec.marshal value) (wrapf "encode plugin reconcile output: %w")

unfoldable pub decode_plugin_reconcile_output :
    Codec PluginReconcileOutput → Bytes → Result PluginReconcileOutput
decode_plugin_reconcile_output codec raw = do
  value ← or_else_error (decode_strict codec raw) (wrapf "decode plugin reconcile output: %w")
  validate_plugin_reconcile_output value
  ok value

unfoldable pub validate_status_reason : Bytes → Check
validate_status_reason value = do
  reject_if (ltb maximum_plugin_status_reason_bytes (length value) || not (is_trimmed value)) (
      errorf "reason: must contain at most %d trimmed bytes"
        (num maximum_plugin_status_reason_bytes nil))
  reject_if (not (has_no_control value)) (error "reason: must not contain control characters")

-- `(value.Version == "") != (value.ConfigurationSHA256 == "")`
abbrev pub differ : Bool → Bool → Bool
differ true b = not b
differ false b = b

check_reported_version : PluginStatusEvent → Check
check_reported_version value = do
  or_else_error (validate_semantic_version value.version) (wrapf "version: %w")
  reject_if (not (match_string digest_pattern value.configuration_sha256))
      (error "configuration_sha256: invalid SHA-256 digest")

check_failed_plugin : PluginStatusEvent → Check
unfolding check_reported_version
check_failed_plugin value = do
  reject_if (not (beq value.health plugin_health_unhealthy))
      (error "health: failed plugins must be unhealthy")
  reject_if (beq value.reason []) (error "reason: required for failed plugins")
  reject_if (not (length value.capabilities == 0))
      (error "capabilities: failed plugins must not report capabilities")
  reject_if (differ (beq value.version []) (beq value.configuration_sha256 []))
      (error "version and configuration_sha256 must either both be present or both be absent")
  if beq value.version [] then pass else check_reported_version value

check_running_plugin : PluginStatusEvent → Check
check_running_plugin value = do
  reject_if (not (beq value.health plugin_health_healthy))
      (error "health: running plugins must be healthy")
  validate_observed_plugin_state value.state value.version value.configuration_sha256

check_idle_plugin : PluginStatusEvent → Check
check_idle_plugin value = do
  reject_if (not (beq value.health plugin_health_unknown))
      (error "health: stopped or absent plugins must use unknown")
  reject_if (not (length value.capabilities == 0))
      (error "capabilities: stopped or absent plugins must not report capabilities")
  validate_observed_plugin_state value.state value.version value.configuration_sha256

-- The `switch` on the state.
unfoldable pub check_plugin_state : PluginStatusEvent → Check
unfolding check_failed_plugin check_running_plugin check_idle_plugin
check_plugin_state value =
    if beq value.state plugin_state_running
    then check_running_plugin value
    else if beq value.state plugin_state_stopped || beq value.state plugin_state_absent
    then check_idle_plugin value
    else if beq value.state plugin_state_failed
    then check_failed_plugin value
    else err (errorf "state: unsupported value %q" (text value.state nil))

unfoldable pub validate_plugin_status_event : PluginStatusEvent → Check
validate_plugin_status_event value = do
  validate_plugin_identity value.plugin_id value.generation
  validate_status_reason value.reason
  validate_capabilities value.capabilities
  check_plugin_state value

unfoldable pub decode_plugin_status_event :
    Codec PluginStatusEvent → Bytes → Result PluginStatusEvent
decode_plugin_status_event codec raw = do
  value ← or_else_error (decode_strict codec raw) (wrapf "decode plugin status event: %w")
  validate_plugin_status_event value
  ok value
