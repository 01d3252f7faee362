-- ===== src/CenterPlugin/Configuration.antt =====
-- centerplugin/v1/validate.go: the configuration of a node's plugin, read and replaced by the center
-- plugin.
pub mod Generations
use relayward_sdk.Base.{
  ℕ, ◌+◌, ◌%◌, ◌^◌, not, ◌||◌, [], Option, none, some, Bytes, beq, ltb, leb, ◌==◌, errorf, nil, num,
  error, wrapf, Check, Result, err, ◌>>◌, ◌>>=◌, pass, reject_if, or_else_error,
}
use relayward_sdk.Regex.{match_string}
use relayward_sdk.Contract.{validate_semantic_version}
use relayward_sdk.Agent.Events.{max_int64}
use relayward_sdk.Agent.Plugins
use relayward_sdk.Agent.Plugins.{validate_plugin_configuration}
use relayward_sdk.CenterPlugin.Text.{uuid_pattern, validate_json_object}

pub record GetNodePluginConfigurationRequest : Type 0 where
  pub node_id : Bytes

pub record NodePluginConfiguration : Type 0 where
  pub generation : ℕ
  pub version : Bytes
  pub sha256 : Bytes
  pub json : Bytes

pub record ConfigureNodePluginRequest : Type 0 where
  pub node_id : Bytes
  pub expected_generation : ℕ
  pub json : Bytes

pub record NodePluginConfigured : Type 0 where
  pub generation : ℕ
  pub sha256 : Bytes

unfoldable pub validate_get_node_plugin_configuration_request :
    Option GetNodePluginConfigurationRequest → Check
validate_get_node_plugin_configuration_request none = err (error "request: required")
validate_get_node_plugin_configuration_request (some value) =
    reject_if (not (match_string uuid_pattern value.node_id)) (error "node_id: invalid node ID")

module _ (sha256 : Bytes → Bytes) where
  unfoldable pub plugin_configuration_digest : Bytes → Result Bytes
  plugin_configuration_digest raw = do
    validate_plugin_configuration raw
    validate_json_object raw
    Plugins.plugin_configuration_digest sha256 raw

  check_configuration : Option NodePluginConfiguration → Check
  check_configuration none = err (error "response: required")
  check_configuration (some value) = do
    reject_if (value.generation == 0 || ltb max_int64 value.generation)
        (errorf "generation: must be between 1 and %d" (num max_int64 nil))
    or_else_error (validate_semantic_version value.version) (wrapf "version: %w")
    digest ← or_else_error (plugin_configuration_digest value.json) (wrapf "json: %w")
    reject_if (not (beq value.sha256 digest)) (error "sha256: does not match the configuration")

  unfoldable pub validate_node_plugin_configuration :
      Option GetNodePluginConfigurationRequest → Option NodePluginConfiguration → Check
  unfolding check_configuration
  validate_node_plugin_configuration request value = do
    validate_get_node_plugin_configuration_request request
    check_configuration value

  unfoldable pub validate_configure_node_plugin_request : Option ConfigureNodePluginRequest → Check
  validate_configure_node_plugin_request none = err (error "request: required")
  validate_configure_node_plugin_request (some value) = do
    reject_if (not (match_string uuid_pattern value.node_id)) (error "node_id: invalid node ID")
    reject_if (leb max_int64 value.expected_generation)
        (errorf "expected_generation: must be less than %d" (num max_int64 nil))
    _ ← or_else_error (plugin_configuration_digest value.json) (wrapf "json: %w")
    pass

  -- `request.ExpectedGeneration + 1` in 64 bits.
  check_configured : Option ConfigureNodePluginRequest → Option NodePluginConfigured → Check
  check_configured none value = pass
  check_configured (some request) none = err (error "response: required")
  check_configured (some request) (some value) = do
    reject_if (not (value.generation == (request.expected_generation + 1) % 2 ^ 64))
        (error "generation: must advance the expected generation by one")
    digest ← or_else_error (plugin_configuration_digest request.json) (wrapf "json: %w")
    reject_if (not (beq value.sha256 digest)) (error "sha256: does not match the configuration")

  unfoldable pub validate_node_plugin_configured :
      Option ConfigureNodePluginRequest → Option NodePluginConfigured → Check
  unfolding check_configured
  validate_node_plugin_configured request value = do
    validate_configure_node_plugin_request request
    check_configured request value
