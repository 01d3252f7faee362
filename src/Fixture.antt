-- ===== src/Fixture.antt =====
-- pluginfixture/plugin.go: the node plugin of the contract tests. The lock around its state makes a
-- call one step; the clock that telemetry reads is an argument, and so is SHA-256.
use relayward_sdk.Base.{
  ℕ, ◌+◌, ◌%◌, ◌^◌, Bool, true, false, ◌&&◌, ◌||◌, List, [], ◌∷◌, Option, none, some, Bytes, codes,
  beq, ltb, ◌==◌, length, if◌then◌else◌, num, nil, errorf, String, Result, ok, err, ◌>>◌, reject_if,
  or_else_error, Check, Error,
}
use relayward_sdk.Base.Int.{ℤ, pos, ◌+ℤ◌, ltb_ℤ, wrap_int64}
use relayward_sdk.Contract.{node_plugin_api_version}
use relayward_sdk.Agent.Validate.{has_prefix}
use relayward_sdk.Agent.Telemetry.{ParseIp}
use relayward_sdk.NodePlugin.Info.{
  GetInfoResponse, capability_recent_activity, capability_dynamic_blocking,
  capability_service_control, capability_traffic_counters,
}
use relayward_sdk.NodePlugin.Configuration.{
  ConfigurationRequest, ConfigurationValidated, ConfigurationApplied, GetStatusResponse,
  health_starting, health_healthy, health_unhealthy, validate_configuration_request,
}
use relayward_sdk.NodePlugin.Telemetry.{
  CollectTelemetryRequest, CollectTelemetryResponse, validate_collect_telemetry_request,
}
use relayward_sdk.NodePlugin.Services.{
  ServiceState, ReplaceDynamicBlocksRequest, ReplaceDynamicBlocksResponse,
  validate_set_service_state_request, validate_replace_dynamic_blocks_request,
}
mod Tests
pub mod Laws
pub mod Degrade
pub mod Center

pub record NodePlugin : Type 0 where
  pub plugin_id : Bytes
  pub version : Bytes
  pub generation : ℕ
  pub digest : Bytes
  pub degrade : Bool
  pub status_calls : ℤ

-- `bytes.Contains`
unfoldable pub contains_bytes : Bytes → Bytes → Bool
contains_bytes [] sep = has_prefix [] sep
contains_bytes (c ∷ s) sep = has_prefix (c ∷ s) sep || contains_bytes s sep

-- What `runNode` registers: a plugin without a configuration.
unfoldable pub start : Bytes → Bytes → NodePlugin
start plugin_id version = record {
  plugin_id = plugin_id;
  version = version;
  generation = 0;
  digest = [];
  degrade = false;
  status_calls = pos 0;
}

unfoldable pub get_info : NodePlugin → GetInfoResponse
get_info plugin = record {
  api_version = node_plugin_api_version;
  plugin_id = plugin.plugin_id;
  version = plugin.version;
  capabilities =
      capability_recent_activity ∷ capability_dynamic_blocking ∷ capability_service_control
      ∷ capability_traffic_counters ∷ [];
  telemetry_stream_id = codes "0123456789abcdef0123456789abcdef";
}

-- `status.Error(codes.InvalidArgument, message)`, with the number of the code.
abbrev pub invalid_argument : String → Error
invalid_argument message = errorf message (num 3 nil)

unfoldable pub collect_telemetry :
    ℤ → Option CollectTelemetryRequest → Result CollectTelemetryResponse
collect_telemetry now none = err (invalid_argument "invalid telemetry request")
collect_telemetry now (some request) = do
  or_else_error (validate_collect_telemetry_request (some request))
      (λ _. invalid_argument "invalid telemetry request")
  ok (record {
    observed_at_unix_nano = now;
    counters = [];
    events = [];
    next_sequence = request.after_sequence;
    has_more = false;
  })

unfoldable pub set_service_state : Option ServiceState → Result ServiceState
set_service_state none = err (invalid_argument "invalid service state")
set_service_state (some request) = do
  or_else_error (validate_set_service_state_request (some request))
      (λ _. invalid_argument "invalid service state")
  ok (record {
    policy_generation = request.policy_generation;
    state_revision = request.state_revision;
    authorization_id = request.authorization_id;
    service_id = request.service_id;
    enabled = request.enabled;
    reason = request.reason;
  })

unfoldable pub replace_dynamic_blocks :
    ParseIp → Option ReplaceDynamicBlocksRequest → Result ReplaceDynamicBlocksResponse
replace_dynamic_blocks parse_ip none = err (invalid_argument "invalid dynamic block set")
replace_dynamic_blocks parse_ip (some request) = do
  or_else_error (validate_replace_dynamic_blocks_request parse_ip (some request))
      (λ _. invalid_argument "invalid dynamic block set")
  ok (record {
    policy_generation = request.policy_generation;
    block_revision = request.block_revision;
    block_count = length request.blocks % 2 ^ 32;
  })

-- The writes of `ApplyConfiguration` under the lock.
unfoldable pub configured : NodePlugin → ConfigurationRequest → NodePlugin
configured plugin request = record {
  plugin_id = plugin.plugin_id;
  version = plugin.version;
  generation = request.generation;
  digest = request.sha256;
  degrade = contains_bytes request.json (codes "\"degrade\":true");
  status_calls = pos 0;
}

apply_checked : NodePlugin → ConfigurationRequest → Check → NodePlugin × Result ConfigurationApplied
apply_checked plugin request (err e) = (plugin, err (invalid_argument "invalid configuration"))
apply_checked plugin request (ok _) = (
  configured plugin request,
  ok (record { generation = request.generation; sha256 = request.sha256 }),
)

module _ (sha256 : Bytes → Bytes) where
  unfoldable pub validate_configuration :
      Option ConfigurationRequest → Result ConfigurationValidated
  validate_configuration none = err (invalid_argument "invalid configuration")
  validate_configuration (some request) = do
    or_else_error (validate_configuration_request sha256 (some request))
        (λ _. invalid_argument "invalid configuration")
    reject_if (contains_bytes request.json (codes "\"reject\":true"))
        (invalid_argument "configuration rejected")
    ok (record { generation = request.generation; sha256 = request.sha256 })

  -- The state after the call, and the answer: a rejected request changes nothing.
  unfoldable pub apply_configuration :
      NodePlugin → Option ConfigurationRequest → NodePlugin × Result ConfigurationApplied
  unfolding apply_checked
  apply_configuration plugin none = (plugin, err (invalid_argument "invalid configuration"))
  apply_configuration plugin (some request) =
      apply_checked plugin request (validate_configuration_request sha256 (some request))

-- The health before the call counts itself.
unfoldable pub health_of : NodePlugin → ℤ
health_of plugin =
    if plugin.generation == 0
    then health_starting
    else if plugin.degrade && ltb_ℤ (pos 0) plugin.status_calls
    then health_unhealthy
    else health_healthy

-- The write of `GetStatus`: the call is counted once the plugin has a configuration.
unfoldable pub counted : NodePlugin → NodePlugin
counted plugin = record {
  plugin_id = plugin.plugin_id;
  version = plugin.version;
  generation = plugin.generation;
  digest = plugin.digest;
  degrade = plugin.degrade;
  status_calls =
      if plugin.generation == 0
      then plugin.status_calls
      else wrap_int64 (plugin.status_calls +ℤ pos 1);
}

unfoldable pub get_status : NodePlugin → NodePlugin × GetStatusResponse
get_status plugin = (
  counted plugin,
  record {
    generation = plugin.generation;
    configuration_sha256 = plugin.digest;
    health = health_of plugin;
    message = [];
  },
)
