-- ===== src/NodePlugin/Tests.antt =====
-- Examples of the theorems on the capabilities and the blocks of a node plugin.
use relayward_sdk.Base.{
  ℕ, ◌<◌, ◌≡◌, refl, List, [], ◌∷◌, Option, some, none, Bytes, codes, ok, pass, arith,
}
use relayward_sdk.Base.Int.{pos}
use relayward_sdk.Agent.Telemetry.{ParseIp}
use relayward_sdk.NodePlugin.Info.{GetInfoResponse, has_capability, validate_info_response}
use relayward_sdk.NodePlugin.Info.Search.{contains, has_capability-accepted}
use relayward_sdk.NodePlugin.Services.{
  DynamicBlock, ReplaceDynamicBlocksRequest, validate_replace_dynamic_blocks_request,
}
use relayward_sdk.NodePlugin.Services.Distinct.{accepted_blocks_differ}

abbrev info : GetInfoResponse
info = record {
  api_version = codes "relayward.node-plugin/v1";
  plugin_id = codes "io.example";
  version = codes "1.0.0";
  capabilities = codes "activity.recent" ∷ codes "blocking.dynamic" ∷ codes "service.control" ∷ [];
  telemetry_stream_id = codes "0123456789abcdef0123456789abcdef";
}

info_accepted : validate_info_response (some info) (codes "io.example") [] ≡ pass
unfolding validate_info_response relayward_sdk.Base.beq relayward_sdk.Contract.validate_plugin_id
    relayward_sdk.Regex.match_string relayward_sdk.Contract.validate_semantic_version
    relayward_sdk.Contract.index_byte relayward_sdk.Contract.before_byte
    relayward_sdk.NodePlugin.Info.check_capabilities relayward_sdk.Base.le_bytes has_capability
    relayward_sdk.NodePlugin.Info.search_strings relayward_sdk.NodePlugin.Info.search_between
info_accepted = refl

has_capability-accepted_example :
    has_capability info.capabilities (codes "service.control")
    ≡ contains (codes "service.control") info.capabilities
has_capability-accepted_example =
    has_capability-accepted info (codes "io.example") [] (codes "service.control") info_accepted

abbrev sample_parse_ip : ParseIp
sample_parse_ip s = some s

abbrev block : Bytes → DynamicBlock
block ip = record {
  authorization_id = codes "3f2504e0-4f89-41d3-9a0c-0305e82c3301";
  service_id = codes "main";
  source_ip = ip;
  expires_at_unix_nano = pos 5;
}

abbrev request : ReplaceDynamicBlocksRequest
request = record {
  policy_generation = 1;
  block_revision = 1;
  blocks = some (block (codes "192.0.2.1")) ∷ some (block (codes "192.0.2.2")) ∷ [];
}

request_accepted : validate_replace_dynamic_blocks_request sample_parse_ip (some request) ≡ pass
unfolding validate_replace_dynamic_blocks_request relayward_sdk.NodePlugin.Services.check_blocks
    relayward_sdk.Policy.validate_identifier relayward_sdk.Regex.match_string
    relayward_sdk.Agent.Telemetry.is_canonical_ip relayward_sdk.Base.beq relayward_sdk.Base.le_bytes
    relayward_sdk.NodePlugin.Services.block_key
request_accepted = refl

accepted_blocks_differ_example : ¬ (
    ((block (codes "192.0.2.1")).authorization_id ≡ (block (codes "192.0.2.2")).authorization_id)
    × ((block (codes "192.0.2.1")).service_id ≡ (block (codes "192.0.2.2")).service_id)
    × ((block (codes "192.0.2.1")).source_ip ≡ (block (codes "192.0.2.2")).source_ip))
accepted_blocks_differ_example =
    accepted_blocks_differ sample_parse_ip request 0 1 (block (codes "192.0.2.1"))
      (block (codes "192.0.2.2")) request_accepted (omega arith) refl refl
