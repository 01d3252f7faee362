-- ===== src/Fixture/Tests.antt =====
-- Examples of the theorems on the plugin of pluginfixture/plugin.go.
use relayward_sdk.Base.{◌≡◌, refl, arith, some, [], codes, beq, pass, true}
use relayward_sdk.Hash.Samples.{sample_hash, sample_hash-IsDigest}
use relayward_sdk.NodePlugin.Configuration.{
  ConfigurationRequest, validate_configuration_request, validate_status_response, health_healthy,
  health_unhealthy,
}
use relayward_sdk.Fixture.{NodePlugin, start, apply_configuration, get_status, contains_bytes}
use relayward_sdk.Fixture.Laws.{
  started, stepped, applied, reachable-accepted, apply_configuration-accepted,
}
use relayward_sdk.Fixture.Degrade.{asked_times, degrades}

abbrev request : ConfigurationRequest
request = record {
  generation = 3;
  json = codes "{ \"degrade\":true }";
  sha256 = codes "1010101010101010101010101010101010101010101010101010101010101010";
}

abbrev fresh : NodePlugin
fresh = start (codes "io.example") (codes "1.0.0")

request-accepted : validate_configuration_request sample_hash (some request) ≡ pass
unfolding validate_configuration_request relayward_sdk.Agent.Plugins.plugin_configuration_digest
    relayward_sdk.Agent.Plugins.validate_plugin_configuration relayward_sdk.Json.valid
    relayward_sdk.Unicode.trim_space mathlib.Core.List.flatten relayward_sdk.Json.compact beq
    relayward_sdk.Encoding.hex_encode
request-accepted = refl

reachable-accepted_example :
    validate_status_response
      (some (get_status (apply_configuration sample_hash fresh (some request)).0).1)
    ≡ pass
reachable-accepted_example =
    reachable-accepted sample_hash sample_hash-IsDigest
      (stepped (started (codes "io.example") (codes "1.0.0")) (applied fresh (some request)))

apply_configuration-accepted_example :
    (get_status (apply_configuration sample_hash fresh (some request)).0).1 ≡ record {
      generation = 3;
      configuration_sha256 = request.sha256;
      health = health_healthy;
      message = [];
    }
apply_configuration-accepted_example =
    (apply_configuration-accepted sample_hash sample_hash-IsDigest fresh request request-accepted).1

asks_to_degrade : contains_bytes request.json (codes "\"degrade\":true") ≡ true
unfolding contains_bytes relayward_sdk.Agent.Validate.has_prefix
asks_to_degrade = refl

degrades_example :
    (get_status (asked_times 2 (apply_configuration sample_hash fresh (some request)).0)).1.health
    ≡ health_unhealthy
degrades_example =
    degrades sample_hash sample_hash-IsDigest fresh request 2 request-accepted asks_to_degrade
      (omega arith)
