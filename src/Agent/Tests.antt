-- ===== src/Agent/Tests.antt =====
-- Examples of the theorems on commands to the Agent.
use relayward_sdk.Base.{
  ◌++◌, ◌↔◌, lt_bytes, ℕ, ◌+◌, ◌*◌, ◌≤◌, ◌≡◌, refl, ◌⊎◌, true, false, List, [], ◌∷◌, Option, some,
  none, Bytes, codes, ok, pass, length, All, Increasing, arith,
}
use relayward_sdk.Base.Int.{ℤ, pos}
use relayward_sdk.Clock.{Time, utc_location, utc, second}
use relayward_sdk.Json
use relayward_sdk.Json.Samples.{fixed_codec, fixed_codec-RoundTrips}
use relayward_sdk.Regex.{match_string}
use relayward_sdk.Hash.{Collide}
use relayward_sdk.Hash.Samples.{sample_hash, sample_hash-IsDigest}
use relayward_sdk.Policy.{LoadLocation, ResetRule, Period}
use relayward_sdk.Agent.Commands.{Command, validate_command, digest_pattern}
use relayward_sdk.Agent.Update.{
  AgentUpdateCommand, new_agent_update_command, decode_agent_update_command,
}
use relayward_sdk.Agent.Update.RoundTrip.{decode-new_agent_update_command}
use relayward_sdk.Agent.Plugins.{
  ParseUrl, PluginArtifact, PluginReconcileCommand, new_plugin_reconcile_command,
  decode_plugin_reconcile_command, plugin_configuration_digest, validate_plugin_configuration,
}
use relayward_sdk.Agent.Plugins.RoundTrip.{decode-new_plugin_reconcile_command}
use relayward_sdk.Agent.Plugins.Digest.{plugin_configuration_digest_total, same_digest}
use relayward_sdk.Agent.Policies.{
  binding_key, AuthorizationPolicy, ServiceBinding, PolicyReconcileCommand,
  validate_policy_reconcile_command, new_policy_reconcile_command, decode_policy_reconcile_command,
}
use relayward_sdk.Contract.{validate_plugin_id}
use relayward_sdk.Encoding.Base64.{IsDigit}
use relayward_sdk.Agent.Validate.{valid_secret}
use relayward_sdk.Agent.Validate.Secret.{valid_secret_iff}
use relayward_sdk.Agent.PolicyOrder.{less_binding}
use relayward_sdk.Agent.PolicyOrder.Keys.{less_binding-binding_key}
use relayward_sdk.Agent.Policies.Snapshot.{
  authorization_ids, accepted_snapshot, decode-new_policy_reconcile_command,
}

abbrev at_second : ℕ → Time
at_second n = record { nanos = pos (n * second); location = utc_location }

abbrev update : AgentUpdateCommand
update = record { version = codes "1.2.3" }

abbrev update_command : Command
update_command = record {
  kind = codes "agent.update";
  issued_at = at_second 10;
  expires_at = at_second 70;
  payload = codes "{}";
}

made_update :
    new_agent_update_command (fixed_codec update) (codes "1.2.3") (at_second 10) (at_second 70)
    ≡ ok update_command
unfolding new_agent_update_command relayward_sdk.Agent.Update.validate_agent_update_command
    relayward_sdk.Contract.validate_semantic_version match_string relayward_sdk.Contract.index_byte
    relayward_sdk.Contract.before_byte validate_command relayward_sdk.Clock.sub
    relayward_sdk.Base.Int.◌-ℤ◌ Json.valid
made_update = refl

decode-new_agent_update_command_example :
    decode_agent_update_command (fixed_codec update) update_command ≡ ok update
decode-new_agent_update_command_example =
    (decode-new_agent_update_command (fixed_codec update) (codes "1.2.3") (at_second 10)
      (at_second 70) (codes "{}") update_command (fixed_codec-RoundTrips update) made_update).3

abbrev sample_parse_url : ParseUrl
sample_parse_url s =
    some (record {
      scheme = codes "https";
      host = codes "example.com";
      has_user = false;
      fragment = [];
    })

abbrev plugin : PluginReconcileCommand
plugin = record {
  plugin_id = codes "io.example";
  generation = 2;
  desired_state = codes "running";
  version = codes "1.0.0";
  artifact = some (record {
    download_url = codes "https://example.com/p";
    size = pos 9;
    sha256 = codes "abababababababababababababababababababababababababababababababab";
  });
  configuration = codes "{}";
}

abbrev plugin_command : Command
plugin_command = record {
  kind = codes "plugin.reconcile";
  issued_at = at_second 10;
  expires_at = at_second 70;
  payload = codes "{}";
}

made_plugin :
    new_plugin_reconcile_command sample_parse_url
      (fixed_codec plugin)
      plugin
      (at_second 10)
      (at_second 70)
    ≡ ok plugin_command
unfolding new_plugin_reconcile_command relayward_sdk.Agent.Plugins.validate_plugin_reconcile_command
    relayward_sdk.Agent.Plugins.validate_plugin_identity relayward_sdk.Contract.validate_plugin_id
    match_string relayward_sdk.Base.beq relayward_sdk.Contract.validate_semantic_version
    relayward_sdk.Contract.index_byte relayward_sdk.Contract.before_byte
    relayward_sdk.Agent.Plugins.check_artifact relayward_sdk.Agent.Plugins.validate_plugin_artifact
    relayward_sdk.Agent.Plugins.bad_download_url validate_plugin_configuration Json.valid
    relayward_sdk.Unicode.trim_space mathlib.Core.List.flatten validate_command
    relayward_sdk.Base.Int.◌-ℤ◌ relayward_sdk.Clock.sub relayward_sdk.Contract.all_digits
    relayward_sdk.Contract.check_identifiers relayward_sdk.Contract.has_leading_zero
    relayward_sdk.Contract.split Json.scan relayward_sdk.Unicode.decode_rune
made_plugin = refl

decode-new_plugin_reconcile_command_example :
    decode_plugin_reconcile_command sample_parse_url (fixed_codec plugin) plugin_command ≡ ok plugin
decode-new_plugin_reconcile_command_example =
    (decode-new_plugin_reconcile_command sample_parse_url (fixed_codec plugin) plugin (at_second 10)
      (at_second 70) (codes "{}") plugin_command (fixed_codec-RoundTrips plugin) made_plugin).3

configuration_accepted : validate_plugin_configuration (codes "{ }") ≡ pass
unfolding validate_plugin_configuration Json.valid relayward_sdk.Unicode.trim_space
    mathlib.Core.List.flatten
configuration_accepted = refl

plugin_configuration_digest_total_example :
    (digest : Bytes) × (plugin_configuration_digest sample_hash (codes "{ }") ≡ ok digest)
    × (match_string digest_pattern digest ≡ true)
plugin_configuration_digest_total_example =
    plugin_configuration_digest_total sample_hash sample_hash-IsDigest (codes "{ }")
      configuration_accepted

abbrev two_bytes : Bytes
two_bytes = codes "0202020202020202020202020202020202020202020202020202020202020202"

digest_of_first : plugin_configuration_digest sample_hash (codes "{}") ≡ ok two_bytes
unfolding plugin_configuration_digest validate_plugin_configuration Json.valid
    relayward_sdk.Unicode.trim_space mathlib.Core.List.flatten Json.compact
    relayward_sdk.Encoding.hex_encode
digest_of_first = refl

digest_of_second : plugin_configuration_digest sample_hash (codes "{ }") ≡ ok two_bytes
unfolding plugin_configuration_digest validate_plugin_configuration Json.valid
    relayward_sdk.Unicode.trim_space mathlib.Core.List.flatten Json.compact
    relayward_sdk.Encoding.hex_encode
digest_of_second = refl

same_digest_example :
    (p q : Bytes) × (Json.compact (codes "{}") ≡ ok p)
    × (Json.compact (codes "{ }") ≡ ok q)
    × ((p ≡ q) ⊎ Collide sample_hash p q)
same_digest_example =
    same_digest sample_hash sample_hash-IsDigest (codes "{}") (codes "{ }") two_bytes
      digest_of_first digest_of_second

abbrev sample_locations : LoadLocation
sample_locations name = some utc_location

abbrev authorization : AuthorizationPolicy
authorization = record {
  authorization_id = codes "3f2504e0-4f89-41d3-9a0c-0305e82c3301";
  started_at = at_second 10;
  enabled = true;
  traffic_limit_bytes = some 1000;
  reset = record {
    kind = codes "never";
    value = none;
    timezone = codes "UTC";
    period_anchor = none;
  };
  current_period = record {
    id = codes "15151515151515151515151515151515";
    starts_at = at_second 10;
    ends_at = none;
  };
  expires_at = none;
  soft_ip_limit = some 2;
  activity_window_seconds = 60;
  block_duration_seconds = 60;
  bindings =
      record { plugin_id = codes "io.example"; service_id = codes "a" }
      ∷ record { plugin_id = codes "io.example"; service_id = codes "b" }
      ∷ [];
}

abbrev snapshot : PolicyReconcileCommand
snapshot = record { generation = 4; authorizations = authorization ∷ [] }

abbrev policy_command : Command
policy_command = record {
  kind = codes "policy.reconcile";
  issued_at = at_second 10;
  expires_at = at_second 70;
  payload = codes "{}";
}

snapshot_accepted : validate_policy_reconcile_command sample_locations sample_hash snapshot ≡ pass
unfolding validate_policy_reconcile_command relayward_sdk.Agent.Policies.check_authorizations
    relayward_sdk.Agent.Policies.validate_authorization_policy
    relayward_sdk.Policy.validate_identifier match_string relayward_sdk.Policy.validate_reset_rule
    relayward_sdk.Base.beq relayward_sdk.Policy.check_kind relayward_sdk.Policy.validate_period
    relayward_sdk.Policy.period_id relayward_sdk.Encoding.hex_encode
    relayward_sdk.Clock.Calendar.format_utc relayward_sdk.Base.Int.◌+ℤ◌ relayward_sdk.Base.Int.◌*ℤ◌
    relayward_sdk.Policy.current_period relayward_sdk.Policy.span_of
    relayward_sdk.Policy.same_period relayward_sdk.Agent.Policies.binding_key
    relayward_sdk.Agent.Policies.check_bindings relayward_sdk.Base.Int.◌-ℤ◌
    relayward_sdk.Base.le_bytes relayward_sdk.Base.lt_bytes relayward_sdk.Clock.Calendar.add_days
    relayward_sdk.Clock.Calendar.append_int relayward_sdk.Clock.Calendar.civil
    relayward_sdk.Clock.Calendar.civil_of_day relayward_sdk.Clock.Calendar.date
    relayward_sdk.Clock.Calendar.day_number relayward_sdk.Clock.Calendar.days_before_month
    relayward_sdk.Clock.Calendar.days_before_year relayward_sdk.Clock.Calendar.days_in_month
    relayward_sdk.Clock.Calendar.find_month relayward_sdk.Clock.Calendar.is_leap
    relayward_sdk.Clock.Calendar.local_seconds relayward_sdk.Clock.Calendar.weekday
    relayward_sdk.Clock.Calendar.year_of_cycle relayward_sdk.Contract.validate_plugin_id
    relayward_sdk.Encoding.hex_digit relayward_sdk.Policy.adjacent_month
    relayward_sdk.Policy.civil_day relayward_sdk.Policy.close_period relayward_sdk.Policy.daily_span
    relayward_sdk.Policy.elapsed_steps relayward_sdk.Policy.interval_span
    relayward_sdk.Policy.monthly_boundary relayward_sdk.Policy.monthly_span
    relayward_sdk.Policy.step_back relayward_sdk.Policy.weekly_span
snapshot_accepted = refl

made_policy :
    new_policy_reconcile_command sample_locations sample_hash
      (fixed_codec snapshot)
      snapshot
      (at_second 10)
      (at_second 70)
    ≡ ok policy_command
unfolding new_policy_reconcile_command validate_policy_reconcile_command
    relayward_sdk.Agent.Policies.check_authorizations
    relayward_sdk.Agent.Policies.validate_authorization_policy
    relayward_sdk.Policy.validate_identifier match_string relayward_sdk.Policy.validate_reset_rule
    relayward_sdk.Base.beq relayward_sdk.Policy.check_kind relayward_sdk.Policy.validate_period
    relayward_sdk.Policy.period_id relayward_sdk.Encoding.hex_encode
    relayward_sdk.Clock.Calendar.format_utc relayward_sdk.Base.Int.◌+ℤ◌ relayward_sdk.Base.Int.◌*ℤ◌
    relayward_sdk.Policy.current_period relayward_sdk.Policy.span_of validate_command
    relayward_sdk.Agent.Policies.binding_key relayward_sdk.Agent.Policies.check_bindings
    relayward_sdk.Base.Int.◌-ℤ◌ relayward_sdk.Base.le_bytes relayward_sdk.Base.lt_bytes
    relayward_sdk.Clock.Calendar.add_days relayward_sdk.Clock.Calendar.append_int
    relayward_sdk.Clock.Calendar.civil relayward_sdk.Clock.Calendar.civil_of_day
    relayward_sdk.Clock.Calendar.date relayward_sdk.Clock.Calendar.day_number
    relayward_sdk.Clock.Calendar.days_before_month relayward_sdk.Clock.Calendar.days_before_year
    relayward_sdk.Clock.Calendar.days_in_month relayward_sdk.Clock.Calendar.find_month
    relayward_sdk.Clock.Calendar.is_leap relayward_sdk.Clock.Calendar.local_seconds
    relayward_sdk.Clock.Calendar.weekday relayward_sdk.Clock.Calendar.year_of_cycle
    relayward_sdk.Clock.sub relayward_sdk.Contract.validate_plugin_id
    relayward_sdk.Encoding.hex_digit Json.scan Json.valid relayward_sdk.Policy.adjacent_month
    relayward_sdk.Policy.civil_day relayward_sdk.Policy.close_period relayward_sdk.Policy.daily_span
    relayward_sdk.Policy.elapsed_steps relayward_sdk.Policy.interval_span
    relayward_sdk.Policy.monthly_boundary relayward_sdk.Policy.monthly_span
    relayward_sdk.Policy.same_period relayward_sdk.Policy.step_back relayward_sdk.Policy.weekly_span
made_policy = refl

accepted_snapshot_example : Increasing (authorization_ids snapshot.authorizations)
accepted_snapshot_example =
    (accepted_snapshot sample_locations sample_hash snapshot snapshot_accepted).1

decode-new_policy_reconcile_command_example :
    decode_policy_reconcile_command sample_locations sample_hash
      (fixed_codec snapshot)
      policy_command
    ≡ ok snapshot
decode-new_policy_reconcile_command_example =
    (decode-new_policy_reconcile_command sample_locations sample_hash (fixed_codec snapshot)
      snapshot (at_second 10) (at_second 70) (codes "{}") policy_command
      (fixed_codec-RoundTrips snapshot) made_policy).1

abbrev first_binding : ServiceBinding
first_binding = record { plugin_id = codes "io.a"; service_id = codes "z" }

abbrev second_binding : ServiceBinding
second_binding = record { plugin_id = codes "io.a.b"; service_id = codes "a" }

first_plugin : validate_plugin_id (codes "io.a") ≡ pass
unfolding validate_plugin_id match_string
first_plugin = refl

second_plugin : validate_plugin_id (codes "io.a.b") ≡ pass
unfolding validate_plugin_id match_string
second_plugin = refl

less_binding-binding_key_example :
    less_binding first_binding second_binding
    ≡ lt_bytes (binding_key first_binding) (binding_key second_binding)
less_binding-binding_key_example =
    less_binding-binding_key first_binding second_binding first_plugin second_plugin

abbrev secret_rest : Bytes
secret_rest = codes "AAAAAAAAAAAAAAAAAAAA_-9876543210abcdefghijk"

valid_secret_iff_example : (valid_secret (codes "rwr_" ++ secret_rest) (codes "rwr_") ≡ true) ↔ (
    (rest : Bytes) × (codes "rwr_" ++ secret_rest ≡ codes "rwr_" ++ rest)
    × (length rest ≡ 43)
    × All IsDigit rest)
valid_secret_iff_example = valid_secret_iff (codes "rwr_" ++ secret_rest) (codes "rwr_")
