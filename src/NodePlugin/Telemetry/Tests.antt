-- ===== src/NodePlugin/Telemetry/Tests.antt =====
-- Examples of the theorems on telemetry pages.
use relayward_sdk.Base.{
  ℕ, ◌+◌, ◌≤◌, ◌≡◌, refl, ◌⊎◌, Bool, true, false, List, [], ◌∷◌, ◌++◌, Option, some, none, Bytes,
  codes, ok, pass, length,
}
use relayward_sdk.Base.Int.{pos}
use relayward_sdk.Agent.Telemetry.{ParseIp}
use relayward_sdk.NodePlugin.Telemetry.{
  CollectTelemetryRequest, CollectTelemetryResponse, AccessEvent, TrafficCounter,
  validate_collect_telemetry_response,
}
use relayward_sdk.NodePlugin.Telemetry.Sequence.{Follows, accepted_page, accepted_pages-join}

-- Knows one address.
abbrev sample_parse_ip : ParseIp
sample_parse_ip s = some s

abbrev event : ℕ → AccessEvent
event n = record {
  sequence = n;
  event_id = codes "e1";
  observed_at_unix_nano = pos 5;
  authorization_id = codes "3f2504e0-4f89-41d3-9a0c-0305e82c3301";
  service_id = codes "main";
  source_ip = codes "192.0.2.1";
  destination = codes "example.com";
  destination_port = 443;
  network = codes "tcp";
  protocol = codes "tls";
  action = codes "accepted";
}

abbrev first_request : CollectTelemetryRequest
first_request = record { after_sequence = 7; maximum_events = 2 }

abbrev first_page : CollectTelemetryResponse
first_page = record {
  observed_at_unix_nano = pos 9;
  counters =
      some (record {
        authorization_id = codes "3f2504e0-4f89-41d3-9a0c-0305e82c3301";
        service_id = codes "main";
        counter_epoch = codes "e";
        upload_bytes = 1;
        download_bytes = 2;
      })
      ∷ [];
  events = some (event 8) ∷ some (event 9) ∷ [];
  next_sequence = 9;
  has_more = true;
}

abbrev second_request : CollectTelemetryRequest
second_request = record { after_sequence = 9; maximum_events = 2 }

abbrev second_page : CollectTelemetryResponse
second_page = record {
  observed_at_unix_nano = pos 9;
  counters = [];
  events = some (event 10) ∷ [];
  next_sequence = 10;
  has_more = false;
}

first_page_accepted :
    validate_collect_telemetry_response sample_parse_ip (some first_request) (some first_page)
    ≡ pass
unfolding validate_collect_telemetry_response
    relayward_sdk.NodePlugin.Telemetry.validate_collect_telemetry_request
    relayward_sdk.NodePlugin.Telemetry.check_counters
    relayward_sdk.NodePlugin.Telemetry.validate_traffic_counter
    relayward_sdk.Policy.validate_identifier relayward_sdk.Regex.match_string
    relayward_sdk.NodePlugin.Telemetry.check_events
    relayward_sdk.NodePlugin.Telemetry.validate_access_event
    relayward_sdk.Agent.Telemetry.validate_access_event
    relayward_sdk.NodePlugin.Telemetry.standard_event relayward_sdk.Contract.validate_plugin_id
    relayward_sdk.Base.beq relayward_sdk.Agent.Telemetry.is_canonical_ip
    relayward_sdk.Agent.Telemetry.validate_telemetry_text relayward_sdk.Unicode.is_trimmed
    mathlib.Core.List.flatten relayward_sdk.Unicode.has_no_control relayward_sdk.Base.le_bytes
    relayward_sdk.Base.lt_bytes relayward_sdk.NodePlugin.Telemetry.check_page
    relayward_sdk.NodePlugin.Telemetry.check_response relayward_sdk.NodePlugin.Telemetry.counter_key
    relayward_sdk.Unicode.decode_rune relayward_sdk.Unicode.runes relayward_sdk.Unicode.trim_space
first_page_accepted = refl

second_page_accepted :
    validate_collect_telemetry_response sample_parse_ip (some second_request) (some second_page)
    ≡ pass
unfolding validate_collect_telemetry_response
    relayward_sdk.NodePlugin.Telemetry.validate_collect_telemetry_request
    relayward_sdk.NodePlugin.Telemetry.check_counters
    relayward_sdk.NodePlugin.Telemetry.check_events
    relayward_sdk.NodePlugin.Telemetry.validate_access_event
    relayward_sdk.Agent.Telemetry.validate_access_event relayward_sdk.Regex.match_string
    relayward_sdk.NodePlugin.Telemetry.standard_event relayward_sdk.Contract.validate_plugin_id
    relayward_sdk.Policy.validate_identifier relayward_sdk.Base.beq
    relayward_sdk.Agent.Telemetry.is_canonical_ip
    relayward_sdk.Agent.Telemetry.validate_telemetry_text relayward_sdk.Unicode.is_trimmed
    mathlib.Core.List.flatten relayward_sdk.Unicode.has_no_control
second_page_accepted = refl

accepted_page_example : Follows 7 first_page.events
accepted_page_example =
    (accepted_page sample_parse_ip first_request first_page first_page_accepted).0

accepted_pages-join_example : Follows 7 (first_page.events ++ second_page.events)
accepted_pages-join_example =
    (accepted_pages-join sample_parse_ip first_request second_request first_page second_page
      first_page_accepted second_page_accepted refl).0
