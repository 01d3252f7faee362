-- ===== src/Fixture/Center/Sent.antt =====
-- What the center plugin of pluginfixture/plugin.go sends to the host, and its acknowledgements.
use relayward_sdk.Base.{
  ℕ, ◌+◌, ◌≡◌, ◌≢◌, ◌↔◌, refl, ◌⊎◌, inl, inr, true, false, List, [], ◌∷◌, Option, none, some, Bytes,
  codes, arith, beq_refl, Result-cases, Bool-cases, length, errorf, ok, err, pass,
}
use relayward_sdk.Base.Int.{pos, eqb_ℤ}
use relayward_sdk.Regex.{match_string}
use relayward_sdk.Json.{Codec, RoundTrips}
use relayward_sdk.Contract.{validate_plugin_id}
use relayward_sdk.CenterPlugin.Text.{
  uuid_pattern, source_event_id_pattern, service_id_pattern, sha256_pattern, validate_display_name,
  validate_capabilities,
}
use relayward_sdk.CenterPlugin.Services.{check_services, validate_replace_services_request}
use relayward_sdk.CenterPlugin.Notification.{
  NotificationRequest, event_notification_request, notification_info, validate_notification_request,
}
use relayward_sdk.CenterPlugin.Publish.{validate_publish_events_request}
use relayward_sdk.CenterPlugin.Publish.Namespace.{publish_notification}
use relayward_sdk.CenterPlugin.Consume.{
  ConsumeEventsRequest, last_cursor, validate_consume_events_request, validate_events_consumed,
}
use relayward_sdk.CenterPlugin.Consume.Cursor.{last_cursor-accepted}
use relayward_sdk.Fixture.{invalid_argument}
use relayward_sdk.Fixture.Center.{EventInput}
use relayward_sdk.Fixture.Center.Calls.{
  contract_services, contract_notification, contract_event, consume_events,
}

-- The one service that is sent.
contract_service-accepted : check_services 0 none (contract_services []).services ≡ pass
unfolding contract_services check_services validate_display_name validate_capabilities match_string
    relayward_sdk.Base.beq relayward_sdk.Unicode.is_trimmed mathlib.Core.List.flatten
    relayward_sdk.Unicode.valid_utf8 relayward_sdk.Unicode.rune_count
    relayward_sdk.Unicode.has_no_control relayward_sdk.CenterPlugin.Text.check_capabilities
contract_service-accepted = refl

-- The services that `services.replace` sends are accepted exactly if the node ID is a UUID.
pub contract_services_iff :
    (node_id : Bytes)
    → (validate_replace_services_request (some (contract_services node_id)) ≡ pass)
      ↔ (match_string uuid_pattern node_id ≡ true)
unfolding validate_replace_services_request contract_services
contract_services_iff node_id = ground (arith, contract_service-accepted)

-- The notification as a value.
abbrev pub contract_request : NotificationRequest
contract_request = record {
  severity = notification_info;
  subject = codes "Contract event";
  body = codes "The contract plugin published a test event.";
  dedup_key = [];
}

contract_request-accepted : validate_notification_request contract_request ≡ pass
unfolding validate_notification_request relayward_sdk.Protocol.is_one_of relayward_sdk.Base.beq
    relayward_sdk.CenterPlugin.Notification.validate_notification_text
    relayward_sdk.Unicode.is_trimmed mathlib.Core.List.flatten relayward_sdk.Unicode.valid_utf8
    relayward_sdk.Unicode.rune_count relayward_sdk.CenterPlugin.Notification.is_unsupported
contract_request-accepted = refl

-- The event that `events.publish` sends is accepted for every plugin, where the input names a valid
-- node and source ID and a time that is set, and encoding/json reads the text as the notification.
pub contract_event-accepted :
    (codec : Codec NotificationRequest) (plugin_id : Bytes) (input : EventInput)
    → RoundTrips codec contract_request contract_notification
    → validate_plugin_id plugin_id ≡ pass
    → match_string source_event_id_pattern input.source_event_id ≡ true
    → match_string uuid_pattern input.node_id ≡ true
    → eqb_ℤ input.observed_at_unix_nano (pos 0) ≡ false
    → validate_publish_events_request codec
        (some (record { events = some (contract_event input) ∷ [] }))
        plugin_id
      ≡ pass
unfolding contract_event
contract_event-accepted codec plugin_id input law p s n o =
    publish_notification codec plugin_id (contract_event input) contract_request p s n refl o
      (omega arith) law contract_request-accepted

-- `ConsumeEvents` acknowledges every accepted batch through its last event, with an answer that
-- `ValidateEventsConsumed` accepts, and refuses every other batch as an invalid argument. The
-- internal error that its code allows for does not occur.
pub consume_events_lem :
    (request : ConsumeEventsRequest)
    → ((consume_events (some request) ≡ ok (record { through_cursor = last_cursor request.events }))
        × (validate_events_consumed
              (some request)
              (some (record { through_cursor = last_cursor request.events }))
            ≡ pass))
      ⊎ ((consume_events (some request) ≡ err (invalid_argument "invalid event batch"))
          × (validate_consume_events_request (some request) ≢ pass))
unfolding consume_events
consume_events_lem request = elim (Result-cases (validate_consume_events_request (some request))) [
  | inl (u, accepted) ↦
      inl (ground (arith, last_cursor-accepted request), last_cursor-accepted request accepted)
  | inr (e, rejected) ↦ inr (ground arith, λ p. ground arith)
]
