-- ===== src/CenterPlugin/Tests.antt =====
-- Examples of the theorems on the contract of center plugins.
use relayward_sdk.Base.{
  ℕ, ◌+◌, ◌≤◌, ◌≡◌, ◌≢◌, ◌↔◌, ◌⊎◌, refl, true, false, List, [], ◌∷◌, ◌++◌, Option, none, some, map,
  Bytes, codes, arith, length, ok, pass,
}
use relayward_sdk.Base.Int.{pos}
use relayward_sdk.Json.{Codec}
use relayward_sdk.Json.Samples.{fixed_codec}
use relayward_sdk.Hash.Samples.{sample_hash}
use relayward_sdk.Agent.Events.{max_int64}
use relayward_sdk.Agent.Plugins.{ParseUrl}
use relayward_sdk.Agent.Validate.{has_prefix}
use relayward_sdk.NodePlugin.Configuration.{validate_configuration_request}
use relayward_sdk.CenterPlugin.Info.{
  permission_events_read, permission_nodes_read, permission_services_write, validate_permissions,
}
use relayward_sdk.CenterPlugin.Info.Permissions.{
  Selection, all_permissions, accepted_permissions_iff,
}
use relayward_sdk.CenterPlugin.Configuration.{
  ConfigureNodePluginRequest, NodePluginConfigured, validate_node_plugin_configured,
  validate_node_plugin_configuration,
}
use relayward_sdk.CenterPlugin.Configuration.Generations.{accepted_configuration}
use relayward_sdk.CenterPlugin.Notification.{NotificationRequest, event_notification_request}
use relayward_sdk.CenterPlugin.Publish.{
  PublishedEvent, PublishEventsRequest, EventsPublished, maximum_event_batch_events, check_event,
  validate_events_published,
}
use relayward_sdk.CenterPlugin.Publish.Batch.{Publishable, accepted_publication}
use relayward_sdk.CenterPlugin.Publish.Namespace.{dotted, shared_kind}
use relayward_sdk.CenterPlugin.Consume.{
  StandardEvent, ConsumeEventsRequest, EventsConsumed, validate_events_consumed,
}
use relayward_sdk.CenterPlugin.Consume.Cursor.{Consumed, accepted_consumption}
use relayward_sdk.CenterPlugin.Subscription.{
  SubscriptionServiceBinding, SubscriptionServiceContribution, RenderSubscriptionRequest,
  RenderSubscriptionResponse, validate_render_subscription_response,
}
use relayward_sdk.CenterPlugin.Subscription.Aligned.{Aligned, accepted_subscription}

abbrev node : Bytes
node = codes "3f2504e0-4f89-41d3-9a0c-0305e82c3301"

abbrev plugin : Bytes
plugin = codes "io.example.proxy"

abbrev permissions : List Bytes
permissions = permission_events_read ∷ permission_nodes_read ∷ permission_services_write ∷ []

permissions-accepted : validate_permissions permissions ≡ pass
unfolding validate_permissions relayward_sdk.CenterPlugin.Info.strings_are_sorted
    relayward_sdk.Base.lt_bytes relayward_sdk.CenterPlugin.Info.check_permissions
    relayward_sdk.CenterPlugin.Info.is_known_permission relayward_sdk.Base.beq
permissions-accepted = refl

accepted_permissions_iff_example :
    (validate_permissions permissions ≡ pass) ↔ Selection permissions all_permissions
accepted_permissions_iff_example = accepted_permissions_iff permissions

abbrev configure : ConfigureNodePluginRequest
configure = record { node_id = node; expected_generation = 6; json = codes "{}" }

abbrev configured : NodePluginConfigured
configured = record {
  generation = 7;
  sha256 = codes "0202020202020202020202020202020202020202020202020202020202020202";
}

configured-accepted :
    validate_node_plugin_configured sample_hash (some configure) (some configured) ≡ pass
unfolding validate_node_plugin_configured
    relayward_sdk.CenterPlugin.Configuration.validate_configure_node_plugin_request
    relayward_sdk.Regex.match_string
    relayward_sdk.CenterPlugin.Configuration.plugin_configuration_digest
    relayward_sdk.Agent.Plugins.validate_plugin_configuration relayward_sdk.Json.valid
    relayward_sdk.Unicode.trim_space mathlib.Core.List.flatten
    relayward_sdk.CenterPlugin.Text.validate_json_object
    relayward_sdk.Agent.Plugins.plugin_configuration_digest relayward_sdk.Json.compact
    relayward_sdk.Base.beq relayward_sdk.Encoding.hex_encode
configured-accepted = refl

version-accepted : relayward_sdk.Contract.validate_semantic_version (codes "1.2.3") ≡ pass
unfolding relayward_sdk.Contract.validate_semantic_version relayward_sdk.Regex.match_string
    relayward_sdk.Contract.index_byte relayward_sdk.Contract.before_byte
version-accepted = refl

accepted_configuration_example :
    (configured.generation ≡ configure.expected_generation + 1)
    × (configured.generation ≤ max_int64)
    × (validate_node_plugin_configuration sample_hash (some (record { node_id = node })) (
          some (record {
            generation = 7;
            version = codes "1.2.3";
            sha256 = configured.sha256;
            json = codes "{}";
          }))
        ≡ pass)
    × (validate_configuration_request sample_hash
          (some (record { generation = 7; sha256 = configured.sha256; json = codes "{}" }))
        ≡ pass)
accepted_configuration_example =
    accepted_configuration sample_hash configure configured (codes "1.2.3") version-accepted
      configured-accepted

abbrev sample_parse_url : ParseUrl
sample_parse_url =
    λ raw. some (record { scheme = codes "ss"; host = codes "a"; has_user = false; fragment = [] })

abbrev service : SubscriptionServiceBinding
service = record { service_id = codes "main"; display_name = codes "Main" }

abbrev render_request : RenderSubscriptionRequest
render_request = record { authorization_id = node; node_id = node; services = some service ∷ [] }

abbrev rendered : SubscriptionServiceContribution
rendered = record {
  service_id = codes "main";
  display_name = codes "Main";
  uris = codes "ss://a" ∷ codes "ss://b" ∷ [];
  mihomo_proxies_json = codes "{}" ∷ [];
  sing_box_outbounds_json = [];
}

abbrev render_response : RenderSubscriptionResponse
render_response = record { services = some rendered ∷ [] }

rendered-accepted :
    validate_render_subscription_response sample_parse_url
      (some render_request)
      (some render_response)
    ≡ pass
unfolding validate_render_subscription_response
    relayward_sdk.CenterPlugin.Subscription.validate_render_subscription_request
    relayward_sdk.Regex.match_string relayward_sdk.CenterPlugin.Subscription.check_bindings
    relayward_sdk.CenterPlugin.Text.validate_display_name relayward_sdk.Base.beq
    relayward_sdk.Unicode.is_trimmed mathlib.Core.List.flatten relayward_sdk.Unicode.valid_utf8
    relayward_sdk.Unicode.rune_count relayward_sdk.Unicode.has_no_control
    relayward_sdk.CenterPlugin.Subscription.check_contributions
    relayward_sdk.CenterPlugin.Subscription.check_contribution
    relayward_sdk.CenterPlugin.Subscription.check_uris
    relayward_sdk.CenterPlugin.Subscription.validate_subscription_uri
    relayward_sdk.CenterPlugin.Text.has_no_space relayward_sdk.CenterPlugin.Subscription.is_relative
    relayward_sdk.Base.le_bytes relayward_sdk.Base.lt_bytes
    relayward_sdk.CenterPlugin.Services.service_field
    relayward_sdk.CenterPlugin.Subscription.check_fragments
    relayward_sdk.CenterPlugin.Text.validate_json_object relayward_sdk.Clock.Calendar.append_int
    relayward_sdk.Json.scan relayward_sdk.Json.valid relayward_sdk.Unicode.decode_rune
    relayward_sdk.Unicode.is_control relayward_sdk.Unicode.is_space relayward_sdk.Unicode.runes
    relayward_sdk.Unicode.trim_space
rendered-accepted = refl

accepted_subscription_example :
    (bindings : List SubscriptionServiceBinding) × (render_request.services ≡ map some bindings)
    × Aligned sample_parse_url 0 bindings render_response.services
accepted_subscription_example =
    accepted_subscription sample_parse_url render_request render_response rendered-accepted

abbrev consumed_event : ℕ → StandardEvent
consumed_event cursor = record {
  cursor = cursor;
  event_id = codes "0202020202020202020202020202020202020202020202020202020202020202";
  node_id = node;
  kind = codes "plugin.io.example.proxy.started";
  observed_at_unix_nano = pos 5;
  received_at_unix_nano = pos 6;
  json = codes "{}";
}

abbrev consume_request : ConsumeEventsRequest
consume_request = record { events = some (consumed_event 4) ∷ some (consumed_event 9) ∷ [] }

abbrev consumed : EventsConsumed
consumed = record { through_cursor = 9 }

consumed-accepted : validate_events_consumed (some consume_request) (some consumed) ≡ pass
unfolding validate_events_consumed
    relayward_sdk.CenterPlugin.Consume.validate_consume_events_request
    relayward_sdk.CenterPlugin.Consume.check_consumed relayward_sdk.CenterPlugin.Consume.check_event
    relayward_sdk.CenterPlugin.Consume.not_after relayward_sdk.Regex.match_string
    relayward_sdk.CenterPlugin.Publish.bad_payload relayward_sdk.Json.valid
    relayward_sdk.CenterPlugin.Consume.last_cursor
consumed-accepted = refl

accepted_consumption_example : Consumed 0 0 consume_request.events 9 × (9 ≤ max_int64)
accepted_consumption_example = accepted_consumption consume_request consumed consumed-accepted

abbrev published : Bytes → PublishedEvent
published id = record {
  source_event_id = id;
  node_id = node;
  kind = codes "plugin.io.example.proxy.started";
  observed_at_unix_nano = pos 5;
  json = codes "{}";
}

abbrev notification_codec : Codec NotificationRequest
notification_codec = fixed_codec (record {
  severity = codes "info";
  subject = codes "Subject";
  body = codes "Body";
  dedup_key = [];
})

abbrev publish_request : PublishEventsRequest
publish_request = record {
  events = some (published (codes "a1")) ∷ some (published (codes "a2")) ∷ [];
}

abbrev published_count : EventsPublished
published_count = record { event_count = 2 }

published-accepted :
    validate_events_published notification_codec
      (some publish_request)
      plugin
      (some published_count)
    ≡ pass
unfolding validate_events_published
    relayward_sdk.CenterPlugin.Publish.validate_publish_events_request
    relayward_sdk.Contract.validate_plugin_id relayward_sdk.Regex.match_string
    relayward_sdk.CenterPlugin.Publish.check_published check_event relayward_sdk.Base.beq has_prefix
    relayward_sdk.CenterPlugin.Publish.publisher_namespace
    relayward_sdk.CenterPlugin.Publish.bad_payload relayward_sdk.Json.valid
    relayward_sdk.Base.le_bytes
published-accepted = refl

accepted_publication_example :
    Publishable publish_request.events
    × (1 ≤ length publish_request.events)
    × (length publish_request.events ≤ maximum_event_batch_events)
    × (2 ≡ length publish_request.events)
accepted_publication_example =
    accepted_publication notification_codec plugin publish_request published_count
      published-accepted

event-accepted : check_event notification_codec plugin 0 none (published (codes "a1")) ≡ pass
unfolding check_event relayward_sdk.Regex.match_string relayward_sdk.Base.beq has_prefix
    relayward_sdk.CenterPlugin.Publish.publisher_namespace
    relayward_sdk.CenterPlugin.Publish.bad_payload relayward_sdk.Json.valid
event-accepted = refl

other-accepted :
    check_event notification_codec (codes "io.example") 0 none (published (codes "b1")) ≡ pass
unfolding check_event relayward_sdk.Regex.match_string relayward_sdk.Base.beq has_prefix
    relayward_sdk.CenterPlugin.Publish.publisher_namespace
    relayward_sdk.CenterPlugin.Publish.bad_payload relayward_sdk.Json.valid
other-accepted = refl

shared_kind_example :
    (codes "plugin.io.example.proxy.started" ≡ event_notification_request)
    ⊎ ((has_prefix (dotted plugin) (dotted (codes "io.example")) ≡ true)
        ⊎ (has_prefix (dotted (codes "io.example")) (dotted plugin) ≡ true))
shared_kind_example =
    shared_kind notification_codec plugin (codes "io.example") 0 0 none none
      (published (codes "a1")) (published (codes "b1")) event-accepted other-accepted refl
