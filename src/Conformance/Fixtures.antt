-- ===== src/Conformance/Fixtures.antt =====
-- conformance/load.go: the loaders of exchanges with a center plugin, a request with its answer.
use relayward_sdk.Base.{some, Bytes, Result, ok, ◌>>◌, ◌>>=◌, or_else_error, wrapf}
use relayward_sdk.Json.{Codec}
use relayward_sdk.Agent.Plugins.{ParseUrl}
use relayward_sdk.CenterPlugin.Notification.{NotificationRequest}
use relayward_sdk.CenterPlugin.Publish.{
  PublishEventsRequest, EventsPublished, validate_events_published,
}
use relayward_sdk.CenterPlugin.Consume.{
  ConsumeEventsRequest, EventsConsumed, validate_events_consumed,
}
use relayward_sdk.CenterPlugin.Subscription.{
  RenderSubscriptionRequest, RenderSubscriptionResponse, validate_render_subscription_response,
}
use relayward_sdk.Conformance.Files.{
  FileSystem, Unmarshal, open_contract_file, decode_contract_json,
}

pub record CenterPluginSubscriptionFixture : Type 0 where
  pub request : RenderSubscriptionRequest
  pub response : RenderSubscriptionResponse

pub record CenterPluginEventsFixture : Type 0 where
  pub request : ConsumeEventsRequest
  pub response : EventsConsumed

pub record CenterPluginPublishedEventsFixture : Type 0 where
  pub plugin_id : Bytes
  pub request : PublishEventsRequest
  pub response : EventsPublished

-- The two messages of an exchange as raw JSON, and with the plugin that publishes.
pub record RawExchange : Type 0 where
  pub request : Bytes
  pub response : Bytes

pub record RawPublication : Type 0 where
  pub plugin_id : Bytes
  pub request : Bytes
  pub response : Bytes

module _ (files : FileSystem) where
  unfoldable pub load_center_plugin_events :
      Codec RawExchange
      → Unmarshal ConsumeEventsRequest
      → Unmarshal EventsConsumed
      → Bytes
      → Result CenterPluginEventsFixture
  load_center_plugin_events codec request_of response_of path = do
    file ← or_else_error (open_contract_file files path) (wrapf "open center plugin events: %w")
    raw ← or_else_error (decode_contract_json codec file) (wrapf "decode center plugin events: %w")
    request ←
        or_else_error (request_of raw.request) (wrapf "decode center plugin event request: %w")
    response ←
        or_else_error (response_of raw.response) (wrapf "decode center plugin event response: %w")
    validate_events_consumed (some request) (some response)
    ok (record { request = request; response = response })

  unfoldable pub load_center_plugin_published_events :
      Codec RawPublication
      → Codec NotificationRequest
      → Unmarshal PublishEventsRequest
      → Unmarshal EventsPublished
      → Bytes
      → Result CenterPluginPublishedEventsFixture
  load_center_plugin_published_events codec notifications request_of response_of path = do
    file ←
        or_else_error (open_contract_file files path)
          (wrapf "open center plugin published events: %w")
    raw ←
        or_else_error (decode_contract_json codec file)
          (wrapf "decode center plugin published events: %w")
    request ←
        or_else_error (request_of raw.request) (wrapf "decode center plugin publish request: %w")
    response ←
        or_else_error (response_of raw.response) (wrapf "decode center plugin publish response: %w")
    validate_events_published notifications (some request) raw.plugin_id (some response)
    ok (record { plugin_id = raw.plugin_id; request = request; response = response })

  unfoldable pub load_center_plugin_subscription :
      ParseUrl
      → Codec RawExchange
      → Unmarshal RenderSubscriptionRequest
      → Unmarshal RenderSubscriptionResponse
      → Bytes
      → Result CenterPluginSubscriptionFixture
  load_center_plugin_subscription parse_url codec request_of response_of path = do
    file ←
        or_else_error (open_contract_file files path) (wrapf "open center plugin subscription: %w")
    raw ←
        or_else_error (decode_contract_json codec file)
          (wrapf "decode center plugin subscription: %w")
    request ←
        or_else_error (request_of raw.request)
          (wrapf "decode center plugin subscription request: %w")
    response ←
        or_else_error (response_of raw.response)
          (wrapf "decode center plugin subscription response: %w")
    validate_render_subscription_response parse_url (some request) (some response)
    ok (record { request = request; response = response })
