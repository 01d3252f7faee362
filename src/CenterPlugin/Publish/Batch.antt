-- ===== src/CenterPlugin/Publish/Batch.antt =====
-- What an accepted request publishes.
use relayward_sdk.Base.{
  ℕ, ◌+◌, ◌≤◌, ◌≡◌, refl, ap, false, List, [], ◌∷◌, Option, some, none, Bytes, arith, length, map,
  le_bytes, Increasing, Follows, Follows-Increasing, pass,
}
use relayward_sdk.Json.{Codec}
use relayward_sdk.CenterPlugin.Notification.{NotificationRequest}
use relayward_sdk.CenterPlugin.Publish.{
  PublishedEvent, PublishEventsRequest, EventsPublished, maximum_event_batch_events,
  maximum_event_batch_bytes, check_event, check_published, validate_publish_events_request,
  check_event_count, validate_events_published,
}

abbrev pub source_event_ids : List PublishedEvent → List Bytes
source_event_ids events = map (λ event. event.source_event_id) events

abbrev pub payload_bytes : List PublishedEvent → ℕ
payload_bytes [] = 0
payload_bytes (event ∷ rest) = length event.json + payload_bytes rest

-- All events are there, their IDs increase from `p` on, and their payloads stay within the bound.
record Listed (p : Bytes) (total : ℕ) (values : List (Option PublishedEvent)) : Type 0 where
  events : List PublishedEvent
  present : values ≡ map some events
  follows : Follows p (source_event_ids events)
  bounded : total + payload_bytes events ≤ maximum_event_batch_bytes

-- What an accepted request holds.
pub record Publishable (values : List (Option PublishedEvent)) : Type 0 where
  pub events : List PublishedEvent
  pub present : values ≡ map some events
  pub increasing : Increasing (source_event_ids events)
  pub bounded : payload_bytes events ≤ maximum_event_batch_bytes

module _ (codec : Codec NotificationRequest) where
  follows-event :
      (plugin_id : Bytes) (index : ℕ) (p : Bytes) (event : PublishedEvent)
      → check_event codec plugin_id index (some p) event ≡ pass
      → le_bytes event.source_event_id p ≡ false
  unfolding check_event
  follows-event plugin_id index p event h = ground arith

  check_published-Listed :
      (plugin_id : Bytes) (index : ℕ) (p : Bytes) (total : ℕ)
      (values : List (Option PublishedEvent))
      → total ≤ maximum_event_batch_bytes
      → check_published codec plugin_id index (some p) total values ≡ pass
      → Listed p total values
  unfolding check_published
  check_published-Listed plugin_id index p total [] b h = record {
    events = [];
    present = refl;
    follows = tt;
    bounded = omega (arith, b);
  }
  check_published-Listed plugin_id index p total (none ∷ rest) b h = absurd (ground arith)
  check_published-Listed plugin_id index p total (some event ∷ rest) b h =
      let more =
        check_published-Listed plugin_id (index + 1) event.source_event_id
          (total + length event.json) rest (ground arith) (ground arith) in
      record {
        events = event ∷ more.events;
        present = ap (◌∷◌ (some event)) more.present;
        follows = (follows-event plugin_id index p event (ground arith), more.follows);
        bounded = omega (arith, more.bounded);
      }

  check_published-Publishable :
      (plugin_id : Bytes) (values : List (Option PublishedEvent))
      → check_published codec plugin_id 0 none 0 values ≡ pass
      → Publishable values
  unfolding check_published
  check_published-Publishable plugin_id [] h = record {
    events = [];
    present = refl;
    increasing = tt;
    bounded = omega arith;
  }
  check_published-Publishable plugin_id (none ∷ rest) h = absurd (ground arith)
  check_published-Publishable plugin_id (some event ∷ rest) h =
      let more =
        check_published-Listed plugin_id 1 event.source_event_id (length event.json) rest
          (ground arith) (ground arith) in
      record {
        events = event ∷ more.events;
        present = ap (◌∷◌ (some event)) more.present;
        increasing =
            Follows-Increasing event.source_event_id (source_event_ids more.events) more.follows;
        bounded = more.bounded;
      }

  -- In an accepted request there are 1 to 128 events, all there; their source IDs increase strictly,
  -- so none occurs twice, and their payloads take at most 768 KiB together. An accepted answer counts
  -- exactly these events.
  pub accepted_publication :
      (plugin_id : Bytes) (request : PublishEventsRequest) (response : EventsPublished)
      → validate_events_published codec (some request) plugin_id (some response) ≡ pass
      → Publishable request.events
        × (1 ≤ length request.events)
        × (length request.events ≤ maximum_event_batch_events)
        × (response.event_count ≡ length request.events)
  unfolding validate_events_published validate_publish_events_request check_event_count
  accepted_publication plugin_id request response h = (
    check_published-Publishable plugin_id request.events (ground arith),
    ground arith,
    ground arith,
    ground arith,
  )
