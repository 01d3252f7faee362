-- ===== src/Agent/Events/Tests.antt =====
-- Examples of the theorems on events.
use relayward_sdk.Base.{
  arith, ℕ, ◌+◌, ◌≤◌, ◌≡◌, refl, ◌⊎◌, Bool, true, List, [], ◌∷◌, Bytes, codes, ok, pass, length,
  Result,
}
use relayward_sdk.Base.Int.{ℤ, pos}
use relayward_sdk.Clock.{Time, utc_location, utc}
use relayward_sdk.Clock.Calendar.{date}
use relayward_sdk.Json
use relayward_sdk.Json.{Codec, end_of_input}
use relayward_sdk.Regex.{match_string}
use relayward_sdk.Hash.{Collide}
use relayward_sdk.Hash.Samples.{sample_hash, sample_hash-IsDigest}
use relayward_sdk.Agent.Validate.{message_id_pattern}
use relayward_sdk.Agent.Register.{validate_node_id}
use relayward_sdk.Agent.Events.{
  Event, EventBatch, event_id, event_preimage, new_event, validate_event_content,
  validate_event_for_node, validate_event_batch,
}
use relayward_sdk.Agent.Events.Batch.{Numbered, accepted_batch}
use relayward_sdk.Clock.Calendar.Read.{InRange}
use relayward_sdk.Agent.Events.Create.{new_event-accepted, new_event_iff}
use relayward_sdk.Agent.Events.Identity.{SameContent, content, event_id-SameContent}

abbrev node : Bytes
node = codes "3f2504e0-4f89-41d3-9a0c-0305e82c3301"

abbrev stream : Bytes
stream = codes "0123456789abcdef0123456789abcdef"

abbrev noon : Time
noon = record { nanos = pos 5; location = utc_location }

-- What the codec of a batch gives here is only measured.
abbrev sample_codec : Codec EventBatch
sample_codec = record {
  marshal = λ b. ok (codes "{}");
  next = λ raw. end_of_input;
  trailing = λ raw. end_of_input;
}

abbrev sample_id : Bytes
sample_id = codes "bbbbbbbbbbbbbbbbbbbbbbbbbbbbbbbbbbbbbbbbbbbbbbbbbbbbbbbbbbbbbbbb"

abbrev event : ℕ → Bytes → Event
event n payload = record {
  sequence = n;
  event_id = sample_id;
  kind = codes "plugin.status";
  observed_at = utc noon;
  payload = payload;
}

abbrev batch : EventBatch
batch = record {
  api_version = codes "relayward.agent/v1";
  node_id = node;
  stream_id = stream;
  first_sequence = 4;
  last_sequence = 5;
  events = event 4 (codes "{}") ∷ event 5 (codes "{}") ∷ [];
}

batch_accepted : validate_event_batch sample_hash sample_codec batch ≡ pass
unfolding validate_event_batch relayward_sdk.Base.beq validate_node_id match_string
    relayward_sdk.Agent.Events.check_bounds relayward_sdk.Agent.Events.last_sequence_of
    relayward_sdk.Agent.Events.check_events validate_event_for_node
    relayward_sdk.Agent.Events.validate_event validate_event_content Json.valid event_id
    Json.compact relayward_sdk.Encoding.hex_encode event_preimage
    relayward_sdk.Agent.Events.digest_field relayward_sdk.Encoding.put_uint64
    relayward_sdk.Base.Int.◌*ℤ◌ relayward_sdk.Base.Int.◌+ℤ◌ relayward_sdk.Clock.Calendar.append_int
    relayward_sdk.Clock.Calendar.civil relayward_sdk.Clock.Calendar.civil_of_day
    relayward_sdk.Clock.Calendar.days_before_year relayward_sdk.Clock.Calendar.days_in_month
    relayward_sdk.Clock.Calendar.find_month relayward_sdk.Clock.Calendar.format_utc
    relayward_sdk.Clock.Calendar.is_leap relayward_sdk.Clock.Calendar.local_seconds
    relayward_sdk.Clock.Calendar.year_of_cycle relayward_sdk.Encoding.hex_digit Json.scan
batch_accepted = refl

made :
    new_event sample_hash node stream 4 (codes "plugin.status") noon (ok (codes "{}"))
    ≡ ok (event 4 (codes "{}"))
unfolding new_event event_id validate_node_id match_string validate_event_content Json.valid
    Json.compact relayward_sdk.Encoding.hex_encode event_preimage
    relayward_sdk.Agent.Events.digest_field relayward_sdk.Encoding.put_uint64
    relayward_sdk.Clock.Calendar.format_utc relayward_sdk.Base.Int.◌+ℤ◌ relayward_sdk.Base.Int.◌*ℤ◌
made = refl

node_accepted : validate_node_id node ≡ pass
unfolding validate_node_id match_string
node_accepted = refl

stream_accepted : match_string message_id_pattern stream ≡ true
unfolding match_string
stream_accepted = refl

content_accepted : validate_event_content (record (event 4 (codes "{}")) { event_id = [] }) ≡ pass
unfolding validate_event_content match_string Json.valid
content_accepted = refl

identified : event_id sample_hash node stream (event 4 (codes "{}")) ≡ ok sample_id
unfolding event_id validate_node_id match_string validate_event_content Json.valid Json.compact
    relayward_sdk.Encoding.hex_encode event_preimage relayward_sdk.Agent.Events.digest_field
    relayward_sdk.Encoding.put_uint64 relayward_sdk.Clock.Calendar.format_utc
    relayward_sdk.Base.Int.◌+ℤ◌ relayward_sdk.Base.Int.◌*ℤ◌
identified = refl

identified_spaced : event_id sample_hash node stream (event 4 (codes "{ }")) ≡ ok sample_id
unfolding event_id validate_node_id match_string validate_event_content Json.valid Json.compact
    relayward_sdk.Encoding.hex_encode event_preimage relayward_sdk.Agent.Events.digest_field
    relayward_sdk.Encoding.put_uint64 relayward_sdk.Clock.Calendar.format_utc
    relayward_sdk.Base.Int.◌+ℤ◌ relayward_sdk.Base.Int.◌*ℤ◌
identified_spaced = refl

accepted_batch_example : Numbered sample_hash node stream 4 batch.events
accepted_batch_example = (accepted_batch sample_hash sample_codec batch batch_accepted).0

new_event-accepted_example :
    validate_event_for_node sample_hash node stream (event 4 (codes "{}")) ≡ pass
new_event-accepted_example =
    (new_event-accepted sample_hash sample_hash-IsDigest node stream 4 (codes "plugin.status") noon
      (codes "{}") (event 4 (codes "{}")) made).0

new_event_iff_example :
    (e : Event) × (new_event sample_hash node stream 4
        (codes "plugin.status")
        noon
        (ok (codes "{}"))
      ≡ ok e)
unfolding match_string Json.valid
new_event_iff_example =
    (new_event_iff sample_hash node stream 4 (codes "plugin.status") noon (codes "{}")).1 (
      node_accepted,
      stream_accepted,
      omega arith,
      omega arith,
      refl,
      omega arith,
      refl,
      omega arith,
      omega arith,
      refl,
    )

noon-InRange : InRange noon
noon-InRange = (omega arith, omega arith)

-- Two events whose payloads differ in their spaces.
event_id-SameContent_example :
    (p q : Bytes) × (Json.compact (codes "{}") ≡ ok p)
    × (Json.compact (codes "{ }") ≡ ok q)
    × (SameContent
          (content node stream (event 4 (codes "{}")) p)
          (content node stream (event 4 (codes "{ }")) q)
        ⊎ Collide sample_hash
            (event_preimage node stream (event 4 (codes "{}")) p)
            (event_preimage node stream (event 4 (codes "{ }")) q))
event_id-SameContent_example =
    event_id-SameContent sample_hash sample_hash-IsDigest node stream (event 4 (codes "{}")) node
      stream (event 4 (codes "{ }")) sample_id noon-InRange noon-InRange identified
      identified_spaced
