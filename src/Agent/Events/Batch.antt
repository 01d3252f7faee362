-- ===== src/Agent/Events/Batch.antt =====
-- What an accepted event batch holds.
use relayward_sdk.Base.{
  ℕ, zero, suc, ◌+◌, ◌≤◌, ◌≡◌, refl, Bytes, List, [], ◌∷◌, none, some, length, get_elem?, arith,
  pass,
}
use relayward_sdk.Json.{Codec}
use relayward_sdk.Agent.Events.{
  Event, EventBatch, max_int64, maximum_event_batch_events, validate_event_content, validate_event,
  validate_event_for_node, check_events, check_bounds, last_sequence_of, validate_event_batch,
}

-- The events are numbered from `first` on, and each is accepted for the node and the stream.
abbrev pub Numbered : (Bytes → Bytes) → Bytes → Bytes → ℕ → List Event → Type 0
Numbered sha256 node_id stream_id first [] = Unit
Numbered sha256 node_id stream_id first (event ∷ rest) =
    (event.sequence ≡ first)
    × (validate_event_for_node sha256 node_id stream_id event ≡ pass)
    × Numbered sha256 node_id stream_id (first + 1) rest

module _ (sha256 : Bytes → Bytes) where
  sequence_range :
      (node_id stream_id : Bytes) (e : Event)
      → validate_event_for_node sha256 node_id stream_id e ≡ pass
      → (1 ≤ e.sequence) × (e.sequence ≤ max_int64)
  unfolding validate_event_for_node validate_event validate_event_content
  sequence_range node_id stream_id e h = ground arith

  check_events-Numbered :
      (node_id stream_id : Bytes) (index previous : ℕ) (events : List Event)
      → previous ≤ max_int64
      → check_events sha256 node_id stream_id index (some previous) events ≡ pass
      → Numbered sha256 node_id stream_id (previous + 1) events
  unfolding check_events
  check_events-Numbered node_id stream_id index previous [] b h = tt
  check_events-Numbered node_id stream_id index previous (event ∷ rest) b h = ground (
    arith,
    sequence_range node_id stream_id event,
    check_events-Numbered node_id stream_id (index + 1) event.sequence rest,
  )

  last_sequence_of-eq :
      (node_id stream_id : Bytes) (event : Event) (rest : List Event)
      → Numbered sha256 node_id stream_id (event.sequence + 1) rest
      → last_sequence_of event rest ≡ event.sequence + length rest
  unfolding last_sequence_of
  last_sequence_of-eq node_id stream_id event [] n = omega arith
  last_sequence_of-eq node_id stream_id event (next ∷ rest) n =
      ground (arith, last_sequence_of-eq node_id stream_id next rest)

  -- The loop and the bounds, for events that are not empty.
  accepted_events :
      (batch : EventBatch) (events : List Event)
      → batch.events ≡ events
      → check_bounds batch ≡ pass
      → check_events sha256 batch.node_id batch.stream_id 0 none events ≡ pass
      → Numbered sha256 batch.node_id batch.stream_id batch.first_sequence events
        × (batch.first_sequence + length events ≡ batch.last_sequence + 1)
  unfolding check_bounds check_events
  accepted_events batch [] e b h = absurd (ground arith)
  accepted_events batch (event ∷ rest) e b h = ground (
    arith,
    sequence_range batch.node_id batch.stream_id event,
    check_events-Numbered batch.node_id batch.stream_id 1 event.sequence rest,
    last_sequence_of-eq batch.node_id batch.stream_id event rest,
  )

  -- An accepted batch has 1 to 500 events, numbered without a gap from `first_sequence` to
  -- `last_sequence`, each of them accepted for the node and the stream of the batch.
  pub accepted_batch :
      (codec : Codec EventBatch) (batch : EventBatch)
      → validate_event_batch sha256 codec batch ≡ pass
      → Numbered sha256 batch.node_id batch.stream_id batch.first_sequence batch.events
        × (batch.first_sequence + length batch.events ≡ batch.last_sequence + 1)
        × (1 ≤ length batch.events)
        × (length batch.events ≤ maximum_event_batch_events)
  unfolding validate_event_batch
  accepted_batch codec batch h = ground (arith, accepted_events batch batch.events refl)

-- The event at place `i` of numbered events.
pub Numbered-get_elem? :
    (sha256 : Bytes → Bytes) (node_id stream_id : Bytes) (first i : ℕ) (events : List Event)
    {e : Event}
    → Numbered sha256 node_id stream_id first events
    → get_elem? events i ≡ some e
    → e.sequence ≡ first + i
Numbered-get_elem? sha256 node_id stream_id first i [] n h = cc
Numbered-get_elem? sha256 node_id stream_id first zero (x ∷ events) n h = ground arith
Numbered-get_elem? sha256 node_id stream_id first (suc i) (x ∷ events) n h =
    omega (arith, Numbered-get_elem? sha256 node_id stream_id (first + 1) i events n.2 h)
