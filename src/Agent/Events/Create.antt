-- ===== src/Agent/Events/Create.antt =====
-- `NewEvent` makes events that `ValidateEventForNode` accepts, and fails only for its inputs.
use mathlib.Core.Path.{subst}
use relayward_sdk.Base.{
  ℕ, ◌≤◌, ◌^◌, ◌-◌, ◌↔◌, length, ◌≡◌, refl, ◌∙◌, inl, inr, true, false, [], Bytes, arith, beq_refl,
  Result-cases, ok, pass,
}
use relayward_sdk.Regex.{match_string}
use relayward_sdk.Clock.{Time, utc, is_zero}
use relayward_sdk.Json
use relayward_sdk.Json.Compact.{compact_total}
use relayward_sdk.Encoding.{hex_encode}
use relayward_sdk.Encoding.Laws.{hex_encode-matches}
use relayward_sdk.Hash.{IsDigest}
use relayward_sdk.Agent.Validate.{message_id_pattern}
use relayward_sdk.Agent.Register.{validate_node_id}
use relayward_sdk.Agent.Commands.{digest_pattern}
use relayward_sdk.Agent.Events.{
  Event, kind_pattern, validate_event_content, event_id, event_preimage, new_event, validate_event,
  validate_event_for_node,
}

-- The ID of an event does not depend on the ID that it carries.
event_id-record :
    (sha256 : Bytes → Bytes) (node_id stream_id : Bytes) (e : Event) (id : Bytes)
    → event_id sha256 node_id stream_id (record e { event_id = id })
      ≡ event_id sha256 node_id stream_id e
unfolding event_id event_preimage validate_event_content
event_id-record sha256 node_id stream_id e id = refl

event_id-content :
    (sha256 : Bytes → Bytes) (node_id stream_id : Bytes) (e : Event) (id : Bytes)
    → event_id sha256 node_id stream_id e ≡ ok id
    → validate_event_content e ≡ pass
unfolding event_id
event_id-content sha256 node_id stream_id e id h = ground arith

content-valid : (e : Event) → validate_event_content e ≡ pass → Json.valid e.payload ≡ true
unfolding validate_event_content
content-valid e h = ground arith

-- The event before it has its ID.
abbrev draft : ℕ → Bytes → Time → Bytes → Event
draft sequence kind observed_at raw = record {
  sequence = sequence;
  event_id = [];
  kind = kind;
  observed_at = utc observed_at;
  payload = raw;
}

module _ (sha256 : Bytes → Bytes) (law : IsDigest sha256) where
  event_id-digest :
      (node_id stream_id : Bytes) (e : Event) (id : Bytes)
      → event_id sha256 node_id stream_id e ≡ ok id
      → match_string digest_pattern id ≡ true
  unfolding event_id
  event_id-digest node_id stream_id e id h = elim (Result-cases (Json.compact e.payload)) [
    | inl (payload, c) ↦
        let digest = sha256 (event_preimage node_id stream_id e payload) in
        ground (
          arith,
          hex_encode-matches 64 digest
              (omega (arith, law.length-sha256 (event_preimage node_id stream_id e payload)))
              (law.sha256-AreBytes (event_preimage node_id stream_id e payload)),
        )
    | inr (x, c) ↦ absurd (ground arith)
  ]

  -- An event whose ID is the one computed for it is accepted.
  validate_event_for_node-event_id :
      (node_id stream_id : Bytes) (e : Event)
      → event_id sha256 node_id stream_id e ≡ ok e.event_id
      → validate_event_for_node sha256 node_id stream_id e ≡ pass
  unfolding validate_event_for_node validate_event
  validate_event_for_node-event_id node_id stream_id e h = ground (
    arith,
    event_id-digest node_id stream_id e e.event_id h,
    event_id-content sha256 node_id stream_id e e.event_id h,
    beq_refl e.event_id,
  )

  draft-accepted :
      (node_id stream_id : Bytes) (e : Event) (id : Bytes)
      → event_id sha256 node_id stream_id e ≡ ok id
      → validate_event_for_node sha256 node_id stream_id (record e { event_id = id }) ≡ pass
  draft-accepted node_id stream_id e id h =
      validate_event_for_node-event_id node_id stream_id (record e { event_id = id })
        (event_id-record sha256 node_id stream_id e id ∙ h)

  -- Whatever `NewEvent` returns is accepted for its node and stream, carries the sequence, the kind
  -- and the payload given, and is observed at the given instant.
  pub new_event-accepted :
      (node_id stream_id : Bytes) (sequence : ℕ) (kind : Bytes) (observed_at : Time) (raw : Bytes)
      (e : Event)
      → new_event sha256 node_id stream_id sequence kind observed_at (ok raw) ≡ ok e
      → (validate_event_for_node sha256 node_id stream_id e ≡ pass)
        × (e.sequence ≡ sequence)
        × (e.kind ≡ kind)
        × (e.observed_at ≡ utc observed_at)
        × (e.payload ≡ raw)
  unfolding new_event
  new_event-accepted node_id stream_id sequence kind observed_at raw e h =
      let d = draft sequence kind observed_at raw in
      elim (Result-cases (event_id sha256 node_id stream_id d)) [
        | inl (id, c) ↦
            let made : record d { event_id = id } ≡ e = ground arith in
            subst
              (λ (v : Event).
                (validate_event_for_node sha256 node_id stream_id v ≡ pass)
                × (v.sequence ≡ sequence)
                × (v.kind ≡ kind)
                × (v.observed_at ≡ utc observed_at)
                × (v.payload ≡ raw))
              made (draft-accepted node_id stream_id d id c, refl, refl, refl, refl)
        | inr (x, c) ↦ absurd (ground arith)
      ]

-- `NewEvent` returns an event exactly for a valid node and stream, a sequence from 1 to the
-- largest int64, a valid kind of at most 128 bytes, a time that is set, and an encoded payload of
-- 1 to 262144 bytes that is valid JSON.
pub new_event_iff :
    (sha256 : Bytes → Bytes) (node_id stream_id : Bytes) (sequence : ℕ) (kind : Bytes)
    (observed_at : Time) (raw : Bytes)
    → ((e : Event) × (new_event sha256 node_id stream_id sequence kind observed_at (ok raw) ≡ ok e))
      ↔ ((validate_node_id node_id ≡ pass)
          × (match_string message_id_pattern stream_id ≡ true)
          × (1 ≤ sequence)
          × (sequence ≤ 2 ^ 63 - 1)
          × (match_string kind_pattern kind ≡ true)
          × (length kind ≤ 128)
          × (is_zero observed_at ≡ false)
          × (1 ≤ length raw)
          × (length raw ≤ 262144)
          × (Json.valid raw ≡ true))
unfolding new_event event_id validate_event_content
new_event_iff sha256 node_id stream_id sequence kind observed_at raw =
    let d = draft sequence kind observed_at raw in
    (
      λ (e, made). ground arith,
      λ (n, s, lo, hi, k, short, set, some_bytes, few, valid).
          let (payload, compacts) = compact_total raw valid in
          (
            record d {
              event_id = hex_encode (sha256 (event_preimage node_id stream_id d payload));
            },
            ground arith,
          ),
    )
