-- ===== src/Agent/Events/Identity.antt =====
-- Event IDs: what is hashed determines the event, and `NewEvent` makes accepted events.
use mathlib.Core.List.{append_assoc}
use relayward_sdk.Base.{
  ℕ, ◌^◌, ◌≤◌, ◌<◌, ◌≡◌, refl, sym, ap, ◌∙◌, ◌⊎◌, inl, inr, true, [], ◌++◌, Bytes, arith, length,
  beq, beq_iff, Bool-cases, Result-cases, ok, pass,
}
use relayward_sdk.Regex.{match_string}
use relayward_sdk.Regex.Bounds.{length-match_string}
use relayward_sdk.Clock.Calendar.{format_utc}
use relayward_sdk.Clock.Calendar.Format.{length-format_utc}
use relayward_sdk.Clock.Calendar.Read.{InRange, format_utc-injective}
use relayward_sdk.Json
use relayward_sdk.Json.Compact.{length-compact}
use relayward_sdk.Encoding.{hex_encode, put_uint64}
use relayward_sdk.Encoding.Laws.{
  append-cancel, length-put_uint64, put_uint64-injective, hex_encode-injective,
}
use relayward_sdk.Hash.{IsDigest, Collide}
use relayward_sdk.Agent.Validate.{message_id_pattern, node_id_pattern}
use relayward_sdk.Agent.Register.{api_version, validate_node_id}
use relayward_sdk.Agent.Events.{
  Event, validate_event_content, digest_field, event_preimage, event_id,
  maximum_event_payload_bytes, max_int64,
}

-- A field is read back from the front of what follows it.
digest_field-cancel :
    (a b s t : Bytes)
    → length a < 2 ^ 64
    → length b < 2 ^ 64
    → digest_field a ++ s ≡ digest_field b ++ t
    → (a ≡ b) × (s ≡ t)
unfolding digest_field
digest_field-cancel a b s t la lb e =
    let (p, q) =
      append-cancel (put_uint64 (length a)) (put_uint64 (length b)) (a ++ s) (b ++ t)
        (length-put_uint64 (length a) ∙ sym (length-put_uint64 (length b)))
        (sym (append_assoc (put_uint64 (length a)) a s)
          ∙ e
          ∙ append_assoc (put_uint64 (length b)) b t) in
    append-cancel a b s t (put_uint64-injective (length a) (length b) la lb p) q

number-cancel :
    (m n : ℕ) (s t : Bytes)
    → m < 2 ^ 64
    → n < 2 ^ 64
    → put_uint64 m ++ s ≡ put_uint64 n ++ t
    → (m ≡ n) × (s ≡ t)
number-cancel m n s t hm hn e =
    let (p, q) =
      append-cancel (put_uint64 m) (put_uint64 n) s t
        (length-put_uint64 m ∙ sym (length-put_uint64 n)) e in
    (put_uint64-injective m n hm hn p, q)

-- What `EventID` hashes of an event: all but its ID, with the payload compact.
pub record Content : Type 0 where
  pub node_id : Bytes
  pub stream_id : Bytes
  pub event : Event
  pub payload : Bytes

abbrev pub preimage : Content → Bytes
preimage c = event_preimage c.node_id c.stream_id c.event c.payload

-- The lengths fit in the eight bytes that announce them, and the seconds in an int64.
pub record Fits (c : Content) : Type 0 where
  pub node_fits : length c.node_id < 2 ^ 64
  pub stream_fits : length c.stream_id < 2 ^ 64
  pub sequence_fits : c.event.sequence < 2 ^ 64
  pub kind_fits : length c.event.kind < 2 ^ 64
  pub payload_fits : length c.payload < 2 ^ 64
  pub time_fits : InRange c.event.observed_at

-- The two have the same node, stream, sequence, kind, instant of observation and payload.
pub record SameContent (c d : Content) : Type 0 where
  pub same_node : c.node_id ≡ d.node_id
  pub same_stream : c.stream_id ≡ d.stream_id
  pub same_sequence : c.event.sequence ≡ d.event.sequence
  pub same_kind : c.event.kind ≡ d.event.kind
  pub same_time : c.event.observed_at.nanos ≡ d.event.observed_at.nanos
  pub same_payload : c.payload ≡ d.payload

preimage-SameContent : (c d : Content) → Fits c → Fits d → preimage c ≡ preimage d → SameContent c d
unfolding event_preimage
preimage-SameContent c d f g e =
    let (_, e₁) = digest_field-cancel api_version api_version _ _ (omega arith) (omega arith) e in
    let (node, e₂) = digest_field-cancel c.node_id d.node_id _ _ f.node_fits g.node_fits e₁ in
    let (stream, e₃) =
      digest_field-cancel c.stream_id d.stream_id _ _ f.stream_fits g.stream_fits e₂ in
    let (sequence, e₄) =
      number-cancel c.event.sequence d.event.sequence _ _ f.sequence_fits g.sequence_fits e₃ in
    let (kind, e₅) = digest_field-cancel c.event.kind d.event.kind _ _ f.kind_fits g.kind_fits e₄ in
    let (time, e₆) =
      digest_field-cancel (format_utc c.event.observed_at) (format_utc d.event.observed_at) _ _
        (omega (arith, length-format_utc c.event.observed_at))
        (omega (arith, length-format_utc d.event.observed_at)) e₅ in
    let (payload, _) =
      digest_field-cancel c.payload d.payload [] [] f.payload_fits g.payload_fits
        (ap (λ s. s ++ []) e₆) in
    record {
      same_node = node;
      same_stream = stream;
      same_sequence = sequence;
      same_kind = kind;
      same_time =
          format_utc-injective c.event.observed_at d.event.observed_at f.time_fits g.time_fits time;
      same_payload = payload;
    }

abbrev pub content : Bytes → Bytes → Event → Bytes → Content
content node_id stream_id event payload = record {
  node_id = node_id;
  stream_id = stream_id;
  event = event;
  payload = payload;
}

node_id-short : (s : Bytes) → validate_node_id s ≡ pass → length s ≤ 36
unfolding validate_node_id
node_id-short s h = ground (arith, length-match_string node_id_pattern s refl)

content-short :
    (e : Event)
    → validate_event_content e ≡ pass
    → (e.sequence ≤ max_int64)
      × (length e.kind ≤ 128)
      × (length e.payload ≤ maximum_event_payload_bytes)
unfolding validate_event_content
content-short e h = ground arith

-- An ID that was given is the hash of a content whose lengths fit.
pub record Identified (sha256 : Bytes → Bytes) (node_id stream_id : Bytes) (e : Event) (id : Bytes)
    : Type 0 where
  pub payload : Bytes
  pub compacts : Json.compact e.payload ≡ ok payload
  pub hashed : id ≡ hex_encode (sha256 (event_preimage node_id stream_id e payload))
  pub node_ok : validate_node_id node_id ≡ pass
  pub stream_ok : match_string message_id_pattern stream_id ≡ true
  pub content_ok : validate_event_content e ≡ pass

event_id-Identified :
    (sha256 : Bytes → Bytes) (node_id stream_id : Bytes) (e : Event) (id : Bytes)
    → event_id sha256 node_id stream_id e ≡ ok id
    → Identified sha256 node_id stream_id e id
unfolding event_id
event_id-Identified sha256 node_id stream_id e id h = elim (Result-cases (Json.compact e.payload)) [
  | inl (payload, c) ↦ record {
    payload = payload;
    compacts = c;
    hashed = ground arith;
    node_ok = ground arith;
    stream_ok = ground arith;
    content_ok = ground arith;
  }
  | inr (x, c) ↦ absurd (ground arith)
]

module _ {sha256 : Bytes → Bytes} {node_id stream_id : Bytes} {e : Event} {id : Bytes} where
  Identified-Fits :
      (i : Identified sha256 node_id stream_id e id)
      → InRange e.observed_at
      → Fits (content node_id stream_id e i.payload)
  Identified-Fits i ranged =
      let (sequence, kind, payload) = content-short e i.content_ok in
      record {
        node_fits = omega (arith, node_id-short node_id i.node_ok);
        stream_fits =
            omega (arith, length-match_string message_id_pattern stream_id refl i.stream_ok);
        sequence_fits = omega arith;
        kind_fits = omega arith;
        payload_fits = omega (arith, length-compact e.payload i.compacts);
        time_fits = ranged;
      }

-- Where two events are given one ID, and the seconds of their times of observation are int64s, they
-- agree in node, stream, sequence, kind, instant of observation and compact payload, or they show
-- two texts with one SHA-256.
pub event_id-SameContent :
    (sha256 : Bytes → Bytes)
    → IsDigest sha256
    → (node₁ stream₁ : Bytes) (e₁ : Event) (node₂ stream₂ : Bytes) (e₂ : Event) (id : Bytes)
    → InRange e₁.observed_at
    → InRange e₂.observed_at
    → event_id sha256 node₁ stream₁ e₁ ≡ ok id
    → event_id sha256 node₂ stream₂ e₂ ≡ ok id
    → (p q : Bytes) × (Json.compact e₁.payload ≡ ok p)
      × (Json.compact e₂.payload ≡ ok q)
      × (SameContent (content node₁ stream₁ e₁ p) (content node₂ stream₂ e₂ q)
          ⊎ Collide sha256 (event_preimage node₁ stream₁ e₁ p) (event_preimage node₂ stream₂ e₂ q))
event_id-SameContent sha256 law node₁ stream₁ e₁ node₂ stream₂ e₂ id r₁ r₂ h k =
    let i = event_id-Identified sha256 node₁ stream₁ e₁ id h in
    let j = event_id-Identified sha256 node₂ stream₂ e₂ id k in
    let s = event_preimage node₁ stream₁ e₁ i.payload in
    let t = event_preimage node₂ stream₂ e₂ j.payload in
    let same : sha256 s ≡ sha256 t =
      hex_encode-injective (sha256 s) (sha256 t) (law.sha256-AreBytes s) (law.sha256-AreBytes t)
        (sym i.hashed ∙ j.hashed) in
    (
      i.payload,
      j.payload,
      i.compacts,
      j.compacts,
      elim (Bool-cases (beq s t)) [
        | inl b ↦ inl (
            preimage-SameContent _ _ (Identified-Fits i r₁) (Identified-Fits j r₂)
              ((beq_iff s t).0 b))
        | inr b ↦ inr (λ p. cc (b, (beq_iff s t).1 p), same)
      ],
    )
