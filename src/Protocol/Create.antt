-- ===== src/Protocol/Create.antt =====
-- Envelopes that `NewEnvelopeFor` makes.
use relayward_sdk.Base.{
  ℕ, ◌≡◌, refl, true, false, [], ◌==◌, Bytes, arith, beq, beq_refl, length, ltb, ok, pass,
}
use relayward_sdk.Regex.{match_string}
use relayward_sdk.Clock.{Time, is_zero, utc}
use relayward_sdk.Json
use relayward_sdk.Encoding.{hex_encode}
use relayward_sdk.Encoding.Laws.{AreBytes, hex_encode-matches}
use relayward_sdk.Contract.{is_message_api_version}
use relayward_sdk.Protocol.{
  RandomSource, Envelope, type_pattern, new_envelope_for, new_id, validate_envelope,
  validate_envelope_fields, validate_envelope_version,
}

-- `rand.Read` fills its buffer with bytes.
pub record FillsBuffer (random : RandomSource) : Type 0 where
  pub length-random : (n : ℕ) (value : Bytes) → random n ≡ ok value → length value ≡ n
  pub random-AreBytes : (n : ℕ) (value : Bytes) → random n ≡ ok value → AreBytes value

-- Where the random source gives bytes for a buffer of sixteen, from a clock that is set, a message version, a valid type of at most 128
-- bytes and a payload that is valid JSON, `NewEnvelopeFor` makes an envelope that
-- `ValidateEnvelopeVersion` accepts for that version, with the type and the payload given, sent at
-- the time of the clock, and with no correlation or idempotency key.
pub new_envelope_for-accepted :
    (random : RandomSource) (value : Bytes) (now : Time) (api_version message_type payload : Bytes)
    → FillsBuffer random
    → random 16 ≡ ok value
    → is_zero now ≡ false
    → is_message_api_version api_version ≡ true
    → match_string type_pattern message_type ≡ true
    → ltb 128 (length message_type) ≡ false
    → (length payload == 0) ≡ false
    → Json.valid payload ≡ true
    → (e : Envelope) × (new_envelope_for random now api_version message_type (ok payload) ≡ ok e)
      × (validate_envelope_version e api_version ≡ pass)
      × (e.type_name ≡ message_type)
      × (e.payload ≡ payload)
      × (e.sent_at ≡ utc now)
      × (e.correlation_id ≡ [])
      × (e.idempotency_key ≡ [])
unfolding new_envelope_for new_id validate_envelope validate_envelope_version
    validate_envelope_fields beq
new_envelope_for-accepted random value now api_version message_type payload fills read z v t n p q =
    let id =
      hex_encode-matches 32 value (omega (arith, fills.length-random 16 value read))
        (fills.random-AreBytes 16 value read) in
    (
      record {
        api_version = api_version;
        id = hex_encode value;
        type_name = message_type;
        sent_at = utc now;
        correlation_id = [];
        idempotency_key = [];
        payload = payload;
      },
      ground (arith, id),
      ground (arith, id, beq_refl api_version),
      refl,
      refl,
      refl,
      refl,
      refl,
    )
