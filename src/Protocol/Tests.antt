-- ===== src/Protocol/Tests.antt =====
-- Examples of the theorems on envelopes.
use mathlib.Core.Path.{subst}
use relayward_sdk.Base.{
  length, ◌+◌, ◌≡◌, arith, refl, true, false, [], ◌∷◌, Bytes, codes, ok, pass, length, ◌==◌, ltb,
}
use relayward_sdk.Base.Int.{pos}
use relayward_sdk.Clock.{Time, utc_location, utc}
use relayward_sdk.Json
use relayward_sdk.Regex.{match_string}
use relayward_sdk.Encoding.Laws.{AreBytes}
use relayward_sdk.Hash.Samples.{copies, length-copies, copies-AreBytes}
use relayward_sdk.Contract.{is_message_api_version}
use relayward_sdk.Protocol.{
  RandomSource, Envelope, type_pattern, new_envelope_for, validate_envelope_version,
}
use relayward_sdk.Protocol.Create.{FillsBuffer, new_envelope_for-accepted}

abbrev noon : Time
noon = record { nanos = pos 5; location = utc_location }

abbrev sevens : RandomSource
sevens n = ok (copies n 7)

sevens-FillsBuffer : FillsBuffer sevens
sevens-FillsBuffer = record {
  length-random = λ n value read.
      let same : copies n 7 ≡ value = ground arith in
      subst (λ s. length s ≡ n) same (length-copies n 7);
  random-AreBytes = λ n value read.
      let same : copies n 7 ≡ value = ground arith in
      subst AreBytes same (copies-AreBytes n 7 (omega arith));
}

version_known : is_message_api_version (codes "relayward.agent/v1") ≡ true
unfolding is_message_api_version relayward_sdk.Base.beq
version_known = refl

type_accepted : match_string type_pattern (codes "agent.hello") ≡ true
unfolding match_string
type_accepted = refl

payload_valid : Json.valid (codes "{}") ≡ true
unfolding Json.valid
payload_valid = refl

new_envelope_for-accepted_example :
    (e : Envelope) × (new_envelope_for sevens noon
        (codes "relayward.agent/v1")
        (codes "agent.hello")
        (ok (codes "{}"))
      ≡ ok e)
    × (validate_envelope_version e (codes "relayward.agent/v1") ≡ pass)
    × (e.type_name ≡ codes "agent.hello")
    × (e.payload ≡ codes "{}")
    × (e.sent_at ≡ utc noon)
    × (e.correlation_id ≡ [])
    × (e.idempotency_key ≡ [])
new_envelope_for-accepted_example =
    new_envelope_for-accepted sevens (copies 16 7) noon (codes "relayward.agent/v1")
      (codes "agent.hello") (codes "{}") sevens-FillsBuffer refl refl version_known type_accepted
      refl refl payload_valid
