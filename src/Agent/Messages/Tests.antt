-- ===== src/Agent/Messages/Tests.antt =====
-- Examples of the theorems on the messages of the stream.
use relayward_sdk.Base.{
  ℕ, ◌+◌, ◌*◌, ◌^◌, ◌≡◌, refl, ◌↔◌, true, false, [], Bytes, codes, arith, some, ok, pass,
}
use relayward_sdk.Base.Int.{◌*ℤ◌, ◌≤ℤ◌, pos}
use relayward_sdk.Clock.{Time, utc_location, is_zero}
use relayward_sdk.Json.{Codec, value, end_of_input}
use relayward_sdk.Regex.{match_string}
use relayward_sdk.Protocol.{Envelope}
use relayward_sdk.Agent.Validate.{message_id_pattern}
use relayward_sdk.Agent.Messages.{
  CenterHello, HeartbeatAck, Codecs, validate_center_hello, validate_envelope, validate_envelope_by,
}
use relayward_sdk.Agent.Messages.Depth.{validate_envelope_total}
use relayward_sdk.Agent.Messages.Interval.{accepted_interval_iff, overflow_accepted}

abbrev noon : Time
noon = record { nanos = pos 5; location = utc_location }

abbrev session : Bytes
session = codes "0123456789abcdef0123456789abcdef"

abbrev hello : ℕ → CenterHello
hello n = record { session_id = session; heartbeat_interval_seconds = pos n; server_time = noon }

session_accepted : match_string message_id_pattern session ≡ true
unfolding match_string
session_accepted = refl

accepted_interval_iff_example : (validate_center_hello (hello 30) ≡ pass) ↔ (
    (match_string message_id_pattern session ≡ true)
    × (pos 5 ≤ℤ pos 30)
    × (pos 30 ≤ℤ pos 300)
    × (is_zero noon ≡ false))
unfolding ◌*ℤ◌
accepted_interval_iff_example = accepted_interval_iff (hello 30) (omega arith) (omega arith)

overflow_accepted_example : validate_center_hello (hello (30 + 1 * 2 ^ 55)) ≡ pass
overflow_accepted_example =
    overflow_accepted (hello 30) 30 1 session_accepted refl (omega arith) (omega arith)
      (omega arith)

abbrev envelope : Bytes → Envelope
envelope type_name = record {
  api_version = codes "relayward.agent/v1";
  id = session;
  type_name = type_name;
  sent_at = noon;
  correlation_id = [];
  idempotency_key = [];
  payload = codes "{}";
}

-- Decodes nothing.
abbrev no_codec {ℓ} : {A : Type ℓ} → Codec A
no_codec = record {
  marshal = λ a. ok (codes "{}");
  next = λ raw. end_of_input;
  trailing = λ raw. end_of_input;
}

-- Decodes every text as an acknowledgement that carries an envelope.
abbrev ack_codec : Envelope → Codec HeartbeatAck
ack_codec carried = record {
  marshal = λ a. ok (codes "{}");
  next =
      λ raw. value (record { message_id = session; server_time = noon; command = some carried }) [];
  trailing = λ raw. end_of_input;
}

abbrev codecs : Codecs
codecs = record {
  agent_hello = no_codec;
  center_hello = no_codec;
  heartbeat = no_codec;
  heartbeat_ack = ack_codec (envelope (codes "center.command"));
  command = no_codec;
  command_result = no_codec;
  command_result_ack = no_codec;
  problem = no_codec;
}

validate_envelope_total_example :
    validate_envelope codecs (envelope (codes "center.heartbeat_ack"))
    ≡ validate_envelope_by codecs
        (validate_envelope_by codecs (λ e. pass))
        (envelope (codes "center.heartbeat_ack"))
validate_envelope_total_example =
    validate_envelope_total codecs (λ e. pass) (envelope (codes "center.heartbeat_ack"))
