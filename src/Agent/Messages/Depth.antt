-- ===== src/Agent/Messages/Depth.antt =====
-- The recursion between `ValidateEnvelope` and `ValidateHeartbeatAck` ends at the second level.
use mathlib.Core.Path.{fun_ext}
use relayward_sdk.Base.{
  ◌≡◌, refl, inl, inr, true, Option, none, some, beq, beq_iff, Bool-cases, Check,
}
use relayward_sdk.Protocol.{Envelope}
use relayward_sdk.Agent.Messages.{
  HeartbeatAck, Codecs, check_command, validate_heartbeat_ack_by, message_center_command,
  validate_payload, validate_envelope_by, validate_envelope,
}

module _ (codecs : Codecs) where
  -- The payload of a command envelope is checked without the recursion.
  validate_payload-command :
      (f g : Envelope → Check) (e : Envelope)
      → beq e.type_name message_center_command ≡ true
      → validate_payload codecs f e ≡ validate_payload codecs g e
  unfolding validate_payload beq
  validate_payload-command f g e h =
      let p = (beq_iff e.type_name message_center_command).0 h in rw (p, validate_payload)

  module _ (f g : Envelope → Check) where
    -- The two agree wherever `ValidateHeartbeatAck` calls them.
    abbrev Agree : Type 0
    Agree = (e : Envelope) → beq e.type_name message_center_command ≡ true → f e ≡ g e

    check_command-Agree : Agree → (c : Option Envelope) → check_command f c ≡ check_command g c
    unfolding check_command
    check_command-Agree a none = refl
    check_command-Agree a (some c) = elim (Bool-cases (beq c.type_name message_center_command)) [
      | inl h ↦ rw (a c h)
      | inr h ↦ rw h
    ]

    validate_heartbeat_ack_by-Agree :
        Agree
        → (ack : HeartbeatAck) → validate_heartbeat_ack_by f ack ≡ validate_heartbeat_ack_by g ack
    unfolding validate_heartbeat_ack_by
    validate_heartbeat_ack_by-Agree a ack = rw (check_command-Agree a ack.command)

    validate_payload-Agree :
        Agree → (e : Envelope) → validate_payload codecs f e ≡ validate_payload codecs g e
    unfolding validate_payload
    validate_payload-Agree a e = rw (fun_ext (validate_heartbeat_ack_by-Agree a))

  validate_envelope_by-command :
      (f g : Envelope → Check) (e : Envelope)
      → beq e.type_name message_center_command ≡ true
      → validate_envelope_by codecs f e ≡ validate_envelope_by codecs g e
  unfolding validate_envelope_by
  validate_envelope_by-command f g e h = rw (validate_payload-command f g e h)

  -- Whatever a third level would answer, two levels of `ValidateEnvelope` give the same result.
  two_levels :
      (f g : Envelope → Check) (e : Envelope)
      → validate_envelope_by codecs (validate_envelope_by codecs f) e
        ≡ validate_envelope_by codecs (validate_envelope_by codecs g) e
  unfolding validate_envelope_by
  two_levels f g e = rw (validate_payload-Agree _ _ (validate_envelope_by-command f g) e)

  -- The recursion of `ValidateEnvelope` on itself through `ValidateHeartbeatAck` is two levels deep
  -- at most: with any deeper recursion in place of the bound of the model, whatever it answers, the
  -- result is that of `validate_envelope`.
  pub validate_envelope_total :
      (deeper : Envelope → Check) (e : Envelope)
      → validate_envelope codecs e
        ≡ validate_envelope_by codecs (validate_envelope_by codecs deeper) e
  unfolding validate_envelope
  validate_envelope_total deeper e = two_levels _ deeper e
