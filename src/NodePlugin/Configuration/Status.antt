-- ===== src/NodePlugin/Configuration/Status.antt =====
-- Which configurations and statuses of a node plugin are accepted.
use mathlib.Core.Path.{subst}
use relayward_sdk.Json
use relayward_sdk.Base.{
  Result-cases, ℕ, ◌≤◌, ◌<◌, ◌≡◌, refl, true, ◌⊎◌, inl, inr, [], ◌∷◌, some, Bytes, arith, length,
  all, All, ok, pass, beq_iff, beq,
}
use relayward_sdk.Regex.{in_class}
use relayward_sdk.Regex.Classes.{AllIn}
use relayward_sdk.Unicode.{runes}
use relayward_sdk.Unicode.Ascii.{runes-ascii, is_trimmed-nil, has_no_control-nil}
use relayward_sdk.Encoding.{hex_encode}
use relayward_sdk.Encoding.Laws.{hex_encode-AllIn, length-hex_encode}
use relayward_sdk.Hash.{IsDigest}
use relayward_sdk.Agent.Events.{max_int64}
use relayward_sdk.Agent.Plugins.{plugin_configuration_digest}
use relayward_sdk.NodePlugin.Configuration.{
  ConfigurationRequest, GetStatusResponse, health_starting, health_healthy, health_unhealthy,
  is_digest_rune, validate_status_response, validate_configuration_request,
}

-- 64 lowercase hexadecimal digits.
abbrev pub IsHexDigest : Bytes → Type 0
IsHexDigest s = (length s ≡ 64) × AllIn ((b'0', b'9') ∷ (b'a', b'f') ∷ []) s

digit-ascii :
    (c : ℕ)
    → in_class ((b'0', b'9') ∷ (b'a', b'f') ∷ []) c ≡ true
    → (c < 128) × (is_digest_rune c ≡ true)
unfolding in_class is_digest_rune
digit-ascii c h = ground arith

digits-ascii : (s : Bytes) → AllIn ((b'0', b'9') ∷ (b'a', b'f') ∷ []) s → All (λ c. c < 128) s
digits-ascii [] h = tt
digits-ascii (c ∷ s) h = ((digit-ascii c h.0).0, digits-ascii s h.1)

all-is_digest_rune :
    (s : Bytes) → AllIn ((b'0', b'9') ∷ (b'a', b'f') ∷ []) s → all is_digest_rune s ≡ true
all-is_digest_rune [] h = refl
all-is_digest_rune (c ∷ s) h = rw ((digit-ascii c h.0).1) (all-is_digest_rune s h.1)

runes-IsHexDigest : (s : Bytes) → IsHexDigest s → all is_digest_rune (runes s) ≡ true
runes-IsHexDigest s h = rw (runes-ascii s (digits-ascii s h.1)) (all-is_digest_rune s h.1)

pub accepted_start :
    (value : GetStatusResponse)
    → value.generation ≡ 0
    → value.configuration_sha256 ≡ []
    → value.health ≡ health_starting
    → value.message ≡ []
    → validate_status_response (some value) ≡ pass
unfolding validate_status_response beq
accepted_start value g d h m = ground (arith, is_trimmed-nil, has_no_control-nil)

pub accepted_configured :
    (value : GetStatusResponse)
    → 1 ≤ value.generation
    → value.generation ≤ max_int64
    → IsHexDigest value.configuration_sha256
    → (value.health ≡ health_healthy) ⊎ (value.health ≡ health_unhealthy)
    → value.message ≡ []
    → validate_status_response (some value) ≡ pass
unfolding validate_status_response
accepted_configured value g b d (inl h) m =
    ground (arith, runes-IsHexDigest value.configuration_sha256, is_trimmed-nil, has_no_control-nil)
accepted_configured value g b d (inr h) m =
    ground (arith, runes-IsHexDigest value.configuration_sha256, is_trimmed-nil, has_no_control-nil)

module _ (sha256 : Bytes → Bytes) (law : IsDigest sha256) where
  hex_encode-IsHexDigest : (s : Bytes) → IsHexDigest (hex_encode (sha256 s))
  hex_encode-IsHexDigest s = (
    omega (arith, length-hex_encode (sha256 s), law.length-sha256 s),
    hex_encode-AllIn (sha256 s) (law.sha256-AreBytes s),
  )

  pub plugin_configuration_digest-IsHexDigest :
      (raw digest : Bytes) → plugin_configuration_digest sha256 raw ≡ ok digest → IsHexDigest digest
  unfolding plugin_configuration_digest
  plugin_configuration_digest-IsHexDigest raw digest h = elim (Result-cases (Json.compact raw)) [
    | inl (s, e) ↦
        let is : hex_encode (sha256 s) ≡ digest = ground arith in
        subst IsHexDigest is (hex_encode-IsHexDigest s)
    | inr (error, e) ↦ absurd (ground arith)
  ]

  -- A request that is accepted has a generation from 1 to the largest int64 and a SHA-256 of 64
  -- lowercase hexadecimal digits.
  pub accepted_request :
      (request : ConfigurationRequest)
      → validate_configuration_request sha256 (some request) ≡ pass
      → (1 ≤ request.generation) × (request.generation ≤ max_int64) × IsHexDigest request.sha256
  unfolding validate_configuration_request
  accepted_request request h =
      elim (Result-cases (plugin_configuration_digest sha256 request.json)) [
        | inl (digest, e) ↦
            let same : digest ≡ request.sha256 = ground (arith, beq_iff request.sha256 digest) in
            (
              ground arith,
              ground arith,
              subst IsHexDigest same
                  (plugin_configuration_digest-IsHexDigest request.json digest e),
            )
        | inr (error, e) ↦ absurd (ground arith)
      ]
