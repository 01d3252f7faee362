-- ===== src/Agent/Plugins/Digest.antt =====
-- The digest of a plugin's configuration.
use relayward_sdk.Base.{
  ◌≡◌, sym, ◌∙◌, ◌⊎◌, inl, inr, true, Bytes, arith, beq, beq_iff, Bool-cases, Result-cases, ok,
  pass,
}
use relayward_sdk.Regex.{match_string}
use relayward_sdk.Json
use relayward_sdk.Json.Compact.{compact_total}
use relayward_sdk.Encoding.{hex_encode}
use relayward_sdk.Encoding.Laws.{hex_encode-matches, hex_encode-injective}
use relayward_sdk.Hash.{IsDigest, Collide}
use relayward_sdk.Agent.Commands.{digest_pattern}
use relayward_sdk.Agent.Plugins.{validate_plugin_configuration, plugin_configuration_digest}

configuration-valid :
    (raw : Bytes) → validate_plugin_configuration raw ≡ pass → Json.valid raw ≡ true
unfolding validate_plugin_configuration
configuration-valid raw h = ground arith

digest-compact :
    (sha256 : Bytes → Bytes) (raw digest : Bytes)
    → plugin_configuration_digest sha256 raw ≡ ok digest
    → (compact : Bytes) × (Json.compact raw ≡ ok compact) × (digest ≡ hex_encode (sha256 compact))
unfolding plugin_configuration_digest
digest-compact sha256 raw digest h = elim (Result-cases (Json.compact raw)) [
  | inl (compact, e) ↦ (compact, e, ground arith)
  | inr (error, e) ↦ absurd (ground arith)
]

module _ (sha256 : Bytes → Bytes) (law : IsDigest sha256) where
  -- Every configuration that is accepted has a digest, which is 64 lowercase hexadecimal digits.
  pub plugin_configuration_digest_total :
      (raw : Bytes)
      → validate_plugin_configuration raw ≡ pass
      → (digest : Bytes) × (plugin_configuration_digest sha256 raw ≡ ok digest)
        × (match_string digest_pattern digest ≡ true)
  unfolding plugin_configuration_digest
  plugin_configuration_digest_total raw h =
      let (compact, e) = compact_total raw (configuration-valid raw h) in
      (
        hex_encode (sha256 compact),
        ground arith,
        hex_encode-matches 64 (sha256 compact) (omega (arith, law.length-sha256 compact))
            (law.sha256-AreBytes compact),
      )

  -- Two configurations with one digest are the same but for their spaces, or their compact texts
  -- show two inputs with one SHA-256.
  pub same_digest :
      (first second digest : Bytes)
      → plugin_configuration_digest sha256 first ≡ ok digest
      → plugin_configuration_digest sha256 second ≡ ok digest
      → (p q : Bytes) × (Json.compact first ≡ ok p)
        × (Json.compact second ≡ ok q)
        × ((p ≡ q) ⊎ Collide sha256 p q)
  same_digest first second digest h k =
      let (p, c, e) = digest-compact sha256 first digest h in
      let (q, d, f) = digest-compact sha256 second digest k in
      let same : sha256 p ≡ sha256 q =
        hex_encode-injective (sha256 p) (sha256 q) (law.sha256-AreBytes p) (law.sha256-AreBytes q)
          (sym e ∙ f) in
      (
        p,
        q,
        c,
        d,
        elim (Bool-cases (beq p q)) [
          | inl b ↦ inl ((beq_iff p q).0 b)
          | inr b ↦ inr (λ path. cc (b, (beq_iff p q).1 path), same)
        ],
      )
