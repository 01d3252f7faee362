-- ===== src/CenterPlugin/Configuration/Generations.antt =====
-- A configuration on its way: accepted by the center, read back, and sent to the node plugin.
use relayward_sdk.Base.{
  ◌+◌, ◌≤◌, ◌≡◌, sym, some, Bytes, arith, beq_iff, Result-cases, inl, inr, ok, pass, beq_refl, ap,
  ◌∙◌,
}
use relayward_sdk.Contract.{validate_semantic_version}
use relayward_sdk.Agent.Events.{max_int64}
use relayward_sdk.Agent.Plugins
use relayward_sdk.Agent.Plugins.{validate_plugin_configuration}
use relayward_sdk.NodePlugin.Configuration.{validate_configuration_request}
use relayward_sdk.CenterPlugin.Text.{validate_json_object}
use relayward_sdk.CenterPlugin.Configuration.{
  ConfigureNodePluginRequest, NodePluginConfigured, validate_get_node_plugin_configuration_request,
  plugin_configuration_digest, check_configuration, validate_node_plugin_configuration,
  validate_configure_node_plugin_request, check_configured, validate_node_plugin_configured,
}

-- The second check of a configuration allows more than the first.
configuration-object :
    (raw : Bytes) → validate_plugin_configuration raw ≡ pass → validate_json_object raw ≡ pass
unfolding validate_plugin_configuration validate_json_object
configuration-object raw h = ground arith

module _ (sha256 : Bytes → Bytes) where
  -- The digest that the center checks is the one of the Agent, for every text.
  pub plugin_configuration_digest_lem :
      (raw : Bytes)
      → plugin_configuration_digest sha256 raw ≡ Plugins.plugin_configuration_digest sha256 raw
  unfolding plugin_configuration_digest Plugins.plugin_configuration_digest
  plugin_configuration_digest_lem raw = elim (Result-cases (validate_plugin_configuration raw)) [
    | inl (u, e) ↦ ground (arith, configuration-object raw)
    | inr (error, e) ↦ ground arith
  ]

  module _ (request : ConfigureNodePluginRequest) (response : NodePluginConfigured) where
    configured-digest :
        validate_node_plugin_configured sha256 (some request) (some response) ≡ pass
        → plugin_configuration_digest sha256 request.json ≡ ok response.sha256
    unfolding validate_node_plugin_configured check_configured
    configured-digest h = elim (Result-cases (plugin_configuration_digest sha256 request.json)) [
      | inl (digest, e) ↦ e ∙ ap ok (sym ((beq_iff response.sha256 digest).0 (ground arith)))
      | inr (error, e) ↦ absurd (ground arith)
    ]

    -- An accepted answer to a configuration names the next generation, from 1 to the largest int64,
    -- and the digest of the configuration sent. What the center then reads back for that node, at
    -- any valid version, is accepted, and so is the request that the node plugin gets.
    pub accepted_configuration :
        (version : Bytes)
        → validate_semantic_version version ≡ pass
        → validate_node_plugin_configured sha256 (some request) (some response) ≡ pass
        → (response.generation ≡ request.expected_generation + 1)
          × (response.generation ≤ max_int64)
          × (validate_node_plugin_configuration sha256
                (some (record { node_id = request.node_id }))
                (some (record {
                  generation = response.generation;
                  version = version;
                  sha256 = response.sha256;
                  json = request.json;
                }))
              ≡ pass)
          × (validate_configuration_request sha256 (
                some (record {
                  generation = response.generation;
                  sha256 = response.sha256;
                  json = request.json;
                }))
              ≡ pass)
    unfolding validate_node_plugin_configured validate_configure_node_plugin_request
        check_configured validate_node_plugin_configuration
        validate_get_node_plugin_configuration_request check_configuration
        validate_configuration_request
    accepted_configuration version v h =
        let digest = configured-digest h in
        let agent : Plugins.plugin_configuration_digest sha256 request.json ≡ ok response.sha256 =
          sym (plugin_configuration_digest_lem request.json) ∙ digest in
        let same = beq_refl response.sha256 in
        let next : response.generation ≡ request.expected_generation + 1 = ground arith in
        let bound : response.generation ≤ max_int64 = ground arith in
        (next, bound, ground arith, ground arith)
