-- ===== src/Fixture/Laws.antt =====
-- The states of the node plugin of pluginfixture/plugin.go, and its answers.
use relayward_sdk.Base.{
  ◌≤◌, ◌≡◌, refl, ◌⊎◌, inl, inr, true, [], Option, none, some, Bytes, arith, ok, err, pass,
  beq_refl, Check,
}
use relayward_sdk.Base.Int.{ℤ, pos, ltb_ℤ}
use relayward_sdk.Hash.{IsDigest}
use relayward_sdk.Agent.Events.{max_int64}
use relayward_sdk.Agent.Telemetry.{ParseIp}
use relayward_sdk.NodePlugin.Configuration.{
  ConfigurationRequest, ConfigurationApplied, health_starting, health_healthy, health_unhealthy,
  validate_configuration_request, validate_configuration_applied, validate_status_response,
}
use relayward_sdk.NodePlugin.Configuration.Status.{
  IsHexDigest, accepted_start, accepted_configured, accepted_request,
}
use relayward_sdk.NodePlugin.Telemetry.{
  CollectTelemetryRequest, CollectTelemetryResponse, check_counters, check_events,
  validate_collect_telemetry_response,
}
use relayward_sdk.NodePlugin.Services.{
  ServiceState, ReplaceDynamicBlocksRequest, ReplaceDynamicBlocksResponse,
  validate_set_service_state_response, validate_replace_dynamic_blocks_response,
}
use relayward_sdk.Fixture.{
  NodePlugin, start, configured, apply_configuration, counted, health_of, get_status,
  collect_telemetry, set_service_state, replace_dynamic_blocks, apply_checked,
}

-- A call that writes the plugin's state; the other calls read it at most.
pub data Step (sha256 : Bytes → Bytes) : NodePlugin → NodePlugin → Type 0 where
  applied :
      (plugin : NodePlugin) (request : Option ConfigurationRequest)
      → Step sha256 plugin (apply_configuration sha256 plugin request).0
  asked : (plugin : NodePlugin) → Step sha256 plugin (get_status plugin).0

-- The states that calls lead to from the start, in any order.
pub data Reachable (sha256 : Bytes → Bytes) : NodePlugin → Type 0 where
  started : (plugin_id version : Bytes) → Reachable sha256 (start plugin_id version)
  stepped : {p q : NodePlugin} → Reachable sha256 p → Step sha256 p q → Reachable sha256 q

-- Either no configuration was applied yet, or the one applied has a generation and a digest in range.
abbrev pub WellFormed : NodePlugin → Type 0
WellFormed p =
    ((p.generation ≡ 0) × (p.digest ≡ []))
    ⊎ ((1 ≤ p.generation) × (p.generation ≤ max_int64) × IsHexDigest p.digest)

health_of-start : (p : NodePlugin) → p.generation ≡ 0 → health_of p ≡ health_starting
unfolding health_of
health_of-start p h = ground arith

health_of-configured :
    (p : NodePlugin)
    → 1 ≤ p.generation
    → (health_of p ≡ health_healthy) ⊎ (health_of p ≡ health_unhealthy)
unfolding health_of
health_of-configured p h = ground arith

WellFormed-accepted :
    (p : NodePlugin) → WellFormed p → validate_status_response (some (get_status p).1) ≡ pass
unfolding get_status
WellFormed-accepted p (inl (g, d)) = accepted_start (get_status p).1 g d (health_of-start p g) refl
WellFormed-accepted p (inr (g, b, d)) =
    accepted_configured (get_status p).1 g b d (health_of-configured p g) refl

configured_status :
    (p : NodePlugin) (request : ConfigurationRequest)
    → 1 ≤ request.generation
    → (get_status (configured p request)).1 ≡ record {
      generation = request.generation;
      configuration_sha256 = request.sha256;
      health = health_healthy;
      message = [];
    }
unfolding get_status configured health_of
configured_status p request h = ground arith

module _ (sha256 : Bytes → Bytes) (law : IsDigest sha256) where
  WellFormed-configured :
      (p : NodePlugin) (request : ConfigurationRequest)
      → validate_configuration_request sha256 (some request) ≡ pass
      → WellFormed (configured p request)
  unfolding configured
  WellFormed-configured p request h = inr (accepted_request sha256 law request h)

  apply_checked-WellFormed :
      (p : NodePlugin) (request : ConfigurationRequest) (checked : Check)
      → validate_configuration_request sha256 (some request) ≡ checked
      → WellFormed p
      → WellFormed (apply_checked p request checked).0
  unfolding apply_checked
  apply_checked-WellFormed p request (ok _) e w = WellFormed-configured p request e
  apply_checked-WellFormed p request (err _) e w = w

  Step-WellFormed : {p q : NodePlugin} → WellFormed p → Step sha256 p q → WellFormed q
  unfolding apply_configuration get_status counted
  Step-WellFormed w (applied p none) = w
  Step-WellFormed w (applied p (some request)) =
      apply_checked-WellFormed p request (validate_configuration_request sha256 (some request)) refl
        w
  Step-WellFormed w (asked p) = w

  Reachable-WellFormed : {p : NodePlugin} → Reachable sha256 p → WellFormed p
  unfolding start
  Reachable-WellFormed (started plugin_id version) = inl (refl, refl)
  Reachable-WellFormed (stepped r s) = Step-WellFormed (Reachable-WellFormed r) s

  -- Whatever calls came before, the answer to `GetStatus` is one that `ValidateStatusResponse` accepts.
  pub reachable-accepted :
      {p : NodePlugin}
      → Reachable sha256 p
      → validate_status_response (some (get_status p).1) ≡ pass
  reachable-accepted {p} r = WellFormed-accepted p (Reachable-WellFormed r)

  applied_echo :
      (request : ConfigurationRequest)
      → validate_configuration_request sha256 (some request) ≡ pass
      → validate_configuration_applied sha256
          (some request)
          (some (record { generation = request.generation; sha256 = request.sha256 }))
        ≡ pass
  unfolding validate_configuration_applied
  applied_echo request h = ground (arith, beq_refl request.sha256)

  -- `ApplyConfiguration` answers a request that is accepted with what `ValidateConfigurationApplied`
  -- accepts; the next status then reports that configuration as healthy.
  pub apply_configuration-accepted :
      (p : NodePlugin) (request : ConfigurationRequest)
      → validate_configuration_request sha256 (some request) ≡ pass
      → ((answer : ConfigurationApplied) × ((apply_configuration sha256 p (some request)).1
            ≡ ok answer)
          × (validate_configuration_applied sha256 (some request) (some answer) ≡ pass))
        × ((get_status (apply_configuration sha256 p (some request)).0).1 ≡ record {
          generation = request.generation;
          configuration_sha256 = request.sha256;
          health = health_healthy;
          message = [];
        })
  unfolding apply_configuration
  apply_configuration-accepted p request h =
      let (g, _, _) = accepted_request sha256 law request h in
      rw h (
        (
          record { generation = request.generation; sha256 = request.sha256 },
          refl,
          applied_echo request h,
        ),
        configured_status p request g,
      )

module _ (parse_ip : ParseIp) where
  collect_telemetry-accepted :
      (now : ℤ) (request : CollectTelemetryRequest) (answer : CollectTelemetryResponse)
      → ltb_ℤ (pos 0) now ≡ true
      → collect_telemetry now (some request) ≡ ok answer
      → validate_collect_telemetry_response parse_ip (some request) (some answer) ≡ pass
  unfolding collect_telemetry validate_collect_telemetry_response check_counters check_events
  collect_telemetry-accepted now request answer h e = ground arith

  set_service_state-accepted :
      (request answer : ServiceState)
      → set_service_state (some request) ≡ ok answer
      → validate_set_service_state_response (some request) (some answer) ≡ pass
  unfolding set_service_state validate_set_service_state_response
  set_service_state-accepted request answer e =
      ground (arith, beq_refl request.authorization_id, beq_refl request.service_id)

  replace_dynamic_blocks-accepted :
      (request : ReplaceDynamicBlocksRequest) (answer : ReplaceDynamicBlocksResponse)
      → replace_dynamic_blocks parse_ip (some request) ≡ ok answer
      → validate_replace_dynamic_blocks_response parse_ip (some request) (some answer) ≡ pass
  unfolding replace_dynamic_blocks validate_replace_dynamic_blocks_response
  replace_dynamic_blocks-accepted request answer e = ground (arith)
