-- ===== src/Fixture/Degrade.antt =====
-- The status of a plugin of pluginfixture/plugin.go whose configuration asks it to degrade.
use relayward_sdk.Base.{
  ℕ, zero, suc, ◌+◌, ◌^◌, ◌≤◌, ◌<◌, ◌≡◌, refl, ap, ◌∙◌, true, Bytes, arith, codes, ◌==◌,
  if◌then◌else◌, some, pass,
}
use relayward_sdk.Base.Int.{pos, wrap_int64, ◌+ℤ◌}
use relayward_sdk.Hash.{IsDigest}
use relayward_sdk.NodePlugin.Configuration.{
  ConfigurationRequest, health_healthy, health_unhealthy, validate_configuration_request,
}
use relayward_sdk.NodePlugin.Configuration.Status.{accepted_request}
use relayward_sdk.Fixture.{
  NodePlugin, configured, apply_configuration, counted, health_of, get_status, contains_bytes,
  apply_checked,
}

-- `GetStatus` called `n` times.
abbrev pub asked_times : ℕ → NodePlugin → NodePlugin
asked_times zero p = p
asked_times (suc n) p = (get_status (asked_times n p)).0

next_count : (n : ℕ) → suc n < 2 ^ 63 → wrap_int64 (pos n +ℤ pos 1) ≡ pos (suc n)
unfolding ◌+ℤ◌
next_count n h = ground arith

counted-status_calls :
    (q : NodePlugin) (n : ℕ)
    → 1 ≤ q.generation
    → q.status_calls ≡ pos n
    → suc n < 2 ^ 63
    → (counted q).status_calls ≡ pos (suc n)
unfolding counted
counted-status_calls q n g z h = rw z (ground (arith, next_count n h))

counts :
    (p : NodePlugin) (n : ℕ)
    → 1 ≤ p.generation
    → p.status_calls ≡ pos 0
    → n < 2 ^ 63
    → ((asked_times n p).generation ≡ p.generation)
      × ((asked_times n p).degrade ≡ p.degrade)
      × ((asked_times n p).status_calls ≡ pos n)
unfolding get_status counted
counts p zero g z h = (refl, refl, z)
counts p (suc n) g z h =
    let (a, b, c) = counts p n g z (omega arith) in
    (a, b, counted-status_calls (asked_times n p) n (omega (arith, ap (λ m. m + 0) a)) c h)

health_of-degrade :
    (p : NodePlugin) (n : ℕ)
    → 1 ≤ p.generation
    → p.degrade ≡ true
    → p.status_calls ≡ pos n
    → health_of p ≡ (if n == 0 then health_healthy else health_unhealthy)
unfolding health_of
health_of-degrade p n g d s = ground arith

-- Once a configuration with `"degrade":true` was applied, the first status reports it as healthy
-- and every later one as unhealthy (for 2 ^ 63 calls, where the counter wraps).
pub degrades :
    (sha256 : Bytes → Bytes)
    → IsDigest sha256
    → (p : NodePlugin) (request : ConfigurationRequest) (n : ℕ)
    → validate_configuration_request sha256 (some request) ≡ pass
    → contains_bytes request.json (codes "\"degrade\":true") ≡ true
    → n < 2 ^ 63
    → (get_status (asked_times n (apply_configuration sha256 p (some request)).0)).1.health
      ≡ (if n == 0 then health_healthy else health_unhealthy)
unfolding apply_configuration apply_checked get_status configured
degrades sha256 law p request n h d b =
    let (g, _, _) = accepted_request sha256 law request h in
    let (x, y, z) = counts (configured p request) n g refl b in
    rw h
      (health_of-degrade (asked_times n (configured p request)) n (omega (arith, x, g)) (y ∙ d) z)
