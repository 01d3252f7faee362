-- ===== src/Agent/PolicyOrder/Keys.antt =====
-- The order that `SortPolicies` gives to bindings is the one that the validator asks for.
use relayward_sdk.Base.{
  ◌≡◌, ◌≢◌, refl, true, ◌&&◌, ◌||◌, [], ◌∷◌, ◌++◌, Bytes, arith, beq, lt_bytes, All, pass,
}
use relayward_sdk.Regex.{match_string}
use relayward_sdk.Regex.Alphabet.{avoids, avoids-match_string}
use relayward_sdk.Contract.{plugin_id_pattern, validate_plugin_id}
use relayward_sdk.Agent.Policies.{ServiceBinding, binding_key}
use relayward_sdk.Agent.PolicyOrder.{less_binding}

without_zero : avoids 0 plugin_id_pattern ≡ true
unfolding relayward_sdk.Regex.in_class
without_zero = refl

plugin_id-nonzero : (s : Bytes) → validate_plugin_id s ≡ pass → All (λ c. c ≢ 0) s
unfolding validate_plugin_id
plugin_id-nonzero s h = avoids-match_string 0 plugin_id_pattern s without_zero (ground arith)

lt_bytes-separated :
    (p q s t : Bytes)
    → All (λ c. c ≢ 0) p
    → All (λ c. c ≢ 0) q
    → (lt_bytes p q || (beq p q && lt_bytes s t)) ≡ lt_bytes (p ++ 0 ∷ s) (q ++ 0 ∷ t)
unfolding lt_bytes beq
lt_bytes-separated [] [] s t h k = ground arith
lt_bytes-separated [] (d ∷ q) s t h (k, _) = ground (arith, k)
lt_bytes-separated (c ∷ p) [] s t (h, _) k = ground (arith, h)
lt_bytes-separated (c ∷ p) (d ∷ q) s t (_, h) (_, k) =
    ground (arith, lt_bytes-separated p q s t h k)

-- On bindings with valid plugin IDs, the comparison of `SortPolicies`, plugin ID first and service ID
-- second, is the order of the joined keys that `ValidateAuthorizationPolicy` compares.
pub less_binding-binding_key :
    (first second : ServiceBinding)
    → validate_plugin_id first.plugin_id ≡ pass
    → validate_plugin_id second.plugin_id ≡ pass
    → less_binding first second ≡ lt_bytes (binding_key first) (binding_key second)
unfolding less_binding binding_key
less_binding-binding_key first second h k =
    lt_bytes-separated first.plugin_id second.plugin_id first.service_id second.service_id
      (plugin_id-nonzero first.plugin_id h) (plugin_id-nonzero second.plugin_id k)
