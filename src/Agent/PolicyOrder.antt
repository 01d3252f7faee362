-- ===== src/Agent/PolicyOrder.antt =====
-- agent/v1/policies.go: `SortPolicies`, over `sort.Slice` as a parameter.
pub mod Keys
use relayward_sdk.Base.{Bool, ◌&&◌, ◌||◌, List, beq, lt_bytes, map}
use relayward_sdk.Agent.Policies.{ServiceBinding, AuthorizationPolicy}

-- The two comparisons of `SortPolicies`.
unfoldable pub less_policy : AuthorizationPolicy → AuthorizationPolicy → Bool
less_policy first second = lt_bytes first.authorization_id second.authorization_id

unfoldable pub less_binding : ServiceBinding → ServiceBinding → Bool
less_binding first second =
    lt_bytes first.plugin_id second.plugin_id
    || (beq first.plugin_id second.plugin_id && lt_bytes first.service_id second.service_id)

-- `sort.Slice` at one type of elements.
abbrev pub SortSlice {ℓ} : Type ℓ → Type ℓ
SortSlice A = (A → A → Bool) → List A → List A

-- `SortPolicies`; the sorted slice is returned.
unfoldable pub sort_policies :
    SortSlice AuthorizationPolicy
    → SortSlice ServiceBinding
    → List AuthorizationPolicy
    → List AuthorizationPolicy
sort_policies sort_slice sort_bindings values =
    map {B = AuthorizationPolicy}
      (λ value. record value { bindings = sort_bindings less_binding value.bindings })
      (sort_slice less_policy values)
