-- ===== src/CenterPlugin/Subscription/Services.antt =====
-- The services that a plugin keeps on a node, in a request to render them.
use relayward_sdk.Base.{
  ℕ, ◌+◌, ◌≤◌, ◌≡◌, refl, true, List, [], ◌∷◌, Option, some, none, Bytes, arith, length, map,
  length-map, pass,
}
use relayward_sdk.Regex.{match_string}
use relayward_sdk.CenterPlugin.Text.{uuid_pattern}
use relayward_sdk.CenterPlugin.Services.{
  PluginService, ReplaceServicesRequest, check_services, validate_replace_services_request,
}
use relayward_sdk.CenterPlugin.Subscription.{
  SubscriptionServiceBinding, check_bindings, validate_render_subscription_request,
}

abbrev pub binding_of : Option PluginService → Option SubscriptionServiceBinding
binding_of none = none
binding_of (some service) =
    some (record { service_id = service.id; display_name = service.display_name })

check_services-check_bindings :
    (index : ℕ) (previous : Option Bytes) (services : List (Option PluginService))
    → check_services index previous services ≡ pass
    → check_bindings index previous (map binding_of services) ≡ pass
unfolding check_services check_bindings
check_services-check_bindings index previous [] h = refl
check_services-check_bindings index previous (none ∷ rest) h = absurd (ground arith)
check_services-check_bindings index previous (some service ∷ rest) h =
    let more = check_services-check_bindings (index + 1) (some service.id) rest (ground arith) in
    ground arith

-- Services that were accepted for a node, at least one of them, are accepted in a request to render
-- them for that node and a valid authorization.
pub accepted_services-renderable :
    (request : ReplaceServicesRequest) (authorization_id : Bytes)
    → validate_replace_services_request (some request) ≡ pass
    → 1 ≤ length request.services
    → match_string uuid_pattern authorization_id ≡ true
    → validate_render_subscription_request (
        some (record {
          authorization_id = authorization_id;
          node_id = request.node_id;
          services = map binding_of request.services;
        }))
      ≡ pass
unfolding validate_replace_services_request validate_render_subscription_request
accepted_services-renderable request authorization_id h n u =
    let long = length-map binding_of request.services in
    let checked = check_services-check_bindings 0 none request.services (ground arith) in
    ground arith
