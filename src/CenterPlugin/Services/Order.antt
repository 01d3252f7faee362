-- ===== src/CenterPlugin/Services/Order.antt =====
-- The services of an accepted request.
use relayward_sdk.Base.{
  ℕ, ◌+◌, ◌≤◌, ◌≡◌, refl, ap, ◌∙◌, List, [], ◌∷◌, Option, some, none, Bytes, arith, length, map,
  length-map, Increasing, Follows, Follows-Increasing, pass,
}
use relayward_sdk.CenterPlugin.Services.{
  PluginService, ReplaceServicesRequest, ServicesReplaced, maximum_services, check_services,
  check_replaced, validate_replace_services_request, validate_services_replaced,
}

abbrev pub service_ids : List PluginService → List Bytes
service_ids services = map (λ service. service.id) services

-- All services are there, and their IDs increase from `p` on.
record Listed (p : Bytes) (values : List (Option PluginService)) : Type 0 where
  services : List PluginService
  present : values ≡ map some services
  follows : Follows p (service_ids services)

check_services-Listed :
    (index : ℕ) (p : Bytes) (values : List (Option PluginService))
    → check_services index (some p) values ≡ pass
    → Listed p values
unfolding check_services
check_services-Listed index p [] h = record { services = []; present = refl; follows = tt }
check_services-Listed index p (none ∷ rest) h = absurd (ground arith)
check_services-Listed index p (some service ∷ rest) h =
    let listed = check_services-Listed (index + 1) service.id rest (ground arith) in
    record {
      services = service ∷ listed.services;
      present = ap (◌∷◌ (some service)) listed.present;
      follows = (ground arith, listed.follows);
    }

-- What an accepted request holds.
pub record Replaceable (values : List (Option PluginService)) : Type 0 where
  pub services : List PluginService
  pub present : values ≡ map some services
  pub increasing : Increasing (service_ids services)
  pub bounded : length services ≤ maximum_services

check_services-Replaceable :
    (values : List (Option PluginService))
    → length values ≤ maximum_services
    → check_services 0 none values ≡ pass
    → Replaceable values
unfolding check_services
check_services-Replaceable [] b h = record {
  services = [];
  present = refl;
  increasing = tt;
  bounded = omega arith;
}
check_services-Replaceable (none ∷ rest) b h = absurd (ground arith)
check_services-Replaceable (some service ∷ rest) b h =
    let listed = check_services-Listed 1 service.id rest (ground arith) in
    let long = ap length listed.present ∙ length-map some listed.services in
    record {
      services = service ∷ listed.services;
      present = ap (◌∷◌ (some service)) listed.present;
      increasing = Follows-Increasing service.id (service_ids listed.services) listed.follows;
      bounded = omega (arith, b, long);
    }

-- In an accepted request every service is there, their IDs increase strictly, and they are at most
-- 256. An accepted answer counts exactly these.
pub accepted_services :
    (request : ReplaceServicesRequest) (response : ServicesReplaced)
    → validate_services_replaced (some request) (some response) ≡ pass
    → Replaceable request.services × (response.service_count ≡ length request.services)
unfolding validate_services_replaced validate_replace_services_request check_replaced
accepted_services request response h =
    (check_services-Replaceable request.services (ground arith) (ground arith), ground arith)
