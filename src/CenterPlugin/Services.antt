-- ===== src/CenterPlugin/Services.antt =====
-- centerplugin/v1/validate.go: the services that a center plugin keeps on a node.
pub mod Order
use relayward_sdk.Base.{
  ℕ, ◌+◌, Bool, not, ◌||◌, List, [], ◌∷◌, ◌++◌, Option, none, some, Bytes, codes, ltb, ◌==◌, length,
  errorf, nil, num, error, Check, err, ◌>>◌, pass, reject_if,
}
use relayward_sdk.Regex.{match_string}
use relayward_sdk.Clock.Calendar.{append_int}
use relayward_sdk.Agent.Validate.{not_above}
use relayward_sdk.CenterPlugin.Text.{
  uuid_pattern, service_id_pattern, sha256_pattern, validate_display_name, validate_capabilities,
}

abbrev pub maximum_services : ℕ
maximum_services = 256

pub record PluginService : Type 0 where
  pub id : Bytes
  pub display_name : Bytes
  pub enabled : Bool
  pub capabilities : List Bytes
  pub subscription_sha256 : Bytes

pub record ReplaceServicesRequest : Type 0 where
  pub node_id : Bytes
  pub services : List (Option PluginService)

pub record ServicesReplaced : Type 0 where
  pub service_count : ℕ

-- `fmt.Sprintf("services[%d].display_name", index)` and the same for other fields.
unfoldable pub service_field : ℕ → Bytes → Bytes
service_field index name = codes "services[" ++ (append_int index 1 ++ (codes "]." ++ name))

-- The loop over the services; `previous` is absent in the first round (`index > 0`).
unfoldable pub check_services : ℕ → Option Bytes → List (Option PluginService) → Check
check_services index previous [] = pass
check_services index previous (none ∷ rest) = err (errorf "services[%d]: required" (num index nil))
check_services index previous (some service ∷ rest) = do
  reject_if (not (match_string service_id_pattern service.id))
      (errorf "services[%d].id: invalid service ID" (num index nil))
  reject_if (not_above previous service.id)
      (error "services: values must be sorted by ID and unique")
  validate_display_name (service_field index (codes "display_name")) service.display_name
  validate_capabilities (service_field index (codes "capabilities")) service.capabilities
  reject_if (not (match_string sha256_pattern service.subscription_sha256)) (
      errorf "services[%d].subscription_sha256: must be a lowercase SHA-256 digest" (num index nil))
  check_services (index + 1) (some service.id) rest

unfoldable pub validate_replace_services_request : Option ReplaceServicesRequest → Check
validate_replace_services_request none = err (error "request: required")
validate_replace_services_request (some value) = do
  reject_if (not (match_string uuid_pattern value.node_id)) (error "node_id: invalid node ID")
  reject_if (ltb maximum_services (length value.services))
      (errorf "services: must contain at most %d values" (num maximum_services nil))
  check_services 0 none value.services

check_replaced : Option ReplaceServicesRequest → Option ServicesReplaced → Check
check_replaced none response = pass
check_replaced (some request) none = err (error "response: required")
check_replaced (some request) (some response) =
    reject_if (not (response.service_count == length request.services))
      (error "service_count: does not match the request")

unfoldable pub validate_services_replaced :
    Option ReplaceServicesRequest → Option ServicesReplaced → Check
unfolding check_replaced
validate_services_replaced request response = do
  validate_replace_services_request request
  check_replaced request response
