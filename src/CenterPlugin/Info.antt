-- ===== src/CenterPlugin/Info.antt =====
-- centerplugin/v1/validate.go: the info, the activation with its permissions, and the status.
pub mod Permissions
use relayward_sdk.Base.{
  ℕ, ◌+◌, Bool, true, false, not, ◌&&◌, ◌||◌, List, [], ◌∷◌, Option, none, some, Bytes, codes, beq,
  lt_bytes, ltb, ◌==◌, length, errorf, nil, num, int, text, error, wrapf, Check, err, ◌>>◌, pass,
  reject_if, or_else_error,
}
use relayward_sdk.Base.Int.{ℤ, pos, eqb_ℤ}
use relayward_sdk.Contract.{
  center_plugin_api_version, validate_plugin_id, validate_semantic_version,
}
use relayward_sdk.NodePlugin.Info.{unexpected}
use relayward_sdk.CenterPlugin.Text.{validate_diagnostic}

abbrev pub permission_nodes_read : Bytes
permission_nodes_read = codes "core.nodes.read"

abbrev pub permission_events_read : Bytes
permission_events_read = codes "core.events.read"

abbrev pub permission_events_write : Bytes
permission_events_write = codes "core.events.write"

abbrev pub permission_node_configure : Bytes
permission_node_configure = codes "core.node_plugins.configure"

abbrev pub permission_services_write : Bytes
permission_services_write = codes "core.services.write"

abbrev pub maximum_status_message_bytes : ℕ
maximum_status_message_bytes = 512

-- The generated enum is an int32.
abbrev pub Health : Type 0
Health = ℤ

abbrev pub health_starting : Health
health_starting = pos 1

abbrev pub health_healthy : Health
health_healthy = pos 2

abbrev pub health_unhealthy : Health
health_unhealthy = pos 3

pub record GetInfoResponse : Type 0 where
  pub api_version : Bytes
  pub plugin_id : Bytes
  pub version : Bytes

pub record ActivateRequest : Type 0 where
  pub permissions : List Bytes

pub record Activated : Type 0 where
  pub permissions : List Bytes

pub record GetStatusResponse : Type 0 where
  pub health : Health
  pub message : Bytes

unfoldable pub validate_info_response : Option GetInfoResponse → Bytes → Bytes → Check
validate_info_response none expected_plugin_id expected_version = err (error "response: required")
validate_info_response (some value) expected_plugin_id expected_version = do
  reject_if (not (beq value.api_version center_plugin_api_version))
      (errorf "api_version: unsupported value %q" (text value.api_version nil))
  or_else_error (validate_plugin_id value.plugin_id) (wrapf "plugin_id: %w")
  or_else_error (validate_semantic_version value.version) (wrapf "version: %w")
  reject_if (unexpected expected_plugin_id value.plugin_id) (
      errorf "plugin_id: reported %q instead of %q"
        (text value.plugin_id (text expected_plugin_id nil)))
  reject_if (unexpected expected_version value.version)
      (errorf "version: reported %q instead of %q" (text value.version (text expected_version nil)))

-- `sort.StringsAreSorted`: no text is below the one before it.
unfoldable pub strings_are_sorted : List Bytes → Bool
strings_are_sorted [] = true
strings_are_sorted (value ∷ []) = true
strings_are_sorted (value ∷ next ∷ rest) =
    not (lt_bytes next value) && strings_are_sorted (next ∷ rest)

unfoldable pub is_known_permission : Bytes → Bool
is_known_permission value =
    beq value permission_events_read
    || beq value permission_events_write
    || beq value permission_node_configure
    || beq value permission_nodes_read
    || beq value permission_services_write

-- `index > 0 && value == values[index-1]`
abbrev pub repeats : Option Bytes → Bytes → Bool
repeats none value = false
repeats (some previous) value = beq value previous

unfoldable pub check_permissions : ℕ → Option Bytes → List Bytes → Check
check_permissions index previous [] = pass
check_permissions index previous (value ∷ rest) = do
  reject_if (not (is_known_permission value))
      (errorf "permissions[%d]: unsupported permission %q" (num index (text value nil)))
  reject_if (repeats previous value)
      (errorf "permissions[%d]: duplicate permission %q" (num index (text value nil)))
  check_permissions (index + 1) (some value) rest

unfoldable pub validate_permissions : List Bytes → Check
validate_permissions values = do
  reject_if (not (strings_are_sorted values)) (error "permissions: must be sorted")
  check_permissions 0 none values

unfoldable pub validate_activate_request : Option ActivateRequest → Check
validate_activate_request none = err (error "request: required")
validate_activate_request (some value) = validate_permissions value.permissions

-- `request.Permissions[index] != response.Permissions[index]` at some index of the request.
unfoldable pub same_permissions : List Bytes → List Bytes → Bool
same_permissions [] response = true
same_permissions (value ∷ request) [] = false
same_permissions (value ∷ request) (answer ∷ response) =
    beq value answer && same_permissions request response

check_activated : ActivateRequest → Activated → Check
check_activated request response = do
  or_else_error (validate_permissions response.permissions) (wrapf "response: %w")
  reject_if (not (length request.permissions == length response.permissions))
      (error "response: permissions do not match the request")
  reject_if (not (same_permissions request.permissions response.permissions))
      (error "response: permissions do not match the request")

check_activation : Option ActivateRequest → Option Activated → Check
unfolding check_activated
check_activation none response = pass
check_activation (some request) none = err (error "response: required")
check_activation (some request) (some response) = check_activated request response

unfoldable pub validate_activated : Option ActivateRequest → Option Activated → Check
unfolding check_activation
validate_activated request response = do
  validate_activate_request request
  check_activation request response

unfoldable pub validate_status_response : Option GetStatusResponse → Check
validate_status_response none = err (error "response: required")
validate_status_response (some value) = do
  reject_if
      (not (
        eqb_ℤ value.health health_starting
        || eqb_ℤ value.health health_healthy
        || eqb_ℤ value.health health_unhealthy))
      (errorf "health: unsupported value %q" (int value.health nil))
  validate_diagnostic (codes "message") value.message maximum_status_message_bytes
