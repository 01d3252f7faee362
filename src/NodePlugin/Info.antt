-- ===== src/NodePlugin/Info.antt =====
-- nodeplugin/v1/validate.go: `ValidateInfoResponse` and `HasCapability`.
pub mod Search
use relayward_sdk.Base.{
  ℕ, zero, suc, ◌+◌, ◌/◌, Bool, true, false, not, ◌&&◌, ◌||◌, List, [], ◌∷◌, Option, none, some,
  Bytes, codes, beq, le_bytes, ltb, length, get_elem?, if◌then◌else◌, errorf, nil, num, text, error,
  wrapf, Check, err, ◌>>◌, pass, reject_if, or_else_error,
}
use relayward_sdk.Regex.{Regex, match_string}
use relayward_sdk.Contract.{node_plugin_api_version, validate_plugin_id, validate_semantic_version}
use relayward_sdk.Agent.Validate.{kind_pattern, message_id_pattern, not_above}

abbrev pub capability_traffic_counters : Bytes
capability_traffic_counters = codes "traffic.counters"

abbrev pub capability_recent_activity : Bytes
capability_recent_activity = codes "activity.recent"

abbrev pub capability_service_control : Bytes
capability_service_control = codes "service.control"

abbrev pub capability_dynamic_blocking : Bytes
capability_dynamic_blocking = codes "blocking.dynamic"

-- ^[a-z][a-z0-9]*(?:[._-][a-z0-9]+)+$ and ^[0-9a-f]{32}$
abbrev pub capability_pattern : Regex
capability_pattern = kind_pattern

abbrev pub telemetry_stream_id_pattern : Regex
telemetry_stream_id_pattern = message_id_pattern

pub record GetInfoResponse : Type 0 where
  pub api_version : Bytes
  pub plugin_id : Bytes
  pub version : Bytes
  pub capabilities : List Bytes
  pub telemetry_stream_id : Bytes

-- `sort.Search` between `i` and `j`, on fuel: the least index at which the test holds.
unfoldable pub search_between : ℕ → (ℕ → Bool) → ℕ → ℕ → ℕ
search_between zero test i j = i
search_between (suc fuel) test i j =
    let middle = (i + j) / 2 in
    let upper = search_between fuel test (middle + 1) j in
    let lower = search_between fuel test i middle in
    if ltb i j then (if test middle then lower else upper) else i

-- `values[index] >= expected` and `values[index] == expected`.
abbrev pub at_least : Bytes → Option Bytes → Bool
at_least expected none = true
at_least expected (some value) = le_bytes expected value

abbrev pub is_value : Bytes → Option Bytes → Bool
is_value expected none = false
is_value expected (some value) = beq value expected

-- `sort.SearchStrings`
unfoldable pub search_strings : List Bytes → Bytes → ℕ
search_strings values expected =
    search_between (length values) (λ index. at_least expected (get_elem? values index)) 0
      (length values)

unfoldable pub has_capability : List Bytes → Bytes → Bool
has_capability values expected =
    let index = search_strings values expected in
    ltb index (length values) && is_value expected (get_elem? values index)

-- The loop over the capabilities.
unfoldable pub check_capabilities : ℕ → Option Bytes → List Bytes → Check
check_capabilities index previous [] = pass
check_capabilities index previous (capability ∷ rest) = do
  reject_if (ltb 64 (length capability) || not (match_string capability_pattern capability))
      (errorf "capabilities[%d]: invalid capability" (num index nil))
  reject_if (not_above previous capability) (error "capabilities: values must be sorted and unique")
  check_capabilities (index + 1) (some capability) rest

-- `expected != "" && value != expected`
abbrev pub unexpected : Bytes → Bytes → Bool
unexpected expected value = not (beq expected []) && not (beq value expected)

check_info : GetInfoResponse → Bytes → Bytes → Check
check_info value expected_plugin_id expected_version = do
  reject_if (not (beq value.api_version node_plugin_api_version))
      (errorf "api_version: unsupported value %q" (text value.api_version nil))
  or_else_error (validate_plugin_id value.plugin_id) (wrapf "plugin_id: %w")
  or_else_error (validate_semantic_version value.version) (wrapf "version: %w")
  reject_if (unexpected expected_plugin_id value.plugin_id) (
      errorf "plugin_id: reported %q instead of %q"
        (text value.plugin_id (text expected_plugin_id nil)))
  reject_if (unexpected expected_version value.version)
      (errorf "version: reported %q instead of %q" (text value.version (text expected_version nil)))
  check_capabilities 0 none value.capabilities
  let has_activity = has_capability value.capabilities capability_recent_activity
  reject_if
      (has_activity && not (match_string telemetry_stream_id_pattern value.telemetry_stream_id))
      (error "telemetry_stream_id: required for recent activity capability")
  reject_if (not has_activity && not (beq value.telemetry_stream_id []))
      (error "telemetry_stream_id: requires recent activity capability")

unfoldable pub validate_info_response : Option GetInfoResponse → Bytes → Bytes → Check
unfolding check_info
validate_info_response none expected_plugin_id expected_version = err (error "response: required")
validate_info_response (some value) expected_plugin_id expected_version =
    check_info value expected_plugin_id expected_version
