-- ===== src/CenterPlugin/Text.antt =====
-- centerplugin/v1/validate.go: the patterns, and the checks of texts that the messages share.
use relayward_sdk.Base.{
  ℕ, ◌+◌, ◌*◌, ◌^◌, Bool, not, ◌||◌, List, [], ◌∷◌, Option, none, some, Bytes, beq, ltb, ◌==◌,
  length, all, errorf, nil, num, text, error, Check, ◌>>◌, pass, reject_if,
}
use relayward_sdk.Regex.{Regex, match_string}
use relayward_sdk.Unicode.{
  trim_space, is_trimmed, has_no_control, runes, rune_count, valid_utf8, is_control, is_space,
}
use relayward_sdk.Json
use relayward_sdk.Agent.Validate
use relayward_sdk.Agent.Validate.{component_id_pattern, not_above}
use relayward_sdk.Agent.Commands.{digest_pattern}
use relayward_sdk.Agent.Telemetry
use relayward_sdk.Agent.Plugins.{first_is, last_is}

abbrev pub maximum_ui_json_bytes : ℕ
maximum_ui_json_bytes = 512 * 2 ^ 10

-- ^[a-z][a-z0-9]*(?:[._-][a-z0-9]+)*$
abbrev pub ui_method_pattern : Regex
ui_method_pattern = Validate.capability_pattern

-- ^[a-z0-9][a-z0-9._-]{0,63}$
abbrev pub service_id_pattern : Regex
service_id_pattern = component_id_pattern

abbrev pub uuid_pattern : Regex
uuid_pattern = Validate.uuid_pattern

-- ^[0-9a-f]{64}$
abbrev pub sha256_pattern : Regex
sha256_pattern = digest_pattern

-- ^[a-z][a-z0-9]*(?:[._-][a-z0-9]+)+$
abbrev pub event_kind_pattern : Regex
event_kind_pattern = Validate.kind_pattern

-- ^[a-zA-Z0-9][a-zA-Z0-9._:-]{0,127}$
abbrev pub source_event_id_pattern : Regex
source_event_id_pattern = Telemetry.source_event_id_pattern

unfoldable pub validate_display_name : Bytes → Bytes → Check
validate_display_name field value = do
  reject_if
      (beq value []
        || not (is_trimmed value)
        || not (valid_utf8 value)
        || ltb 100 (rune_count value))
      (errorf "%s: must contain 1 to 100 trimmed characters" (text field nil))
  reject_if (not (has_no_control value))
      (errorf "%s: must not contain control characters" (text field nil))

-- The loop over the capabilities.
unfoldable pub check_capabilities : Bytes → ℕ → Option Bytes → List Bytes → Check
check_capabilities field index previous [] = pass
check_capabilities field index previous (value ∷ rest) = do
  reject_if (ltb 64 (length value) || not (match_string ui_method_pattern value))
      (errorf "%s[%d]: invalid capability" (text field (num index nil)))
  reject_if (not_above previous value)
      (errorf "%s: values must be sorted and unique" (text field nil))
  check_capabilities field (index + 1) (some value) rest

unfoldable pub validate_capabilities : Bytes → List Bytes → Check
validate_capabilities field values = do
  reject_if (ltb 64 (length values)) (errorf "%s: must contain at most 64 values" (text field nil))
  check_capabilities field 0 none values

unfoldable pub validate_optional_text : Bytes → Bytes → ℕ → Check
validate_optional_text field value maximum = do
  reject_if (not (is_trimmed value) || not (valid_utf8 value) || ltb maximum (rune_count value))
      (errorf "%s: must contain at most %d trimmed characters" (text field (num maximum nil)))
  reject_if (not (has_no_control value))
      (errorf "%s: must not contain control characters" (text field nil))

-- No rune is white space or a control character.
unfoldable pub has_no_space : Bytes → Bool
unfolding runes is_control is_space
has_no_space value = all (λ r. not (is_control r || is_space r)) (runes value)

unfoldable pub validate_json_object : Bytes → Check
validate_json_object raw = do
  reject_if (length raw == 0 || ltb maximum_ui_json_bytes (length raw) || not (Json.valid raw))
      (errorf "must contain at most %d bytes of valid JSON" (num maximum_ui_json_bytes nil))
  let trimmed = trim_space raw
  reject_if (ltb (length trimmed) 2 || not (first_is b'{' trimmed) || not (last_is b'}' trimmed))
      (error "must be a JSON object")

unfoldable pub validate_diagnostic : Bytes → Bytes → ℕ → Check
validate_diagnostic field value maximum = do
  reject_if (ltb maximum (length value) || not (is_trimmed value))
      (errorf "%s: must contain at most %d trimmed bytes" (text field (num maximum nil)))
  reject_if (not (has_no_control value))
      (errorf "%s: must not contain control characters" (text field nil))

unfoldable pub validate_opaque_id : Bytes → Check
validate_opaque_id value = do
  reject_if (beq value [] || ltb 128 (length value) || not (is_trimmed value))
      (error "must contain 1 to 128 trimmed bytes")
  reject_if (not (has_no_control value)) (error "must not contain control characters")
