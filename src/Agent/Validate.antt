-- ===== src/Agent/Validate.antt =====
-- agent/v1/validate.go: the checks that the Agent's messages share.
pub mod Secret
use relayward_sdk.Base.{
  ℕ, ◌+◌, Bool, true, false, not, ◌&&◌, ◌||◌, List, [], ◌∷◌, Option, none, some, Bytes, beq,
  le_bytes, ltb, ◌==◌, length, drop, if◌then◌else◌, errorf, nil, num, text, error, Check, ◌>>◌,
  pass, reject_if,
}
use relayward_sdk.Regex.{Regex, class, seq, star, plus, times, up_to, match_string}
use relayward_sdk.Unicode.{is_trimmed, has_no_control, rune_count}
use relayward_sdk.Encoding.{base64_decode}
use relayward_sdk.Contract.{lower_alnum}
use relayward_sdk.Protocol.{lower_hex, lower, alnum_class}

abbrev pub dash : Regex
dash = class ((b'-', b'-') ∷ [])

-- ^[0-9a-f]{8}-[0-9a-f]{4}-[1-5][0-9a-f]{3}-[89ab][0-9a-f]{3}-[0-9a-f]{12}$
abbrev pub uuid_pattern : Regex
uuid_pattern = seq (times 8 lower_hex) (
    seq dash (
      seq (times 4 lower_hex) (
        seq dash (
          seq (class ((b'1', b'5') ∷ [])) (
            seq (times 3 lower_hex) (
              seq dash (
                seq (class ((b'8', b'9') ∷ (b'a', b'b') ∷ []))
                  (seq (times 3 lower_hex) (seq dash (times 12 lower_hex))))))))))

abbrev pub node_id_pattern : Regex
node_id_pattern = uuid_pattern

-- ^[0-9a-f]{32}$
abbrev pub message_id_pattern : Regex
message_id_pattern = times 32 lower_hex

-- ^[A-Za-z0-9][A-Za-z0-9._+-]{0,63}$
abbrev pub agent_version_pattern : Regex
agent_version_pattern = seq (class alnum_class) (
    up_to 63 (
      class (
        (b'A', b'Z')
        ∷ (b'a', b'z')
        ∷ (b'0', b'9')
        ∷ (b'.', b'.')
        ∷ (b'_', b'_')
        ∷ (b'+', b'+')
        ∷ (b'-', b'-')
        ∷ [])))

-- [._-][a-z0-9]+
abbrev pub dotted_part : Regex
dotted_part = seq (class ((b'.', b'.') ∷ (b'_', b'_') ∷ (b'-', b'-') ∷ [])) (plus lower_alnum)

-- ^[a-z][a-z0-9]*(?:[._-][a-z0-9]+)*$
abbrev pub capability_pattern : Regex
capability_pattern = seq lower (seq (star lower_alnum) (star dotted_part))

-- ^[a-z][a-z0-9]*(?:[._-][a-z0-9]+)+$, of command and event kinds.
abbrev pub kind_pattern : Regex
kind_pattern = seq lower (seq (star lower_alnum) (plus dotted_part))

-- ^[a-z0-9][a-z0-9._-]{0,63}$
abbrev pub component_id_pattern : Regex
component_id_pattern = seq lower_alnum (
    up_to 63
      (class ((b'a', b'z') ∷ (b'0', b'9') ∷ (b'.', b'.') ∷ (b'_', b'_') ∷ (b'-', b'-') ∷ [])))

unfoldable pub validate_agent_version : Bytes → Check
validate_agent_version value =
    reject_if (not (match_string agent_version_pattern value))
      (error "agent_version: invalid version")

unfoldable pub validate_hostname : Bytes → Check
validate_hostname value = do
  reject_if (beq value [] || not (is_trimmed value) || ltb 253 (length value))
      (error "hostname: must contain 1 to 253 characters")
  reject_if (not (has_no_control value)) (error "hostname: must not contain control characters")

-- The loop over the capabilities; `previous` is absent in the first round (`index > 0`).
abbrev pub not_above : Option Bytes → Bytes → Bool
not_above none value = false
not_above (some previous) value = le_bytes value previous

unfoldable pub check_capabilities : ℕ → Option Bytes → List Bytes → Check
check_capabilities index previous [] = pass
check_capabilities index previous (value ∷ rest) = do
  reject_if (not (match_string capability_pattern value) || ltb 64 (length value))
      (errorf "capabilities[%d]: invalid capability" (num index nil))
  reject_if (not_above previous value) (error "capabilities: values must be sorted and unique")
  check_capabilities (index + 1) (some value) rest

unfoldable pub validate_capabilities : List Bytes → Check
unfolding check_capabilities
validate_capabilities values = do
  reject_if (ltb 64 (length values)) (error "capabilities: must contain at most 64 values")
  check_capabilities 0 none values

unfoldable pub validate_display_name : Bytes → Bytes → ℕ → Check
validate_display_name field value maximum =
    reject_if (beq value [] || not (is_trimmed value) || ltb maximum (rune_count value))
      (errorf "%s: must contain 1 to %d characters" (text field (num maximum nil)))

-- `strings.HasPrefix`
unfoldable pub has_prefix : Bytes → Bytes → Bool
has_prefix value [] = true
has_prefix [] (p ∷ prefix) = false
has_prefix (c ∷ value) (p ∷ prefix) = c == p && has_prefix value prefix

is_32_bytes : Option Bytes → Bool
is_32_bytes none = false
is_32_bytes (some decoded) = length decoded == 32

unfoldable pub valid_secret : Bytes → Bytes → Bool
unfolding has_prefix is_32_bytes
valid_secret value prefix =
    if not (length value == length prefix + 43) || not (has_prefix value prefix)
    then false
    else is_32_bytes (base64_decode (drop (length prefix) value))
