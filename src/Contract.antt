-- ===== src/Contract.antt =====
-- contract/version.go: version constants, plugin IDs, semantic versions, supported API majors.
use relayward_sdk.Base.{
  ℕ, suc, ◌+◌, Bool, false, not, ◌&&◌, ◌||◌, List, [], ◌∷◌, Option, none, some, Bytes, codes, beq,
  ltb, ◌==◌, length, drop, all, if◌then◌else◌, error, Check, ◌>>◌, pass, reject_if,
}
use relayward_sdk.Regex.{Regex, class, byte, seq, alt, star, plus, optional, match_string}

abbrev pub manifest_api_version : Bytes
manifest_api_version = codes "relayward.plugin/v1"

abbrev pub control_api_version : Bytes
control_api_version = codes "relayward.control/v1"

abbrev pub agent_api_version : Bytes
agent_api_version = codes "relayward.agent/v1"

abbrev pub node_plugin_api_version : Bytes
node_plugin_api_version = codes "relayward.node-plugin/v1"

abbrev pub center_plugin_api_version : Bytes
center_plugin_api_version = codes "relayward.center-plugin/v1"

abbrev pub control_api_major : ℕ
control_api_major = 1

abbrev pub agent_api_major : ℕ
agent_api_major = 1

abbrev pub ui_api_major : ℕ
ui_api_major = 1

-- [0-9], [1-9], [a-z0-9], [.-] and [0-9A-Za-z-]
abbrev pub digit : Regex
digit = class ((b'0', b'9') ∷ [])

abbrev pub nonzero_digit : Regex
nonzero_digit = class ((b'1', b'9') ∷ [])

abbrev pub lower_alnum : Regex
lower_alnum = class ((b'a', b'z') ∷ (b'0', b'9') ∷ [])

abbrev pub identifier_byte : Regex
identifier_byte = class ((b'0', b'9') ∷ (b'A', b'Z') ∷ (b'a', b'z') ∷ (b'-', b'-') ∷ [])

-- ^[a-z0-9]+(?:[.-][a-z0-9]+)*$
abbrev pub plugin_id_pattern : Regex
plugin_id_pattern =
    seq (plus lower_alnum)
      (star (seq (class ((b'.', b'.') ∷ (b'-', b'-') ∷ [])) (plus lower_alnum)))

-- (0|[1-9][0-9]*)
abbrev pub numeric : Regex
numeric = alt (byte b'0') (seq nonzero_digit (star digit))

-- [0-9A-Za-z-]+(?:\.[0-9A-Za-z-]+)*
abbrev pub identifiers : Regex
identifiers = seq (plus identifier_byte) (star (seq (byte b'.') (plus identifier_byte)))

abbrev pub semantic_version_pattern : Regex
semantic_version_pattern = seq numeric (
    seq (byte b'.') (
      seq numeric (
        seq (byte b'.') (
          seq numeric (
            seq (optional (seq (byte b'-') identifiers))
              (optional (seq (byte b'+') identifiers)))))))

unfoldable pub validate_plugin_id : Bytes → Check
validate_plugin_id value =
    reject_if (ltb 128 (length value) || not (match_string plugin_id_pattern value))
      (error "must be a lowercase dotted identifier of at most 128 characters")

-- `strings.SplitN(value, sep, 2)[0]`
unfoldable pub before_byte : ℕ → Bytes → Bytes
before_byte sep [] = []
before_byte sep (c ∷ s) = if c == sep then [] else c ∷ before_byte sep s

-- `strings.IndexByte`; `none` is -1.
unfoldable pub index_byte : ℕ → Bytes → Option ℕ
index_byte sep [] = none
index_byte sep (c ∷ s) =
    if c == sep then some 0 else elim (index_byte sep s) [ none ↦ none | some n ↦ some (suc n) ]

-- `strings.Split` at one byte.
prepend : ℕ → List Bytes → List Bytes
prepend c [] = (c ∷ []) ∷ []
prepend c (part ∷ parts) = (c ∷ part) ∷ parts

unfoldable pub split : ℕ → Bytes → List Bytes
unfolding prepend
split sep [] = [] ∷ []
split sep (c ∷ s) = let rest = split sep s in if c == sep then [] ∷ rest else prepend c rest

unfoldable pub all_digits : Bytes → Bool
all_digits = all (λ c. not (ltb c b'0' || ltb b'9' c))

starts_with_zero : Bytes → Bool
starts_with_zero [] = false
starts_with_zero (c ∷ _) = c == b'0'

-- An identifier that the loop of `ValidateSemanticVersion` rejects.
unfoldable pub has_leading_zero : Bytes → Bool
unfolding all_digits starts_with_zero
has_leading_zero identifier =
    ltb 1 (length identifier) && starts_with_zero identifier && all_digits identifier

unfoldable pub check_identifiers : List Bytes → Check
check_identifiers [] = pass
check_identifiers (identifier ∷ rest) = do
  reject_if (has_leading_zero identifier)
      (error "must be a semantic version without pre-release numeric leading zeros")
  check_identifiers rest

check_pre_release : Bytes → Check
check_pre_release core = elim (index_byte b'-' core) [
  | none ↦ pass
  | some start ↦ check_identifiers (split b'.' (drop (start + 1) core))
]

unfoldable pub validate_semantic_version : Bytes → Check
unfolding check_pre_release
validate_semantic_version value = do
  reject_if (ltb 128 (length value) || not (match_string semantic_version_pattern value))
      (error "must be a semantic version without a leading v")
  check_pre_release (before_byte b'+' value)

unfoldable pub is_message_api_version : Bytes → Bool
is_message_api_version value = beq value control_api_version || beq value agent_api_version

pub record SupportedApis : Type 0 where
  pub control : List ℕ
  pub agent : List ℕ
  pub ui : List ℕ

unfoldable pub supports : List ℕ → ℕ → Bool
supports [] required = false
supports (version ∷ versions) required = version == required || supports versions required
