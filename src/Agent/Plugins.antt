-- ===== src/Agent/Plugins.antt =====
-- agent/v1/plugins.go: plugin reconciliation and status. SHA-256 and `url.ParseRequestURI` are
-- parameters.
pub mod RoundTrip
pub mod Digest
use relayward_sdk.Base.{
  ℕ, ◌*◌, ◌^◌, Bool, true, false, not, ◌||◌, [], ◌∷◌, Option, none, some, Bytes, codes, beq, ltb,
  ◌==◌, length, is_some, if◌then◌else◌, errorf, nil, num, text, error, wrapf, Check, Result, ok,
  err, ◌>>◌, ◌>>=◌, reject_if, or_else_error,
}
use relayward_sdk.Base.Int.{ℤ, pos, ltb_ℤ}
use relayward_sdk.Regex.{match_string}
use relayward_sdk.Clock.{Time, utc}
use relayward_sdk.Unicode.{trim_space}
use relayward_sdk.Json
use relayward_sdk.Json.{Codec, decode_strict}
use relayward_sdk.Encoding.{hex_encode}
use relayward_sdk.Contract.{validate_plugin_id, validate_semantic_version}
use relayward_sdk.Agent.Commands.{Command, validate_command, digest_pattern}
use relayward_sdk.Agent.Events.{max_int64}

abbrev pub command_plugin_reconcile : Bytes
command_plugin_reconcile = codes "plugin.reconcile"

abbrev pub plugin_state_running : Bytes
plugin_state_running = codes "running"

abbrev pub plugin_state_stopped : Bytes
plugin_state_stopped = codes "stopped"

abbrev pub plugin_state_absent : Bytes
plugin_state_absent = codes "absent"

abbrev pub plugin_state_failed : Bytes
plugin_state_failed = codes "failed"

abbrev pub plugin_health_healthy : Bytes
plugin_health_healthy = codes "healthy"

abbrev pub plugin_health_unhealthy : Bytes
plugin_health_unhealthy = codes "unhealthy"

abbrev pub plugin_health_unknown : Bytes
plugin_health_unknown = codes "unknown"

abbrev pub maximum_plugin_artifact_bytes : ℕ
maximum_plugin_artifact_bytes = 256 * 2 ^ 20

abbrev pub maximum_plugin_configuration_bytes : ℕ
maximum_plugin_configuration_bytes = 384 * 2 ^ 10

abbrev pub maximum_plugin_download_url_bytes : ℕ
maximum_plugin_download_url_bytes = 4096

abbrev pub maximum_plugin_status_reason_bytes : ℕ
maximum_plugin_status_reason_bytes = 512

pub record PluginArtifact : Type 0 where
  pub download_url : Bytes
  pub size : ℤ
  pub sha256 : Bytes

pub record PluginReconcileCommand : Type 0 where
  pub plugin_id : Bytes
  pub generation : ℕ
  pub desired_state : Bytes
  pub version : Bytes
  pub artifact : Option PluginArtifact
  pub configuration : Bytes

-- What the checks read of a parsed URL.
pub record Url : Type 0 where
  pub scheme : Bytes
  pub host : Bytes
  pub has_user : Bool
  pub fragment : Bytes

abbrev pub ParseUrl : Type 0
ParseUrl = Bytes → Option Url

unfoldable pub validate_plugin_identity : Bytes → ℕ → Check
validate_plugin_identity plugin_id generation = do
  or_else_error (validate_plugin_id plugin_id) (wrapf "plugin_id: %w")
  reject_if (generation == 0 || ltb max_int64 generation)
      (errorf "generation: must be between 1 and %d" (num max_int64 nil))

unfoldable pub bad_download_url : Option Url → Bool
bad_download_url none = true
bad_download_url (some parsed) =
    not (beq parsed.scheme (codes "https"))
    || beq parsed.host []
    || parsed.has_user
    || not (beq parsed.fragment [])

unfoldable pub validate_plugin_artifact : ParseUrl → PluginArtifact → Check
validate_plugin_artifact parse_url value = do
  reject_if
      (length value.download_url == 0
        || ltb maximum_plugin_download_url_bytes (length value.download_url))
      (errorf "download_url: must contain 1 to %d bytes"
        (num maximum_plugin_download_url_bytes nil))
  reject_if (bad_download_url (parse_url value.download_url))
      (error "download_url: must be an HTTPS URL without credentials or a fragment")
  reject_if (ltb_ℤ value.size (pos 1) || ltb_ℤ (pos maximum_plugin_artifact_bytes) value.size)
      (errorf "size: must be between 1 and %d" (num maximum_plugin_artifact_bytes nil))
  reject_if (not (match_string digest_pattern value.sha256))
      (error "sha256: invalid SHA-256 digest")

-- `trimmed[0]` and `trimmed[len(trimmed)-1]`
abbrev pub first_is : ℕ → Bytes → Bool
first_is c [] = false
first_is c (d ∷ _) = d == c

abbrev pub last_is : ℕ → Bytes → Bool
last_is c [] = false
last_is c (d ∷ []) = d == c
last_is c (_ ∷ d ∷ s) = last_is c (d ∷ s)

unfoldable pub validate_plugin_configuration : Bytes → Check
validate_plugin_configuration raw = do
  reject_if
      (length raw == 0
        || ltb maximum_plugin_configuration_bytes (length raw)
        || not (Json.valid raw))
      (errorf "must contain at most %d bytes of valid JSON"
        (num maximum_plugin_configuration_bytes nil))
  let trimmed = trim_space raw
  reject_if (ltb (length trimmed) 2 || not (first_is b'{' trimmed) || not (last_is b'}' trimmed))
      (error "must be a JSON object")

unfoldable pub plugin_configuration_digest : (Bytes → Bytes) → Bytes → Result Bytes
plugin_configuration_digest sha256 raw = do
  validate_plugin_configuration raw
  compact ← or_else_error (Json.compact raw) (wrapf "compact plugin configuration: %w")
  ok (hex_encode (sha256 compact))

unfoldable pub check_artifact : ParseUrl → Option PluginArtifact → Check
check_artifact parse_url none = err (error "artifact: required unless desired_state is absent")
check_artifact parse_url (some artifact) =
    or_else_error (validate_plugin_artifact parse_url artifact) (wrapf "artifact: %w")

check_absent : PluginReconcileCommand → Check
check_absent value =
    reject_if
      (not (beq value.version [])
        || is_some value.artifact
        || not (length value.configuration == 0))
      (error "desired_state: absent plugins must not include a version, artifact, or configuration")

check_present : ParseUrl → PluginReconcileCommand → Check
check_present parse_url value = do
  reject_if
      (not (
        beq value.desired_state plugin_state_running
        || beq value.desired_state plugin_state_stopped))
      (errorf "desired_state: unsupported value %q" (text value.desired_state nil))
  or_else_error (validate_semantic_version value.version) (wrapf "version: %w")
  check_artifact parse_url value.artifact
  or_else_error (validate_plugin_configuration value.configuration) (wrapf "configuration: %w")

unfoldable pub validate_plugin_reconcile_command : ParseUrl → PluginReconcileCommand → Check
unfolding check_absent check_present
validate_plugin_reconcile_command parse_url value = do
  validate_plugin_identity value.plugin_id value.generation
  if beq value.desired_state plugin_state_absent
      then check_absent value
      else check_present parse_url value

unfoldable pub new_plugin_reconcile_command :
    ParseUrl → Codec PluginReconcileCommand → PluginReconcileCommand → Time → Time → Result Command
new_plugin_reconcile_command parse_url codec value issued_at expires_at = do
  validate_plugin_reconcile_command parse_url value
  payload ← or_else_error (codec.marshal value) (wrapf "encode plugin reconcile command: %w")
  let command : Command = record {
    kind = command_plugin_reconcile;
    issued_at = utc issued_at;
    expires_at = utc expires_at;
    payload = payload;
  }
  validate_command command
  ok command

unfoldable pub decode_plugin_reconcile_command :
    ParseUrl → Codec PluginReconcileCommand → Command → Result PluginReconcileCommand
decode_plugin_reconcile_command parse_url codec value = do
  validate_command value
  reject_if (not (beq value.kind command_plugin_reconcile))
      (errorf "kind: must be %q" (text command_plugin_reconcile nil))
  payload ←
      or_else_error (decode_strict codec value.payload)
        (wrapf "decode plugin reconcile command: %w")
  validate_plugin_reconcile_command parse_url payload
  ok payload
