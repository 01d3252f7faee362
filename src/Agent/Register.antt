-- ===== src/Agent/Register.antt =====
-- agent/v1/register.go: Agent registration.
use relayward_sdk.Base.{
  not, List, Bytes, codes, beq, errorf, nil, text, error, wrapf, Check, Result, ok, ◌>>◌, ◌>>=◌,
  reject_if, or_else_error,
}
use relayward_sdk.Regex.{match_string}
use relayward_sdk.Json.{Codec, decode_strict}
use relayward_sdk.Contract.{agent_api_version}
use relayward_sdk.Agent.Validate.{
  node_id_pattern, validate_agent_version, validate_hostname, validate_capabilities,
  validate_display_name, valid_secret,
}

abbrev pub api_version : Bytes
api_version = agent_api_version

pub record RegisterRequest : Type 0 where
  pub api_version : Bytes
  pub token : Bytes
  pub agent_version : Bytes
  pub hostname : Bytes
  pub os : Bytes
  pub arch : Bytes
  pub capabilities : List Bytes

pub record RegisterResponse : Type 0 where
  pub api_version : Bytes
  pub node_id : Bytes
  pub node_name : Bytes
  pub credential : Bytes

unfoldable pub validate_registration_token : Bytes → Check
validate_registration_token value =
    reject_if (not (valid_secret value (codes "rwr_"))) (error "token: invalid registration token")

unfoldable pub validate_credential : Bytes → Check
validate_credential value =
    reject_if (not (valid_secret value (codes "rwc_")))
      (error "credential: invalid node credential")

unfoldable pub validate_node_id : Bytes → Check
validate_node_id value =
    reject_if (not (match_string node_id_pattern value)) (error "node_id: invalid node ID")

unfoldable pub validate_register_request : RegisterRequest → Check
validate_register_request value = do
  reject_if (not (beq value.api_version api_version))
      (errorf "api_version: unsupported value %q" (text value.api_version nil))
  validate_registration_token value.token
  validate_agent_version value.agent_version
  validate_hostname value.hostname
  reject_if (not (beq value.os (codes "linux")))
      (errorf "os: unsupported value %q" (text value.os nil))
  reject_if (not (beq value.arch (codes "amd64")))
      (errorf "arch: unsupported value %q" (text value.arch nil))
  validate_capabilities value.capabilities

unfoldable pub validate_register_response : RegisterResponse → Check
validate_register_response value = do
  reject_if (not (beq value.api_version api_version))
      (errorf "api_version: unsupported value %q" (text value.api_version nil))
  validate_node_id value.node_id
  validate_display_name (codes "node_name") value.node_name 100
  validate_credential value.credential

unfoldable pub decode_register_request : Codec RegisterRequest → Bytes → Result RegisterRequest
decode_register_request codec reader = do
  value ← or_else_error (decode_strict codec reader) (wrapf "decode Agent registration request: %w")
  validate_register_request value
  ok value
