-- ===== src/Manifest.antt =====
-- manifest/manifest.go: the plugin release manifest, its validation and its compatibility check.
mod Tests
pub mod Unique
pub mod Decode
use relayward_sdk.Base.{
  ℕ, ◌+◌, ◌*◌, ◌^◌, Bool, true, false, not, ◌&&◌, ◌||◌, List, [], ◌∷◌, Option, none, some, Bytes,
  codes, beq, ltb, ◌==◌, length, is_some, if◌then◌else◌, Error, errorf, nil, num, text, error,
  wrapf, Check, Result, ◌>>◌, ◌>>=◌, ok, pass, reject_if, or_else_error,
}
use relayward_sdk.Base.Int.{ℤ, pos, ltb_ℤ}
use relayward_sdk.Regex.{Regex, times, match_string}
use relayward_sdk.Unicode.{trim_space}
use relayward_sdk.Contract.{
  manifest_api_version, validate_plugin_id, validate_semantic_version, SupportedApis, supports,
}
use relayward_sdk.Protocol.{type_pattern, lower_hex, is_one_of}

pub record Requirements : Type 0 where
  pub control_api : ℕ
  pub agent_api : Option ℕ
  pub ui_api : Option ℕ

pub record Permission : Type 0 where
  pub name : Bytes
  pub reason : Bytes

pub record Artifact : Type 0 where
  pub role : Bytes
  pub file : Bytes
  pub size : ℤ
  pub sha256 : Bytes
  pub os : Bytes
  pub arch : Bytes

pub record Manifest : Type 0 where
  pub api_version : Bytes
  pub id : Bytes
  pub name : Bytes
  pub version : Bytes
  pub kind : Bytes
  pub requires : Requirements
  pub permissions : List Permission
  pub artifacts : List Artifact

abbrev pub kind_runtime : Bytes
kind_runtime = codes "runtime"

abbrev pub kind_feature : Bytes
kind_feature = codes "feature"

abbrev pub artifact_center : Bytes
artifact_center = codes "center"

abbrev pub artifact_node : Bytes
artifact_node = codes "node"

abbrev pub artifact_ui : Bytes
artifact_ui = codes "ui"

-- ^[a-z][a-z0-9]*(?:\.[a-z][a-z0-9_-]*)+$, which is also the pattern of message types.
abbrev pub permission_pattern : Regex
permission_pattern = type_pattern

-- ^[0-9a-f]{64}$
abbrev pub sha256_pattern : Regex
sha256_pattern = times 64 lower_hex

abbrev pub maximum_executable_artifact_bytes : ℕ
maximum_executable_artifact_bytes = 256 * 2 ^ 20

abbrev pub maximum_ui_artifact_bytes : ℕ
maximum_ui_artifact_bytes = 64 * 2 ^ 20

-- The loop of `validatePermissions`; `seen` holds the names of the earlier entries.
unfoldable pub check_permissions : ℕ → List Bytes → List Permission → Check
check_permissions index seen [] = pass
check_permissions index seen (permission ∷ rest) = do
  reject_if
      (not (match_string permission_pattern permission.name) || ltb 128 (length permission.name))
      (errorf "permissions[%d].name: invalid permission identifier" (num index nil))
  let reason = trim_space permission.reason
  reject_if (beq reason [] || ltb 200 (length reason))
      (errorf "permissions[%d].reason: must contain 1 to 200 characters" (num index nil))
  reject_if (is_one_of seen permission.name) (
      errorf "permissions[%d].name: duplicate permission %q" (num index (text permission.name nil)))
  check_permissions (index + 1) (permission.name ∷ seen) rest

-- `strings.ContainsAny(file, `/\\`)`
unfoldable pub has_separator : Bytes → Bool
has_separator [] = false
has_separator (c ∷ s) = c == b'/' || c == 0x5C || has_separator s

unfoldable pub size_in : ℤ → ℕ → Bool
size_in size maximum = not (ltb_ℤ size (pos 1)) && not (ltb_ℤ (pos maximum) size)

-- The `switch` on the role, which is one of the three when it is reached.
unfoldable pub check_target : ℕ → Artifact → Check
check_target index artifact =
    if beq artifact.role artifact_ui
    then (do
      reject_if (not (size_in artifact.size maximum_ui_artifact_bytes)) (
          errorf "artifacts[%d].size: must be between 1 and %d"
            (num index (num maximum_ui_artifact_bytes nil)))
      reject_if (not (beq artifact.os []) || not (beq artifact.arch []))
          (errorf "artifacts[%d]: UI artifact must not declare os or arch" (num index nil)))
    else (do
      reject_if (not (size_in artifact.size maximum_executable_artifact_bytes)) (
          errorf "artifacts[%d].size: must be between 1 and %d"
            (num index (num maximum_executable_artifact_bytes nil)))
      reject_if (not (beq artifact.os (codes "linux")) || not (beq artifact.arch (codes "amd64")))
          (errorf "artifacts[%d]: executable target must be linux/amd64" (num index nil)))

-- One round of the loop of `validateArtifacts`.
unfoldable pub check_artifact : ℕ → List Bytes → Artifact → Check
unfolding check_target
check_artifact index seen artifact = do
  reject_if
      (not (
        beq artifact.role artifact_center
        || beq artifact.role artifact_node
        || beq artifact.role artifact_ui))
      (errorf "artifacts[%d].role: unsupported value %q" (num index (text artifact.role nil)))
  reject_if (is_one_of seen artifact.role)
      (errorf "artifacts[%d].role: duplicate role %q" (num index (text artifact.role nil)))
  reject_if
      (beq artifact.file []
        || beq artifact.file (codes ".")
        || beq artifact.file (codes "..")
        || has_separator artifact.file)
      (errorf "artifacts[%d].file: must be a release asset file name" (num index nil))
  reject_if (not (match_string sha256_pattern artifact.sha256))
      (errorf "artifacts[%d].sha256: must be 64 lowercase hexadecimal characters" (num index nil))
  check_target index artifact

-- The loop returns the roles seen.
unfoldable pub check_artifacts : ℕ → List Bytes → List Artifact → Result (List Bytes)
check_artifacts index seen [] = ok seen
check_artifacts index seen (artifact ∷ rest) = do
  check_artifact index seen artifact
  check_artifacts (index + 1) (artifact.role ∷ seen) rest

abbrev is_zero_api : Option ℕ → Bool
is_zero_api none = false
is_zero_api (some n) = n == 0

-- `hasNode != (value.Requires.AgentAPI != nil)`
unfoldable pub differ : Bool → Bool → Bool
differ true b = not b
differ false b = b

unfoldable pub check_roles : Manifest → List Bytes → Check
unfolding differ
check_roles value seen = do
  reject_if (not (is_one_of seen artifact_center)) (error "artifacts: center artifact is required")
  let has_node = is_one_of seen artifact_node
  let has_ui = is_one_of seen artifact_ui
  reject_if (beq value.kind kind_feature && has_node)
      (error "artifacts: feature plugins cannot contain a node artifact")
  reject_if (differ has_node (is_some value.requires.agent_api))
      (error "requires.agent_api: must be present exactly when a node artifact is declared")
  reject_if (differ has_ui (is_some value.requires.ui_api))
      (error "requires.ui_api: must be present exactly when a UI artifact is declared")
  reject_if (is_zero_api value.requires.agent_api)
      (error "requires.agent_api: must be greater than zero")
  reject_if (is_zero_api value.requires.ui_api) (error "requires.ui_api: must be greater than zero")

unfoldable pub validate_artifacts : Manifest → Check
validate_artifacts value = do seen ← check_artifacts 0 [] value.artifacts; check_roles value seen

-- `Validate`
unfoldable pub validate : Manifest → Check
validate value = do
  reject_if (not (beq value.api_version manifest_api_version))
      (errorf "api_version: unsupported value %q" (text value.api_version nil))
  or_else_error (validate_plugin_id value.id) (wrapf "id: %w")
  let name = trim_space value.name
  reject_if (beq name [] || ltb 80 (length name)) (error "name: must contain 1 to 80 characters")
  or_else_error (validate_semantic_version value.version) (wrapf "version: %w")
  reject_if (not (beq value.kind kind_runtime) && not (beq value.kind kind_feature))
      (errorf "kind: unsupported value %q" (text value.kind nil))
  reject_if (value.requires.control_api == 0)
      (error "requires.control_api: must be greater than zero")
  check_permissions 0 [] value.permissions
  validate_artifacts value

check_api : List ℕ → Option ℕ → Error → Check
check_api versions none e = pass
check_api versions (some required) e = reject_if (not (supports versions required)) e

abbrev api_number : Option ℕ → ℕ
api_number none = 0
api_number (some n) = n

unfoldable pub check_compatibility : Manifest → SupportedApis → Check
unfolding check_api
check_compatibility value supported = do
  reject_if (not (supports supported.control value.requires.control_api))
      (errorf "control API v%d is not supported" (num value.requires.control_api nil))
  check_api supported.agent value.requires.agent_api
      (errorf "agent API v%d is not supported" (num (api_number value.requires.agent_api) nil))
  check_api supported.ui value.requires.ui_api
      (errorf "UI API v%d is not supported" (num (api_number value.requires.ui_api) nil))
