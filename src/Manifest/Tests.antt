-- ===== src/Manifest/Tests.antt =====
-- An example of the theorem on accepted manifests.
use relayward_sdk.Base.{◌≡◌, refl, [], ◌∷◌, some, none, codes, ok, pass}
use relayward_sdk.Base.Int.{pos}
use relayward_sdk.Manifest.{Manifest, validate}
use relayward_sdk.Protocol.Distinct.{NoRepeats}
use relayward_sdk.Manifest.Unique.{names, RolesMatch, accepted_manifest}

abbrev manifest : Manifest
manifest = record {
  api_version = codes "relayward.plugin/v1";
  id = codes "io.example";
  name = codes "Example";
  version = codes "1.0.0";
  kind = codes "runtime";
  requires = record { control_api = 1; agent_api = some 1; ui_api = none };
  permissions =
      record { name = codes "nodes.read"; reason = codes "why" }
      ∷ record { name = codes "nodes.write"; reason = codes "how" }
      ∷ [];
  artifacts =
      record {
        role = codes "center";
        file = codes "center";
        sha256 = codes "abababababababababababababababababababababababababababababababab";
        size = pos 5;
        os = codes "linux";
        arch = codes "amd64";
      }
      ∷ record {
        role = codes "node";
        file = codes "node";
        sha256 = codes "abababababababababababababababababababababababababababababababab";
        size = pos 5;
        os = codes "linux";
        arch = codes "amd64";
      }
      ∷ [];
}

manifest_accepted : validate manifest ≡ pass
unfolding validate relayward_sdk.Base.beq relayward_sdk.Contract.validate_plugin_id
    relayward_sdk.Regex.match_string relayward_sdk.Unicode.trim_space mathlib.Core.List.flatten
    relayward_sdk.Contract.validate_semantic_version relayward_sdk.Contract.index_byte
    relayward_sdk.Contract.before_byte relayward_sdk.Manifest.check_permissions
    relayward_sdk.Protocol.is_one_of relayward_sdk.Manifest.validate_artifacts
    relayward_sdk.Manifest.check_artifacts relayward_sdk.Manifest.check_artifact
    relayward_sdk.Manifest.has_separator relayward_sdk.Manifest.size_in
    relayward_sdk.Manifest.check_roles relayward_sdk.Contract.all_digits
    relayward_sdk.Contract.check_identifiers relayward_sdk.Contract.has_leading_zero
    relayward_sdk.Contract.split relayward_sdk.Manifest.check_target relayward_sdk.Manifest.differ
    relayward_sdk.Unicode.decode_rune
manifest_accepted = refl

accepted_manifest_example : NoRepeats (names manifest.permissions) × RolesMatch manifest
accepted_manifest_example = accepted_manifest manifest manifest_accepted
