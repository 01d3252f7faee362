-- ===== src/Conformance/ContractRelease.antt =====
-- cmd/relayward-contract-release/main.go: the release of the contract test plugin. The flags are
-- arguments, as are `os.ReadFile`, `os.WriteFile`, `filepath.Join`, SHA-256 and
-- `json.MarshalIndent`; `fatal` ends the program with its error.
pub mod Accepted
pub mod RoundTrip
use relayward_sdk.Base.{
  ℕ, not, List, [], ◌∷◌, ◌++◌, some, Bytes, codes, length, ◌==◌, errorf, nil, text, cause, error,
  wrapf, Check, Result, ok, ◌>>◌, ◌>>=◌, reject_if, or_else_error,
}
use relayward_sdk.Base.Int.{pos}
use relayward_sdk.Encoding.{hex_encode}
use relayward_sdk.Contract.{
  manifest_api_version, control_api_major, agent_api_major, ui_api_major, validate_semantic_version,
}
use relayward_sdk.Manifest.{
  Manifest, Artifact, Permission, kind_runtime, artifact_center, artifact_node, artifact_ui,
  validate,
}
use relayward_sdk.CenterPlugin.Info.{
  permission_events_write, permission_nodes_read, permission_services_write,
}
use relayward_sdk.Conformance.Release.{plugin_release_manifest}

-- The manifest without its artifacts.
unfoldable pub contract_manifest : Bytes → List Artifact → Manifest
contract_manifest version artifacts = record {
  api_version = manifest_api_version;
  id = codes "io.relayward.contract-test";
  name = codes "Relayward contract test plugin";
  version = version;
  kind = kind_runtime;
  requires = record {
    control_api = control_api_major;
    agent_api = some agent_api_major;
    ui_api = some ui_api_major;
  };
  permissions =
      record {
        name = permission_events_write;
        reason = codes "Exercise permission-gated structured event publication.";
      }
      ∷ record {
        name = permission_nodes_read;
        reason = codes "Exercise permission-gated node state access.";
      }
      ∷ record {
        name = permission_services_write;
        reason = codes "Exercise permission-gated service catalog replacement.";
      }
      ∷ [];
  artifacts = artifacts;
}

-- The loop is over three items that are written out.
pub record Item : Type 0 where
  pub role : Bytes
  pub name : Bytes
  pub os : Bytes
  pub arch : Bytes

abbrev pub center_item : Item
center_item = record {
  role = artifact_center;
  name = codes "contract-plugin-center-linux-amd64";
  os = codes "linux";
  arch = codes "amd64";
}

abbrev pub node_item : Item
node_item = record {
  role = artifact_node;
  name = codes "contract-plugin-node-linux-amd64";
  os = codes "linux";
  arch = codes "amd64";
}

abbrev pub ui_item : Item
ui_item = record {
  role = artifact_ui;
  name = codes "contract-plugin-ui.tar.gz";
  os = [];
  arch = [];
}

abbrev pub items : List Item
items = center_item ∷ node_item ∷ ui_item ∷ []

module _ (sha256 : Bytes → Bytes) (read_file : Bytes → Result Bytes)
    (join : Bytes → Bytes → Bytes) where
  unfoldable pub describe_artifact : Bytes → Item → Result Artifact
  describe_artifact path item = do
    raw ←
        or_else_error (read_file path)
          (λ e. errorf "read %s artifact: %w" (text item.role (cause e nil)))
    ok (record {
      role = item.role;
      file = item.name;
      size = pos (length raw);
      sha256 = hex_encode (sha256 raw);
      os = item.os;
      arch = item.arch;
    })

  unfoldable pub describe_items : Bytes → List Item → Result (List Artifact)
  describe_items directory [] = ok []
  describe_items directory (item ∷ rest) = do
    artifact ← describe_artifact (join directory item.name) item
    artifacts ← describe_items directory rest
    ok (artifact ∷ artifacts)

  -- What `main` writes, and the manifest it is the text of.
  unfoldable pub released :
      (Manifest → Result Bytes) → ℕ → Bytes → Bytes → Result (Manifest × Bytes)
  released marshal_indent positional directory version = do
    reject_if (not (positional == 0)) (error "unexpected positional argument")
    or_else_error (validate_semantic_version version) (wrapf "invalid version: %v")
    artifacts ← describe_items directory items
    let manifest = contract_manifest version artifacts
    or_else_error (validate manifest) (wrapf "generated manifest is invalid: %v")
    raw ← or_else_error (marshal_indent manifest) (wrapf "encode manifest: %v")
    ok (manifest, raw ++ 0x0A ∷ [])

  -- `main`, with the call that writes the file.
  unfoldable pub release_main :
      (Manifest → Result Bytes) → (Bytes → Bytes → Check) → ℕ → Bytes → Bytes → Check
  release_main marshal_indent write_file positional directory version = do
    written ← released marshal_indent positional directory version
    or_else_error (write_file (join directory plugin_release_manifest) written.1)
        (wrapf "write manifest: %v")
