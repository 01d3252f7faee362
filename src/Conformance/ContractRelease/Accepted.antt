-- ===== src/Conformance/ContractRelease/Accepted.antt =====
-- The release of the contract test plugin passes its own verification.
use relayward_sdk.Base.{
  ◌≤◌, ◌≡◌, refl, true, List, [], ◌∷◌, Bytes, arith, beq, length, Result, ok, pass,
}
use relayward_sdk.Base.Int.{pos}
use relayward_sdk.Regex.{match_string}
use relayward_sdk.Unicode.{trim_space}
use relayward_sdk.Encoding.{hex_encode}
use relayward_sdk.Encoding.Laws.{hex_encode-matches}
use relayward_sdk.Hash.{IsDigest}
use relayward_sdk.Contract.{validate_plugin_id, validate_semantic_version}
use relayward_sdk.Protocol.{is_one_of}
use relayward_sdk.Manifest.{
  Artifact, sha256_pattern, maximum_executable_artifact_bytes, maximum_ui_artifact_bytes,
  artifact_center, artifact_node, artifact_ui, differ, check_artifact, check_target,
  check_artifacts, has_separator, size_in, check_permissions, check_roles, validate_artifacts,
  validate,
}
use relayward_sdk.Conformance.ContractRelease.{
  contract_manifest, Item, center_item, node_item, ui_item, items, describe_artifact,
  describe_items,
}

module _ (sha256 : Bytes → Bytes) (law : IsDigest sha256) where
  abbrev pub artifact_of : Item → Bytes → Artifact
  artifact_of item raw = record {
    role = item.role;
    file = item.name;
    size = pos (length raw);
    sha256 = hex_encode (sha256 raw);
    os = item.os;
    arch = item.arch;
  }

  digest-matches : (raw : Bytes) → match_string sha256_pattern (hex_encode (sha256 raw)) ≡ true
  digest-matches raw =
      hex_encode-matches 64 (sha256 raw) (omega (arith, law.length-sha256 raw))
        (law.sha256-AreBytes raw)

  center-accepted :
      (raw : Bytes)
      → 1 ≤ length raw
      → length raw ≤ maximum_executable_artifact_bytes
      → check_artifact 0 [] (artifact_of center_item raw) ≡ pass
  unfolding check_artifact check_target has_separator size_in beq is_one_of
  center-accepted raw low high = let digest = digest-matches raw in ground arith

  node-accepted :
      (raw : Bytes)
      → 1 ≤ length raw
      → length raw ≤ maximum_executable_artifact_bytes
      → check_artifact 1 (artifact_center ∷ []) (artifact_of node_item raw) ≡ pass
  unfolding check_artifact check_target has_separator size_in beq is_one_of
  node-accepted raw low high = let digest = digest-matches raw in ground arith

  ui-accepted :
      (raw : Bytes)
      → 1 ≤ length raw
      → length raw ≤ maximum_ui_artifact_bytes
      → check_artifact 2 (artifact_node ∷ artifact_center ∷ []) (artifact_of ui_item raw) ≡ pass
  unfolding check_artifact check_target has_separator size_in beq is_one_of
  ui-accepted raw low high = let digest = digest-matches raw in ground arith

  roles-accepted :
      (version : Bytes) (artifacts : List Artifact)
      → check_roles
          (contract_manifest version artifacts)
          (artifact_ui ∷ artifact_node ∷ artifact_center ∷ [])
        ≡ pass
  unfolding check_roles contract_manifest differ is_one_of beq
  roles-accepted version artifacts = refl

  permissions-accepted :
      (version : Bytes) (artifacts : List Artifact)
      → check_permissions 0 [] (contract_manifest version artifacts).permissions ≡ pass
  unfolding check_permissions contract_manifest match_string beq trim_space
      mathlib.Core.List.flatten is_one_of
  permissions-accepted version artifacts = refl

  -- The files that the release is made of, as they are read.
  pub record Sources (read_file : Bytes → Result Bytes) (join : Bytes → Bytes → Bytes)
      (directory : Bytes) : Type 0 where
    pub center : Bytes
    pub node : Bytes
    pub ui : Bytes
    pub center_read : read_file (join directory center_item.name) ≡ ok center
    pub node_read : read_file (join directory node_item.name) ≡ ok node
    pub ui_read : read_file (join directory ui_item.name) ≡ ok ui
    pub center_low : 1 ≤ length center
    pub center_high : length center ≤ maximum_executable_artifact_bytes
    pub node_low : 1 ≤ length node
    pub node_high : length node ≤ maximum_executable_artifact_bytes
    pub ui_low : 1 ≤ length ui
    pub ui_high : length ui ≤ maximum_ui_artifact_bytes

  module _ {read_file : Bytes → Result Bytes} {join : Bytes → Bytes → Bytes} {directory : Bytes}
      (sources : Sources read_file join directory) where
    abbrev pub artifacts : List Artifact
    artifacts =
        artifact_of center_item sources.center
        ∷ artifact_of node_item sources.node
        ∷ artifact_of ui_item sources.ui
        ∷ []

    pub artifacts-described : describe_items sha256 read_file join directory items ≡ ok artifacts
    unfolding describe_items describe_artifact
    artifacts-described =
        rw (sources.center_read, describe_items)
          (rw (sources.node_read, describe_items) (rw (sources.ui_read, describe_items) refl))

    artifacts-checked :
        check_artifacts 0 [] artifacts ≡ ok (artifact_ui ∷ artifact_node ∷ artifact_center ∷ [])
    unfolding check_artifacts
    artifacts-checked =
        rw (center-accepted sources.center sources.center_low sources.center_high, check_artifacts)
          (rw (node-accepted sources.node sources.node_low sources.node_high, check_artifacts)
            (rw (ui-accepted sources.ui sources.ui_low sources.ui_high, check_artifacts) refl))

    pub manifest-accepted :
        (version : Bytes)
        → validate_semantic_version version ≡ pass
        → validate (contract_manifest version artifacts) ≡ pass
    unfolding validate validate_artifacts contract_manifest validate_plugin_id match_string beq
        trim_space mathlib.Core.List.flatten
    manifest-accepted version v =
        rw (v, validate)
          (rw (permissions-accepted version artifacts, validate)
            (rw (artifacts-checked, validate_artifacts) (roles-accepted version artifacts)))
