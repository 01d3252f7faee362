-- ===== src/Manifest/Unique.antt =====
-- What an accepted manifest declares: each role and permission once, and the versions it needs.
use relayward_sdk.Base.{
  ℕ, ◌+◌, ◌≡◌, true, false, ◌&&◌, ◌||◌, List, [], ◌∷◌, Bytes, arith, beq, inl, inr, is_some,
  Result-cases, ok, pass,
}
use relayward_sdk.Protocol.{is_one_of}
use relayward_sdk.Protocol.Distinct.{NoRepeats, Fresh, Fresh-cons}
use relayward_sdk.Manifest.{
  Manifest, Artifact, Permission, artifact_center, artifact_node, artifact_ui, kind_feature,
  check_artifact, check_artifacts, check_permissions, check_roles, differ, validate_artifacts,
  validate,
}

abbrev pub roles : List Artifact → List Bytes
roles [] = []
roles (a ∷ rest) = a.role ∷ roles rest

abbrev pub names : List Permission → List Bytes
names [] = []
names (p ∷ rest) = p.name ∷ names rest

check_artifacts-NoRepeats :
    (index : ℕ) (seen : List Bytes) (artifacts : List Artifact) (last : List Bytes)
    → check_artifacts index seen artifacts ≡ ok last
    → NoRepeats (roles artifacts) × Fresh seen (roles artifacts)
unfolding check_artifacts check_artifact
check_artifacts-NoRepeats index seen [] last h = (tt, tt)
check_artifacts-NoRepeats index seen (a ∷ rest) last h =
    let (n, f) = check_artifacts-NoRepeats (index + 1) (a.role ∷ seen) rest last (ground arith) in
    let (x, g) = Fresh-cons a.role seen (roles rest) f in ((x, n), (ground arith, g))

check_artifacts-roles :
    (index : ℕ) (seen : List Bytes) (artifacts : List Artifact) (last : List Bytes) (role : Bytes)
    → check_artifacts index seen artifacts ≡ ok last
    → is_one_of last role ≡ (is_one_of (roles artifacts) role || is_one_of seen role)
unfolding check_artifacts is_one_of
check_artifacts-roles index seen [] last role h = ground arith
check_artifacts-roles index seen (a ∷ rest) last role h =
    ground (arith, check_artifacts-roles (index + 1) (a.role ∷ seen) rest last role)

check_permissions-NoRepeats :
    (index : ℕ) (seen : List Bytes) (permissions : List Permission)
    → check_permissions index seen permissions ≡ pass
    → NoRepeats (names permissions) × Fresh seen (names permissions)
unfolding check_permissions
check_permissions-NoRepeats index seen [] h = (tt, tt)
check_permissions-NoRepeats index seen (p ∷ rest) h =
    let (n, f) = check_permissions-NoRepeats (index + 1) (p.name ∷ seen) rest (ground arith) in
    let (x, g) = Fresh-cons p.name seen (names rest) f in ((x, n), (ground arith, g))

-- What the roles of a manifest must be.
pub record RolesMatch (m : Manifest) : Type 0 where
  pub has_center : is_one_of (roles m.artifacts) artifact_center ≡ true
  pub agent_api_iff_node :
      is_some m.requires.agent_api ≡ is_one_of (roles m.artifacts) artifact_node
  pub ui_api_iff_ui : is_some m.requires.ui_api ≡ is_one_of (roles m.artifacts) artifact_ui
  pub feature_without_node :
      (beq m.kind kind_feature && is_one_of (roles m.artifacts) artifact_node) ≡ false
  pub roles_once : NoRepeats (roles m.artifacts)

check_roles-RolesMatch :
    (m : Manifest) (seen : List Bytes)
    → check_artifacts 0 [] m.artifacts ≡ ok seen
    → check_roles m seen ≡ pass
    → RolesMatch m
unfolding check_roles differ is_one_of
check_roles-RolesMatch m seen h k =
    let center = check_artifacts-roles 0 [] m.artifacts seen artifact_center h in
    let node = check_artifacts-roles 0 [] m.artifacts seen artifact_node h in
    let ui = check_artifacts-roles 0 [] m.artifacts seen artifact_ui h in
    record {
      has_center = ground arith;
      agent_api_iff_node = ground arith;
      ui_api_iff_ui = ground arith;
      feature_without_node = ground arith;
      roles_once = (check_artifacts-NoRepeats 0 [] m.artifacts seen h).0;
    }

-- An accepted manifest declares no permission and no role twice; it has a center artifact; it
-- requires an Agent API exactly if it has a node artifact, and a UI API exactly if it has a UI
-- artifact; and a feature plugin has no node artifact.
pub accepted_manifest :
    (m : Manifest) → validate m ≡ pass → NoRepeats (names m.permissions) × RolesMatch m
unfolding validate validate_artifacts
accepted_manifest m h = elim (Result-cases (check_artifacts 0 [] m.artifacts)) [
  | inl (seen, e) ↦ (
    (check_permissions-NoRepeats 0 [] m.permissions (ground arith)).0,
    check_roles-RolesMatch m seen e (ground arith),
  )
  | inr (error, e) ↦ absurd (ground arith)
]
