-- ===== src/Conformance/Release.antt =====
-- conformance/release.go: the verification of a plugin release. SHA-256 is a parameter.
pub mod Verified
use relayward_sdk.Base.{
  ℕ, ◌+◌, Bool, not, ◌||◌, List, [], ◌∷◌, Bytes, codes, beq, take, errorf, nil, text, cause, error,
  wrapf, Check, Result, ok, err, ◌>>◌, ◌>>=◌, pass, reject_if, or_else_error,
}
use relayward_sdk.Base.Int.{ℤ, eqb_ℤ, pos_part}
use relayward_sdk.Encoding.{hex_encode}
use relayward_sdk.Manifest.{Manifest, Artifact}
use relayward_sdk.Conformance.Files.{FileSystem, File}
use relayward_sdk.Conformance.Agent.{AgentFormats, load_manifest}

abbrev pub plugin_release_manifest : Bytes
plugin_release_manifest = codes "relayward-plugin.json"

-- `copyErr != nil || closeErr != nil`, with the role in the error.
unfoldable pub read_artifact : Bytes → File → Result Bytes
read_artifact role file = do
  content ← or_else_error file.content (λ _. errorf "read %s artifact" (text role nil))
  or_else_error file.close (λ _. errorf "read %s artifact" (text role nil))
  ok content

module _ (files : FileSystem) (sha256 : Bytes → Bytes) where
  -- One round of the loop over the artifacts. An accepted manifest has no negative size.
  unfoldable pub verify_artifact : Bytes → Artifact → Check
  verify_artifact directory artifact = do
    let path = files.join directory artifact.file
    info ←
        or_else_error (files.lstat path)
          (λ e. errorf "inspect %s artifact: %w" (text artifact.role (cause e nil)))
    reject_if (not info.is_regular || info.is_symlink)
        (errorf "%s artifact must be a regular file" (text artifact.role nil))
    reject_if (not (eqb_ℤ info.size artifact.size))
        (errorf "%s artifact size does not match the manifest" (text artifact.role nil))
    file ←
        or_else_error (files.open_file path)
          (λ e. errorf "open %s artifact: %w" (text artifact.role (cause e nil)))
    content ← read_artifact artifact.role file
    reject_if
        (not
          (beq (hex_encode (sha256 (take (pos_part artifact.size + 1) content))) artifact.sha256))
        (errorf "%s artifact SHA-256 does not match the manifest" (text artifact.role nil))

  unfoldable pub verify_artifacts : Bytes → List Artifact → Check
  verify_artifacts directory [] = pass
  verify_artifacts directory (artifact ∷ rest) = do
    verify_artifact directory artifact
    verify_artifacts directory rest

  unfoldable pub verify_plugin_release : AgentFormats → Bytes → Result Manifest
  verify_plugin_release formats directory = do
    info ← or_else_error (files.lstat directory) (wrapf "inspect plugin release directory: %w")
    reject_if (not info.is_dir || info.is_symlink) (error "plugin release path must be a directory")
    manifest ← load_manifest files formats (files.join directory plugin_release_manifest)
    verify_artifacts directory manifest.artifacts
    ok manifest
