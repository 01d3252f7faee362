-- ===== src/Conformance/Release/Verified.antt =====
-- What a verified plugin release holds.
use relayward_sdk.Base.{
  ◌+◌, ◌≡◌, ◌↔◌, refl, sym, inl, inr, true, false, List, [], ◌∷◌, Bytes, arith, beq_iff, take, All,
  Result-cases, ok, pass,
}
use relayward_sdk.Base.Int.{eqb_ℤ, pos_part}
use relayward_sdk.Encoding.{hex_encode}
use relayward_sdk.Manifest.{Manifest, Artifact}
use relayward_sdk.Conformance.Files.{FileSystem, File, FileInfo}
use relayward_sdk.Conformance.Agent.{AgentFormats, load_manifest}
use relayward_sdk.Conformance.Release.{
  plugin_release_manifest, read_artifact, verify_artifact, verify_artifacts, verify_plugin_release,
}

module _ (files : FileSystem) (sha256 : Bytes → Bytes) where
  -- The file of an artifact is a regular one of the size that the manifest gives, it can be read and
  -- closed, and what is read of it, up to one byte more than that size, has the SHA-256 of the
  -- manifest.
  pub record Verified (directory : Bytes) (artifact : Artifact) : Type 0 where
    pub info : FileInfo
    pub file : File
    pub content : Bytes
    pub inspected : files.lstat (files.join directory artifact.file) ≡ ok info
    pub regular : info.is_regular ≡ true
    pub no_symlink : info.is_symlink ≡ false
    pub sized : eqb_ℤ info.size artifact.size ≡ true
    pub opened : files.open_file (files.join directory artifact.file) ≡ ok file
    pub read : file.content ≡ ok content
    pub closed : file.close ≡ pass
    pub digest : hex_encode (sha256 (take (pos_part artifact.size + 1) content)) ≡ artifact.sha256

  read_artifact-ok :
      (role : Bytes) (file : File) (content : Bytes)
      → (read_artifact role file ≡ ok content) ↔ ((file.content ≡ ok content) × (file.close ≡ pass))
  unfolding read_artifact
  read_artifact-ok role file content = elim (Result-cases file.content) [
    | inr (e, failed) ↦ (λ h. absurd (ground arith), λ (r, c). absurd (ground arith))
    | inl (raw, ready) ↦ elim (Result-cases file.close) [
      | inr (e, failed) ↦ (λ h. absurd (ground arith), λ (r, c). absurd (ground arith))
      | inl (u, closed) ↦ (λ h. (ground arith, closed), λ (r, c). ground arith)
    ]
  ]

  verify_artifact-Verified :
      (directory : Bytes) (artifact : Artifact)
      → verify_artifact files sha256 directory artifact ≡ pass
      → Verified directory artifact
  unfolding verify_artifact
  verify_artifact-Verified directory artifact h =
      elim (Result-cases (files.lstat (files.join directory artifact.file))) [
        | inr (e, failed) ↦ absurd (ground arith)
        | inl (info, inspected) ↦
            elim (Result-cases (files.open_file (files.join directory artifact.file))) [
              | inr (e, failed) ↦ absurd (ground arith)
              | inl (file, opened) ↦ elim (Result-cases (read_artifact artifact.role file)) [
                | inr (e, failed) ↦ absurd (ground arith)
                | inl (content, whole) ↦
                    let (ready, closed) = (read_artifact-ok artifact.role file content).0 whole in
                    record {
                      info = info;
                      file = file;
                      content = content;
                      inspected = inspected;
                      regular = ground arith;
                      no_symlink = ground arith;
                      sized = ground arith;
                      opened = opened;
                      read = ready;
                      closed = closed;
                      digest =
                          (beq_iff (hex_encode (sha256 (take (pos_part artifact.size + 1) content)))
                              artifact.sha256).0
                            (ground arith);
                    }
              ]
            ]
      ]

  Verified-verify_artifact :
      (directory : Bytes) (artifact : Artifact)
      → Verified directory artifact
      → verify_artifact files sha256 directory artifact ≡ pass
  unfolding verify_artifact
  Verified-verify_artifact directory artifact v =
      let whole = (read_artifact-ok artifact.role v.file v.content).1 (v.read, v.closed) in
      let same =
        (beq_iff (hex_encode (sha256 (take (pos_part artifact.size + 1) v.content)))
            artifact.sha256).1
          v.digest in
      rw (v.inspected, v.opened, verify_artifact) (ground arith)

  verify_artifacts_iff :
      (directory : Bytes) (artifacts : List Artifact)
      → (verify_artifacts files sha256 directory artifacts ≡ pass)
        ↔ All (Verified directory) artifacts
  unfolding verify_artifacts
  verify_artifacts_iff directory [] = (λ h. tt, λ a. refl)
  verify_artifacts_iff directory (artifact ∷ rest) = (
    λ h. (
      verify_artifact-Verified directory artifact (ground arith),
      (verify_artifacts_iff directory rest).0 (ground arith),
    ),
    λ (v, a).
        let first = Verified-verify_artifact directory artifact v in
        let others = (verify_artifacts_iff directory rest).1 a in ground arith,
  )

  -- A release is accepted, with its manifest, exactly if its path is a directory and no link, the
  -- manifest in it loads, and for each artifact there is a regular file of the size given, of which
  -- what is read has the SHA-256 given.
  pub verify_plugin_release_iff :
      (formats : AgentFormats) (directory : Bytes) (manifest : Manifest)
      → (verify_plugin_release files sha256 formats directory ≡ ok manifest) ↔ (
          ((info : FileInfo) × (files.lstat directory ≡ ok info)
            × (info.is_dir ≡ true)
            × (info.is_symlink ≡ false))
          × (load_manifest files formats (files.join directory plugin_release_manifest)
              ≡ ok manifest)
          × All (Verified directory) manifest.artifacts)
  unfolding verify_plugin_release
  verify_plugin_release_iff formats directory manifest = (
    λ h. elim (Result-cases (files.lstat directory)) [
      | inr (e, failed) ↦ absurd (ground arith)
      | inl (info, inspected) ↦
          elim (Result-cases
            (load_manifest files formats (files.join directory plugin_release_manifest))) [
              | inr (e, failed) ↦ absurd (ground arith)
              | inl (loaded, ready) ↦
                  elim (Result-cases (verify_artifacts files sha256 directory loaded.artifacts)) [
                    | inr (e, failed) ↦ absurd (ground arith)
                    | inl (u, verified) ↦
                        let same : loaded ≡ manifest = ground arith in
                        (
                          (info, inspected, ground arith, ground arith),
                          rw (sym same) ready,
                          rw (sym same)
                              ((verify_artifacts_iff directory loaded.artifacts).0 verified),
                        )
                  ]
            ]
    ],
    λ ((info, inspected, is_dir, no_link), ready, verified).
        let all = (verify_artifacts_iff directory manifest.artifacts).1 verified in
        rw (inspected, ready, verify_plugin_release) (ground arith),
  )
