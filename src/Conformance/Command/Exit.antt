-- ===== src/Conformance/Command/Exit.antt =====
-- The exit codes of the conformance command.
use relayward_sdk.Base.{
  ◌≡◌, refl, [], ◌∷◌, Bytes, codes, beq, inl, inr, Result-cases, ok, err, Error, ◌⊎◌,
}
use relayward_sdk.Manifest.{Manifest}
use relayward_sdk.Conformance.Release.{verify_plugin_release}
use relayward_sdk.Conformance.Command.{
  Environment, commands, find_command, report, run_command, run,
}

-- For the path of a release the command exits with 0 exactly if `VerifyPluginRelease` accepts the
-- release, and with 1 otherwise.
pub release-exit :
    (e : Environment) (version path : Bytes)
    → ((manifest : Manifest) × (verify_plugin_release e.files e.sha256 e.agent path ≡ ok manifest)
        × ((run e version (codes "plugin-release" ∷ path ∷ [])).exit ≡ 0))
      ⊎ ((failed : Error) × (verify_plugin_release e.files e.sha256 e.agent path ≡ err failed)
          × ((run e version (codes "plugin-release" ∷ path ∷ [])).exit ≡ 1))
unfolding run run_command report commands find_command beq
release-exit e version path =
    elim (Result-cases (verify_plugin_release e.files e.sha256 e.agent path)) [
      | inl (manifest, accepted) ↦ inl (manifest, accepted, rw accepted refl)
      | inr (failed, refused) ↦ inr (failed, refused, rw refused refl)
    ]
