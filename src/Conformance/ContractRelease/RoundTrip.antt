-- ===== src/Conformance/ContractRelease/RoundTrip.antt =====
-- The release of the contract test plugin passes the verification of plugin releases.
use relayward_sdk.Base.{◌≤◌, ◌≡◌, true, false, Bytes, length, Result, ok, pass}
use relayward_sdk.Base.Int.{pos}
use relayward_sdk.Manifest.{Manifest}
use relayward_sdk.Conformance.Files.{FileSystem, File, FileInfo, max_contract_file_size}
use relayward_sdk.Conformance.Release.{plugin_release_manifest}
use relayward_sdk.Conformance.Release.Verified.{Verified}

-- A regular file with a content.
pub record Holds (files : FileSystem) (path content : Bytes) : Type 0 where
  pub info : FileInfo
  pub file : File
  pub inspected : files.lstat path ≡ ok info
  pub regular : info.is_regular ≡ true
  pub no_symlink : info.is_symlink ≡ false
  pub sized : info.size ≡ pos (length content)
  pub opened : files.open_file path ≡ ok file
  pub stated : file.stat ≡ ok info
  pub read : file.content ≡ ok content
  pub closed : file.close ≡ pass

-- A directory with a manifest file, in which what `os.ReadFile` reads are regular files.
pub record Stored (files : FileSystem) (read_file : Bytes → Result Bytes) (directory raw : Bytes)
    : Type 0 where
  pub info : FileInfo
  pub inspected : files.lstat directory ≡ ok info
  pub is_dir : info.is_dir ≡ true
  pub no_symlink : info.is_symlink ≡ false
  pub manifest : Holds files (files.join directory plugin_release_manifest) raw
  pub small : length raw ≤ max_contract_file_size
  pub holds : (path content : Bytes) → read_file path ≡ ok content → Holds files path content
