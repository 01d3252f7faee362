-- ===== src/Conformance/Tests.antt =====
-- Examples of the theorems on plugin releases.
use relayward_sdk.Base.{
  ◌≡◌, ◌↔◌, refl, true, false, [], ◌∷◌, ◌++◌, Option, none, some, Bytes, codes, arith, beq, length,
  if◌then◌else◌, All, Result, error, ok, err, pass,
}
use relayward_sdk.Base.Int.{pos}
use relayward_sdk.Json.{Codec, end_of_input}
use relayward_sdk.Json.Samples.{fixed_codec}
use relayward_sdk.Hash.Samples.{sample_hash, sample_hash-IsDigest}
use relayward_sdk.Manifest.{Manifest}
use relayward_sdk.Conformance.Files.{FileSystem, FileInfo}
use relayward_sdk.Conformance.Agent.{AgentFormats, load_manifest}
use relayward_sdk.Conformance.Release.{plugin_release_manifest, verify_plugin_release}
use relayward_sdk.Conformance.Release.Verified.{Verified, verify_plugin_release_iff}
use relayward_sdk.Conformance.ContractRelease.{contract_manifest, center_item, node_item, ui_item}
use relayward_sdk.Conformance.ContractRelease.Accepted.{Sources, artifacts}

abbrev sample_join : Bytes → Bytes → Bytes
sample_join directory name = directory ++ b'/' ∷ name

abbrev dist : Bytes
dist = codes "dist"

abbrev version : Bytes
version = codes "1.2.3"

abbrev text : Bytes
text = codes "{}"

-- Five paths, of which the last is the directory.
contents : Bytes → Option Bytes
contents path =
    if beq path (sample_join dist center_item.name)
    then some (codes "center")
    else if beq path (sample_join dist node_item.name)
    then some (codes "node")
    else if beq path (sample_join dist ui_item.name)
    then some (codes "ui")
    else if beq path (sample_join dist plugin_release_manifest)
    then some (text ++ 0x0A ∷ [])
    else none

abbrev read_content : Option Bytes → Result Bytes
read_content none = err (error "no file")
read_content (some content) = ok content

abbrev sample_read : Bytes → Result Bytes
sample_read path = read_content (contents path)

abbrev info_of : Option Bytes → FileInfo
info_of none = record { is_dir = true; is_regular = false; is_symlink = false; size = pos 0 }
info_of (some content) = record {
  is_dir = false;
  is_regular = true;
  is_symlink = false;
  size = pos (length content);
}

abbrev sample_files : FileSystem
sample_files = record {
  open_file = λ path.
      ok (record { stat = ok (info_of (contents path)); content = sample_read path; close = pass });
  lstat = λ path. ok (info_of (contents path));
  join = sample_join;
}

abbrev no_codec : {A : Type 0} → Codec A
no_codec = record {
  marshal = λ _. err (error "unused");
  next = λ _. end_of_input;
  trailing = λ _. end_of_input;
}

abbrev formats : Manifest → AgentFormats
formats manifest = record {
  manifest = fixed_codec manifest;
  envelope = no_codec;
  payloads = record {
    agent_hello = no_codec;
    center_hello = no_codec;
    heartbeat = no_codec;
    heartbeat_ack = no_codec;
    command = no_codec;
    command_result = no_codec;
    command_result_ack = no_codec;
    problem = no_codec;
  };
  register_request = no_codec;
  event_batch = no_codec;
  event_batch_ack = no_codec;
  command = no_codec;
  plugin_reconcile = no_codec;
  plugin_status = no_codec;
  policy_reconcile = no_codec;
  traffic_snapshot = no_codec;
  access_event = no_codec;
}

abbrev sources : Sources sample_hash sample_hash-IsDigest sample_read sample_join dist
unfolding contents beq
sources = record {
  center = codes "center";
  node = codes "node";
  ui = codes "ui";
  center_read = refl;
  node_read = refl;
  ui_read = refl;
  center_low = omega arith;
  center_high = omega arith;
  node_low = omega arith;
  node_high = omega arith;
  ui_low = omega arith;
  ui_high = omega arith;
}

abbrev released_manifest : Manifest
released_manifest = contract_manifest version (artifacts sample_hash sample_hash-IsDigest sources)

verify_plugin_release_iff_example :
    (verify_plugin_release sample_files sample_hash (formats released_manifest) dist
      ≡ ok released_manifest)
    ↔ (((info : FileInfo) × (sample_files.lstat dist ≡ ok info)
          × (info.is_dir ≡ true)
          × (info.is_symlink ≡ false))
        × (load_manifest sample_files
              (formats released_manifest)
              (sample_join dist plugin_release_manifest)
            ≡ ok released_manifest)
        × All (Verified sample_files sample_hash dist) released_manifest.artifacts)
verify_plugin_release_iff_example =
    verify_plugin_release_iff sample_files sample_hash (formats released_manifest) dist
      released_manifest
