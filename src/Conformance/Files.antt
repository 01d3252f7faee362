-- ===== src/Conformance/Files.antt =====
-- conformance/load.go: opening and reading contract files. The file system and the decoders of
-- encoding/json and protojson are parameters. What is read of a file is its content, or the error
-- that reading ends in; such an error is taken to come before any error in the text.
use relayward_sdk.Base.{
  ℕ, ◌^◌, Bool, not, Bytes, errorf, nil, num, error, Check, Result, ok, ◌>>◌, ◌>>=◌, reject_if,
}
use relayward_sdk.Base.Int.{ℤ, pos, ltb_ℤ}
use relayward_sdk.Json.{Codec, decode_strict}

abbrev pub max_contract_file_size : ℕ
max_contract_file_size = 2 ^ 20

pub record FileInfo : Type 0 where
  pub is_dir : Bool
  pub is_regular : Bool
  pub is_symlink : Bool
  pub size : ℤ

-- An open file: `Stat`, what reading it to the end gives, and `Close`.
pub record File : Type 0 where
  pub stat : Result FileInfo
  pub content : Result Bytes
  pub close : Check

-- `os.Open`, `os.Lstat` and `filepath.Join`.
pub record FileSystem : Type 0 where
  pub open_file : Bytes → Result File
  pub lstat : Bytes → Result FileInfo
  pub join : Bytes → Bytes → Bytes

-- `protojson.Unmarshal` into a message.
abbrev pub Unmarshal : Type 0 → Type 0
Unmarshal A = Bytes → Result A

unfoldable pub decode_contract_json {ℓ} : {A : Type ℓ} → Codec A → File → Result A
decode_contract_json codec file = do raw ← file.content; decode_strict codec raw

module _ (files : FileSystem) where
  unfoldable pub open_contract_file : Bytes → Result File
  open_contract_file path = do
    file ← files.open_file path
    info ← file.stat
    reject_if (not info.is_regular) (error "contract path is not a regular file")
    reject_if (ltb_ℤ (pos max_contract_file_size) info.size)
        (errorf "contract file exceeds %d bytes" (num max_contract_file_size nil))
    ok file

  unfoldable pub load_proto_json : {A : Type 0} → Unmarshal A → Bytes → Result A
  load_proto_json unmarshal path = do
    file ← open_contract_file path
    raw ← file.content
    unmarshal raw
