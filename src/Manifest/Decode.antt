-- ===== src/Manifest/Decode.antt =====
-- manifest/manifest.go: `Decode`. What a reader holds, or the error that reading it ends in, is an
-- argument; an error of the reader is taken to come before any error in the text.
use relayward_sdk.Base.{
  wrapf, error, Check, Result, ok, err, Bytes, ◌>>◌, ◌>>=◌, or_else_error, pass,
}
use relayward_sdk.Json.{Codec, value, end_of_input, malformed}
use relayward_sdk.Manifest.{Manifest, validate}

unfoldable pub ensure_eof : Codec Manifest → Bytes → Check
ensure_eof codec rest = elim (codec.trailing rest) [
  | end_of_input ↦ pass
  | malformed e ↦ err (wrapf "decode plugin manifest: %w" e)
  | value _ _ ↦ err (error "decode plugin manifest: trailing JSON value")
]

unfoldable pub decode : Codec Manifest → Result Bytes → Result Manifest
decode codec reader = do
  raw ← or_else_error reader (wrapf "decode plugin manifest: %w")
  elim (codec.next raw) [
    | end_of_input ↦ err (wrapf "decode plugin manifest: %w" (error "EOF"))
    | malformed e ↦ err (wrapf "decode plugin manifest: %w" e)
    | value manifest rest ↦ ensure_eof codec rest >> (validate manifest >> ok manifest)
  ]
