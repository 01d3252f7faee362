-- ===== src/Agent/Validate/Secret.antt =====
-- Which registration tokens and node credentials are accepted.
use mathlib.Core.Path.{subst}
use relayward_sdk.Base.{
  sym, ◌+◌, ◌≡◌, refl, ap, ◌∙◌, ◌↔◌, inl, inr, true, [], ◌∷◌, ◌++◌, some, Bytes, arith, length,
  drop, All, length-append,
}
use relayward_sdk.Encoding.{base64_decode}
use relayward_sdk.Encoding.Base64.{IsDigit, Option-cases, base64_decode-IsDigit, base64_decode-32}
use relayward_sdk.Agent.Validate.{has_prefix, is_32_bytes, valid_secret}

has_prefix-drop :
    (prefix value : Bytes)
    → has_prefix value prefix ≡ true
    → value ≡ prefix ++ drop (length prefix) value
unfolding has_prefix
has_prefix-drop [] value h = refl
has_prefix-drop (p ∷ prefix) [] h = cc
has_prefix-drop (p ∷ prefix) (c ∷ value) h = ground (arith, has_prefix-drop prefix value)

has_prefix-append : (prefix rest : Bytes) → has_prefix (prefix ++ rest) prefix ≡ true
unfolding has_prefix
has_prefix-append [] rest = refl
has_prefix-append (p ∷ prefix) rest = ground (arith, has_prefix-append prefix rest)

drop-append : (prefix rest : Bytes) → drop (length prefix) (prefix ++ rest) ≡ rest
drop-append [] rest = refl
drop-append (p ∷ prefix) rest = drop-append prefix rest

valid_secret-length :
    (value prefix : Bytes) → valid_secret value prefix ≡ true → length value ≡ length prefix + 43
unfolding valid_secret
valid_secret-length value prefix h = ground arith

made_secret :
    (prefix rest : Bytes)
    → length rest ≡ 43
    → All IsDigit rest
    → valid_secret (prefix ++ rest) prefix ≡ true
unfolding valid_secret is_32_bytes
made_secret prefix rest size digits =
    let (out, e, l) = base64_decode-32 rest size digits in
    let decoded : base64_decode (drop (length prefix) (prefix ++ rest)) ≡ some out =
      ap base64_decode (drop-append prefix rest) ∙ e in
    ground (arith, decoded, l, length-append prefix rest, has_prefix-append prefix rest, size)

-- A secret is accepted exactly if it is the prefix followed by 43 digits of the URL alphabet of
-- base64.
pub valid_secret_iff :
    (value prefix : Bytes)
    → (valid_secret value prefix ≡ true)
      ↔ ((rest : Bytes) × (value ≡ prefix ++ rest) × (length rest ≡ 43) × All IsDigit rest)
unfolding valid_secret is_32_bytes
valid_secret_iff value prefix = (
  λ h.
      let rest = drop (length prefix) value in
      let split = has_prefix-drop prefix value (ground arith) in
      let size : length rest ≡ 43 = omega (
        arith,
        length-append prefix rest,
        ap (λ (s : Bytes). length s) split,
        valid_secret-length value prefix h,
      ) in
      elim (Option-cases (base64_decode rest)) [
        | inr e ↦ absurd (ground arith)
        | inl (out, e) ↦ (rest, split, size, base64_decode-IsDigit rest out e size (ground arith))
      ],
  λ (rest, split, size, digits).
      subst (λ v. valid_secret v prefix ≡ true) (sym split) (made_secret prefix rest size digits),
)
