-- ===== src/Encoding.antt =====
-- What the source uses of `encoding/hex`, `encoding/base64` and `encoding/binary`.
pub mod Laws
pub mod Base64
use relayward_sdk.Base.{
  ℕ, zero, suc, ◌+◌, ◌-◌, ◌*◌, ◌/◌, ◌%◌, ◌^◌, ◌&&◌, ◌||◌, List, [], ◌∷◌, ◌++◌, Option, none, some,
  Bytes, ltb, leb, ◌==◌, if◌then◌else◌,
}

unfoldable pub hex_digit : ℕ → ℕ
hex_digit n = if ltb n 10 then b'0' + n else b'a' + (n - 10)

-- `hex.EncodeToString`
unfoldable pub hex_encode : Bytes → Bytes
unfolding hex_digit
hex_encode [] = []
hex_encode (c ∷ s) = hex_digit (c / 16) ∷ hex_digit (c % 16) ∷ hex_encode s

-- `binary.BigEndian.PutUint64` into eight bytes, most significant first.
big_endian : ℕ → ℕ → Bytes
big_endian zero n = []
big_endian (suc k) n = big_endian k (n / 256) ++ (n % 256) ∷ []

unfoldable pub put_uint64 : ℕ → Bytes
unfolding big_endian
put_uint64 n = big_endian 8 (n % 2 ^ 64)

-- The value of a digit of the URL alphabet of base64.
unfoldable pub base64_digit : ℕ → Option ℕ
base64_digit c =
    if leb b'A' c && leb c b'Z'
    then some (c - b'A')
    else if leb b'a' c && leb c b'z'
    then some (c - b'a' + 26)
    else if leb b'0' c && leb c b'9'
    then some (c - b'0' + 52)
    else if c == b'-'
    then some 62
    else if c == b'_'
    then some 63
    else none

-- Go's decoder passes over line ends.
drop_line_ends : Bytes → Bytes
drop_line_ends [] = []
drop_line_ends (c ∷ s) =
    let rest = drop_line_ends s in if c == 0x0A || c == 0x0D then rest else c ∷ rest

digits_of : Bytes → Option (List ℕ)
digits_of [] = some []
digits_of (c ∷ s) = elim (base64_digit c) [
  | none ↦ none
  | some d ↦ elim (digits_of s) [ none ↦ none | some ds ↦ some (d ∷ ds) ]
]

-- Four digits make three bytes; two or three at the end make one or two, and one is an error.
decode_digits : List ℕ → Option Bytes
decode_digits [] = some []
decode_digits (a ∷ []) = none
decode_digits (a ∷ b ∷ []) = some ((a * 4 + b / 16) ∷ [])
decode_digits (a ∷ b ∷ c ∷ []) = some ((a * 4 + b / 16) ∷ (b % 16 * 16 + c / 4) ∷ [])
decode_digits (a ∷ b ∷ c ∷ d ∷ rest) = elim (decode_digits rest) [
  | none ↦ none
  | some more ↦ some ((a * 4 + b / 16) ∷ (b % 16 * 16 + c / 4) ∷ (c % 4 * 64 + d) ∷ more)
]

-- `base64.RawURLEncoding.DecodeString`; `none` is an error.
unfoldable pub base64_decode : Bytes → Option Bytes
unfolding drop_line_ends digits_of decode_digits base64_digit
base64_decode s = elim (digits_of (drop_line_ends s)) [ none ↦ none | some ds ↦ decode_digits ds ]
