-- ===== src/Json.antt =====
-- What the source uses of `encoding/json`: the byte scanner behind `json.Valid` and `json.Compact`,
-- and the strict decoding of `decodeStrict` over a decoder for each type, which is a parameter.
pub mod Samples
pub mod Compact
use relayward_sdk.Base.{
  ℕ, ◌-◌, ◌≡◌, Error, Bool, true, false, ◌&&◌, ◌||◌, not, List, [], ◌∷◌, Bytes, codes, ltb, leb,
  ◌==◌, length, if◌then◌else◌, Result, ok, err, error,
}

-- Where the scanner stands: the `state…` functions of Go's scanner.
pub data Mode : Type 0 where
  begin_value begin_value_or_empty begin_string begin_string_or_empty : Mode
  end_value end_top in_string in_escape : Mode
  in_hex : ℕ → Mode
  after_minus in_integer after_zero after_dot in_fraction after_e after_e_sign in_exponent : Mode
  in_literal : Bytes → Mode
  failed : Mode

-- What encloses the current value.
pub data Frame : Type 0 where
  object_key object_value array_value : Frame

pub record Scanner : Type 0 where
  pub mode : Mode
  pub stack : List Frame

abbrev at : Mode → List Frame → Scanner
at m st = record { mode = m; stack = st }

abbrev fail_scan : Scanner
fail_scan = at failed []

is_json_space : ℕ → Bool
is_json_space c = c == 0x20 || c == 0x09 || c == 0x0D || c == 0x0A

is_digit : ℕ → Bool
is_digit c = leb b'0' c && leb c b'9'

is_hex : ℕ → Bool
is_hex c = is_digit c || (leb b'a' c && leb c b'f') || (leb b'A' c && leb c b'F')

-- The end of a top-level value: only white space may follow.
end_top_step : ℕ → Scanner
end_top_step c = if is_json_space c then at end_top [] else fail_scan

pop : List Frame → Scanner
pop [] = at end_top []
pop (f ∷ st) = at end_value (f ∷ st)

-- `stateEndValue`
end_value_step : ℕ → List Frame → Scanner
end_value_step c [] = end_top_step c
end_value_step c (f ∷ st) = if is_json_space c then at end_value (f ∷ st) else elim f [
  | object_key ↦ if c == b':' then at begin_value (object_value ∷ st) else fail_scan
  | object_value ↦
      if c == b','
      then at begin_string (object_key ∷ st)
      else if c == b'}'
      then pop st
      else fail_scan
  | array_value ↦
      if c == b','
      then at begin_value (array_value ∷ st)
      else if c == b']'
      then pop st
      else fail_scan
]

abbrev maximum_depth : ℕ
maximum_depth = 10000

push : Mode → Frame → List Frame → Scanner
push m f st = if ltb (length st) maximum_depth then at m (f ∷ st) else fail_scan

begin_string_step : ℕ → List Frame → Scanner
begin_string_step c st =
    if is_json_space c then at begin_string st else if c == 0x22 then at in_string st else fail_scan

begin_value_step : ℕ → List Frame → Scanner
begin_value_step c st =
    if is_json_space c
    then at begin_value st
    else if c == b'{'
    then push begin_string_or_empty object_key st
    else if c == b'['
    then push begin_value_or_empty array_value st
    else if c == 0x22
    then at in_string st
    else if c == b'-'
    then at after_minus st
    else if c == b'0'
    then at after_zero st
    else if c == b't'
    then at (in_literal (codes "rue")) st
    else if c == b'f'
    then at (in_literal (codes "alse")) st
    else if c == b'n'
    then at (in_literal (codes "ull")) st
    else if is_digit c
    then at in_integer st
    else fail_scan

-- An empty object was opened with `object_key`; Go rewrites the frame before it closes it.
close_empty_object : ℕ → List Frame → Scanner
close_empty_object c [] = fail_scan
close_empty_object c (_ ∷ st) = end_value_step c (object_value ∷ st)

after_zero_step : ℕ → List Frame → Scanner
after_zero_step c st =
    if c == b'.'
    then at after_dot st
    else if c == b'e' || c == b'E'
    then at after_e st
    else end_value_step c st

exponent_step : ℕ → List Frame → Scanner
exponent_step c st = if is_digit c then at in_exponent st else fail_scan

is_escape : ℕ → Bool
is_escape c =
    c == b'b'
    || c == b'f'
    || c == b'n'
    || c == b'r'
    || c == b't'
    || c == 0x5C
    || c == b'/'
    || c == 0x22

step_mode : Mode → ℕ → List Frame → Scanner
step_mode begin_value c st = begin_value_step c st
step_mode begin_value_or_empty c st =
    if is_json_space c
    then at begin_value_or_empty st
    else if c == b']'
    then end_value_step c st
    else begin_value_step c st
step_mode begin_string c st = begin_string_step c st
step_mode begin_string_or_empty c st =
    if is_json_space c
    then at begin_string_or_empty st
    else if c == b'}'
    then close_empty_object c st
    else begin_string_step c st
step_mode end_value c st = end_value_step c st
step_mode end_top c st = end_top_step c
step_mode in_string c st =
    if c == 0x22
    then at end_value st
    else if c == 0x5C
    then at in_escape st
    else if ltb c 0x20
    then fail_scan
    else at in_string st
step_mode in_escape c st =
    if is_escape c then at in_string st else if c == b'u' then at (in_hex 4) st else fail_scan
step_mode (in_hex n) c st =
    if is_hex c then (if n == 1 then at in_string st else at (in_hex (n - 1)) st) else fail_scan
step_mode after_minus c st =
    if c == b'0' then at after_zero st else if is_digit c then at in_integer st else fail_scan
step_mode in_integer c st = if is_digit c then at in_integer st else after_zero_step c st
step_mode after_zero c st = after_zero_step c st
step_mode after_dot c st = if is_digit c then at in_fraction st else fail_scan
step_mode in_fraction c st =
    if is_digit c
    then at in_fraction st
    else if c == b'e' || c == b'E'
    then at after_e st
    else end_value_step c st
step_mode after_e c st = if c == b'+' || c == b'-' then at after_e_sign st else exponent_step c st
step_mode after_e_sign c st = exponent_step c st
step_mode in_exponent c st = if is_digit c then at in_exponent st else end_value_step c st
step_mode (in_literal []) c st = end_value_step c st
step_mode (in_literal (d ∷ [])) c st = if c == d then at end_value st else fail_scan
step_mode (in_literal (d ∷ rest)) c st = if c == d then at (in_literal rest) st else fail_scan
step_mode failed c st = fail_scan

unfoldable pub scan : Scanner → Bytes → Scanner
unfolding step_mode begin_value_step begin_string_step end_value_step end_top_step pop push
    close_empty_object after_zero_step exponent_step is_escape is_json_space is_digit is_hex
scan s [] = s
scan s (c ∷ rest) = scan (step_mode s.mode c s.stack) rest

abbrev pub initial : Scanner
initial = at begin_value []

accepts_end : Mode → Bool
accepts_end end_top = true
accepts_end _ = false

-- `json.Valid`. Go ends the scan by one blank, which closes a number at the top.
unfoldable pub valid : Bytes → Bool
unfolding scan accepts_end
valid s = accepts_end (scan (scan initial s) (0x20 ∷ [])).mode

-- White space outside a string is what `json.Compact` drops.
is_kept : Mode → ℕ → Bool
is_kept in_string c = true
is_kept _ c = not (is_json_space c)

compact_from : Scanner → Bytes → Bytes
compact_from s [] = []
compact_from s (c ∷ rest) =
    let more = compact_from (step_mode s.mode c s.stack) rest in
    if is_kept s.mode c then c ∷ more else more

-- `json.Compact`
unfoldable pub compact : Bytes → Result Bytes
unfolding valid compact_from is_kept
compact s = if valid s then ok (compact_from initial s) else err (error "invalid JSON")

-- What one call of `Decoder.Decode` gives: a value and the input left, `io.EOF`, or another error.
pub data Next {ℓ} (A : Type ℓ) : Type ℓ where
  value : A → Bytes → Next A
  end_of_input : Next A
  malformed : Error → Next A

-- `encoding/json` at one type: `json.Marshal`, and a `Decoder` that disallows unknown fields.
-- `trailing` decodes into an `any`.
pub record Codec {ℓ} (A : Type ℓ) : Type ℓ where
  pub marshal : A → Result Bytes
  pub next : Bytes → Next A
  pub trailing : Bytes → Next (Unit {0})

-- `decodeStrict`: one value, and nothing after it.
unfoldable pub decode_strict {ℓ} : {A : Type ℓ} → Codec A → Bytes → Result A
decode_strict codec raw = elim (codec.next raw) [
  | end_of_input ↦ err (error "EOF")
  | malformed e ↦ err e
  | value a rest ↦ elim (codec.trailing rest) [
    | end_of_input ↦ ok a
    | malformed e ↦ err e
    | value _ _ ↦ err (error "trailing JSON value")
  ]
]

-- `a` is encoded as `raw`, which is valid JSON and is decoded as `a` again. This is what
-- `encoding/json` documents for values whose texts are UTF-8 and whose times are in UTC.
pub record RoundTrips {ℓ} {A : Type ℓ} (codec : Codec A) (a : A) (raw : Bytes) : Type ℓ where
  pub encodes : codec.marshal a ≡ ok raw
  pub is_valid : valid raw ≡ true
  pub decodes : codec.next raw ≡ value a []
  pub ends : codec.trailing [] ≡ end_of_input

pub decode_strict-marshal {ℓ} :
    {A : Type ℓ} {codec : Codec A} {a : A} {raw : Bytes}
    → RoundTrips codec a raw
    → decode_strict codec raw ≡ ok a
unfolding decode_strict
decode_strict-marshal law = rw (law.decodes, decode_strict) (rw (law.ends, decode_strict))
