-- ===== src/Unicode.antt =====
-- Go's `unicode/utf8`, `unicode` and `strings.TrimSpace`, as the validators use them.
pub mod Ascii
use mathlib.Core.List.{reverse, flatten}
use relayward_sdk.Base.{
  ℕ, zero, suc, ◌+◌, ◌-◌, ◌*◌, ◌%◌, Bool, ◌&&◌, ◌||◌, List, [], ◌∷◌, map, Bytes, beq, leb, ltb,
  ◌==◌, take, length, all, not, if◌then◌else◌,
}

abbrev pub rune_error : ℕ
rune_error = 0xFFFD

-- A continuation byte, and the range of the second byte that a lead byte allows.
is_tail : ℕ → Bool
is_tail c = leb 0x80 c && leb c 0xBF

second_ok : ℕ → ℕ → Bool
second_ok lead c =
    if lead == 0xE0
    then leb 0xA0 c && leb c 0xBF
    else if lead == 0xED
    then leb 0x80 c && leb c 0x9F
    else if lead == 0xF0
    then leb 0x90 c && leb c 0xBF
    else if lead == 0xF4
    then leb 0x80 c && leb c 0x8F
    else is_tail c

-- `utf8.DecodeRune`: a rune and the number of bytes it takes; one byte where they are no UTF-8.
decode_two : ℕ → Bytes → ℕ × ℕ
decode_two a (b ∷ _) = if is_tail b then ((a % 32) * 64 + b % 64, 2) else (rune_error, 1)
decode_two a [] = (rune_error, 1)

decode_three : ℕ → Bytes → ℕ × ℕ
decode_three a (b ∷ c ∷ _) =
    if second_ok a b && is_tail c
    then ((a % 16) * 4096 + (b % 64) * 64 + c % 64, 3)
    else (rune_error, 1)
decode_three a _ = (rune_error, 1)

decode_four : ℕ → Bytes → ℕ × ℕ
decode_four a (b ∷ c ∷ d ∷ _) =
    if second_ok a b && is_tail c && is_tail d
    then ((a % 8) * 262144 + (b % 64) * 4096 + (c % 64) * 64 + d % 64, 4)
    else (rune_error, 1)
decode_four a _ = (rune_error, 1)

unfoldable pub decode_rune : ℕ → Bytes → ℕ × ℕ
unfolding is_tail second_ok decode_two decode_three decode_four
decode_rune a rest =
    if ltb a 0x80
    then (a, 1)
    else if leb 0xC2 a && leb a 0xDF
    then decode_two a rest
    else if leb 0xE0 a && leb a 0xEF
    then decode_three a rest
    else if leb 0xF0 a && leb a 0xF4
    then decode_four a rest
    else (rune_error, 1)

-- The runes of a text, each with its bytes; `skip` bytes belong to the rune already read.
segments : ℕ → Bytes → List (ℕ × Bytes)
segments (suc skip) (c ∷ s) = segments skip s
segments skip [] = []
segments zero (c ∷ s) = let (r, n) = decode_rune c s in (r, take n (c ∷ s)) ∷ segments (n - 1) s

-- The runes that `for _, character := range value` visits.
unfoldable pub runes : Bytes → List ℕ
unfolding segments decode_rune
runes s = map (λ (r, _). r) (segments 0 s)

-- `utf8.RuneCountInString`
unfoldable pub rune_count : Bytes → ℕ
unfolding runes
rune_count s = length (runes s)

-- `utf8.ValidString`: no segment is an encoding error.
unfoldable pub valid_utf8 : Bytes → Bool
unfolding segments decode_rune
valid_utf8 s = all (λ (r, bytes). not (r == rune_error && length bytes == 1)) (segments 0 s)

-- `unicode.IsControl`
unfoldable pub is_control : ℕ → Bool
is_control r = ltb r 0x20 || (leb 0x7F r && leb r 0x9F)

-- `unicode.IsSpace`
unfoldable pub is_space : ℕ → Bool
is_space r =
    (leb 0x09 r && leb r 0x0D)
    || r == 0x20
    || r == 0x85
    || r == 0xA0
    || r == 0x1680
    || (leb 0x2000 r && leb r 0x200A)
    || r == 0x2028
    || r == 0x2029
    || r == 0x202F
    || r == 0x205F
    || r == 0x3000

drop_spaces : List (ℕ × Bytes) → List (ℕ × Bytes)
drop_spaces [] = []
drop_spaces ((r, bytes) ∷ rest) =
    let more = drop_spaces rest in if is_space r then more else (r, bytes) ∷ rest

-- `strings.TrimSpace`: the segments without the white space at either end.
unfoldable pub trim_space : Bytes → Bytes
unfolding segments decode_rune drop_spaces is_space
trim_space s =
    flatten
      (map (λ (_, bytes). bytes) (reverse (drop_spaces (reverse (drop_spaces (segments 0 s))))))

-- `value == strings.TrimSpace(value)`
unfoldable pub is_trimmed : Bytes → Bool
unfolding trim_space beq
is_trimmed s = beq s (trim_space s)

-- No rune that the loop visits is a control character.
unfoldable pub has_no_control : Bytes → Bool
unfolding runes is_control
has_no_control s = all (λ r. not (is_control r)) (runes s)
