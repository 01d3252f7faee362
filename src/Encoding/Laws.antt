-- ===== src/Encoding/Laws.antt =====
-- Hexadecimal digests and big-endian numbers: their lengths, their digits, and that they can be
-- read back.
use mathlib.Core.Path.{ap₂}
use relayward_sdk.Base.{
  ℕ, zero, suc, ◌+◌, ◌*◌, ◌/◌, ◌%◌, ◌^◌, ◌<◌, ◌≡◌, refl, sym, ◌∙◌, true, [], ◌∷◌, ◌++◌, Bytes,
  arith, length, All, length-append,
}
use relayward_sdk.Regex.{in_class, times, match_string}
use relayward_sdk.Regex.Classes.{AllIn, match_times_iff}
use relayward_sdk.Encoding.{hex_digit, hex_encode, big_endian, put_uint64}
use relayward_sdk.Protocol.{lower_hex}

-- Every number is a byte.
abbrev pub AreBytes : Bytes → Type 0
AreBytes s = All (λ c. c < 256) s

hex_digit-lower :
    (n : ℕ) → n < 16 → in_class ((b'0', b'9') ∷ (b'a', b'f') ∷ []) (hex_digit n) ≡ true
unfolding hex_digit in_class
hex_digit-lower n h = ground arith

pub hex_encode-AllIn :
    (s : Bytes) → AreBytes s → AllIn ((b'0', b'9') ∷ (b'a', b'f') ∷ []) (hex_encode s)
unfolding hex_encode
hex_encode-AllIn [] h = tt
hex_encode-AllIn (c ∷ s) h = (
  hex_digit-lower (c / 16) (omega arith),
  (hex_digit-lower (c % 16) (omega arith), hex_encode-AllIn s h.1),
)

pub length-hex_encode : (s : Bytes) → length (hex_encode s) ≡ 2 * length s
unfolding hex_encode
length-hex_encode [] = omega arith
length-hex_encode (c ∷ s) = omega (arith, length-hex_encode s)

-- The hexadecimal text of `n` bytes is matched by `^[0-9a-f]{2n}$`.
pub hex_encode-matches :
    (n : ℕ) (s : Bytes)
    → length s + length s ≡ n
    → AreBytes s
    → match_string (times n lower_hex) (hex_encode s) ≡ true
hex_encode-matches n s l b =
    (match_times_iff _ n (hex_encode s)).1
      (omega (arith, length-hex_encode s), hex_encode-AllIn s b)

length-big_endian : (k n : ℕ) → length (big_endian k n) ≡ k
unfolding big_endian
length-big_endian zero n = refl
length-big_endian (suc k) n =
    omega
      (arith, length-append (big_endian k (n / 256)) (n % 256 ∷ []), length-big_endian k (n / 256))

pub length-put_uint64 : (n : ℕ) → length (put_uint64 n) ≡ 8
unfolding put_uint64
length-put_uint64 n = length-big_endian 8 (n % 2 ^ 64)

-- Two texts of one length that begin equal texts are equal, and so is what follows them.
pub append-cancel : (a b s t : Bytes) → length a ≡ length b → a ++ s ≡ b ++ t → (a ≡ b) × (s ≡ t)
append-cancel [] [] s t l e = (refl, e)
append-cancel [] (d ∷ b) s t l e = absurd (omega arith)
append-cancel (c ∷ a) [] s t l e = absurd (omega arith)
append-cancel (c ∷ a) (d ∷ b) s t l e =
    let (p, q) = append-cancel a b s t (omega arith) cc in (cc, q)

-- The number of values of `k` bytes.
abbrev values : ℕ → ℕ
values zero = 1
values (suc k) = 256 * values k

big_endian-injective :
    (k m n : ℕ) → m < values k → n < values k → big_endian k m ≡ big_endian k n → m ≡ n
unfolding big_endian
big_endian-injective zero m n hm hn e = omega arith
big_endian-injective (suc k) m n hm hn e =
    let (p, q) =
      append-cancel (big_endian k (m / 256)) (big_endian k (n / 256)) _ _
        (length-big_endian k (m / 256) ∙ sym (length-big_endian k (n / 256))) e in
    let low : m % 256 ≡ n % 256 = cc in
    let high : m / 256 ≡ n / 256 =
      big_endian-injective k (m / 256) (n / 256) (omega arith) (omega arith) p in
    omega arith

pub put_uint64-injective : (m n : ℕ) → m < 2 ^ 64 → n < 2 ^ 64 → put_uint64 m ≡ put_uint64 n → m ≡ n
unfolding put_uint64
put_uint64-injective m n hm hn e =
    let p = big_endian-injective 8 (m % 2 ^ 64) (n % 2 ^ 64) (omega arith) (omega arith) e in
    omega arith

hex_digit-injective : (m n : ℕ) → m < 16 → n < 16 → hex_digit m ≡ hex_digit n → m ≡ n
unfolding hex_digit
hex_digit-injective m n hm hn e = ground arith

pub hex_encode-injective :
    (s t : Bytes) → AreBytes s → AreBytes t → hex_encode s ≡ hex_encode t → s ≡ t
unfolding hex_encode
hex_encode-injective [] [] hs ht e = refl
hex_encode-injective [] (d ∷ t) hs ht e = cc
hex_encode-injective (c ∷ s) [] hs ht e = cc
hex_encode-injective (c ∷ s) (d ∷ t) hs ht e =
    let p : hex_digit (c / 16) ≡ hex_digit (d / 16) = cc in
    let q : hex_digit (c % 16) ≡ hex_digit (d % 16) = cc in
    let rest : hex_encode s ≡ hex_encode t = cc in
    let high = hex_digit-injective (c / 16) (d / 16) (omega arith) (omega arith) p in
    let low = hex_digit-injective (c % 16) (d % 16) (omega arith) (omega arith) q in
    let head : c ≡ d = omega arith in ap₂ ◌∷◌ head (hex_encode-injective s t hs.1 ht.1 rest)
