-- ===== src/Encoding/Base64.antt =====
-- How long a text of base64 must be to decode to 32 bytes.
use mathlib.Core.Path.{subst}
use relayward_sdk.Base.{
  ℕ, zero, suc, ◌%◌, ◌≢◌, ◌+◌, ◌*◌, ◌/◌, ◌≤◌, ◌≡◌, refl, ap, ◌∙◌, ◌⊎◌, inl, inr, true, List, [],
  ◌∷◌, Option, none, some, is_some, Bytes, arith, length, All,
}
use relayward_sdk.Encoding.{base64_digit, drop_line_ends, digits_of, decode_digits, base64_decode}

-- A digit of the URL alphabet.
abbrev pub IsDigit : ℕ → Type 0
IsDigit c = is_some (base64_digit c) ≡ true

pub Option-cases {ℓ} : {A : Type ℓ} (o : Option A) → ((a : A) × (o ≡ some a)) ⊎ (o ≡ none)
Option-cases none = inr refl
Option-cases (some a) = inl (a, refl)

length-drop_line_ends : (s : Bytes) → length (drop_line_ends s) ≤ length s
unfolding drop_line_ends
length-drop_line_ends [] = omega arith
length-drop_line_ends (c ∷ s) = ground (arith, length-drop_line_ends s)

drop_line_ends-same : (s : Bytes) → length (drop_line_ends s) ≡ length s → drop_line_ends s ≡ s
unfolding drop_line_ends
drop_line_ends-same [] h = refl
drop_line_ends-same (c ∷ s) h = ground (arith, length-drop_line_ends s, drop_line_ends-same s)

digits_of-IsDigit :
    (s : Bytes) (ds : List ℕ) → digits_of s ≡ some ds → (length ds ≡ length s) × All IsDigit s
unfolding digits_of
digits_of-IsDigit [] ds h = (ground arith, tt)
digits_of-IsDigit (c ∷ s) ds h = elim (Option-cases (base64_digit c)) [
  | inr e ↦ absurd (ground arith)
  | inl (d, e) ↦ elim (Option-cases (digits_of s)) [
    | inr f ↦ absurd (ground arith)
    | inl (more, f) ↦ let (l, a) = digits_of-IsDigit s more f in (ground arith, (ground arith, a))
  ]
]

length-decode_digits :
    (ds : List ℕ) (out : Bytes) → decode_digits ds ≡ some out → length out ≡ 3 * length ds / 4
unfolding decode_digits
length-decode_digits [] out h = ground arith
length-decode_digits (a ∷ []) out h = absurd (ground arith)
length-decode_digits (a ∷ b ∷ []) out h = ground arith
length-decode_digits (a ∷ b ∷ c ∷ []) out h = ground arith
length-decode_digits (a ∷ b ∷ c ∷ d ∷ rest) out h = elim (Option-cases (decode_digits rest)) [
  | inr e ↦ absurd (ground arith)
  | inl (more, e) ↦ ground (arith, length-decode_digits rest more e)
]

-- 43 bytes that decode to 32 are all digits: none is a line end, which Go's decoder passes over.
pub base64_decode-IsDigit :
    (s out : Bytes) → base64_decode s ≡ some out → length s ≡ 43 → length out ≡ 32 → All IsDigit s
unfolding base64_decode
base64_decode-IsDigit s out h l k = elim (Option-cases (digits_of (drop_line_ends s))) [
  | inr e ↦ absurd (ground arith)
  | inl (ds, e) ↦
      let decoded : decode_digits ds ≡ some out = ground arith in
      let (m, a) = digits_of-IsDigit (drop_line_ends s) ds e in
      let same =
        drop_line_ends-same s
          (omega (arith, m, l, k, length-drop_line_ends s, length-decode_digits ds out decoded)) in
      subst (All IsDigit) same a
]

IsDigit-not_line_end : (c : ℕ) → IsDigit c → (c ≢ 0x0A) × (c ≢ 0x0D)
unfolding base64_digit
IsDigit-not_line_end c h = ground arith

drop_line_ends-IsDigit : (s : Bytes) → All IsDigit s → drop_line_ends s ≡ s
unfolding drop_line_ends
drop_line_ends-IsDigit [] h = refl
drop_line_ends-IsDigit (c ∷ s) (h, t) =
    ground (arith, IsDigit-not_line_end c h, drop_line_ends-IsDigit s t)

digits_of_total : (s : Bytes) → All IsDigit s → (ds : List ℕ) × (digits_of s ≡ some ds)
unfolding digits_of
digits_of_total [] h = ([], refl)
digits_of_total (c ∷ s) (h, t) = elim (Option-cases (base64_digit c)) [
  | inr e ↦ absurd (ground arith)
  | inl (d, e) ↦ let (ds, f) = digits_of_total s t in (d ∷ ds, ground arith)
]

decode_digits_total :
    (n : ℕ) (ds : List ℕ) → length ds ≡ 4 * n + 3 → (out : Bytes) × (decode_digits ds ≡ some out)
unfolding decode_digits
decode_digits_total n [] h = absurd (omega arith)
decode_digits_total n (a ∷ []) h = absurd (omega arith)
decode_digits_total n (a ∷ b ∷ []) h = absurd (omega arith)
decode_digits_total n (a ∷ b ∷ c ∷ []) h = ((a * 4 + b / 16) ∷ (b % 16 * 16 + c / 4) ∷ [], refl)
decode_digits_total zero (a ∷ b ∷ c ∷ d ∷ rest) h = absurd (omega arith)
decode_digits_total (suc n) (a ∷ b ∷ c ∷ d ∷ rest) h =
    let (more, e) = decode_digits_total n rest (omega arith) in
    ((a * 4 + b / 16) ∷ (b % 16 * 16 + c / 4) ∷ (c % 4 * 64 + d) ∷ more, ground (arith, e))

-- 43 digits decode to 32 bytes.
pub base64_decode-32 :
    (s : Bytes)
    → length s ≡ 43
    → All IsDigit s
    → (out : Bytes) × (base64_decode s ≡ some out) × (length out ≡ 32)
unfolding base64_decode
base64_decode-32 s l h =
    let (ds, e) = digits_of_total s h in
    let (m, _) = digits_of-IsDigit s ds e in
    let (out, f) = decode_digits_total 10 ds (omega (arith, m, l)) in
    let kept : digits_of (drop_line_ends s) ≡ some ds =
      ap (λ u. digits_of u) (drop_line_ends-IsDigit s h) ∙ e in
    (out, ground (arith, kept, f), omega (arith, m, l, length-decode_digits ds out f))
