-- ===== src/Clock/Calendar/Digits.antt =====
-- Decimal digits read back: numbers, the fraction of a second, and fields that a separator ends.
use native.Mathlib.Nat.{pow-suc}
use mathlib.Core.Path.{ap₂}
use relayward_sdk.Base.{
  ℕ, zero, suc, ◌+◌, ◌-◌, ◌*◌, ◌/◌, ◌%◌, ◌^◌, ◌≤◌, ◌<◌, ◌≡◌, refl, sym, ◌∙◌, ap, ◌⊎◌, inl, inr, [],
  ◌∷◌, ◌++◌, Bytes, codes, arith, length, length-append, ◌==◌, ◌&&◌, if◌then◌else◌, All, Bool-cases,
}
use relayward_sdk.Base.Int.{ℤ, pos, negsuc}
use relayward_sdk.Clock.Calendar.{decimal, append_int, trim_zeros, fraction, format_year}

abbrev IsDigit : ℕ → Type 0
IsDigit c = (b'0' ≤ c) × (c ≤ b'9')

-- The number that the digits write, after `n`.
number : ℕ → Bytes → ℕ
number n [] = n
number n (c ∷ s) = number (n * 10 + (c - b'0')) s

number-last : (s : Bytes) (n c : ℕ) → number n (s ++ c ∷ []) ≡ number n s * 10 + (c - b'0')
unfolding number
number-last [] n c = refl
number-last (d ∷ s) n c = number-last s (n * 10 + (d - b'0')) c

tenth : (fuel n : ℕ) → n < 10 ^ suc fuel → n / 10 < 10 ^ fuel
tenth fuel n h = let power = pow-suc 10 fuel in omega arith

number-decimal : (fuel width n : ℕ) → n < 10 ^ fuel → number 0 (decimal fuel width n) ≡ n
unfolding decimal number
number-decimal zero width n h = omega arith
number-decimal (suc fuel) width n h =
    let more = number-decimal fuel (width - 1) (n / 10) (tenth fuel n h) in
    let last = number-last (decimal fuel (width - 1) (n / 10)) 0 (b'0' + n % 10) in ground arith

All-last : (s : Bytes) (c : ℕ) → All IsDigit s → IsDigit c → All IsDigit (s ++ c ∷ [])
All-last [] c h p = (p, tt)
All-last (d ∷ s) c (q, h) p = (q, All-last s c h p)

decimal-IsDigit : (fuel width n : ℕ) → All IsDigit (decimal fuel width n)
unfolding decimal
decimal-IsDigit zero width n = tt
decimal-IsDigit (suc fuel) width n =
    let more = decimal-IsDigit fuel (width - 1) (n / 10) in
    let all =
      All-last (decimal fuel (width - 1) (n / 10)) (b'0' + n % 10) more
        (omega arith, omega arith) in
    elim (Bool-cases (n == 0 && width == 0)) [
      | inl none_left ↦ rw none_left tt
      | inr some_left ↦ rw some_left all
    ]

length-decimal_exact :
    (fuel width n : ℕ) → width ≤ fuel → n < 10 ^ width → length (decimal fuel width n) ≡ width
unfolding decimal
length-decimal_exact zero width n h k = omega arith
length-decimal_exact (suc fuel) zero n h k = ground arith
length-decimal_exact (suc fuel) (suc width) n h k =
    let more = length-decimal_exact fuel width (n / 10) (omega arith) (tenth width n k) in
    let split = length-append (decimal fuel width (n / 10)) ((b'0' + n % 10) ∷ []) in ground arith

cons-cancel : (x y : ℕ) (s t : Bytes) → ◌≡◌ {A = Bytes} (x ∷ s) (y ∷ t) → (x ≡ y) × (s ≡ t)
cons-cancel x y s t e = (ground arith, ground arith)

-- Digits up to a separator.
digits-cancel :
    (a b s t : Bytes) (c d : ℕ)
    → All IsDigit a
    → All IsDigit b
    → (c < b'0') ⊎ (b'9' < c)
    → (d < b'0') ⊎ (b'9' < d)
    → a ++ c ∷ s ≡ b ++ d ∷ t
    → (a ≡ b) × (c ≡ d) × (s ≡ t)
digits-cancel [] [] s t c d g h p q e =
    let (heads, tails) = cons-cancel c d s t e in (refl, heads, tails)
digits-cancel [] (y ∷ b) s t c d g ((lo, hi), h) p q e =
    let heads = (cons-cancel c y s (b ++ d ∷ t) e).0 in absurd (omega arith)
digits-cancel (x ∷ a) [] s t c d ((lo, hi), g) h p q e =
    let heads = (cons-cancel x d (a ++ c ∷ s) t e).0 in absurd (omega arith)
digits-cancel (x ∷ a) (y ∷ b) s t c d (_, g) (_, h) p q e =
    let (heads, tails) = cons-cancel x y (a ++ c ∷ s) (b ++ d ∷ t) e in
    let (same, separators, rest) = digits-cancel a b s t c d g h p q tails in
    (ap₂ (λ z w. z ∷ w) heads same, separators, rest)

-- A number up to a separator.
pub field-cancel :
    (m n width : ℕ) (s t : Bytes) (c d : ℕ)
    → m < 10 ^ 20
    → n < 10 ^ 20
    → (c < b'0') ⊎ (b'9' < c)
    → (d < b'0') ⊎ (b'9' < d)
    → append_int m width ++ c ∷ s ≡ append_int n width ++ d ∷ t
    → (m ≡ n) × (c ≡ d) × (s ≡ t)
unfolding append_int
field-cancel m n width s t c d hm hn p q e =
    let (same, separators, rest) =
      digits-cancel (decimal 20 width m) (decimal 20 width n) s t c d (decimal-IsDigit 20 width m)
        (decimal-IsDigit 20 width n) p q e in
    (
      sym (number-decimal 20 width m hm) ∙ ap (number 0) same ∙ number-decimal 20 width n hn,
      separators,
      rest,
    )

-- Trimming loses no digits where the lengths agree.
abbrev trimmed : ℕ → Bytes → Bytes
trimmed c [] = if c == b'0' then [] else c ∷ []
trimmed c (d ∷ rest) = c ∷ d ∷ rest

trim_zeros-trimmed : (c : ℕ) (s : Bytes) → trim_zeros (c ∷ s) ≡ trimmed c (trim_zeros s)
unfolding trim_zeros
trim_zeros-trimmed c s = go (trim_zeros s)
  where
    go :
        (r : Bytes)
        → (elim r [ [] ↦ if c == b'0' then [] else c ∷ [] | d ∷ rest ↦ c ∷ d ∷ rest ]) ≡ trimmed c r
    go [] = refl
    go (d ∷ rest) = refl

trimmed-injective : (c d : ℕ) (r q : Bytes) → trimmed c r ≡ trimmed d q → (c ≡ d) × (r ≡ q)
trimmed-injective c d [] [] e = (ground arith, refl)
trimmed-injective c d [] (y ∷ q) e = absurd (ground arith)
trimmed-injective c d (x ∷ r) [] e = absurd (ground arith)
trimmed-injective c d (x ∷ r) (y ∷ q) e = cons-cancel c d (x ∷ r) (y ∷ q) e

trim_zeros-injective : (a b : Bytes) → length a ≡ length b → trim_zeros a ≡ trim_zeros b → a ≡ b
trim_zeros-injective [] [] h e = refl
trim_zeros-injective [] (d ∷ b) h e = absurd (omega arith)
trim_zeros-injective (c ∷ a) [] h e = absurd (omega arith)
trim_zeros-injective (c ∷ a) (d ∷ b) h e =
    let (heads, tails) =
      trimmed-injective c d (trim_zeros a) (trim_zeros b)
        (sym (trim_zeros-trimmed c a) ∙ e ∙ trim_zeros-trimmed d b) in
    ap₂ (λ x s. x ∷ s) heads (trim_zeros-injective a b (omega arith) tails)

trim_zeros-IsDigit : (s : Bytes) → All IsDigit s → All IsDigit (trim_zeros s)
unfolding trim_zeros
trim_zeros-IsDigit [] h = tt
trim_zeros-IsDigit (c ∷ s) (p, h) =
    rw (trim_zeros-trimmed c s) (keep (trim_zeros s) (trim_zeros-IsDigit s h))
  where
    keep : (r : Bytes) → All IsDigit r → All IsDigit (trimmed c r)
    keep [] g = elim (Bool-cases (c == b'0')) [ inl z ↦ rw z tt | inr z ↦ rw z (p, tt) ]
    keep (d ∷ rest) g = (p, g)

-- The fraction of a second, with what follows the seconds of the clock.
fraction-cancel :
    (m n : ℕ)
    → suc m < 10 ^ 9
    → suc n < 10 ^ 9
    → trim_zeros (append_int (suc m) 9) ++ codes "Z"
      ≡ trim_zeros (append_int (suc n) 9) ++ codes "Z"
    → m ≡ n
unfolding append_int
fraction-cancel m n hm hn e =
    let a = decimal 20 9 (suc m) in
    let b = decimal 20 9 (suc n) in
    let (same, _, _) =
      digits-cancel (trim_zeros a) (trim_zeros b) [] [] b'Z' b'Z'
        (trim_zeros-IsDigit a (decimal-IsDigit 20 9 (suc m)))
        (trim_zeros-IsDigit b (decimal-IsDigit 20 9 (suc n))) (inr (omega arith))
        (inr (omega arith)) e in
    let whole =
      trim_zeros-injective a b
        (length-decimal_exact 20 9 (suc m) (omega arith) hm
          ∙ sym (length-decimal_exact 20 9 (suc n) (omega arith) hn))
        same in
    let numbers : suc m ≡ suc n =
      sym (number-decimal 20 9 (suc m) (omega arith))
      ∙ ap (number 0) whole
      ∙ number-decimal 20 9 (suc n) (omega arith) in
    omega arith

-- The seconds of the clock and the fraction of the second.
pub seconds-cancel :
    (s t m n : ℕ)
    → s < 60
    → t < 60
    → m < 10 ^ 9
    → n < 10 ^ 9
    → append_int s 2 ++ (fraction m ++ codes "Z") ≡ append_int t 2 ++ (fraction n ++ codes "Z")
    → (s ≡ t) × (m ≡ n)
unfolding fraction
seconds-cancel s t zero zero hs ht hm hn e =
    let (same, _, _) =
      field-cancel s t 2 [] [] b'Z' b'Z' (omega arith) (omega arith) (inr (omega arith))
        (inr (omega arith)) e in
    (same, refl)
seconds-cancel s t zero (suc n) hs ht hm hn e =
    let (_, differ, _) =
      field-cancel s t 2 [] _ b'Z' b'.' (omega arith) (omega arith) (inr (omega arith))
        (inl (omega arith)) e in
    absurd (omega arith)
seconds-cancel s t (suc m) zero hs ht hm hn e =
    let (_, differ, _) =
      field-cancel s t 2 _ [] b'.' b'Z' (omega arith) (omega arith) (inl (omega arith))
        (inr (omega arith)) e in
    absurd (omega arith)
seconds-cancel s t (suc m) (suc n) hs ht hm hn e =
    let (same, _, rest) =
      field-cancel s t 2 _ _ b'.' b'.' (omega arith) (omega arith) (inl (omega arith))
        (inl (omega arith)) e in
    (same, ap suc (fraction-cancel m n hm hn rest))

decimal-nonempty : (fuel width n : ℕ) → 1 ≤ width → 1 ≤ length (decimal (suc fuel) width n)
unfolding decimal
decimal-nonempty fuel width n h =
    let split = length-append (decimal fuel (width - 1) (n / 10)) ((b'0' + n % 10) ∷ []) in
    ground arith

-- The text of a year that is not negative does not begin with a dash.
unsigned : (n : ℕ) (s t : Bytes) → append_int n 4 ++ b'-' ∷ s ≡ b'-' ∷ t → ⊥
unfolding append_int
unsigned n s t e =
    let (empty, _, _) =
      digits-cancel (decimal 20 4 n) [] s t b'-' b'-' (decimal-IsDigit 20 4 n) tt
        (inl (omega arith)) (inl (omega arith)) e in
    let short : length (decimal 20 4 n) ≡ 0 = rw empty (omega arith) in
    omega (arith, decimal-nonempty 19 4 n (omega arith))

abbrev pub YearFits : ℤ → Type 0
YearFits (pos n) = n < 10 ^ 20
YearFits (negsuc n) = suc n < 10 ^ 20

-- The year, with its sign.
pub year-cancel :
    (y z : ℤ) (s t : Bytes)
    → YearFits y
    → YearFits z
    → format_year y ++ b'-' ∷ s ≡ format_year z ++ b'-' ∷ t
    → (y ≡ z) × (s ≡ t)
unfolding format_year
year-cancel (pos m) (pos n) s t hm hn e =
    let (same, _, rest) =
      field-cancel m n 4 s t b'-' b'-' hm hn (inl (omega arith)) (inl (omega arith)) e in
    (ap pos same, rest)
year-cancel (pos m) (negsuc n) s t hm hn e =
    absurd (unsigned m s (append_int (suc n) 4 ++ b'-' ∷ t) e)
year-cancel (negsuc m) (pos n) s t hm hn e =
    absurd (unsigned n t (append_int (suc m) 4 ++ b'-' ∷ s) (sym e))
year-cancel (negsuc m) (negsuc n) s t hm hn e =
    let tails =
      (cons-cancel b'-' b'-' (append_int (suc m) 4 ++ b'-' ∷ s) (append_int (suc n) 4 ++ b'-' ∷ t)
        e).1 in
    let (same, _, rest) =
      field-cancel (suc m) (suc n) 4 s t b'-' b'-' hm hn (inl (omega arith)) (inl (omega arith))
        tails in
    (ground arith, rest)
