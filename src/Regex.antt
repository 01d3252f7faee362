-- ===== src/Regex.antt =====
-- Regular expressions over bytes: what the source's patterns use of Go's `regexp`.
-- Every pattern of the source is anchored by `^` and `$` and its classes are ASCII, so a match is
-- of the whole text and byte by byte.
pub mod Laws
pub mod Classes
pub mod Bounds
pub mod Alphabet
use relayward_sdk.Base.{
  ℕ, zero, suc, ◌≤◌, ◌≡◌, Bool, true, false, ◌&&◌, ◌||◌, List, [], ◌∷◌, ◌++◌, Bytes, leb,
  if◌then◌else◌,
}

-- `[a-z0-9]` is a list of ranges.
abbrev pub Class : Type 0
Class = List (ℕ × ℕ)

unfoldable pub in_class : Class → ℕ → Bool
in_class [] c = false
in_class ((lo, hi) ∷ ranges) c = (leb lo c && leb c hi) || in_class ranges c

pub data Regex : Type 0 where
  never eps : Regex
  class : Class → Regex
  seq alt : Regex → Regex → Regex
  star : Regex → Regex
  -- `r{n}` and `r{0,n}`
  times up_to : ℕ → Regex → Regex

abbrev pub byte : ℕ → Regex
byte c = class ((c, c) ∷ [])

abbrev pub plus : Regex → Regex
plus r = seq r (star r)

-- `r?`
abbrev pub optional : Regex → Regex
optional r = up_to 1 r

pub data Matches : Regex → Bytes → Type 0 where
  m_eps : Matches eps []
  m_class : {k : Class} {c : ℕ} → in_class k c ≡ true → Matches (class k) (c ∷ [])
  m_seq :
      {r q : Regex} {s t u : Bytes} → Matches r s → Matches q t → s ++ t ≡ u → Matches (seq r q) u
  m_left : {r q : Regex} {s : Bytes} → Matches r s → Matches (alt r q) s
  m_right : {r q : Regex} {s : Bytes} → Matches q s → Matches (alt r q) s
  m_stop : {r : Regex} → Matches (star r) []
  m_more :
      {r : Regex} {s t u : Bytes}
      → Matches r s
      → Matches (star r) t
      → s ++ t ≡ u
      → Matches (star r) u
  m_zero : {r : Regex} → Matches (times zero r) []
  m_times :
      {n : ℕ} {r : Regex} {s t u : Bytes}
      → Matches r s
      → Matches (times n r) t
      → s ++ t ≡ u
      → Matches (times (suc n) r) u
  m_none : {n : ℕ} {r : Regex} → Matches (up_to n r) []
  m_up_to :
      {n : ℕ} {r : Regex} {s t u : Bytes}
      → Matches r s
      → Matches (up_to n r) t
      → s ++ t ≡ u
      → Matches (up_to (suc n) r) u

pub nullable : Regex → Bool
nullable never = false
nullable eps = true
nullable (class k) = false
nullable (seq r q) = nullable r && nullable q
nullable (alt r q) = nullable r || nullable q
nullable (star r) = true
nullable (times zero r) = true
nullable (times (suc n) r) = nullable r
nullable (up_to n r) = true

-- `seq` and `alt` that drop what can never match.
pub join : Regex → Regex → Regex
join never q = never
join eps q = q
join r q = seq r q

pub either : Regex → Regex → Regex
either never q = q
either r never = r
either r q = alt r q

-- The rest of the expression after the byte `c`.
pub deriv : ℕ → Regex → Regex
deriv c never = never
deriv c eps = never
deriv c (class k) = if in_class k c then eps else never
deriv c (seq r q) =
    let after = join (deriv c r) q in if nullable r then either after (deriv c q) else after
deriv c (alt r q) = either (deriv c r) (deriv c q)
deriv c (star r) = join (deriv c r) (star r)
deriv c (times zero r) = never
deriv c (times (suc n) r) =
    let after = join (deriv c r) (times n r) in
    let skipped = deriv c (times n r) in if nullable r then either after skipped else after
deriv c (up_to zero r) = never
deriv c (up_to (suc n) r) =
    let after = join (deriv c r) (up_to n r) in
    let skipped = deriv c (up_to n r) in if nullable r then either after skipped else after

-- `Pattern.MatchString`
unfoldable pub match_string : Regex → Bytes → Bool
unfolding nullable deriv join either in_class
match_string r [] = nullable r
match_string r (c ∷ s) = match_string (deriv c r) s
