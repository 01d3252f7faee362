-- ===== src/Regex/Bounds.antt =====
-- How long a text an expression without a star can match.
use relayward_sdk.Base.{
  ℕ, ◌+◌, ◌*◌, ◌≤◌, ◌≡◌, ap, Bool, true, false, ◌&&◌, ◌++◌, Bytes, arith, length, length-append,
}
use relayward_sdk.Regex.{
  Regex, never, eps, class, seq, alt, star, times, up_to, Matches, m_eps, m_class, m_seq, m_left,
  m_right, m_stop, m_more, m_zero, m_times, m_none, m_up_to, match_string,
}
use relayward_sdk.Regex.Laws.{match_string_iff}

abbrev pub is_finite : Regex → Bool
is_finite never = true
is_finite eps = true
is_finite (class k) = true
is_finite (seq r q) = is_finite r && is_finite q
is_finite (alt r q) = is_finite r && is_finite q
is_finite (star r) = false
is_finite (times n r) = is_finite r
is_finite (up_to n r) = is_finite r

abbrev pub max_length : Regex → ℕ
max_length never = 0
max_length eps = 0
max_length (class k) = 1
max_length (seq r q) = max_length r + max_length q
max_length (alt r q) = max_length r + max_length q
max_length (star r) = 0
max_length (times n r) = n * max_length r
max_length (up_to n r) = n * max_length r

joined : (s t u : Bytes) (a b : ℕ) → s ++ t ≡ u → length s ≤ a → length t ≤ b → length u ≤ a + b
joined s t u a b e h k = omega (arith, length-append s t, ap (λ (v : Bytes). length v) e)

length-Matches :
    {r : Regex} {s : Bytes} → is_finite r ≡ true → Matches r s → length s ≤ max_length r
length-Matches f m_eps = omega arith
length-Matches f (m_class h) = omega arith
length-Matches {s = u} f (m_seq {r} {q} {s} {t} m n e) =
    joined s t u _ _ e (length-Matches (ground arith) m) (length-Matches (ground arith) n)
length-Matches f (m_left {r} {q} m) = let h = length-Matches {r = r} (ground arith) m in omega arith
length-Matches f (m_right {r} {q} m) =
    let h = length-Matches {r = q} (ground arith) m in omega arith
length-Matches f m_stop = cc
length-Matches f (m_more m n e) = cc
length-Matches f m_zero = omega arith
length-Matches {s = u} f (m_times {n} {r} {s} {t} m k e) =
    let h = joined s t u _ _ e (length-Matches f m) (length-Matches f k) in grind arith
length-Matches f m_none = omega arith
length-Matches {s = u} f (m_up_to {n} {r} {s} {t} m k e) =
    let h = joined s t u _ _ e (length-Matches f m) (length-Matches f k) in grind arith

pub length-match_string :
    (r : Regex) (s : Bytes) → is_finite r ≡ true → match_string r s ≡ true → length s ≤ max_length r
length-match_string r s f h = length-Matches f ((match_string_iff r s).0 h)
