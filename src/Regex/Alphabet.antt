-- ===== src/Regex/Alphabet.antt =====
-- Bytes that no text matched by an expression has.
use mathlib.Core.Path.{subst}
use relayward_sdk.Base.{ℕ, ◌≡◌, ◌≢◌, Bool, true, not, ◌&&◌, ◌++◌, Bytes, arith, All}
use relayward_sdk.Regex.{
  Regex, Class, in_class, never, eps, class, seq, alt, star, times, up_to, Matches, m_eps, m_class,
  m_seq, m_left, m_right, m_stop, m_more, m_zero, m_times, m_none, m_up_to, match_string,
}
use relayward_sdk.Regex.Laws.{match_string_iff}
use relayward_sdk.Regex.Classes.{All-append}

abbrev pub avoids : ℕ → Regex → Bool
avoids c never = true
avoids c eps = true
avoids c (class k) = not (in_class k c)
avoids c (seq r q) = avoids c r && avoids c q
avoids c (alt r q) = avoids c r && avoids c q
avoids c (star r) = avoids c r
avoids c (times n r) = avoids c r
avoids c (up_to n r) = avoids c r

module _ (c : ℕ) where
  differ : (k : Class) (d : ℕ) → not (in_class k c) ≡ true → in_class k d ≡ true → d ≢ c
  differ k d a h e = cc (a, h, e)

  joined :
      (s t u : Bytes) → s ++ t ≡ u → All (λ d. d ≢ c) s → All (λ d. d ≢ c) t → All (λ d. d ≢ c) u
  joined s t u e h k = subst (All (λ d. d ≢ c)) e (All-append (λ d. d ≢ c) s t h k)

  avoids-Matches : {r : Regex} {s : Bytes} → avoids c r ≡ true → Matches r s → All (λ d. d ≢ c) s
  avoids-Matches a m_eps = tt
  avoids-Matches a (m_class {k} {c = d} h) = (differ k d a h, tt)
  avoids-Matches {s = u} a (m_seq {r} {q} {s} {t} m n e) =
      joined s t u e (avoids-Matches (ground arith) m) (avoids-Matches (ground arith) n)
  avoids-Matches a (m_left {r} {q} m) = avoids-Matches {r = r} (ground arith) m
  avoids-Matches a (m_right {r} {q} m) = avoids-Matches {r = q} (ground arith) m
  avoids-Matches a m_stop = tt
  avoids-Matches {s = u} a (m_more {r} {s} {t} m n e) =
      joined s t u e (avoids-Matches a m) (avoids-Matches a n)
  avoids-Matches a m_zero = tt
  avoids-Matches {s = u} a (m_times {n} {r} {s} {t} m k e) =
      joined s t u e (avoids-Matches a m) (avoids-Matches a k)
  avoids-Matches a m_none = tt
  avoids-Matches {s = u} a (m_up_to {n} {r} {s} {t} m k e) =
      joined s t u e (avoids-Matches a m) (avoids-Matches a k)

  pub avoids-match_string :
      (r : Regex) (s : Bytes) → avoids c r ≡ true → match_string r s ≡ true → All (λ d. d ≢ c) s
  avoids-match_string r s a h = avoids-Matches a ((match_string_iff r s).0 h)
