-- ===== src/Unicode/Ascii.antt =====
-- The runes of a text of ASCII bytes are the bytes.
use relayward_sdk.Base.{ℕ, ◌<◌, ◌≡◌, refl, ap, true, [], ◌∷◌, Bytes, arith, All}
use relayward_sdk.Unicode.{decode_rune, segments, runes, is_trimmed, has_no_control}

decode_rune-ascii : (c : ℕ) (s : Bytes) → c < 128 → decode_rune c s ≡ (c, 1)
unfolding decode_rune
decode_rune-ascii c s h = ground arith

pub runes-ascii : (s : Bytes) → All (λ c. c < 128) s → runes s ≡ s
unfolding runes segments
runes-ascii [] h = refl
runes-ascii (c ∷ s) h = rw (decode_rune-ascii c s h.0) (ap (λ t. c ∷ t) (runes-ascii s h.1))

pub is_trimmed-nil : is_trimmed [] ≡ true
unfolding is_trimmed mathlib.Core.List.flatten
is_trimmed-nil = refl

pub has_no_control-nil : has_no_control [] ≡ true
unfolding has_no_control
has_no_control-nil = refl
