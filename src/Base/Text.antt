-- ===== src/Base/Text.antt =====
-- Go strings: sequences of bytes, with equality and the lexicographic order of `<` and `<=`.
use Prim.Native.Nat.{ℕ}
use Prim.Native.Char.{code}
use Prim.Native.String.{String}
use mathlib.Core.Path.{◌≡◌, refl}
use mathlib.Core.Logic.{◌↔◌}
use mathlib.Core.Bool.{Bool, true, false, not, ◌&&◌, ◌||◌}
use mathlib.Core.List.{List, [], ◌∷◌}
use native.Mathlib.Omega.{arith}
use relayward_sdk.Base.Tests.{ltb, ◌==◌}

abbrev pub Bytes : Type 0
Bytes = List ℕ

-- The bytes of an ASCII text.
abbrev pub codes : String → Bytes
codes String.[] = []
codes (String.◌∷◌ c s) = code c ∷ codes s

unfoldable pub beq : Bytes → Bytes → Bool
beq [] [] = true
beq [] (d ∷ t) = false
beq (c ∷ s) [] = false
beq (c ∷ s) (d ∷ t) = c == d && beq s t

-- `a < b` on strings.
unfoldable pub lt_bytes : Bytes → Bytes → Bool
lt_bytes s [] = false
lt_bytes [] (d ∷ t) = true
lt_bytes (c ∷ s) (d ∷ t) = ltb c d || (c == d && lt_bytes s t)

-- `a <= b` on strings.
unfoldable pub le_bytes : Bytes → Bytes → Bool
unfolding lt_bytes
le_bytes s t = not (lt_bytes t s)

pub beq_iff : (s t : Bytes) → (beq s t ≡ true) ↔ (s ≡ t)
unfolding beq
beq_iff [] [] = (λ _. refl, λ _. refl)
beq_iff [] (d ∷ t) = ground arith
beq_iff (c ∷ s) [] = ground arith
beq_iff (c ∷ s) (d ∷ t) = ground (arith, beq_iff s t)

pub beq_refl : (s : Bytes) → beq s s ≡ true
beq_refl s = (beq_iff s s).1 refl

pub lt_bytes_irrefl : (s : Bytes) → lt_bytes s s ≡ false
unfolding lt_bytes
lt_bytes_irrefl [] = refl
lt_bytes_irrefl (c ∷ s) = ground (arith, lt_bytes_irrefl s)

pub lt_bytes_trans :
    (s t u : Bytes) → lt_bytes s t ≡ true → lt_bytes t u ≡ true → lt_bytes s u ≡ true
unfolding lt_bytes
lt_bytes_trans s t [] h k = cc
lt_bytes_trans s [] (e ∷ u) h k = cc
lt_bytes_trans [] (d ∷ t) (e ∷ u) h k = refl
lt_bytes_trans (c ∷ s) (d ∷ t) (e ∷ u) h k = ground (arith, lt_bytes_trans s t u)

-- Of two texts neither of which is the smaller, both are the same.
pub lt_bytes_total : (s t : Bytes) → lt_bytes s t ≡ false → lt_bytes t s ≡ false → s ≡ t
unfolding lt_bytes
lt_bytes_total [] [] h k = refl
lt_bytes_total [] (d ∷ t) h k = cc
lt_bytes_total (c ∷ s) [] h k = cc
lt_bytes_total (c ∷ s) (d ∷ t) h k = ground (arith, lt_bytes_total s t)

-- `b <= a` fails exactly when `a < b`.
pub le_bytes_iff : (s t : Bytes) → (le_bytes t s ≡ false) ↔ (lt_bytes s t ≡ true)
unfolding le_bytes
le_bytes_iff s t = ground arith
