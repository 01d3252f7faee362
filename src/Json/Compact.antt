-- ===== src/Json/Compact.antt =====
-- `json.Compact` makes no text longer, and fails only on invalid JSON.
use relayward_sdk.Base.{◌≤◌, ◌≡◌, [], ◌∷◌, Bytes, arith, length, ok, true}
use relayward_sdk.Json.{Scanner, initial, step_mode, valid, compact_from, compact}

length-compact_from : (s : Scanner) (raw : Bytes) → length (compact_from s raw) ≤ length raw
unfolding compact_from
length-compact_from s [] = omega arith
length-compact_from s (c ∷ rest) =
    ground (arith, length-compact_from (step_mode s.mode c s.stack) rest)

pub length-compact : (raw : Bytes) {out : Bytes} → compact raw ≡ ok out → length out ≤ length raw
unfolding compact
length-compact raw h = ground (arith, length-compact_from initial raw)

pub compact_total : (raw : Bytes) → valid raw ≡ true → (out : Bytes) × (compact raw ≡ ok out)
unfolding compact
compact_total raw h = (compact_from initial raw, rw (h, compact))
