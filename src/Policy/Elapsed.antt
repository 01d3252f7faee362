-- ===== src/Policy/Elapsed.antt =====
-- `periodIndex * step` of `CurrentPeriod`: the days of the whole steps since the anchor.
use native.Mathlib.Nat.{mod-lt, mod-add-div'}
use relayward_sdk.Base.{
  ℕ, zero, suc, ◌+◌, ◌*◌, ◌/◌, ◌%◌, ◌≤◌, ◌<◌, ◌≡◌, refl, sym, arith, if◌then◌else◌, not, ◌&&◌,
}
use relayward_sdk.Base.Int.{
  ℤ, pos, negsuc, ◌-ℤ◌, ◌*ℤ◌, ◌≤ℤ◌, sub_ℕ, ltb_ℤ, eqb_ℤ, pos_part, neg_part,
}
use relayward_sdk.Policy.{elapsed_steps}

-- The index of a negative number of days, of quotient `q` and remainder `r`.
rounded : ℕ → ℕ → ℤ
rounded q zero = sub_ℕ 0 q
rounded q (suc r) = sub_ℕ 0 q -ℤ pos 1

rounded_parts :
    (q r : ℕ)
    → (pos_part (rounded q r) ≡ 0)
      × (neg_part (rounded q 0) ≡ q)
      × (neg_part (rounded q (suc r)) ≡ q + 1)
unfolding rounded ◌-ℤ◌
rounded_parts q zero = (ground arith, ground arith, ground arith)
rounded_parts q (suc r) = (ground arith, ground arith, ground arith)

scaled_parts :
    (a : ℤ) (step : ℕ)
    → pos_part a ≡ 0
    → (pos_part (a *ℤ pos step) ≡ 0) × (neg_part (a *ℤ pos step) ≡ neg_part a * step)
unfolding ◌*ℤ◌
scaled_parts a step h = (ground arith, ground arith)

rounded_lem :
    (n q r : ℕ)
    → (if ltb_ℤ (negsuc n) (pos 0) && not (eqb_ℤ (sub_ℕ 0 r) (pos 0))
        then sub_ℕ 0 q -ℤ pos 1
        else sub_ℕ 0 q)
      ≡ rounded q r
unfolding rounded
rounded_lem n q zero = ground arith
rounded_lem n q (suc r) = ground arith

negsuc_steps :
    (n step : ℕ) → elapsed_steps (negsuc n) step ≡ rounded (suc n / step) (suc n % step) *ℤ pos step
unfolding elapsed_steps
negsuc_steps n step = rw (sym (rounded_lem n (suc n / step) (suc n % step))) refl

rounded_up :
    (n step q r : ℕ)
    → r + q * step ≡ suc n
    → r < step
    → (suc n ≤ neg_part (rounded q r) * step) × (neg_part (rounded q r) * step < suc n + step)
rounded_up n step q zero whole part = rw (rounded_parts q 0).1 (ground arith, ground arith)
rounded_up n step q (suc r) whole part = rw (rounded_parts q r).2 (ground arith, ground arith)

-- The days of the steps end at the elapsed days or before, and less than a step before them.
pub elapsed_steps-bounds :
    (elapsed : ℤ) (step : ℕ)
    → 1 ≤ step
    → (elapsed_steps elapsed step ≤ℤ elapsed)
      × (pos_part elapsed + neg_part (elapsed_steps elapsed step)
          < pos_part (elapsed_steps elapsed step) + neg_part elapsed + step)
unfolding elapsed_steps ◌*ℤ◌
elapsed_steps-bounds (pos n) step h =
    let whole = mod-add-div' n step in let part = mod-lt n h in (ground arith, ground arith)
elapsed_steps-bounds (negsuc n) step h =
    let positive = (rounded_parts (suc n / step) (suc n % step)).0 in
    let (none_left, product) = scaled_parts (rounded (suc n / step) (suc n % step)) step positive in
    let (upper, lower) =
      rounded_up n step (suc n / step) (suc n % step) (mod-add-div' (suc n) step)
        (mod-lt (suc n) h) in
    rw (negsuc_steps n step) (omega arith, omega arith)
