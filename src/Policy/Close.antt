-- ===== src/Policy/Close.antt =====
-- The periods that `CurrentPeriod` returns: their IDs and their start.
use mathlib.Core.Path.{subst}
use relayward_sdk.Base.{
  ℕ, zero, suc, ◌+◌, ◌≡◌, refl, ◌⊎◌, true, false, [], ◌∷◌, Option, none, some, Bytes, arith, beq,
  beq_iff, beq_refl, length, take, inl, inr, ok, pass,
}
use relayward_sdk.Regex.{match_string}
use relayward_sdk.Clock.{Time, is_zero, before, utc}
use relayward_sdk.Encoding.Laws.{AreBytes, hex_encode-matches}
use relayward_sdk.Hash.{IsDigest}
use relayward_sdk.Policy.{
  LoadLocation, ResetRule, Period, Span, reset_never, period_id_pattern, period_id, close_period,
  span_of, location_or_utc, current_period, bad_end, validate_period, validate_reset_rule,
}

pub Option-cases {ℓ} : {A : Type ℓ} (o : Option A) → ((a : A) × (o ≡ some a)) ⊎ (o ≡ none)
Option-cases none = inr refl
Option-cases (some a) = inl (a, refl)

take-AreBytes : (n : ℕ) (s : Bytes) → AreBytes s → AreBytes (take n s)
take-AreBytes zero s h = tt
take-AreBytes (suc n) [] h = tt
take-AreBytes (suc n) (c ∷ s) h = (h.0, take-AreBytes n s h.1)

length-take : (n k : ℕ) (s : Bytes) → length s ≡ n + k → length (take n s) ≡ n
length-take zero k s h = refl
length-take (suc n) k [] h = omega (arith, h)
length-take (suc n) k (c ∷ s) h = omega (arith, length-take n k s (omega (arith, h)))

-- What is known of every period that is returned.
pub record Returned (sha256 : Bytes → Bytes) (started : Time) (period : Period) : Type 0 where
  pub id_matches : match_string period_id_pattern period.id ≡ true
  pub id_of_ends : period.id ≡ period_id sha256 (utc period.starts_at) period.ends_at
  pub starts_in_time : before period.starts_at started ≡ false

module _ (sha256 : Bytes → Bytes) (law : IsDigest sha256) where
  period_id-matches :
      (start : Time) (end : Option Time)
      → match_string period_id_pattern (period_id sha256 start end) ≡ true
  unfolding period_id
  period_id-matches start end =
      hex_encode-matches 32 _ (omega (arith, length-take 16 16 _ (law.length-sha256 _)))
        (take-AreBytes 16 _ (law.sha256-AreBytes _))

  closed :
      (started : Time) (span : Span)
      → (before (close_period sha256 started span).starts_at started ≡ false)
  unfolding close_period
  closed started (start, end) = ground arith

  closed_id :
      (started : Time) (span : Span)
      → (close_period sha256 started span).id
        ≡ period_id sha256
            (utc (close_period sha256 started span).starts_at)
            (close_period sha256 started span).ends_at
  unfolding close_period
  closed_id started span = refl

  closed_accepted :
      (period : Period)
      → period.id ≡ period_id sha256 (utc period.starts_at) period.ends_at
      → is_zero period.starts_at ≡ false
      → bad_end period.starts_at period.ends_at ≡ false
      → validate_period sha256 period ≡ pass
  unfolding validate_period
  closed_accepted period i z b = ground (
    arith,
    period_id-matches (utc period.starts_at) period.ends_at,
    beq_refl period.id,
    (beq_iff period.id (period_id sha256 (utc period.starts_at) period.ends_at)).1 i,
  )

  module _ (load_location : LoadLocation) where
    close_period-Returned :
        (started : Time) (span : Span) → Returned sha256 started (close_period sha256 started span)
    close_period-Returned started span = record {
      id_matches = rw (closed_id started span) (period_id-matches _ _);
      id_of_ends = closed_id started span;
      starts_in_time = closed started span;
    }

    -- Whatever the rule, a period that `CurrentPeriod` returns does not start before the
    -- authorization, and its ID is the digest of its ends.
    current_period-Returned :
        (rule : ResetRule) (started at : Time) (period : Period)
        → current_period load_location sha256 rule started at ≡ ok period
        → Returned sha256 (utc started) period
    unfolding current_period
    current_period-Returned rule started at period h =
        elim (Option-cases
          (span_of rule (location_or_utc (load_location rule.timezone)) (utc started) (utc at))) [
            | inl (span, e) ↦
                let made : close_period sha256 (utc started) span ≡ period = ground arith in
                subst (Returned sha256 (utc started)) made
                  (close_period-Returned (utc started) span)
            | inr e ↦ absurd (ground arith)
          ]

    -- A rule that never resets gives one period for every time of evaluation, so that the center and
    -- the Agent agree on it: from the start of the authorization on, without an end. It is a period
    -- that `ValidatePeriod` accepts.
    never_period :
        (zone : Bytes) (started at : Time)
        → validate_reset_rule load_location
            (record { kind = reset_never; value = none; timezone = zone; period_anchor = none })
          ≡ pass
        → is_zero started ≡ false
        → is_zero at ≡ false
        → before at started ≡ false
        → (current_period load_location sha256
              (record { kind = reset_never; value = none; timezone = zone; period_anchor = none })
              started
              at
            ≡ ok (record {
              id = period_id sha256 (utc started) none;
              starts_at = utc started;
              ends_at = none;
            }))
          × (validate_period sha256 (record {
            id = period_id sha256 (utc started) none;
            starts_at = utc started;
            ends_at = none;
          })
              ≡ pass)
    unfolding current_period span_of close_period beq
    never_period zone started at v s a b = (ground (arith, v), closed_accepted _ refl s refl)
