-- ===== src/NodePlugin/Telemetry/Sequence.antt =====
-- The sequences of an accepted telemetry page.
use mathlib.Core.Path.{subst}
use native.Mathlib.Nat.{add-zero}
use relayward_sdk.Base.{
  ◌∙◌, ◌++◌, ◌⊎◌, length-append, ℕ, ◌+◌, ◌≤◌, ◌≡◌, List, [], ◌∷◌, Option, none, some, length, arith,
  ok, pass, false,
}
use relayward_sdk.Agent.Events.{max_int64}
use relayward_sdk.Agent.Telemetry.{ParseIp}
use relayward_sdk.NodePlugin.Telemetry.{
  CollectTelemetryRequest, CollectTelemetryResponse, AccessEvent, validate_access_event,
  check_events, validate_collect_telemetry_request, validate_collect_telemetry_response,
}

-- The event at place `i` has sequence `next + 1 + i`.
abbrev pub Follows : ℕ → List (Option AccessEvent) → Type 0
Follows next [] = Unit
Follows next (none ∷ rest) = ⊥
Follows next (some event ∷ rest) = (event.sequence ≡ next + 1) × Follows event.sequence rest

module _ (parse_ip : ParseIp) where
  validate_access_event-le :
      (e : AccessEvent) → validate_access_event parse_ip e ≡ pass → e.sequence ≤ max_int64
  unfolding validate_access_event
  validate_access_event-le e h = ground arith

  check_events-Follows :
      (index next : ℕ) (events : List (Option AccessEvent)) (last : ℕ)
      → next ≤ max_int64
      → check_events parse_ip index next events ≡ ok last
      → Follows next events × (last ≡ next + length events) × (last ≤ max_int64)
  unfolding check_events
  check_events-Follows index next [] last b h = ground arith
  check_events-Follows index next (none ∷ rest) last b h = ground arith
  check_events-Follows index next (some event ∷ rest) last b h = ground (
    arith,
    validate_access_event-le event,
    check_events-Follows (index + 1) event.sequence rest last,
  )

  -- An accepted page holds the events that follow the request's cursor without a gap, at most as
  -- many as were asked for; its `next_sequence` is the last of them, and stays within an int64; and
  -- it says that more is left only where it is full.
  pub accepted_page :
      (request : CollectTelemetryRequest) (page : CollectTelemetryResponse)
      → validate_collect_telemetry_response parse_ip (some request) (some page) ≡ pass
      → Follows request.after_sequence page.events
        × (page.next_sequence ≡ request.after_sequence + length page.events)
        × (page.next_sequence ≤ max_int64)
        × (length page.events ≤ request.maximum_events)
        × ((page.has_more ≡ false) ⊎ (length page.events ≡ request.maximum_events))
  unfolding validate_collect_telemetry_response validate_collect_telemetry_request
  accepted_page request page h =
      ground (arith, check_events-Follows 0 request.after_sequence page.events page.next_sequence)

  Follows-append :
      (next : ℕ) (xs ys : List (Option AccessEvent))
      → Follows next xs
      → Follows (next + length xs) ys
      → Follows next (xs ++ ys)
  Follows-append next [] ys h k = rw add-zero at k
  Follows-append next (none ∷ xs) ys h k = absurd h
  Follows-append next (some event ∷ xs) ys (e, h) k =
      (e, Follows-append event.sequence xs ys h (subst (λ n. Follows n ys) (omega arith) k))

  -- Where the second of two accepted pages was asked for from the `next_sequence` of the first, the
  -- two together follow the first cursor without a gap.
  pub accepted_pages-join :
      (first second : CollectTelemetryRequest) (page next_page : CollectTelemetryResponse)
      → validate_collect_telemetry_response parse_ip (some first) (some page) ≡ pass
      → validate_collect_telemetry_response parse_ip (some second) (some next_page) ≡ pass
      → second.after_sequence ≡ page.next_sequence
      → Follows first.after_sequence (page.events ++ next_page.events)
        × (next_page.next_sequence
            ≡ first.after_sequence + length (page.events ++ next_page.events))
  accepted_pages-join first second page next_page h k e =
      let a = accepted_page first page h in
      let b = accepted_page second next_page k in
      let start : second.after_sequence ≡ first.after_sequence + length page.events = e ∙ a.1 in
      (
        Follows-append first.after_sequence page.events next_page.events a.0
            (subst (λ n. Follows n next_page.events) start b.0),
        omega (arith, length-append {0}),
      )
