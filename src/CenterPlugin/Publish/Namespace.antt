-- ===== src/CenterPlugin/Publish/Namespace.antt =====
-- Which kinds a publisher may use, and the publication of a notification.
use relayward_sdk.Base.{
  ℕ, ◌≡◌, ◌⊎◌, ◌≤◌, inl, inr, ◌∙◌, refl, sym, true, false, [], ◌∷◌, ◌++◌, Option, some, Bytes,
  codes, arith, length, beq, beq_iff, Bool-cases, pass,
}
use relayward_sdk.Base.Int.{pos, eqb_ℤ}
use relayward_sdk.Regex.{match_string}
use relayward_sdk.Json.{Codec, RoundTrips, valid}
use relayward_sdk.Contract.{validate_plugin_id}
use relayward_sdk.Agent.Validate.{has_prefix}
use relayward_sdk.CenterPlugin.Text.{uuid_pattern, event_kind_pattern, source_event_id_pattern}
use relayward_sdk.CenterPlugin.Notification.{
  NotificationRequest, event_notification_request, validate_notification_request,
}
use relayward_sdk.CenterPlugin.Notification.RoundTrip.{decode_notification_request_iff}
use relayward_sdk.CenterPlugin.Publish.{
  PublishedEvent, maximum_event_payload_bytes, bad_payload, publisher_namespace, check_notification,
  check_event, check_published, validate_publish_events_request,
}

-- Two prefixes of one text: one of them is a prefix of the other.
has_prefix-both :
    (k s t : Bytes)
    → has_prefix k s ≡ true
    → has_prefix k t ≡ true
    → (has_prefix s t ≡ true) ⊎ (has_prefix t s ≡ true)
unfolding has_prefix
has_prefix-both k [] [] h g = inl refl
has_prefix-both k [] (d ∷ t) h g = inr refl
has_prefix-both k (c ∷ s) [] h g = inl refl
has_prefix-both [] (c ∷ s) (d ∷ t) h g = cc h
has_prefix-both (e ∷ k) (c ∷ s) (d ∷ t) h g =
    elim (has_prefix-both k s t (ground arith) (ground arith)) [
      | inl p ↦ inl (ground arith)
      | inr p ↦ inr (ground arith)
    ]

has_prefix-append : (p s t : Bytes) → has_prefix (p ++ s) (p ++ t) ≡ has_prefix s t
unfolding has_prefix
has_prefix-append [] s t = refl
has_prefix-append (c ∷ p) s t = ground (arith, has_prefix-append p s t)

-- `plugin_id` with a dot, which its namespace ends in.
abbrev pub dotted : Bytes → Bytes
dotted plugin_id = plugin_id ++ codes "."

module _ (codec : Codec NotificationRequest) where
  event-namespace :
      (plugin_id : Bytes) (index : ℕ) (previous : Option Bytes) (event : PublishedEvent)
      → check_event codec plugin_id index previous event ≡ pass
      → beq event.kind event_notification_request ≡ false
      → has_prefix event.kind (publisher_namespace plugin_id) ≡ true
  unfolding check_event
  event-namespace plugin_id index previous event h n = ground arith

  -- Where two publishers may both send events of a kind, it is the kind of notifications, or the ID
  -- of one publisher, with a dot, begins that of the other, with a dot.
  pub shared_kind :
      (p q : Bytes) (i j : ℕ) (before after : Option Bytes) (a b : PublishedEvent)
      → check_event codec p i before a ≡ pass
      → check_event codec q j after b ≡ pass
      → a.kind ≡ b.kind
      → (a.kind ≡ event_notification_request)
        ⊎ ((has_prefix (dotted p) (dotted q) ≡ true) ⊎ (has_prefix (dotted q) (dotted p) ≡ true))
  unfolding publisher_namespace
  shared_kind p q i j before after a b h g e =
      elim (Bool-cases (beq a.kind event_notification_request)) [
        | inl n ↦ inl ((beq_iff a.kind event_notification_request).0 n)
        | inr n ↦
            let m : beq b.kind event_notification_request ≡ false = rw (sym e) n in
            let first = event-namespace p i before a h n in
            let second = event-namespace q j after b g m in
            elim (has_prefix-both a.kind (publisher_namespace p) (publisher_namespace q) first
              (rw e second)) [
                | inl o ↦
                    inr (inl (sym (has_prefix-append (codes "plugin.") (dotted p) (dotted q)) ∙ o))
                | inr o ↦
                    inr (inr (sym (has_prefix-append (codes "plugin.") (dotted q) (dotted p)) ∙ o))
              ]
      ]

  notification_kind : match_string event_kind_pattern event_notification_request ≡ true
  unfolding match_string
  notification_kind = refl

  good_payload :
      (json : Bytes)
      → length json ≤ maximum_event_payload_bytes
      → valid json ≡ true
      → bad_payload json ≡ false
  unfolding bad_payload valid
  good_payload [] b v = cc v
  good_payload (c ∷ json) b v = ground arith

  -- A valid notification that is encoded in at most 256 KiB can be published by every plugin, for a
  -- valid node, under any valid source ID and at any time but the epoch.
  pub publish_notification :
      (plugin_id : Bytes) (event : PublishedEvent) (request : NotificationRequest)
      → validate_plugin_id plugin_id ≡ pass
      → match_string source_event_id_pattern event.source_event_id ≡ true
      → match_string uuid_pattern event.node_id ≡ true
      → event.kind ≡ event_notification_request
      → eqb_ℤ event.observed_at_unix_nano (pos 0) ≡ false
      → length event.json ≤ maximum_event_payload_bytes
      → RoundTrips codec request event.json
      → validate_notification_request request ≡ pass
      → validate_publish_events_request codec (some (record { events = some event ∷ [] })) plugin_id
        ≡ pass
  unfolding validate_publish_events_request check_published check_event check_notification
  publish_notification plugin_id event request p s n k o b law v =
      let payload = good_payload event.json b law.is_valid in
      let decoded = (decode_notification_request_iff codec law).1 v in
      let kind : match_string event_kind_pattern event.kind ≡ true = rw k notification_kind in
      let short : length event.kind ≡ 20 = rw k refl in
      let is_notification : beq event.kind event_notification_request ≡ true =
        (beq_iff event.kind event_notification_request).1 k in
      ground arith
