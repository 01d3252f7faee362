-- ===== src/CenterPlugin/Notification/RoundTrip.antt =====
-- A notification that is written and read again.
use relayward_sdk.Base.{◌≡◌, ◌↔◌, refl, Bytes, arith, Result-cases, inl, inr, ok, pass}
use relayward_sdk.Json.{Codec, RoundTrips}
use relayward_sdk.CenterPlugin.Notification.{
  NotificationRequest, validate_notification_request, decode_one, decode_notification_request,
}

module _ (codec : Codec NotificationRequest) {request : NotificationRequest} {raw : Bytes}
    (law : RoundTrips codec request raw) where
  decode_one-marshal : decode_one codec raw ≡ ok request
  unfolding decode_one
  decode_one-marshal = rw (law.decodes, decode_one) (rw (law.ends, decode_one) refl)

  -- Where the codec reads back what it wrote, the text of a notification is decoded to that
  -- notification exactly if `ValidateNotificationRequest` accepts it.
  pub decode_notification_request_iff :
      (decode_notification_request codec raw ≡ ok request)
      ↔ (validate_notification_request request ≡ pass)
  unfolding decode_notification_request
  decode_notification_request_iff = (
    λ h. elim (Result-cases (validate_notification_request request)) [
      | inl (u, e) ↦ e
      | inr (error, e) ↦ absurd (ground (arith, decode_one-marshal))
    ],
    λ h. ground (arith, decode_one-marshal),
  )
