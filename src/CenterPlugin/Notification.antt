-- ===== src/CenterPlugin/Notification.antt =====
-- centerplugin/v1/notification.go: the notifications that a plugin asks the center to send.
pub mod RoundTrip
use relayward_sdk.Base.{
  ℕ, Bool, true, false, not, ◌&&◌, ◌||◌, List, [], ◌∷◌, Bytes, codes, beq, ltb, ◌==◌, all, Error,
  errorf, nil, num, text, error, wrapf, Check, Result, ok, err, ◌>>◌, ◌>>=◌, reject_if,
}
use relayward_sdk.Regex.{match_string}
use relayward_sdk.Unicode.{is_trimmed, runes, rune_count, valid_utf8, is_control}
use relayward_sdk.Json.{Codec, value, end_of_input, malformed}
use relayward_sdk.Protocol.{is_one_of}
use relayward_sdk.CenterPlugin.Text.{source_event_id_pattern}

abbrev pub event_notification_request : Bytes
event_notification_request = codes "notification.request"

abbrev pub notification_info : Bytes
notification_info = codes "info"

abbrev pub notification_warning : Bytes
notification_warning = codes "warning"

abbrev pub notification_error : Bytes
notification_error = codes "error"

abbrev pub notification_critical : Bytes
notification_critical = codes "critical"

pub record NotificationRequest : Type 0 where
  pub severity : Bytes
  pub subject : Bytes
  pub body : Bytes
  pub dedup_key : Bytes

abbrev pub notification_severities : List Bytes
notification_severities =
    notification_info ∷ notification_warning ∷ notification_error ∷ notification_critical ∷ []

-- `unicode.IsControl(character) && !(multiline && (character == '\n' || character == '\t'))`
unfoldable pub is_unsupported : Bool → ℕ → Bool
unfolding is_control
is_unsupported multiline r = is_control r && not (multiline && (r == 0x0A || r == 0x09))

unfoldable pub validate_notification_text : Bytes → Bytes → ℕ → Bool → Check
validate_notification_text field content maximum multiline = do
  reject_if
      (beq content []
        || not (is_trimmed content)
        || not (valid_utf8 content)
        || ltb maximum (rune_count content))
      (errorf "%s: must contain 1 to %d trimmed characters" (text field (num maximum nil)))
  reject_if (not (all (λ r. not (is_unsupported multiline r)) (runes content)))
      (errorf "%s: contains an unsupported control character" (text field nil))

unfoldable pub validate_notification_request : NotificationRequest → Check
validate_notification_request request = do
  reject_if (not (is_one_of notification_severities request.severity))
      (errorf "severity: unsupported value %q" (text request.severity nil))
  validate_notification_text (codes "subject") request.subject 120 false
  validate_notification_text (codes "body") request.body 4096 true
  reject_if
      (not (beq request.dedup_key [])
        && not (match_string source_event_id_pattern request.dedup_key))
      (error "dedup_key: invalid deduplication key")

-- The two calls of `Decode`: one value, and nothing after it.
unfoldable pub decode_one : Codec NotificationRequest → Bytes → Result NotificationRequest
decode_one codec raw = elim (codec.next raw) [
  | end_of_input ↦ err (wrapf "decode notification request: %w" (error "EOF"))
  | malformed e ↦ err (wrapf "decode notification request: %w" e)
  | value a rest ↦ elim (codec.trailing rest) [
    | end_of_input ↦ ok a
    | malformed e ↦ err (wrapf "decode notification request: %w" e)
    | value _ _ ↦ err (error "decode notification request: trailing JSON value")
  ]
]

unfoldable pub decode_notification_request :
    Codec NotificationRequest → Bytes → Result NotificationRequest
decode_notification_request codec raw = do
  request ← decode_one codec raw
  validate_notification_request request
  ok request
