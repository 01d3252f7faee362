-- ===== src/Agent/PolicyStatus.antt =====
-- agent/v1/policies.go: the output of a policy reconciliation, and policy status events.
use relayward_sdk.Base.{
  ℕ, Bool, not, ◌||◌, Bytes, codes, beq, ltb, ◌==◌, if◌then◌else◌, errorf, nil, num, text, error,
  wrapf, Check, Result, ok, err, ◌>>◌, ◌>>=◌, reject_if, or_else_error,
}
use relayward_sdk.Json.{Codec, decode_strict}
use relayward_sdk.Policy.{Period, validate_identifier, validate_period}
use relayward_sdk.Agent.Events.{max_int64}
use relayward_sdk.Agent.Policies.{
  policy_reason_active, policy_reason_disabled, policy_reason_expired, policy_reason_quota_exceeded,
  maximum_policies_per_snapshot,
}

pub record PolicyReconcileOutput : Type 0 where
  pub generation : ℕ
  pub authorization_count : ℕ

pub record PolicyStatusEvent : Type 0 where
  pub generation : ℕ
  pub authorization_id : Bytes
  pub period : Period
  pub upload_bytes : ℕ
  pub download_bytes : ℕ
  pub services_enabled : Bool
  pub reason : Bytes
  pub active_ip_count : ℕ
  pub blocked_ip_count : ℕ

unfoldable pub validate_policy_reconcile_output : PolicyReconcileOutput → Check
validate_policy_reconcile_output value = do
  reject_if (value.generation == 0 || ltb max_int64 value.generation)
      (errorf "generation: must be between 1 and %d" (num max_int64 nil))
  reject_if (ltb maximum_policies_per_snapshot value.authorization_count)
      (errorf "authorization_count: must not exceed %d" (num maximum_policies_per_snapshot nil))

unfoldable pub encode_policy_reconcile_output :
    Codec PolicyReconcileOutput → PolicyReconcileOutput → Result Bytes
encode_policy_reconcile_output codec value = do
  validate_policy_reconcile_output value
  codec.marshal value

unfoldable pub decode_policy_reconcile_output :
    Codec PolicyReconcileOutput → Bytes → Result PolicyReconcileOutput
decode_policy_reconcile_output codec raw = do
  value ← or_else_error (decode_strict codec raw) (wrapf "decode policy reconcile output: %w")
  validate_policy_reconcile_output value
  ok value

-- The `switch` on the reason.
unfoldable pub check_reason : PolicyStatusEvent → Check
check_reason value =
    if beq value.reason policy_reason_active
    then reject_if (not value.services_enabled)
        (error "services_enabled: active policies must enable services")
    else if beq value.reason policy_reason_disabled
        || beq value.reason policy_reason_expired
        || beq value.reason policy_reason_quota_exceeded
    then reject_if value.services_enabled
        (error "services_enabled: enforced policies must disable services")
    else err (errorf "reason: unsupported value %q" (text value.reason nil))

unfoldable pub validate_policy_status_event : (Bytes → Bytes) → PolicyStatusEvent → Check
validate_policy_status_event sha256 value = do
  reject_if (value.generation == 0 || ltb max_int64 value.generation)
      (errorf "generation: must be between 1 and %d" (num max_int64 nil))
  validate_identifier (codes "authorization_id") value.authorization_id
  validate_period sha256 value.period
  reject_if (ltb max_int64 value.upload_bytes || ltb max_int64 value.download_bytes)
      (errorf "traffic bytes: must not exceed %d" (num max_int64 nil))
  check_reason value

unfoldable pub decode_policy_status_event :
    (Bytes → Bytes) → Codec PolicyStatusEvent → Bytes → Result PolicyStatusEvent
decode_policy_status_event sha256 codec raw = do
  value ← or_else_error (decode_strict codec raw) (wrapf "decode policy status event: %w")
  validate_policy_status_event sha256 value
  ok value
