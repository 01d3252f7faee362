-- ===== src/Agent/Policies/Snapshot.antt =====
-- Policy snapshots: their order, and the periods that their authorizations carry.
use relayward_sdk.Base.{
  ℕ, ◌+◌, ◌≤◌, ◌≡◌, true, false, List, [], ◌∷◌, none, some, Bytes, arith, length, beq_refl,
  lt_bytes, le_bytes, le_bytes_iff, All, Increasing, All-below, Result-cases, inl, inr, ok, pass,
}
use relayward_sdk.Clock.{Time}
use relayward_sdk.Json.{Codec, RoundTrips, decode_strict-marshal}
use relayward_sdk.Policy.{LoadLocation, Period, current_period, same_period}
use relayward_sdk.Agent.Commands.{Command, validate_command}
use relayward_sdk.Agent.Policies.{
  AuthorizationPolicy, ServiceBinding, PolicyReconcileCommand, binding_key, check_bindings,
  check_authorizations, differs, validate_authorization_policy, validate_policy_reconcile_command,
  new_policy_reconcile_command, decode_policy_reconcile_command, command_policy_reconcile,
  maximum_policies_per_snapshot,
}

abbrev pub binding_keys : List ServiceBinding → List Bytes
binding_keys [] = []
binding_keys (b ∷ rest) = binding_key b ∷ binding_keys rest

abbrev pub authorization_ids : List AuthorizationPolicy → List Bytes
authorization_ids [] = []
authorization_ids (a ∷ rest) = a.authorization_id ∷ authorization_ids rest

check_bindings-Increasing :
    (index : ℕ) (p : Bytes) (bindings : List ServiceBinding)
    → check_bindings index (some p) bindings ≡ pass
    → All (λ k. lt_bytes p k ≡ true) (binding_keys bindings) × Increasing (binding_keys bindings)
unfolding check_bindings
check_bindings-Increasing index p [] h = (tt, tt)
check_bindings-Increasing index p (b ∷ rest) h =
    let (a, s) = check_bindings-Increasing (index + 1) (binding_key b) rest (ground arith) in
    let le : le_bytes (binding_key b) p ≡ false = ground arith in
    let lt = (le_bytes_iff p (binding_key b)).0 le in
    ((lt, All-below p (binding_key b) (binding_keys rest) lt a), (a, s))

bindings-Increasing :
    (bindings : List ServiceBinding)
    → check_bindings 0 none bindings ≡ pass
    → Increasing (binding_keys bindings)
unfolding check_bindings
bindings-Increasing [] h = tt
bindings-Increasing (b ∷ rest) h = check_bindings-Increasing 1 (binding_key b) rest (ground arith)

module _ (load_location : LoadLocation) (sha256 : Bytes → Bytes) where
  -- The period is what `CurrentPeriod` gives at its own start, and the bindings increase.
  pub record Consistent (a : AuthorizationPolicy) : Type 0 where
    pub computed : Period
    pub computes :
        current_period load_location sha256 a.reset a.started_at a.current_period.starts_at
        ≡ ok computed
    pub same : same_period computed a.current_period ≡ true
    pub bindings_increase : Increasing (binding_keys a.bindings)

  accepted-Consistent :
      (a : AuthorizationPolicy)
      → validate_authorization_policy load_location sha256 a ≡ pass
      → Consistent a
  unfolding validate_authorization_policy differs
  accepted-Consistent a h =
      elim (Result-cases
        (current_period load_location sha256 a.reset a.started_at a.current_period.starts_at)) [
          | inl (period, e) ↦ record {
            computed = period;
            computes = e;
            same = ground arith;
            bindings_increase = bindings-Increasing a.bindings (ground arith);
          }
          | inr (error, e) ↦ absurd (ground arith)
        ]

  check_authorizations-Increasing :
      (index : ℕ) (p : Bytes) (values : List AuthorizationPolicy)
      → check_authorizations load_location sha256 index (some p) values ≡ pass
      → All (λ k. lt_bytes p k ≡ true) (authorization_ids values)
        × Increasing (authorization_ids values)
        × All Consistent values
  unfolding check_authorizations
  check_authorizations-Increasing index p [] h = (tt, tt, tt)
  check_authorizations-Increasing index p (a ∷ rest) h =
      let (b, s, c) =
        check_authorizations-Increasing (index + 1) a.authorization_id rest (ground arith) in
      let le : le_bytes a.authorization_id p ≡ false = ground arith in
      let lt = (le_bytes_iff p a.authorization_id).0 le in
      (
        (lt, All-below p a.authorization_id (authorization_ids rest) lt b),
        (b, s),
        (accepted-Consistent a (ground arith), c),
      )

  authorizations-Increasing :
      (values : List AuthorizationPolicy)
      → check_authorizations load_location sha256 0 none values ≡ pass
      → Increasing (authorization_ids values) × All Consistent values
  unfolding check_authorizations
  authorizations-Increasing [] h = (tt, tt)
  authorizations-Increasing (a ∷ rest) h =
      let (b, s, c) = check_authorizations-Increasing 1 a.authorization_id rest (ground arith) in
      ((b, s), (accepted-Consistent a (ground arith), c))

  -- In an accepted snapshot the authorization IDs increase strictly, so none occurs twice; the
  -- bindings of each authorization increase by their keys; and the current period of each is the one
  -- that `CurrentPeriod` gives at the start of that period.
  pub accepted_snapshot :
      (value : PolicyReconcileCommand)
      → validate_policy_reconcile_command load_location sha256 value ≡ pass
      → (length value.authorizations ≤ maximum_policies_per_snapshot)
        × Increasing (authorization_ids value.authorizations)
        × All Consistent value.authorizations
  unfolding validate_policy_reconcile_command
  accepted_snapshot value h =
      let (a, c) = authorizations-Increasing value.authorizations (ground arith) in
      (ground arith, a, c)

  -- Where the codec reads back what it wrote, a command that `NewPolicyReconcileCommand` returns is
  -- one that `ValidateCommand` accepts, and it decodes to the snapshot given.
  pub decode-new_policy_reconcile_command :
      (codec : Codec PolicyReconcileCommand) (value : PolicyReconcileCommand)
      (issued_at expires_at : Time) (raw : Bytes) (command : Command)
      → RoundTrips codec value raw
      → new_policy_reconcile_command load_location sha256 codec value issued_at expires_at
        ≡ ok command
      → (validate_command command ≡ pass)
        × (decode_policy_reconcile_command load_location sha256 codec command ≡ ok value)
  unfolding new_policy_reconcile_command decode_policy_reconcile_command
  decode-new_policy_reconcile_command codec value issued_at expires_at raw command law h =
      ground (arith, law.encodes, decode_strict-marshal law, beq_refl command_policy_reconcile)
