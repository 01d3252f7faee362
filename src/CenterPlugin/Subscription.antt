-- ===== src/CenterPlugin/Subscription.antt =====
-- centerplugin/v1/validate.go: the rendering of subscriptions. `url.Parse` is a parameter; the total
-- of the bytes is a number, since the lengths of texts in memory do not add up to 2 ^ 63.
pub mod Aligned
pub mod Services
pub mod Names
use relayward_sdk.Base.{
  ℕ, ◌+◌, ◌*◌, ◌^◌, Bool, true, not, ◌||◌, List, [], ◌∷◌, Option, none, some, Bytes, codes, beq,
  ltb, ◌==◌, length, errorf, nil, num, text, cause, error, Check, Result, ok, err, ◌>>◌, ◌>>=◌,
  pass, reject_if, or_else_error,
}
use relayward_sdk.Regex.{match_string}
use relayward_sdk.Unicode.{is_trimmed}
use relayward_sdk.Agent.Validate.{not_above}
use relayward_sdk.Agent.Plugins.{ParseUrl, Url}
use relayward_sdk.CenterPlugin.Text.{
  uuid_pattern, service_id_pattern, has_no_space, validate_display_name, validate_json_object,
}
use relayward_sdk.CenterPlugin.Services.{maximum_services, service_field}

abbrev pub maximum_fragments_per_format : ℕ
maximum_fragments_per_format = 32

abbrev pub maximum_fragment_bytes : ℕ
maximum_fragment_bytes = 64 * 2 ^ 10

abbrev pub maximum_subscription_bytes : ℕ
maximum_subscription_bytes = 512 * 2 ^ 10

pub record SubscriptionServiceBinding : Type 0 where
  pub service_id : Bytes
  pub display_name : Bytes

pub record RenderSubscriptionRequest : Type 0 where
  pub authorization_id : Bytes
  pub node_id : Bytes
  pub services : List (Option SubscriptionServiceBinding)

pub record SubscriptionServiceContribution : Type 0 where
  pub service_id : Bytes
  pub display_name : Bytes
  pub uris : List Bytes
  pub mihomo_proxies_json : List Bytes
  pub sing_box_outbounds_json : List Bytes

pub record RenderSubscriptionResponse : Type 0 where
  pub services : List (Option SubscriptionServiceContribution)

-- The loop over the services of the request.
unfoldable pub check_bindings : ℕ → Option Bytes → List (Option SubscriptionServiceBinding) → Check
check_bindings index previous [] = pass
check_bindings index previous (none ∷ rest) = err (errorf "services[%d]: required" (num index nil))
check_bindings index previous (some service ∷ rest) = do
  reject_if (not (match_string service_id_pattern service.service_id))
      (errorf "services[%d].service_id: invalid service ID" (num index nil))
  reject_if (not_above previous service.service_id)
      (error "services: values must be sorted by service ID and unique")
  validate_display_name (service_field index (codes "display_name")) service.display_name
  check_bindings (index + 1) (some service.service_id) rest

unfoldable pub validate_render_subscription_request : Option RenderSubscriptionRequest → Check
validate_render_subscription_request none = err (error "request: required")
validate_render_subscription_request (some value) = do
  reject_if (not (match_string uuid_pattern value.authorization_id))
      (error "authorization_id: invalid authorization ID")
  reject_if (not (match_string uuid_pattern value.node_id)) (error "node_id: invalid node ID")
  reject_if (length value.services == 0 || ltb maximum_services (length value.services))
      (errorf "services: must contain 1 to %d values" (num maximum_services nil))
  check_bindings 0 none value.services

-- `err != nil || parsed.Scheme == ""`
unfoldable pub is_relative : Option Url → Bool
is_relative none = true
is_relative (some parsed) = beq parsed.scheme []

-- The loop over the fragments of one format, with the bytes counted so far.
unfoldable pub check_fragments : ℕ → Bytes → ℕ → ℕ → List Bytes → Result ℕ
check_fragments index name fragment_index total_bytes [] = ok total_bytes
check_fragments index name fragment_index total_bytes (raw ∷ rest) = do
  reject_if (ltb maximum_fragment_bytes (length raw)) (
      errorf "services[%d].%s[%d]: must contain at most %d bytes"
        (num index (text name (num fragment_index (num maximum_fragment_bytes nil)))))
  or_else_error (validate_json_object raw) (λ e.
      errorf "services[%d].%s[%d]: %w" (num index (text name (num fragment_index (cause e nil)))))
  check_fragments index name (fragment_index + 1) (total_bytes + length raw) rest

module _ (parse_url : ParseUrl) where
  unfoldable pub validate_subscription_uri : Bytes → Check
  validate_subscription_uri value = do
    reject_if (beq value [] || ltb 8192 (length value) || not (is_trimmed value))
        (error "must contain 1 to 8192 trimmed bytes")
    reject_if (not (has_no_space value)) (error "must not contain whitespace or control characters")
    reject_if (is_relative (parse_url value)) (error "must be an absolute URI")

  -- The loop over the URIs.
  unfoldable pub check_uris : ℕ → ℕ → Option Bytes → ℕ → List Bytes → Result ℕ
  check_uris index uri_index previous total_bytes [] = ok total_bytes
  check_uris index uri_index previous total_bytes (raw ∷ rest) = do
    reject_if (not_above previous raw)
        (errorf "services[%d].uris: values must be sorted and unique" (num index nil))
    or_else_error (validate_subscription_uri raw)
        (λ e. errorf "services[%d].uris[%d]: %w" (num index (num uri_index (cause e nil))))
    check_uris index (uri_index + 1) (some raw) (total_bytes + length raw) rest

  -- One round of the loop over the contributions; it returns the bytes counted so far.
  unfoldable pub check_contribution :
      ℕ → ℕ → SubscriptionServiceBinding → SubscriptionServiceContribution → Result ℕ
  check_contribution index total_bytes service contribution = do
    reject_if (not (beq contribution.service_id service.service_id))
        (errorf "services[%d].service_id: does not match the request" (num index nil))
    validate_display_name (service_field index (codes "display_name")) contribution.display_name
    reject_if
        (length contribution.uris
            + length contribution.mihomo_proxies_json
            + length contribution.sing_box_outbounds_json
          == 0)
        (errorf "services[%d]: must contribute at least one subscription fragment" (num index nil))
    reject_if
        (ltb maximum_fragments_per_format (length contribution.uris)
          || ltb maximum_fragments_per_format (length contribution.mihomo_proxies_json)
          || ltb maximum_fragments_per_format (length contribution.sing_box_outbounds_json))
        (errorf "services[%d]: each format must contain at most %d fragments"
          (num index (num maximum_fragments_per_format nil)))
    with_uris ← check_uris index 0 none total_bytes contribution.uris
    with_mihomo ←
        check_fragments index (codes "mihomo_proxies_json") 0 with_uris
          contribution.mihomo_proxies_json
    with_all ←
        check_fragments index (codes "sing_box_outbounds_json") 0 with_mihomo
          contribution.sing_box_outbounds_json
    reject_if (ltb maximum_subscription_bytes with_all) (
        errorf "response: subscription fragments exceed %d bytes"
          (num maximum_subscription_bytes nil))
    ok with_all

  -- The loop over the contributions, next to the services of the request. The lists are of one
  -- length and no service of the request is nil, so the last two clauses are not reached.
  unfoldable pub check_contributions :
      ℕ
      → ℕ
      → List (Option SubscriptionServiceBinding)
      → List (Option SubscriptionServiceContribution)
      → Check
  check_contributions index total_bytes services [] = pass
  check_contributions index total_bytes services (none ∷ rest) =
      err (errorf "services[%d]: required" (num index nil))
  check_contributions index total_bytes (some service ∷ services) (some contribution ∷ rest) = do
    total ← check_contribution index total_bytes service contribution
    check_contributions (index + 1) total services rest
  check_contributions index total_bytes [] (some contribution ∷ rest) = pass
  check_contributions index total_bytes (none ∷ services) (some contribution ∷ rest) = pass

  check_rendered : Option RenderSubscriptionRequest → Option RenderSubscriptionResponse → Check
  check_rendered none response = pass
  check_rendered (some request) none = err (error "response: required")
  check_rendered (some request) (some response) = do
    reject_if (not (length response.services == length request.services))
        (error "services: must contain one contribution for every requested service")
    check_contributions 0 0 request.services response.services

  unfoldable pub validate_render_subscription_response :
      Option RenderSubscriptionRequest → Option RenderSubscriptionResponse → Check
  unfolding check_rendered
  validate_render_subscription_response request response = do
    validate_render_subscription_request request
    check_rendered request response
