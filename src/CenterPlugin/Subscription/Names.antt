-- ===== src/CenterPlugin/Subscription/Names.antt =====
-- The bound on the display names of contributions.
use relayward_sdk.Base.{
  ◌<◌, ◌≡◌, inl, inr, List, ◌∷◌, Option, some, Bytes, codes, arith, Error, Result-cases, err, pass,
}
use relayward_sdk.Unicode.{rune_count}
use relayward_sdk.Agent.Plugins.{ParseUrl}
use relayward_sdk.CenterPlugin.Text.{validate_display_name}
use relayward_sdk.CenterPlugin.Services.{service_field}
use relayward_sdk.CenterPlugin.Subscription.{
  SubscriptionServiceBinding, SubscriptionServiceContribution, RenderSubscriptionRequest,
  RenderSubscriptionResponse, check_contribution, check_contributions, check_rendered,
  validate_render_subscription_response,
}

long_name :
    (field value : Bytes) → 100 < rune_count value → ¬ (validate_display_name field value ≡ pass)
unfolding validate_display_name
long_name field value l h = ground arith

-- An answer whose first contribution has a name of more than a hundred runes is refused.
pub long_name-refused :
    (parse_url : ParseUrl) (request : RenderSubscriptionRequest)
    (response : RenderSubscriptionResponse) (service : SubscriptionServiceBinding)
    (services : List (Option SubscriptionServiceBinding)) (c : SubscriptionServiceContribution)
    (contributions : List (Option SubscriptionServiceContribution))
    → request.services ≡ some service ∷ services
    → response.services ≡ some c ∷ contributions
    → 100 < rune_count c.display_name
    → (e : Error) × (validate_render_subscription_response parse_url (some request) (some response)
        ≡ err e)
unfolding validate_render_subscription_response check_rendered check_contributions
    check_contribution
long_name-refused parse_url request response service services c contributions p q l =
    elim (Result-cases
      (validate_render_subscription_response parse_url (some request) (some response))) [
        | inr failed ↦ failed
        | inl (u, accepted) ↦
            absurd
              (ground (arith, long_name (service_field 0 (codes "display_name")) c.display_name l))
      ]
