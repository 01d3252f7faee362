-- ===== src/Fixture/Center/Rendered.antt =====
-- The subscriptions that the center plugin of pluginfixture/plugin.go renders.
use relayward_sdk.Base.{
  ◌<◌, ◌≤◌, ◌≡◌, refl, ap, List, [], ◌∷◌, ◌++◌, Option, some, Bytes, codes, map, arith, All, length,
  length-append, err, pass,
}
use relayward_sdk.Unicode.{rune_count}
use relayward_sdk.Unicode.Ascii.{runes-ascii}
use relayward_sdk.Agent.Plugins.{ParseUrl}
use relayward_sdk.CenterPlugin.Subscription.{
  SubscriptionServiceBinding, RenderSubscriptionRequest, RenderSubscriptionResponse,
  validate_render_subscription_request,
}
use relayward_sdk.CenterPlugin.Subscription.Names.{long_name-refused}
use relayward_sdk.Fixture.Center.{Formats, internal}
use relayward_sdk.Fixture.Center.Calls.{contribution, contribution_of, render_subscription}

abbrev IsAscii : Bytes → Type 0
IsAscii s = All (λ c. c < 128) s

All-append : (s t : Bytes) → IsAscii s → IsAscii t → IsAscii (s ++ t)
All-append [] t a b = b
All-append (c ∷ s) t (lt, a) b = (lt, All-append s t a b)

rune_count-ascii : (s : Bytes) → IsAscii s → rune_count s ≡ length s
unfolding rune_count
rune_count-ascii s a = ap length (runes-ascii s a)

suffix-IsAscii : IsAscii (codes " / Contract")
suffix-IsAscii = ground arith

-- A request that the center may send is answered with an internal error where the name of its first
-- service has 90 ASCII characters or more: " / Contract" makes it longer than the 100 that
-- `ValidateRenderSubscriptionResponse` allows.
pub render_long_name :
    (parse_url : ParseUrl) (formats : Formats) (request : RenderSubscriptionRequest)
    (service : SubscriptionServiceBinding) (services : List (Option SubscriptionServiceBinding))
    → validate_render_subscription_request (some request) ≡ pass
    → request.services ≡ some service ∷ services
    → IsAscii service.display_name
    → 90 ≤ length service.display_name
    → render_subscription parse_url formats (some request)
      ≡ err (internal "generated subscription is invalid")
unfolding render_subscription contribution_of contribution
render_long_name parse_url formats request service services h p a l =
    let name = service.display_name ++ codes " / Contract" in
    let long : 100 < rune_count name = omega (
      arith,
      l,
      rune_count-ascii name
          (All-append service.display_name (codes " / Contract") a suffix-IsAscii),
      length-append service.display_name (codes " / Contract"),
    ) in
    let response : RenderSubscriptionResponse = record {
      services = map (contribution_of formats request.authorization_id) request.services;
    } in
    let (e, refused) =
      long_name-refused parse_url request response service services
        (contribution formats request.authorization_id service)
        (map (contribution_of formats request.authorization_id) services) p
        (ap (map (contribution_of formats request.authorization_id)) p) long in
    rw (h, render_subscription) (rw (refused, render_subscription) refl)
