-- ===== src/CenterPlugin/Subscription/Aligned.antt =====
-- What an accepted answer contributes: one contribution for each service of the request, in their
-- order, within the bounds on the fragments.
use relayward_sdk.Base.{
  ℕ, ◌+◌, ◌≤◌, ◌≡◌, refl, sym, ap, List, [], ◌∷◌, Option, some, none, Bytes, codes, arith, length,
  map, All, All2, total_length, length-map, beq_iff, Result-cases, inl, inr, ok, pass,
}
use relayward_sdk.Agent.Plugins.{ParseUrl}
use relayward_sdk.CenterPlugin.Text.{validate_json_object}
use relayward_sdk.CenterPlugin.Subscription.{
  SubscriptionServiceBinding, SubscriptionServiceContribution, RenderSubscriptionRequest,
  RenderSubscriptionResponse, maximum_fragments_per_format, maximum_fragment_bytes,
  maximum_subscription_bytes, check_bindings, check_fragments, validate_subscription_uri,
  check_uris, check_contribution, check_contributions, check_rendered,
  validate_render_subscription_request, validate_render_subscription_response,
}

-- The bytes of all fragments of a contribution, and of all contributions.
abbrev pub contribution_bytes : SubscriptionServiceContribution → ℕ
contribution_bytes c =
    total_length c.uris
    + (total_length c.mihomo_proxies_json + total_length c.sing_box_outbounds_json)

abbrev pub all_bytes : List SubscriptionServiceContribution → ℕ
all_bytes [] = 0
all_bytes (c ∷ rest) = contribution_bytes c + all_bytes rest

abbrev pub Fragment : Bytes → Type 0
Fragment raw = (validate_json_object raw ≡ pass) × (length raw ≤ maximum_fragment_bytes)

check_fragments-Fragment :
    (index : ℕ) (name : Bytes) (i total t : ℕ) (values : List Bytes)
    → check_fragments index name i total values ≡ ok t
    → All Fragment values × (t ≡ total + total_length values)
unfolding check_fragments
check_fragments-Fragment index name i total t [] h = (tt, ground arith)
check_fragments-Fragment index name i total t (raw ∷ rest) h =
    let (a, e) =
      check_fragments-Fragment index name (i + 1) (total + length raw) t rest (ground arith) in
    (((ground arith, ground arith), a), omega (arith, e))

module _ (parse_url : ParseUrl) where
  -- A contribution for a service of the request.
  pub record Contributes (service : SubscriptionServiceBinding)
      (c : SubscriptionServiceContribution) : Type 0 where
    pub same_service : c.service_id ≡ service.service_id
    pub uris_valid : All (λ raw. validate_subscription_uri parse_url raw ≡ pass) c.uris
    pub mihomo_valid : All Fragment c.mihomo_proxies_json
    pub sing_box_valid : All Fragment c.sing_box_outbounds_json
    pub some_fragment :
        1 ≤ length c.uris + length c.mihomo_proxies_json + length c.sing_box_outbounds_json
    pub few_uris : length c.uris ≤ maximum_fragments_per_format
    pub few_mihomo : length c.mihomo_proxies_json ≤ maximum_fragments_per_format
    pub few_sing_box : length c.sing_box_outbounds_json ≤ maximum_fragments_per_format

  check_uris-valid :
      (index i : ℕ) (previous : Option Bytes) (total t : ℕ) (values : List Bytes)
      → check_uris parse_url index i previous total values ≡ ok t
      → All (λ raw. validate_subscription_uri parse_url raw ≡ pass) values
        × (t ≡ total + total_length values)
  unfolding check_uris
  check_uris-valid index i previous total t [] h = (tt, ground arith)
  check_uris-valid index i previous total t (raw ∷ rest) h =
      let (a, e) =
        check_uris-valid index (i + 1) (some raw) (total + length raw) t rest (ground arith) in
      ((ground arith, a), omega (arith, e))

  check_contribution-Contributes :
      (index total t : ℕ) (s : SubscriptionServiceBinding) (c : SubscriptionServiceContribution)
      → check_contribution parse_url index total s c ≡ ok t
      → Contributes s c × (t ≡ total + contribution_bytes c) × (t ≤ maximum_subscription_bytes)
  unfolding check_contribution
  check_contribution-Contributes index total t s c h =
      elim (Result-cases (check_uris parse_url index 0 none total c.uris)) [
        | inr (e, failed) ↦ absurd (ground arith)
        | inl (u, uris) ↦
            elim (Result-cases
              (check_fragments index (codes "mihomo_proxies_json") 0 u c.mihomo_proxies_json)) [
                | inr (e, failed) ↦ absurd (ground arith)
                | inl (m, mihomo) ↦
                    let sing_box : check_fragments index (codes "sing_box_outbounds_json") 0 m
                          c.sing_box_outbounds_json
                        ≡ ok t =
                      ground arith in
                    let (a, d) = check_uris-valid index 0 none total u c.uris uris in
                    let (b, f) =
                      check_fragments-Fragment index (codes "mihomo_proxies_json") 0 u m
                        c.mihomo_proxies_json mihomo in
                    let (o, g) =
                      check_fragments-Fragment index (codes "sing_box_outbounds_json") 0 m t
                        c.sing_box_outbounds_json sing_box in
                    (
                      record {
                        same_service = (beq_iff c.service_id s.service_id).0 (ground arith);
                        uris_valid = a;
                        mihomo_valid = b;
                        sing_box_valid = o;
                        some_fragment = ground arith;
                        few_uris = ground arith;
                        few_mihomo = ground arith;
                        few_sing_box = ground arith;
                      },
                      omega (arith, d, f, g),
                      ground arith,
                    )
              ]
      ]

  -- The contributions next to the services.
  pub record Aligned (total : ℕ) (bindings : List SubscriptionServiceBinding)
      (values : List (Option SubscriptionServiceContribution)) : Type 0 where
    pub contributions : List SubscriptionServiceContribution
    pub present : values ≡ map some contributions
    pub contribute : All2 Contributes bindings contributions
    pub bounded : total + all_bytes contributions ≤ maximum_subscription_bytes

  check_contributions-Aligned :
      (index total : ℕ) (bindings : List SubscriptionServiceBinding)
      (values : List (Option SubscriptionServiceContribution))
      → check_contributions parse_url index total (map some bindings) values ≡ pass
      → length values ≡ length bindings
      → total ≤ maximum_subscription_bytes
      → Aligned total bindings values
  unfolding check_contributions
  check_contributions-Aligned index total [] [] h l b = record {
    contributions = [];
    present = refl;
    contribute = tt;
    bounded = omega (arith, b);
  }
  check_contributions-Aligned index total (s ∷ bindings) [] h l b = absurd (omega (arith, l))
  check_contributions-Aligned index total [] (c ∷ values) h l b = absurd (omega (arith, l))
  check_contributions-Aligned index total (s ∷ bindings) (none ∷ values) h l b =
      absurd (ground arith)
  check_contributions-Aligned index total (s ∷ bindings) (some c ∷ values) h l b =
      elim (Result-cases (check_contribution parse_url index total s c)) [
        | inr (e, failed) ↦ absurd (ground arith)
        | inl (t, checked) ↦
            let (contributes, sum, bound) =
              check_contribution-Contributes index total t s c checked in
            let more =
              check_contributions-Aligned (index + 1) t bindings values (ground arith)
                (omega (arith, l)) bound in
            record {
              contributions = c ∷ more.contributions;
              present = ap (◌∷◌ (some c)) more.present;
              contribute = (contributes, more.contribute);
              bounded = omega (arith, sum, more.bounded);
            }
      ]

check_bindings-present :
    (index : ℕ) (previous : Option Bytes) (services : List (Option SubscriptionServiceBinding))
    → check_bindings index previous services ≡ pass
    → (bindings : List SubscriptionServiceBinding) × (services ≡ map some bindings)
unfolding check_bindings
check_bindings-present index previous [] h = ([], refl)
check_bindings-present index previous (none ∷ rest) h = absurd (ground arith)
check_bindings-present index previous (some service ∷ rest) h =
    let (bindings, e) =
      check_bindings-present (index + 1) (some service.service_id) rest (ground arith) in
    (service ∷ bindings, ap (◌∷◌ (some service)) e)

-- An accepted answer has one contribution for each service of the request, in their order; each has
-- the ID of its service, at least one fragment, and fragments that are valid; and all fragments
-- together take at most 512 KiB.
pub accepted_subscription :
    (parse_url : ParseUrl) (request : RenderSubscriptionRequest)
    (response : RenderSubscriptionResponse)
    → validate_render_subscription_response parse_url (some request) (some response) ≡ pass
    → (bindings : List SubscriptionServiceBinding) × (request.services ≡ map some bindings)
      × Aligned parse_url 0 bindings response.services
unfolding validate_render_subscription_response validate_render_subscription_request check_rendered
accepted_subscription parse_url request response h =
    let (bindings, e) = check_bindings-present 0 none request.services (ground arith) in
    let checked : check_contributions parse_url 0 0 (map some bindings) response.services ≡ pass =
      rw (sym e) (ground arith) in
    let long : length response.services ≡ length bindings =
      ground (arith, ap length e, length-map some bindings) in
    (
      bindings,
      e,
      check_contributions-Aligned parse_url 0 0 bindings response.services checked long
          (omega arith),
    )
