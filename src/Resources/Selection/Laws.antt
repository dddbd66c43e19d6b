-- ===== src/Resources/Selection/Laws.antt =====
-- The selection of gateways in resources/gateway.go: by selector, else by default.
use knative_extensions_net_i.Base.{
  ◌<◌, ◌≡◌, refl, Bool, true, false, Option, none, some, List, [], ◌∷◌, ◌++◌, ok, >>=-eq-ok,
  wrap_error, wrap_error-eq-ok, arith, if◌then◌else◌, keep, length, Member, Bool-cases, inl, inr,
  ◌⊎◌, ◌≢◌,
}
use knative_extensions_net_i.GoString.{GoString}
use knative_extensions_net_i.GoString.Split.{split_n, lacks, split_n-append, split_n-lacks}
use knative_extensions_net_i.Api.{StringMap, ObjectMeta, LabelSelector}
use knative_extensions_net_i.Platform.{Selectors}
use knative_extensions_net_i.Config.{
  GatewayConfig, IstioConfig, has_no_selector, default_gateways, default_external_gateways,
  default_local_gateways,
}
use knative_extensions_net_i.Config.Defaults.{HasDefaults}
use knative_extensions_net_i.Resources.Selection.{
  SelectedGateways, ServiceName, or_default, selects, filter_gateway, gateways_from_context,
  service_of_parts, parse_ingress_gateway_config,
}

or_default-pos :
    (fallback gs : List GatewayConfig) → 0 < length fallback → 0 < length (or_default fallback gs)
unfolding or_default
or_default-pos fallback [] h = h
or_default-pos fallback (g ∷ gs) h = omega arith

or_default-cases :
    (fallback gs : List GatewayConfig) (g : GatewayConfig)
    → Member g (or_default fallback gs)
    → Member g gs ⊎ Member g fallback
unfolding or_default
or_default-cases fallback [] g m = inr m
or_default-cases fallback (x ∷ gs) g m = inl m

Member-of_keep {ℓ} :
    {A : Type ℓ} (p : A → Bool) (x : A) (xs : List A)
    → Member x (keep p xs)
    → Member x xs × (p x ≡ true)
unfolding keep
Member-of_keep p x [] m = elim m [ ]
Member-of_keep p x (y ∷ ys) m = elim (Bool-cases (p y)) [
  | inl e ↦ elim (rw e at m) [
    | inl q ↦ (inl q, rw q e)
    | inr n ↦ let (a, b) = Member-of_keep p x ys n in (inr a, b)
  ]
  | inr e ↦ let (a, b) = Member-of_keep p x ys (rw e at m) in (inr a, b)
]

module _ ⦃selectors : Selectors⦄ (ingress_labels : StringMap) where
  -- The gateway has a selector, and it matches the labels.
  pub record Matches (g : GatewayConfig) : Type 0 where
    pub selector : LabelSelector
    pub matcher : StringMap → Bool
    pub given : g.label_selector ≡ some selector
    pub parsed : selectors.as_selector selector ≡ ok matcher
    pub matched : matcher ingress_labels ≡ true

  selects-Matches :
      (g : GatewayConfig) (s : Option LabelSelector)
      → g.label_selector ≡ s
      → selects ingress_labels g s ≡ ok true
      → Matches g
  unfolding selects
  selects-Matches g none e h = absurd (cc h)
  selects-Matches g (some s) e h =
      let (m, p, h₁) =
        >>=-eq-ok
          (wrap_error "failed to create selector from gateway (%s) label selector: %w"
            (selectors.as_selector s))
          _ h in
      record {
        selector = s;
        matcher = m;
        given = e;
        parsed =
            wrap_error-eq-ok "failed to create selector from gateway (%s) label selector: %w"
              (selectors.as_selector s) p;
        matched = cc h₁;
      }

  pub filter_gateway-Matches :
      (gs ret : List GatewayConfig) (g : GatewayConfig)
      → filter_gateway gs ingress_labels ≡ ok ret
      → Member g ret
      → Member g gs × Matches g
  unfolding filter_gateway
  filter_gateway-Matches [] ret g h m = let e : [] ≡ ret = cc h in elim (rw (← e) at m) [ ]
  filter_gateway-Matches (x ∷ gs) ret g h m =
      let (stays, e, h₁) = >>=-eq-ok (selects ingress_labels x x.label_selector) _ h in
      let (rest, f, h₂) = >>=-eq-ok (filter_gateway gs ingress_labels) _ h₁ in
      pick stays rest e (λ n. filter_gateway-Matches gs rest g f n) h₂
    where
      pick :
          (stays : Bool) (rest : List GatewayConfig)
          → selects ingress_labels x x.label_selector ≡ ok stays
          → (Member g rest → Member g gs × Matches g)
          → ok (if stays then x ∷ rest else rest) ≡ ok ret
          → Member g (x ∷ gs) × Matches g
      pick true rest e ih h₂ =
          let same : x ∷ rest ≡ ret = cc h₂ in
          elim (rw (← same) at m) [
            | inl q ↦ (inl q, rw q (selects-Matches x x.label_selector refl e))
            | inr n ↦ let (a, b) = ih n in (inr a, b)
          ]
      pick false rest e ih h₂ =
          let same : rest ≡ ret = cc h₂ in let (a, b) = ih (rw (← same) at m) in (inr a, b)

module _ ⦃selectors : Selectors⦄ (labels : StringMap) (gs filtered : List GatewayConfig) where
  -- The gateways of one kind: filtered ones, or the defaults where none is left.
  chosen :
      filter_gateway gs labels ≡ ok filtered
      → (g : GatewayConfig) → Member g (or_default (default_gateways gs) filtered)
      → Member g gs × (Matches labels g ⊎ (has_no_selector g ≡ true))
  unfolding default_gateways
  chosen f g m = elim (or_default-cases (keep has_no_selector gs) filtered g m) [
    | inl n ↦ let (a, b) = filter_gateway-Matches labels gs filtered g f n in (a, inl b)
    | inr n ↦ let (a, b) = Member-of_keep has_no_selector g gs n in (a, inr b)
  ]

-- With a configuration that has defaults and where GatewaysFromContext succeeds, an Ingress gets
-- at least one gateway of either kind, and each is a configured one that matches the Ingress's
-- labels or has no selector.
pub gateways_from_context-pos :
    ⦃selectors : Selectors⦄ (conf : IstioConfig) (obj : ObjectMeta) (selected : SelectedGateways)
    → HasDefaults conf
    → gateways_from_context conf obj ≡ ok selected
    → (0 < length selected.external)
      × (0 < length selected.local)
      × ((g : GatewayConfig)
          → Member g selected.external
          → Member g conf.ingress_gateways × (Matches obj.labels g ⊎ (has_no_selector g ≡ true)))
      × ((g : GatewayConfig)
          → Member g selected.local
          → Member g conf.local_gateways × (Matches obj.labels g ⊎ (has_no_selector g ≡ true)))
unfolding gateways_from_context default_external_gateways default_local_gateways
gateways_from_context-pos conf obj selected d h =
    let (external, e, h₁) =
      >>=-eq-ok
        (wrap_error "failed to filter external gateways: %w"
          (filter_gateway conf.ingress_gateways obj.labels))
        _ h in
    let (local, f, h₂) =
      >>=-eq-ok
        (wrap_error "failed to filter local gateways: %w"
          (filter_gateway conf.local_gateways obj.labels))
        _ h₁ in
    let same_external : or_default (default_gateways conf.ingress_gateways) external
        ≡ selected.external =
      ground (arith, h₂) in
    let same_local : or_default (default_gateways conf.local_gateways) local ≡ selected.local =
      ground (arith, h₂) in
    (
      rw (← same_external)
          (or_default-pos (default_gateways conf.ingress_gateways) external d.external),
      rw (← same_local) (or_default-pos (default_gateways conf.local_gateways) local d.local),
      λ g m.
          chosen obj.labels conf.ingress_gateways external
            (wrap_error-eq-ok "failed to filter external gateways: %w"
              (filter_gateway conf.ingress_gateways obj.labels) e)
            g (rw (← same_external) at m),
      λ g m.
          chosen obj.labels conf.local_gateways local
            (wrap_error-eq-ok "failed to filter local gateways: %w"
              (filter_gateway conf.local_gateways obj.labels) f)
            g (rw (← same_local) at m),
    )

-- A service URL `<name>.<namespace>.<rest>` gives its name and namespace; one with fewer than two
-- dots is an error.
pub parse_ingress_gateway_config_lem :
    (g : GatewayConfig) (name namespace rest : GoString)
    → lacks b'.' name ≡ true
    → lacks b'.' namespace ≡ true
    → (g.service_url ≡ name ++ b'.' ∷ (namespace ++ b'.' ∷ rest)
        → parse_ingress_gateway_config g ≡ ok (record { name = name; namespace = namespace }))
      × (g.service_url ≡ name ++ b'.' ∷ namespace
          → (s : ServiceName) → parse_ingress_gateway_config g ≢ ok s)
      × (g.service_url ≡ name → (s : ServiceName) → parse_ingress_gateway_config g ≢ ok s)
unfolding parse_ingress_gateway_config service_of_parts
parse_ingress_gateway_config_lem g name namespace rest p q = (
  λ e.
      rw
        (
          e,
          split_n-append b'.' 1 name (namespace ++ b'.' ∷ rest) p,
          split_n-append b'.' 0 namespace rest q,
        )
        (unfold split_n in refl),
  λ e s h.
      cc (rw (e, split_n-append b'.' 1 name namespace p, split_n-lacks b'.' 1 namespace q) at h),
  λ e s h. cc (rw (e, split_n-lacks b'.' 2 name p) at h),
)
