-- ===== src/Resources/Selection.antt =====
-- resources/gateway.go: which configured gateways serve an Ingress, and the services behind them.
pub mod Laws
use knative_extensions_net_i.Base.{
  ℕ, Bool, true, false, Option, none, some, List, [], ◌∷◌, Result, ok, err, ◌>>=◌, errorf,
  wrap_error, map_result, if◌then◌else◌,
}
use knative_extensions_net_i.GoString.{GoString}
use knative_extensions_net_i.GoString.Split.{split_n}
use knative_extensions_net_i.Api.{StringMap, ObjectMeta, Service, LabelSelector}
use knative_extensions_net_i.Platform.{SetLib, StringSet, Selectors}
use knative_extensions_net_i.Config.{
  GatewayConfig, IstioConfig, qualified_name, default_external_gateways, default_local_gateways,
}
use knative_extensions_net_i.Resources.VirtualService.{GatewayNames}

-- `map[v1alpha1.IngressVisibility][]config.Gateway` with both keys
pub record SelectedGateways : Type 0 where
  pub external : List GatewayConfig
  pub local : List GatewayConfig

-- The name and namespace of a service: the `metav1.ObjectMeta` that the parser fills.
pub record ServiceName : Type 0 where
  pub name : GoString
  pub namespace : GoString

-- `svcLister.Services(namespace).Get(name)`
abbrev pub ServiceLister : Type 0
ServiceLister = GoString → GoString → Result Service

unfoldable pub or_default : List GatewayConfig → List GatewayConfig → List GatewayConfig
or_default fallback [] = fallback
or_default fallback (g ∷ gs) = g ∷ gs

unfoldable pub service_of_parts : GoString → List GoString → Result ServiceName
service_of_parts url (name ∷ namespace ∷ rest ∷ []) =
    ok (record { name = name; namespace = namespace })
service_of_parts url _ = err (errorf "unexpected service URL form: %s" (url ∷ []))

-- `parseIngressGatewayConfig`
unfoldable pub parse_ingress_gateway_config : GatewayConfig → Result ServiceName
unfolding service_of_parts split_n
parse_ingress_gateway_config g = service_of_parts g.service_url (split_n b'.' 2 g.service_url)

module _ ⦃selectors : Selectors⦄ where
  -- one round of `filterGateway`: whether the gateway stays
  unfoldable pub selects : StringMap → GatewayConfig → Option LabelSelector → Result Bool
  selects ingress_labels g none = ok false
  selects ingress_labels g (some s) = do
    matches ←
        wrap_error "failed to create selector from gateway (%s) label selector: %w"
          (selectors.as_selector s)
    ok (matches ingress_labels)

  -- `filterGateway`
  unfoldable pub filter_gateway : List GatewayConfig → StringMap → Result (List GatewayConfig)
  unfolding selects
  filter_gateway [] ingress_labels = ok []
  filter_gateway (g ∷ gs) ingress_labels = do
    stays ← selects ingress_labels g g.label_selector
    ret ← filter_gateway gs ingress_labels
    ok (if stays then g ∷ ret else ret)

  -- `GatewaysFromContext`, with the configuration of the context
  unfoldable pub gateways_from_context : IstioConfig → ObjectMeta → Result SelectedGateways
  unfolding filter_gateway or_default default_external_gateways default_local_gateways
  gateways_from_context conf obj = do
    external ←
        wrap_error "failed to filter external gateways: %w"
          (filter_gateway conf.ingress_gateways obj.labels)
    local ←
        wrap_error "failed to filter local gateways: %w"
          (filter_gateway conf.local_gateways obj.labels)
    ok (record {
      external = or_default (default_external_gateways conf) external;
      local = or_default (default_local_gateways conf) local;
    })

  module _ ⦃sets : SetLib⦄ where
    -- the loop of `QualifiedGatewayNamesFromContext`
    unfoldable pub qualified_names : StringSet → List GatewayConfig → StringSet
    unfolding qualified_name
    qualified_names names [] = names
    qualified_names names (g ∷ gs) = qualified_names (sets.insert names (qualified_name g ∷ [])) gs

    -- `QualifiedGatewayNamesFromContext`
    unfoldable pub qualified_gateway_names_from_context :
        IstioConfig → ObjectMeta → Result GatewayNames
    unfolding gateways_from_context qualified_names
    qualified_gateway_names_from_context conf obj = do
      gateways ←
          wrap_error "failed to get gateways from configuration: %w"
            (gateways_from_context conf obj)
      ok (record {
        external = qualified_names sets.empty gateways.external;
        local = qualified_names sets.empty gateways.local;
      })

  -- `GetIngressGatewaySvcNameNamespaces`
  unfoldable pub get_ingress_gateway_svc_name_namespaces :
      IstioConfig → ObjectMeta → Result (List ServiceName)
  unfolding gateways_from_context parse_ingress_gateway_config map_result
  get_ingress_gateway_svc_name_namespaces conf obj = do
    gateways ←
        wrap_error "failed to get gateway from configuration: %w" (gateways_from_context conf obj)
    map_result parse_ingress_gateway_config gateways.external

  -- `getGatewayServices`
  unfoldable pub get_gateway_services :
      IstioConfig → ObjectMeta → ServiceLister → Result (List Service)
  unfolding get_ingress_gateway_svc_name_namespaces
  get_gateway_services conf obj svc_lister = do
    metas ← get_ingress_gateway_svc_name_namespaces conf obj
    map_result (λ (m : ServiceName). svc_lister m.namespace m.name) metas
