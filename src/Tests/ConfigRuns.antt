-- ===== src/Tests/ConfigRuns.antt =====
-- Runs of the theorems on the configuration and on the accessors.
use knative_extensions_net_i.Base.{
  ◌≡◌, ◌<◌, refl, true, false, ◌&&◌, [], ◌∷◌, ◌++◌, ok, err, Member, some, none, length, ◌⊎◌, ◌≢◌,
  Result, arith,
}
use knative_extensions_net_i.GoString.{bytes, str_eq}
use knative_extensions_net_i.GoString.Split.{lacks}
use knative_extensions_net_i.Api.{StringMap, lookup, has_key}
use knative_extensions_net_i.Config.{GatewayConfig, IstioConfig, validate, default_gateways}
use knative_extensions_net_i.Config.Parse.{
  new_istio_from_config_map, is_new_format_defined, is_old_format_defined,
  parse_old_format_gateways,
}
use knative_extensions_net_i.Config.Defaults.{HasDefaults, new_istio_from_config_map-HasDefaults}
use knative_extensions_net_i.Config.OldFormat.{
  DistinctKeys, parse_old_format_gateways_qualified, parse_old_format_gateways_plain,
}
use knative_extensions_net_i.Resources.Selection.{SelectedGateways, gateways_from_context}
use knative_extensions_net_i.Resources.Selection.Laws.{gateways_from_context-pos, Matches}
use knative_extensions_net_i.Config.{has_no_selector}
use knative_extensions_net_i.Tests.Library.{cluster_network, match_all, strict_parsers, by_uid}
use knative_extensions_net_i.Tests.Objects.{web_ingress, istio_config}
use knative_extensions_net_i.Base.{drop}
use knative_extensions_net_i.Api.{insert}
use knative_extensions_net_i.Config.{default_external_gateways}
use knative_extensions_net_i.Base.{keep}
use knative_extensions_net_i.Config.{default_local_gateways}

abbrev old_map : StringMap
old_map =
    (
      bytes "gateway.knative-serving.knative-ingress-gateway",
      bytes "gw.istio-system.svc.cluster.local",
    )
    ∷ (bytes "gateway.plain", bytes "plain.istio-system.svc.cluster.local")
    ∷ []

abbrev parsed : Result IstioConfig → IstioConfig
parsed (ok conf) = conf
parsed (err e) = istio_config

old_map_accepted :
    new_istio_from_config_map old_map ≡ ok (parsed (new_istio_from_config_map old_map))
unfolding new_istio_from_config_map drop insert
old_map_accepted = refl

new_istio_from_config_map-HasDefaults_example :
    HasDefaults (parsed (new_istio_from_config_map old_map))
    × (validate (parsed (new_istio_from_config_map old_map)) ≡ ok tt)
    × ((is_new_format_defined old_map && is_old_format_defined old_map) ≡ false)
new_istio_from_config_map-HasDefaults_example =
    new_istio_from_config_map-HasDefaults old_map (parsed (new_istio_from_config_map old_map))
      old_map_accepted

old_map_distinct : DistinctKeys old_map
unfolding has_key str_eq
old_map_distinct = (refl, (refl, tt))

no_dot : lacks b'.' (bytes "knative-serving") ≡ true
unfolding lacks
no_dot = refl

qualified_there :
    lookup
      (bytes "gateway." ++ (bytes "knative-serving" ++ b'.' ∷ bytes "knative-ingress-gateway"))
      old_map
    ≡ some (bytes "gw.istio-system.svc.cluster.local")
unfolding lookup str_eq
qualified_there = refl

parse_old_format_gateways_qualified_example :
    Member
      (record {
        namespace = bytes "knative-serving";
        name = bytes "knative-ingress-gateway";
        service_url = bytes "gw.istio-system.svc.cluster.local";
        label_selector = none;
      })
      (parse_old_format_gateways old_map (bytes "gateway."))
parse_old_format_gateways_qualified_example =
    parse_old_format_gateways_qualified old_map (bytes "gateway.") old_map_distinct
      (bytes "knative-serving") (bytes "knative-ingress-gateway")
      (bytes "gw.istio-system.svc.cluster.local") no_dot qualified_there

no_dot_plain : lacks b'.' (bytes "plain") ≡ true
unfolding lacks
no_dot_plain = refl

plain-ne-nil : bytes "plain" ≢ []
plain-ne-nil h = cc

plain_there :
    lookup (bytes "gateway." ++ bytes "plain") old_map
    ≡ some (bytes "plain.istio-system.svc.cluster.local")
unfolding lookup str_eq
plain_there = refl

parse_old_format_gateways_plain_example :
    Member
      (record {
        namespace = bytes "knative-serving";
        name = bytes "plain";
        service_url = bytes "plain.istio-system.svc.cluster.local";
        label_selector = none;
      })
      (parse_old_format_gateways old_map (bytes "gateway."))
parse_old_format_gateways_plain_example =
    parse_old_format_gateways_plain old_map (bytes "gateway.") old_map_distinct (bytes "plain")
      (bytes "plain.istio-system.svc.cluster.local") no_dot_plain plain-ne-nil plain_there

istio_config-HasDefaults : HasDefaults istio_config
unfolding default_gateways default_external_gateways keep default_local_gateways
istio_config-HasDefaults = record { external = omega arith; local = omega arith }

abbrev chosen_gateways : SelectedGateways
chosen_gateways = record {
  external = istio_config.ingress_gateways;
  local = istio_config.local_gateways;
}

chosen_there : gateways_from_context istio_config web_ingress.meta ≡ ok chosen_gateways
unfolding gateways_from_context keep
chosen_there = refl

gateways_from_context-pos_example :
    (0 < length chosen_gateways.external)
    × (0 < length chosen_gateways.local)
    × ((g : GatewayConfig)
        → Member g chosen_gateways.external
        → Member g istio_config.ingress_gateways
          × (Matches web_ingress.meta.labels g ⊎ (has_no_selector g ≡ true)))
    × ((g : GatewayConfig)
        → Member g chosen_gateways.local
        → Member g istio_config.local_gateways
          × (Matches web_ingress.meta.labels g ⊎ (has_no_selector g ≡ true)))
gateways_from_context-pos_example =
    gateways_from_context-pos istio_config web_ingress.meta chosen_gateways istio_config-HasDefaults
      chosen_there
