-- ===== src/Config.antt =====
-- pkg/reconciler/ingress/config/istio.go: the Istio configuration read from a ConfigMap.
pub mod Parse
pub mod OldFormat
pub mod Defaults
use knative_extensions_net_i.Base.{
  ℕ, ◌<◌, ◌≡◌, Bool, true, false, not, ◌&&◌, ◌||◌, Option, none, some, List, [], ◌∷◌, ◌++◌, Result,
  ok, err, ◌>>=◌, errorf, wrap_error, if◌then◌else◌, any, keep, map, drop, length, ◌==◌, String,
}
use knative_extensions_net_i.GoString.{GoString, bytes, str_eq, has_prefix, trim_suffix}
use knative_extensions_net_i.GoString.Order.{sort_strings}
use knative_extensions_net_i.GoString.Split.{split_n}
use knative_extensions_net_i.Api.{StringMap, insert, get, has_key, lookup, LabelSelector}
use knative_extensions_net_i.Platform.{Network, Selectors}

abbrev pub gateway_key_prefix : GoString
gateway_key_prefix = bytes "gateway."

abbrev pub local_gateway_key_prefix : GoString
local_gateway_key_prefix = bytes "local-gateway."

abbrev pub external_gateways_key : GoString
external_gateways_key = bytes "external-gateways"

abbrev pub local_gateways_key : GoString
local_gateways_key = bytes "local-gateways"

abbrev pub knative_ingress_gateway : GoString
knative_ingress_gateway = bytes "knative-ingress-gateway"

abbrev pub knative_local_gateway : GoString
knative_local_gateway = bytes "knative-local-gateway"

abbrev pub istio_ingress_gateway : GoString
istio_ingress_gateway = bytes "istio-ingressgateway"

abbrev pub istio_namespace : GoString
istio_namespace = bytes "istio-system"

-- `config.Gateway`
pub record GatewayConfig : Type 0 where
  pub namespace : GoString
  pub name : GoString
  pub service_url : GoString
  pub label_selector : Option LabelSelector

-- `config.Istio`
pub record IstioConfig : Type 0 where
  pub ingress_gateways : List GatewayConfig
  pub local_gateways : List GatewayConfig

-- sigs.k8s.io/yaml and k8s.io/apimachinery/pkg/util/validation
pub record ConfigParsers : Type 0 where
  -- `yaml.Unmarshal` into a slice of gateways
  pub unmarshal_gateways : GoString → Result (List GatewayConfig)
  -- `validation.IsDNS1123Subdomain`
  pub subdomain_errors : GoString → List GoString

-- `QualifiedName`
unfoldable pub qualified_name : GatewayConfig → GoString
qualified_name g = g.namespace ++ b'/' ∷ g.name

unfoldable pub has_no_selector : GatewayConfig → Bool
has_no_selector g = elim g.label_selector [ none ↦ true | some s ↦ false ]

-- `defaultGateways`
unfoldable pub default_gateways : List GatewayConfig → List GatewayConfig
unfolding has_no_selector
default_gateways = keep has_no_selector

-- `DefaultExternalGateways`
unfoldable pub default_external_gateways : IstioConfig → List GatewayConfig
unfolding default_gateways
default_external_gateways conf = default_gateways conf.ingress_gateways

-- `DefaultLocalGateways`
unfoldable pub default_local_gateways : IstioConfig → List GatewayConfig
unfolding default_gateways
default_local_gateways conf = default_gateways conf.local_gateways

module _ ⦃net : Network⦄ where
  -- `defaultIngressGateways`
  unfoldable pub default_ingress_gateways : List GatewayConfig
  default_ingress_gateways =
      record {
        namespace = net.system_namespace;
        name = knative_ingress_gateway;
        service_url = net.service_hostname istio_ingress_gateway istio_namespace;
        label_selector = none;
      }
      ∷ []

  -- `defaultLocalGateways`
  unfoldable pub default_local_gateway_list : List GatewayConfig
  default_local_gateway_list =
      record {
        namespace = net.system_namespace;
        name = knative_local_gateway;
        service_url = net.service_hostname knative_local_gateway istio_namespace;
        label_selector = none;
      }
      ∷ []

  unfoldable pub or_else : List GatewayConfig → List GatewayConfig → List GatewayConfig
  or_else fallback [] = fallback
  or_else fallback (g ∷ gs) = g ∷ gs

  -- `defaultValues`
  unfoldable pub default_values : IstioConfig → IstioConfig
  unfolding or_else default_ingress_gateways default_local_gateway_list
  default_values conf = record {
    ingress_gateways = or_else default_ingress_gateways conf.ingress_gateways;
    local_gateways = or_else default_local_gateway_list conf.local_gateways;
  }

module _ ⦃parsers : ConfigParsers⦄ ⦃selectors : Selectors⦄ where
  -- the selector of a gateway, where it has one; nil gives the selector that matches nothing
  unfoldable pub selector_errors : Option LabelSelector → Result (Unit {0})
  selector_errors none = ok tt
  selector_errors (some s) = do
    _ ← wrap_error "failed to create selector from label selector: %w" (selectors.as_selector s)
    ok tt

  unfoldable pub is_empty : List GoString → Bool
  is_empty [] = true
  is_empty (x ∷ xs) = false

  -- `Gateway.Validate`
  unfoldable pub validate_gateway : GatewayConfig → Result (Unit {0})
  unfolding str_eq selector_errors is_empty
  validate_gateway g =
      if str_eq g.namespace []
      then err (errorf "missing namespace" [])
      else if str_eq g.name []
      then err (errorf "missing name" [])
      else if str_eq g.service_url []
      then err (errorf "missing service" [])
      else if not (is_empty (parsers.subdomain_errors (trim_suffix g.service_url (bytes "."))))
      then err (
          errorf "invalid gateway service format: %v"
            (parsers.subdomain_errors (trim_suffix g.service_url (bytes "."))))
      else selector_errors g.label_selector

  unfoldable pub validate_all : String → List GatewayConfig → Result (Unit {0})
  unfolding validate_gateway
  validate_all message [] = ok tt
  validate_all message (g ∷ gs) = do
    _ ← wrap_error message (validate_gateway g)
    validate_all message gs

  -- `Istio.Validate`
  unfoldable pub validate : IstioConfig → Result (Unit {0})
  unfolding validate_all
  validate conf = do
    _ ← validate_all "invalid gateway %s: %w" conf.ingress_gateways
    validate_all "invalid local gateway %s: %w" conf.local_gateways
