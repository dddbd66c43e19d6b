-- ===== src/Resources/Gateways.antt =====
-- resources/gateway.go: the Gateways made for an Ingress, one for each gateway service.
pub mod Made
pub mod Sources
pub mod Credentials
use knative_extensions_net_i.Base.{
  Bool, true, false, Option, none, some, List, [], ◌∷◌, ◌++◌, Result, ok, err, ◌>>=◌, map_result,
  map, if◌then◌else◌,
}
use knative_extensions_net_i.GoString.{GoString, bytes, str_eq}
use knative_extensions_net_i.Api.{
  ObjectMeta, OwnerReference, Server, Gateway, Ingress, IngressTls, Visibility, external_ip, Secret,
  Service, GoMap, StringMap, Reference,
}
use knative_extensions_net_i.Platform.{Keys, Kmeta, Selectors}
use knative_extensions_net_i.Config.{IstioConfig}
use knative_extensions_net_i.Resources.Naming.{
  gateway_name, wildcard_gateway_name, target_wildcard_secret_name,
}
use knative_extensions_net_i.Resources.Servers.{
  tls_server, make_tls_servers, external_gateway_https_port,
}
use knative_extensions_net_i.Resources.Selection.{ServiceLister, get_gateway_services}
use knative_extensions_net_i.Resources.Secrets.{Certificates, get_hosts_from_cert_secret}

-- `GetQualifiedGatewayNames`
unfoldable pub get_qualified_gateway_names : List Gateway → List GoString
get_qualified_gateway_names = map (λ (g : Gateway). g.meta.namespace ++ b'/' ∷ g.meta.name)

-- `GatewayRef`
unfoldable pub gateway_ref : Gateway → Reference
gateway_ref g = record {
  api_version = bytes "networking.istio.io/v1beta1";
  kind = bytes "Gateway";
  namespace = g.meta.namespace;
  name = g.meta.name;
}

module _ ⦃keys : Keys⦄ ⦃kmeta : Kmeta⦄ where
  -- `makeIngressGateway`
  unfoldable pub make_ingress_gateway :
      Ingress → Visibility → StringMap → List Server → Service → Gateway
  unfolding gateway_name
  make_ingress_gateway ing visibility selector servers svc = record {
    meta = record {
      name = gateway_name ing.meta visibility svc.meta;
      namespace = ing.meta.namespace;
      uid = [];
      labels = (keys.ingress_label, ing.meta.name) ∷ [];
      annotations = [];
      owner_references = kmeta.new_controller_ref ing.meta ∷ [];
    };
    selector = selector;
    servers = servers;
  }

  -- one round of `MakeIngressTLSGateways`
  unfoldable pub tls_gateway :
      Ingress → Visibility → List IngressTls → GoMap Secret → Service → Result Gateway
  unfolding make_tls_servers make_ingress_gateway
  tls_gateway ing visibility ingress_tls origin_secrets svc = do
    servers ← make_tls_servers ing visibility ingress_tls svc.meta.namespace origin_secrets
    ok (make_ingress_gateway ing visibility svc.selector servers svc)

  -- `metav1.NewControllerRef(secret, gvk)` is a parameter.
  module _ (new_secret_ref : ObjectMeta → OwnerReference) ⦃certs : Certificates⦄ where
    -- one round of `makeWildcardTLSGateways`
    unfoldable pub wildcard_gateway : Service → Secret → Result Gateway
    unfolding get_hosts_from_cert_secret tls_server wildcard_gateway_name
        target_wildcard_secret_name
    wildcard_gateway svc secret = do
      hosts ← get_hosts_from_cert_secret secret
      ok (record {
        meta = record {
          name = wildcard_gateway_name secret.meta.name svc.meta.namespace svc.meta.name;
          namespace = secret.meta.namespace;
          uid = [];
          labels = [];
          annotations = [];
          owner_references = new_secret_ref secret.meta ∷ [];
        };
        selector = svc.selector;
        servers =
            tls_server hosts (bytes "https") external_gateway_https_port (
              if str_eq secret.meta.namespace svc.meta.namespace
              then secret.meta.name
              else target_wildcard_secret_name secret.meta.name secret.meta.namespace)
            ∷ [];
      })

    -- `makeWildcardTLSGateways`
    unfoldable pub wildcard_gateways_for : GoMap Secret → Service → Result (List Gateway)
    unfolding wildcard_gateway map_result
    wildcard_gateways_for secrets svc =
        map_result (λ (entry : GoString × Secret). wildcard_gateway svc entry.1) secrets

    -- the loop of `MakeWildcardTLSGateways` over the services
    unfoldable pub wildcard_gateways : GoMap Secret → List Service → Result (List Gateway)
    unfolding wildcard_gateways_for
    wildcard_gateways secrets [] = ok []
    wildcard_gateways secrets (svc ∷ svcs) = do
      gws ← wildcard_gateways_for secrets svc
      rest ← wildcard_gateways secrets svcs
      ok (gws ++ rest)

    -- `MakeWildcardTLSGateways`
    unfoldable pub make_wildcard_tls_gateways :
        ⦃selectors : Selectors⦄
        → IstioConfig
        → Ingress
        → GoMap Secret
        → ServiceLister
        → Result (List Gateway)
    unfolding wildcard_gateways
    make_wildcard_tls_gateways conf ing [] svc_lister = ok []
    make_wildcard_tls_gateways conf ing (s ∷ secrets) svc_lister = do
      svcs ← get_gateway_services conf ing.meta svc_lister
      wildcard_gateways (s ∷ secrets) svcs

  module _ ⦃selectors : Selectors⦄ where
    -- `MakeIngressTLSGateways`
    unfoldable pub make_ingress_tls_gateways :
        IstioConfig
        → Ingress
        → Visibility
        → List IngressTls
        → GoMap Secret
        → ServiceLister
        → Result (List Gateway)
    unfolding get_gateway_services tls_gateway map_result
    make_ingress_tls_gateways conf ing visibility [] origin_secrets svc_lister = ok []
    make_ingress_tls_gateways conf ing visibility (t ∷ tls) origin_secrets svc_lister = do
      svcs ← get_gateway_services conf ing.meta svc_lister
      map_result (tls_gateway ing visibility (t ∷ tls) origin_secrets) svcs

    -- `MakeExternalIngressGateways`
    unfoldable pub make_external_ingress_gateways :
        IstioConfig → Ingress → List Server → ServiceLister → Result (List Gateway)
    unfolding get_gateway_services make_ingress_gateway
    make_external_ingress_gateways conf ing servers svc_lister = do
      svcs ← get_gateway_services conf ing.meta svc_lister
      ok (
          map (λ (svc : Service). make_ingress_gateway ing external_ip svc.selector servers svc)
            svcs)
