-- ===== src/Tests/CredentialRuns.antt =====
-- Runs of the theorem on the credentials of wildcard Gateways.
use knative_extensions_net_i.Base.{length, ◌*◌, Member, keep, ◌≡◌, refl, [], ◌∷◌, ok, inl, keep}
use knative_extensions_net_i.GoString.{str_eq, GoString, bytes}
use knative_extensions_net_i.Api.{get, GoMap, Secret, Service, Gateway}
use knative_extensions_net_i.Resources.Naming.{target_wildcard_secret_name, wildcard_gateway_name}
use knative_extensions_net_i.Resources.Servers.{tls_server, external_gateway_https_port}
use knative_extensions_net_i.Resources.Selection.{
  get_gateway_services, get_ingress_gateway_svc_name_namespaces, ServiceLister,
}
use knative_extensions_net_i.Resources.Secrets.{copy_of, make_wildcard_secrets}
use knative_extensions_net_i.Resources.Gateways.{make_wildcard_tls_gateways}
use knative_extensions_net_i.Resources.Gateways.Credentials.{
  Provided, Provides, make_wildcard_tls_gateways-Provided, make_wildcard_tls_gateways_complete,
}
use knative_extensions_net_i.Tests.Library.{by_uid, knative_keys, match_all, plain_certificates}
use knative_extensions_net_i.Tests.Objects.{web_ingress, istio_config, cert_secret, gateway_service}

abbrev service_in : GoString → Service
service_in namespace = record gateway_service {
  meta = record gateway_service.meta { namespace = namespace };
}

abbrev each_namespace : ServiceLister
each_namespace namespace name = ok (service_in namespace)

in_its_namespace :
    (namespace name : GoString) (svc : Service)
    → each_namespace namespace name ≡ ok svc
    → svc.meta.namespace ≡ namespace
in_its_namespace namespace name svc h =
    let same : service_in namespace ≡ svc = cc h in rw (← same) refl

abbrev wildcard_secrets : GoMap Secret
wildcard_secrets = (bytes "certs/cert", cert_secret) ∷ []

abbrev wildcard_copy_name : Secret → GoString
wildcard_copy_name origin = target_wildcard_secret_name origin.meta.name origin.meta.namespace

abbrev wildcard_copy : Secret
wildcard_copy =
    copy_of wildcard_copy_name cert_secret
      (record { namespace = bytes "istio-system"; name = bytes "istio-ingressgateway" })

abbrev wildcard : Gateway
wildcard = record {
  meta = record {
    name =
        wildcard_gateway_name (bytes "cert") (bytes "istio-system") (bytes "istio-ingressgateway");
    namespace = bytes "certs";
    uid = [];
    labels = [];
    annotations = [];
    owner_references = by_uid.new_controller_ref cert_secret.meta ∷ [];
  };
  selector = gateway_service.selector;
  servers =
      tls_server (bytes "certificate" ∷ []) (bytes "https") external_gateway_https_port
        (wildcard_copy_name cert_secret)
      ∷ [];
}

wildcard_made :
    make_wildcard_tls_gateways by_uid.new_controller_ref istio_config web_ingress wildcard_secrets
      each_namespace
    ≡ ok (wildcard ∷ [])
unfolding make_wildcard_tls_gateways keep get_gateway_services get str_eq
wildcard_made = refl

wildcard_copied :
    make_wildcard_secrets istio_config wildcard_secrets web_ingress ≡ ok (wildcard_copy ∷ [])
unfolding make_wildcard_secrets keep get_ingress_gateway_svc_name_namespaces str_eq
wildcard_copied = refl

services_listed :
    get_gateway_services istio_config web_ingress.meta each_namespace
    ≡ ok (service_in (bytes "istio-system") ∷ [])
unfolding get_gateway_services keep get str_eq
services_listed = refl

make_wildcard_tls_gateways-Provided_example :
    Provided by_uid.new_controller_ref istio_config web_ingress each_namespace wildcard_secrets
      (wildcard_copy ∷ [])
      wildcard
make_wildcard_tls_gateways-Provided_example =
    make_wildcard_tls_gateways-Provided by_uid.new_controller_ref istio_config web_ingress
      each_namespace in_its_namespace wildcard_secrets (wildcard_copy ∷ []) (wildcard ∷ []) wildcard
      wildcard_made wildcard_copied (inl refl)

make_wildcard_tls_gateways_complete_example :
    (length (wildcard ∷ [])
      ≡ length (service_in (bytes "istio-system") ∷ []) * length wildcard_secrets)
    × ((g : Gateway) × Member g (wildcard ∷ [])
        × Provides by_uid.new_controller_ref
            (wildcard_copy ∷ [])
            cert_secret
            (service_in (bytes "istio-system"))
            g)
make_wildcard_tls_gateways_complete_example =
    make_wildcard_tls_gateways_complete by_uid.new_controller_ref istio_config web_ingress
      each_namespace in_its_namespace wildcard_secrets (wildcard_copy ∷ [])
      (service_in (bytes "istio-system") ∷ []) (wildcard ∷ []) (service_in (bytes "istio-system"))
      (bytes "certs/cert") cert_secret services_listed wildcard_made wildcard_copied (inl refl)
      (inl refl)
