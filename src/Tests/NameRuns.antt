-- ===== src/Tests/NameRuns.antt =====
-- Runs of the theorems on names, secrets and made Gateways.
use knative_extensions_net_i.Base.{
  ◌≡◌, ◌≤◌, ◌↔◌, refl, true, List, [], ◌∷◌, ok, err, all, length, Member, some, Result, ◌++◌, some,
  some, some, some, some, some,
}
use knative_extensions_net_i.GoString.{bytes, GoString, str_eq}
use knative_extensions_net_i.Api.{Gateway, Secret, external_ip, lookup, has_key, get, GoMap}
use knative_extensions_net_i.Resources.Naming.{is_dns1123_label, gateway_name, secret_key}
use knative_extensions_net_i.Resources.Naming.Labels.{gateway_name_label}
use knative_extensions_net_i.Resources.Selection.{ServiceName, ServiceLister}
use knative_extensions_net_i.Resources.Secrets.{
  copy_of, copies, extract_origin_secret_ref, secret_ref, get_secrets, SecretLister,
}
use knative_extensions_net_i.Resources.Secrets.Sorting.{Sorted, categorize_secrets-Sorted}
use knative_extensions_net_i.Tests.Library.{plain_certificates}
use knative_extensions_net_i.Resources.Secrets.{categorize_secrets}
use knative_extensions_net_i.Resources.Secrets.Origin.{extract-copy_of}
use knative_extensions_net_i.Resources.Secrets.Copies.{copies_each, CopyFor, is_apart, placements}
use knative_extensions_net_i.Resources.Secrets.Known.{get_secrets_complete, Fetched}
use knative_extensions_net_i.Resources.Gateways.{make_ingress_tls_gateways}
use knative_extensions_net_i.Tests.Library.{
  list_sets, knative_keys, by_uid, plain_helpers, match_all,
}
use knative_extensions_net_i.Tests.Objects.{
  web_ingress, cert_block, cert_secret, gateway_service, istio_config,
}
use knative_extensions_net_i.Api.{insert}
use knative_extensions_net_i.Base.{keep}

gateway_name_label_example :
    is_dns1123_label (gateway_name web_ingress.meta external_ip gateway_service.meta) ≡ true
gateway_name_label_example = gateway_name_label web_ingress.meta external_ip gateway_service.meta

abbrev target : Secret → GoString
target s = bytes "web-" ++ s.meta.uid

abbrev service_place : ServiceName
service_place = record { name = bytes "istio-ingressgateway"; namespace = bytes "istio-system" }

extract-copy_of_example :
    (extract_origin_secret_ref (copy_of target cert_secret service_place)
      ≡ secret_ref (bytes "certs") (bytes "cert"))
    × ((copy_of target cert_secret service_place).content ≡ cert_secret.content)
    × ((copy_of target cert_secret service_place).secret_type ≡ cert_secret.secret_type)
    × ((copy_of target cert_secret service_place).meta.namespace ≡ bytes "istio-system")
    × (length (
          get knative_keys.origin_secret_name
            (copy_of target cert_secret service_place).meta.labels)
        ≤ 63)
extract-copy_of_example = extract-copy_of target cert_secret service_place

copies_each_example :
    (Member
        (copy_of target cert_secret service_place)
        (copies target (service_place ∷ []) ((bytes "certs/cert", cert_secret) ∷ []))
      ↔ ((k : GoString) × (origin : Secret) × Member {A = GoString × Secret}
            (k, origin)
            ((bytes "certs/cert", cert_secret) ∷ [])
          × CopyFor target origin (service_place ∷ []) (copy_of target cert_secret service_place)))
    × (length (copies target (service_place ∷ []) ((bytes "certs/cert", cert_secret) ∷ []))
        ≡ length (
            keep
              (is_apart target)
              (placements target (service_place ∷ []) ((bytes "certs/cert", cert_secret) ∷ []))))
copies_each_example =
    copies_each target (service_place ∷ []) ((bytes "certs/cert", cert_secret) ∷ [])
      (copy_of target cert_secret service_place)

abbrev one_secret : SecretLister
one_secret namespace name = ok cert_secret

fetched_one :
    get_secrets web_ingress external_ip one_secret ≡ ok ((bytes "certs/cert", cert_secret) ∷ [])
unfolding get_secrets has_key insert
fetched_one = refl

get_secrets_complete_example :
    (all (λ t. has_key (secret_key t) ((bytes "certs/cert", cert_secret) ∷ [])) (cert_block ∷ [])
      ≡ true)
    × ((k : GoString) (s : Secret)
        → lookup k ((bytes "certs/cert", cert_secret) ∷ []) ≡ some s
        → Fetched one_secret (cert_block ∷ []) k s)
get_secrets_complete_example =
    get_secrets_complete one_secret web_ingress external_ip ((bytes "certs/cert", cert_secret) ∷ [])
      fetched_one

abbrev secret_for : GoString → Secret
secret_for host = record cert_secret { content = (bytes "tls.crt", host) ∷ [] }

abbrev two_secrets : GoMap Secret
two_secrets =
    (bytes "certs/wild", secret_for (bytes "*.example.com"))
    ∷ (bytes "certs/web", secret_for (bytes "web.example.com"))
    ∷ []

sorted_secrets :
    categorize_secrets two_secrets
    ≡ ok (
      (bytes "certs/web", secret_for (bytes "web.example.com")) ∷ [],
      (bytes "certs/wild", secret_for (bytes "*.example.com")) ∷ [],
    )
unfolding categorize_secrets get str_eq insert
sorted_secrets = refl

categorize_secrets-Sorted_example :
    Sorted two_secrets
      ((bytes "certs/web", secret_for (bytes "web.example.com")) ∷ [])
      ((bytes "certs/wild", secret_for (bytes "*.example.com")) ∷ [])
      []
categorize_secrets-Sorted_example =
    categorize_secrets-Sorted two_secrets
      ((bytes "certs/web", secret_for (bytes "web.example.com")) ∷ [])
      ((bytes "certs/wild", secret_for (bytes "*.example.com")) ∷ []) sorted_secrets

abbrev one_service : ServiceLister
one_service namespace name = ok gateway_service

abbrev made_gateways : Result (List Gateway)
made_gateways =
    make_ingress_tls_gateways istio_config web_ingress external_ip (cert_block ∷ [])
      ((bytes "certs/cert", cert_secret) ∷ []) one_service

abbrev gateways_of : Result (List Gateway) → List Gateway
gateways_of (ok gs) = gs
gateways_of (err e) = []
