-- ===== src/Tests/ServerlessRuns.antt =====
-- Runs of the theorems on private services, on the deployments' labels and on the informers.
use knative_extensions_net_i.Base.{◌≡◌, refl, true, false, Bool, [], ◌∷◌, none, inl, ◌⊎◌, Member}
use knative_extensions_net_i.GoString.{GoString, bytes, str_eq}
use knative_extensions_net_i.Api.{ServerlessService, StringMap, Secret, lookup, has_key, GoMap}
use knative_extensions_net_i.Accessor.Convergence.{WellKeyed}
use knative_extensions_net_i.Accessor.Kinds.{virtual_service_kind, destination_rule_kind}
use knative_extensions_net_i.Resources.Selection.{ServiceName}
use knative_extensions_net_i.Resources.Secrets.{copies, copy_of, make_target_secret_labels}
use knative_extensions_net_i.ServerlessService.{RequestHeaders}
use knative_extensions_net_i.ServerlessService.Routing.{
  Request, Balanced, make_virtual_service-Balanced,
}
use knative_extensions_net_i.ServerlessService.Cluster.{Cluster}
use knative_extensions_net_i.ServerlessService.Converging.{
  Addressable, Blocked, reconcile_addressability_converges,
}
use knative_extensions_net_i.Defaults.{CanonicalLabels, IstioDeployment, set_defaults}
use knative_extensions_net_i.Defaults.Labels.{
  defaulted, lookup-set_defaults, set_defaults_idempotent,
}
use knative_extensions_net_i.InformerFiltering.{FilteredInformers, filtering_label_selector}
use knative_extensions_net_i.InformerFiltering.Listed.{selected_by, copies-listed}
use knative_extensions_net_i.Tests.Library.{
  cluster_network, by_uid, field_comparisons, knative_keys,
}
use knative_extensions_net_i.Tests.Objects.{meta_of, cert_secret}

instance abbrev plain_header : RequestHeaders
plain_header = record { passthrough_loadbalancing = bytes "K-Passthrough-Lb" }

abbrev private_service : ServerlessService
private_service = record {
  meta = meta_of (bytes "shop") (bytes "web-00001") (bytes "sks");
  private_service_name = bytes "web-00001-private";
}

abbrev pod_request : Request
pod_request = record {
  authority = bytes "web-00001-private.shop.svc.cluster.local";
  path = bytes "/";
  headers = (bytes "K-Passthrough-Lb", bytes "true") ∷ [];
}

make_virtual_service-Balanced_example : Balanced private_service pod_request
make_virtual_service-Balanced_example = make_virtual_service-Balanced private_service pod_request

abbrev empty_cluster : Cluster
empty_cluster = record {
  virtual_services = λ namespace name. none;
  destination_rules = λ namespace name. none;
}

services_keyed : WellKeyed virtual_service_kind empty_cluster.virtual_services
services_keyed namespace name a h = absurd (cc h)

rules_keyed : WellKeyed destination_rule_kind empty_cluster.destination_rules
rules_keyed namespace name a h = absurd (cc h)

private_service_named : str_eq private_service.private_service_name [] ≡ false
unfolding str_eq
private_service_named = refl

reconcile_addressability_converges_example :
    Addressable private_service empty_cluster ⊎ Blocked private_service empty_cluster
reconcile_addressability_converges_example =
    reconcile_addressability_converges private_service empty_cluster private_service_named
      services_keyed rules_keyed

instance abbrev istio_labels : CanonicalLabels
unfolding str_eq
istio_labels = record {
  canonical_revision = bytes "service.istio.io/canonical-revision";
  canonical_name = bytes "service.istio.io/canonical-name";
  labels_differ = refl;
  revision_not_revision = refl;
  revision_not_service = refl;
  revision_not_configuration = refl;
  name_not_revision = refl;
  name_not_service = refl;
  name_not_configuration = refl;
}

abbrev web_deployment : IstioDeployment
web_deployment = record {
  labels =
      (bytes "serving.knative.dev/revision", bytes "web-00001")
      ∷ (bytes "serving.knative.dev/configuration", bytes "web")
      ∷ [];
  template_labels = [];
}

lookup-set_defaults_example :
    (lookup (bytes "service.istio.io/canonical-name") (set_defaults web_deployment).labels
      ≡ defaulted web_deployment
          (bytes "service.istio.io/canonical-name")
          (lookup (bytes "service.istio.io/canonical-name") web_deployment.labels))
    × (lookup
          (bytes "service.istio.io/canonical-name")
          (set_defaults web_deployment).template_labels
        ≡ defaulted web_deployment
            (bytes "service.istio.io/canonical-name")
            (lookup (bytes "service.istio.io/canonical-name") web_deployment.template_labels))
lookup-set_defaults_example =
    lookup-set_defaults web_deployment (bytes "service.istio.io/canonical-name")

set_defaults_idempotent_example :
    set_defaults (set_defaults web_deployment) ≡ set_defaults web_deployment
set_defaults_idempotent_example = set_defaults_idempotent web_deployment

-- A selector is "" or the key of a label.
abbrev listed_by : GoString → StringMap → Bool
listed_by [] labels = true
listed_by (c ∷ key) labels = has_key (c ∷ key) labels

listed_by_key :
    (key : GoString) (labels : StringMap)
    → str_eq key [] ≡ false
    → listed_by key labels ≡ has_key key labels
unfolding str_eq
listed_by_key [] labels h = absurd (cc h)
listed_by_key (c ∷ key) labels h = refl

instance abbrev plain_informers : FilteredInformers
plain_informers = record {
  parse_bool = λ text. str_eq text (bytes "true");
  listed = listed_by;
  listed_all = λ labels. refl;
  listed_key = listed_by_key;
}

abbrev copy_name : Secret → GoString
copy_name origin = bytes "copy"

abbrev gateway_service_name : ServiceName
gateway_service_name = record {
  namespace = bytes "istio-system";
  name = bytes "istio-ingressgateway";
}

abbrev origins : GoMap Secret
origins = (bytes "certs/cert", cert_secret) ∷ []

copy_made :
    Member
      (copy_of copy_name cert_secret gateway_service_name)
      (copies copy_name (gateway_service_name ∷ []) origins)
unfolding copies str_eq
copy_made = inl refl

copies-listed_example :
    (plain_informers.listed
        (filtering_label_selector (bytes "true"))
        (copy_of copy_name cert_secret gateway_service_name).meta.labels
      ≡ true)
    × ((key : GoString) × (origin : Secret) × Member (key, origin) origins
        × (selected_by
              (make_target_secret_labels origin.meta.name origin.meta.namespace)
              (copy_of copy_name cert_secret gateway_service_name).meta.labels
            ≡ true))
copies-listed_example =
    copies-listed (bytes "true") copy_name (gateway_service_name ∷ []) origins
      (copy_of copy_name cert_secret gateway_service_name) copy_made
