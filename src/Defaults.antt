-- ===== src/Defaults.antt =====
-- pkg/defaults/deployment_defaults.go: the labels that the webhook adds to a deployment.
pub mod Labels
use knative_extensions_net_i.Base.{none, some, ◌≡◌, ◌∷◌, List, [], false, Option}
use knative_extensions_net_i.GoString.{GoString, bytes, str_eq}
use knative_extensions_net_i.Api.{StringMap, get, insert, lookup}

abbrev pub serving_service_label_key : GoString
serving_service_label_key = bytes "serving.knative.dev/service"

abbrev pub serving_configuration_label_key : GoString
serving_configuration_label_key = bytes "serving.knative.dev/configuration"

abbrev pub serving_revision_label_key : GoString
serving_revision_label_key = bytes "serving.knative.dev/revision"

-- istio.io/api/label: two labels of Istio, which are no labels of Knative
pub record CanonicalLabels : Type 0 where
  -- `ServiceCanonicalRevision.Name`
  pub canonical_revision : GoString
  -- `ServiceCanonicalName.Name`
  pub canonical_name : GoString
  pub labels_differ : str_eq canonical_revision canonical_name ≡ false
  pub revision_not_revision : str_eq canonical_revision serving_revision_label_key ≡ false
  pub revision_not_service : str_eq canonical_revision serving_service_label_key ≡ false
  pub revision_not_configuration : str_eq canonical_revision serving_configuration_label_key ≡ false
  pub name_not_revision : str_eq canonical_name serving_revision_label_key ≡ false
  pub name_not_service : str_eq canonical_name serving_service_label_key ≡ false
  pub name_not_configuration : str_eq canonical_name serving_configuration_label_key ≡ false

-- `IstioDeployment`, with the labels of the deployment and those of its pod template
pub record IstioDeployment : Type 0 where
  pub labels : StringMap
  pub template_labels : StringMap

-- `if ok { return parent }`, else what follows
unfoldable pub present_or : Option GoString → GoString → GoString
present_or none rest = rest
present_or (some parent) rest = parent

-- the loop over `parentKeys`
unfoldable pub first_present : List GoString → StringMap → GoString
unfolding lookup present_or
first_present [] labels = []
first_present (key ∷ parent_keys) labels =
    present_or (lookup key labels) (first_present parent_keys labels)

-- `servingName()`
unfoldable pub serving_name : StringMap → GoString
unfolding first_present
serving_name labels =
    first_present (serving_service_label_key ∷ serving_configuration_label_key ∷ []) labels

-- `if value != "" { r.Labels[key] = value; r.Spec.Template.Labels[key] = value }`
unfoldable pub label_both : GoString → GoString → IstioDeployment → IstioDeployment
unfolding insert
label_both key [] r = r
label_both key (c ∷ value) r = record {
  labels = insert key (c ∷ value) r.labels;
  template_labels = insert key (c ∷ value) r.template_labels;
}

module _ ⦃canonical : CanonicalLabels⦄ where
  unfoldable pub set_revision : IstioDeployment → IstioDeployment
  unfolding label_both get
  set_revision r =
      label_both canonical.canonical_revision (get serving_revision_label_key r.labels) r

  unfoldable pub set_name : IstioDeployment → IstioDeployment
  unfolding label_both serving_name
  set_name r = label_both canonical.canonical_name (serving_name r.labels) r

  -- `SetDefaults`: a nil map of labels and an empty one are both the empty list
  unfoldable pub set_defaults : IstioDeployment → IstioDeployment
  unfolding set_revision set_name
  set_defaults r = set_name (set_revision r)
