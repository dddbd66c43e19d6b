-- ===== src/Platform/Packages.antt =====
-- knative.dev/pkg (kmeta, network, system), knative.dev/networking and k8s.io/apimachinery.
use knative_extensions_net_i.Base.{
  ◌≡◌, Bool, true, false, List, [], ◌∷◌, Result, none, if◌then◌else◌,
}
use knative_extensions_net_i.Platform.Sets.{StringSet}
use knative_extensions_net_i.GoString.{GoString, str_eq}
use knative_extensions_net_i.Api.{
  ObjectMeta, OwnerReference, StringMap, lookup, LabelSelector, Ingress, IngressTls, Visibility,
}

-- knative.dev/pkg/network and knative.dev/pkg/system
pub record Network : Type 0 where
  -- `system.Namespace()`
  pub system_namespace : GoString
  -- `network.GetClusterDomainName()`
  pub cluster_domain : GoString
  -- `network.GetServiceHostname(name, namespace)`
  pub service_hostname : GoString → GoString → GoString

-- knative.dev/pkg/kmeta and the owner references of metav1
pub record Kmeta : Type 0 where
  -- `kmeta.ChildName(parent, suffix)`
  pub child_name : GoString → GoString → GoString
  -- `*kmeta.NewControllerRef(obj)`, by the object's metadata
  pub new_controller_ref : ObjectMeta → OwnerReference
  -- `metav1.IsControlledBy(obj, owner)`
  pub is_controlled_by : ObjectMeta → ObjectMeta → Bool
  -- `kmeta.FilterMap` and `kmap.Filter`: a copy without the keys that pass the test
  pub filter_map : StringMap → (GoString → Bool) → StringMap
  pub lookup-filter_map :
      (m : StringMap) (p : GoString → Bool) (k : GoString)
      → lookup k (filter_map m p) ≡ (if p k then none else lookup k m)
  -- the answer depends on the owner references of the object alone
  pub controlled_by_owners :
      (a b owner : ObjectMeta)
      → a.owner_references ≡ b.owner_references
      → is_controlled_by a owner ≡ is_controlled_by b owner
  pub controlled_by_ref :
      (obj owner : ObjectMeta)
      → obj.owner_references ≡ new_controller_ref owner ∷ []
      → is_controlled_by obj owner ≡ true

-- metav1.LabelSelectorAsSelector and `selector.Matches`
pub record Selectors : Type 0 where
  pub as_selector : LabelSelector → Result (StringMap → Bool)

-- knative.dev/networking: helpers on an Ingress and its hosts
pub record IngressHelpers : Type 0 where
  -- `ingress.ExpandedHosts(hosts)`
  pub expanded_hosts : StringSet → StringSet
  -- `ingress.InsertProbe(ing)`: the Ingress after it
  pub insert_probe : Ingress → Result Ingress
  -- `ing.GetIngressTLSForVisibility(visibility)`
  pub tls_for_visibility : Ingress → Visibility → List IngressTls

-- The label and data keys of knative.dev/networking and k8s.io/api.
pub record Keys : Type 0 where
  pub ingress_label : GoString
  pub origin_secret_name : GoString
  pub origin_secret_namespace : GoString
  pub certificate_uid : GoString
  -- `corev1.TLSCertKey`, `corev1.TLSPrivateKeyKey`
  pub tls_cert : GoString
  pub tls_private_key : GoString
  pub name_namespace_differ : str_eq origin_secret_name origin_secret_namespace ≡ false
  pub uid_name_differ : str_eq certificate_uid origin_secret_name ≡ false
  pub uid_namespace_differ : str_eq certificate_uid origin_secret_namespace ≡ false
