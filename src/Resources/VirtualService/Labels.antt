-- ===== src/Resources/VirtualService/Labels.antt =====
-- The labels of the objects made for an Ingress.
use knative_extensions_net_i.Base.{
  ◌≡◌, ◌∙◌, refl, not, ◌&&◌, ◌||◌, ◌==◌, some, none, arith, if◌then◌else◌, true, [], ◌∷◌, length,
}
use knative_extensions_net_i.GoString.{GoString, bytes, str_eq}
use knative_extensions_net_i.Api.{Ingress, VirtualService, lookup, lookup-insert}
use knative_extensions_net_i.Platform.{SetLib, Network, Kmeta, IngressHelpers, Keys}
use knative_extensions_net_i.Resources.VirtualService.{
  child_labels, route_label_key, route_namespace_label_key, virtual_service_meta,
  virtual_service_namespace,
}

-- The labels have the Ingress's name under the Ingress label, the two route labels
-- of the Ingress, and no other label.
lookup-child_labels :
    ⦃kmeta : Kmeta⦄ ⦃keys : Keys⦄ (ing : Ingress) (k : GoString)
    → lookup k (child_labels ing) ≡ (
        if str_eq keys.ingress_label k
        then some ing.meta.name
        else if str_eq k route_label_key || str_eq k route_namespace_label_key
        then lookup k ing.meta.labels
        else none)
unfolding child_labels
lookup-child_labels ⦃kmeta⦄ ⦃keys⦄ ing k =
    let p = λ (j : GoString).
      not (str_eq j route_label_key) && not (str_eq j route_namespace_label_key) in
    lookup-insert keys.ingress_label k ing.meta.name (kmeta.filter_map ing.meta.labels p)
    ∙ rw (kmeta.lookup-filter_map ing.meta.labels p k) (ground arith)

module _ ⦃sets : SetLib⦄ ⦃net : Network⦄ ⦃kmeta : Kmeta⦄ ⦃helpers : IngressHelpers⦄
    ⦃keys : Keys⦄ where
  -- A VirtualService for an Ingress: what ties it to the Ingress.
  pub record IsChildOf (ing : Ingress) (vs : VirtualService) : Type 0 where
    pub controlled : kmeta.is_controlled_by vs.meta ing.meta ≡ true
    pub placed :
        vs.meta.namespace
        ≡ (if str_eq ing.meta.namespace [] then net.system_namespace else ing.meta.namespace)
    pub annotated : vs.meta.annotations ≡ ing.meta.annotations
    pub labelled :
        (k : GoString)
        → lookup k vs.meta.labels ≡ (
            if str_eq keys.ingress_label k
            then some ing.meta.name
            else if str_eq k (bytes "serving.knative.dev/route")
                || str_eq k (bytes "serving.knative.dev/routeNamespace")
            then lookup k ing.meta.labels
            else none)

  placed_lem :
      (ing : Ingress)
      → virtual_service_namespace ing
        ≡ (if str_eq ing.meta.namespace [] then net.system_namespace else ing.meta.namespace)
  unfolding virtual_service_namespace str_eq
  placed_lem ing = by_namespace ing.meta.namespace
    where
      by_namespace :
          (n : GoString)
          → (if length n == 0 then net.system_namespace else n)
            ≡ (if str_eq n [] then net.system_namespace else n)
      by_namespace [] = refl
      by_namespace (c ∷ n) = ground arith

  pub virtual_service_meta-IsChildOf :
      (ing : Ingress) (name : GoString) (vs : VirtualService)
      → vs.meta ≡ virtual_service_meta name ing
      → IsChildOf ing vs
  unfolding virtual_service_meta
  virtual_service_meta-IsChildOf ing name vs e = record {
    controlled = rw e (kmeta.controlled_by_ref (virtual_service_meta name ing) ing.meta refl);
    placed = rw e (placed_lem ing);
    annotated = rw e refl;
    labelled = λ k. rw e (lookup-child_labels ing k);
  }
