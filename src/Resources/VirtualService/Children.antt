-- ===== src/Resources/VirtualService/Children.antt =====
-- `MakeVirtualServices`: the VirtualServices that are made for an Ingress.
use knative_extensions_net_i.Base.{
  ◌≡◌, ◌&&◌, ◌==◌, any, if◌then◌else◌, Bool, List, [], ◌∷◌, ◌++◌, Result, ok, err, Error, wrapped,
  map, Member, ◌⊎◌,
}
use knative_extensions_net_i.GoString.{GoString, bytes, elem, has_suffix}
use knative_extensions_net_i.Api.{Ingress, IngressRule, VirtualService}
use knative_extensions_net_i.Platform.{SetLib, StringSet, Network, Kmeta, IngressHelpers, Keys}
use knative_extensions_net_i.Resources.VirtualService.{GatewayNames}
use knative_extensions_net_i.Resources.VirtualService.Selection.{needs_gateway}
use knative_extensions_net_i.Resources.VirtualService.Labels.{IsChildOf}

module _ ⦃sets : SetLib⦄ ⦃net : Network⦄ ⦃kmeta : Kmeta⦄ ⦃helpers : IngressHelpers⦄
    ⦃keys : Keys⦄ where
  -- The set has just the hosts of the rules.
  abbrev pub HasHosts : Ingress → StringSet → Type 0
  HasHosts ing hosts =
      (h : GoString) → sets.has hosts h ≡ any (λ (r : IngressRule). elem h r.hosts) ing.rules

  -- The set has just the hosts of the rules that are names in the cluster.
  abbrev pub HasLocals : Ingress → StringSet → Type 0
  HasLocals ing locals =
      (h : GoString)
      → sets.has locals h ≡ (
          any (λ (r : IngressRule). elem h r.hosts) ing.rules
          && has_suffix h (bytes ".svc." ++ net.cluster_domain))

  -- The name and the hosts of the VirtualService for the mesh, where it has hosts.
  abbrev pub mesh_child : Ingress → StringSet → List (GoString × List GoString)
  mesh_child ing hosts =
      if sets.size hosts == 0
      then []
      else (kmeta.child_name ing.meta.name (bytes "-mesh"), sets.to_list hosts) ∷ []

  -- The name and the hosts of the VirtualService for the Gateways, where it is needed.
  abbrev pub gateway_child : Ingress → StringSet → Bool → List (GoString × List GoString)
  gateway_child ing hosts needed =
      if needed
      then (kmeta.child_name ing.meta.name (bytes "-ingress"), sets.to_list hosts) ∷ []
      else []

  -- The VirtualServices for an Ingress: their names and hosts. The mesh has the names in the
  -- cluster, expanded where there are cluster-local Gateways, and the Gateways have all hosts.
  pub record AreChildren (ing : Ingress) (gateways : GatewayNames) (vss : List VirtualService)
      : Type 0 where
    pub locals : StringSet
    pub hosts : StringSet
    pub local_hosts : HasLocals ing locals
    pub all_hosts : HasHosts ing hosts
    pub named :
        map (λ (vs : VirtualService). (vs.meta.name, vs.spec.hosts)) vss
        ≡ mesh_child ing
            (if sets.size gateways.local == 0 then locals else helpers.expanded_hosts locals)
          ++ gateway_child ing (helpers.expanded_hosts hosts) (needs_gateway ing gateways)
    pub each : (vs : VirtualService) → Member vs vss → IsChildOf ing vs

  -- What MakeVirtualServices gives where the probe is inserted, and where it is not.
  abbrev pub Children : Ingress → GatewayNames → Result (List VirtualService) → Type 0
  Children original gateways made =
      ((ing : Ingress) × (vss : List VirtualService) × (helpers.insert_probe original ≡ ok ing)
        × (made ≡ ok vss)
        × AreChildren ing gateways vss)
      ⊎ ((e : Error) × (helpers.insert_probe original ≡ err e)
          × (made ≡ err (wrapped "failed to insert a probe into the Ingress: %w" e)))

  -- the name and the hosts
  abbrev face : VirtualService → GoString × List GoString
  face vs = (vs.meta.name, vs.spec.hosts)
