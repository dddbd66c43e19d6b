-- ===== src/Resources/VirtualService/Making.antt =====
-- resources/virtual_service.go: the specs of the VirtualServices, and which of them are made.
use knative_extensions_net_i.Base.{
  ℕ, ◌+◌, not, ◌&&◌, Option, none, some, List, [], ◌∷◌, ◌++◌, Result, ok, ◌>>=◌, wrap_error,
  if◌then◌else◌, ltb, ◌==◌, length,
}
use knative_extensions_net_i.GoString.{GoString, bytes, str_eq}
use knative_extensions_net_i.Api.{
  ObjectMeta, Ingress, IngressRule, HttpIngressPath, StringMap, insert, HttpMatchRequest, HttpRoute,
  VirtualServiceSpec, VirtualService,
}
use knative_extensions_net_i.Platform.{SetLib, StringSet, Network, Kmeta, IngressHelpers, Keys}
use knative_extensions_net_i.Resources.VirtualService.Routes.{
  route_label_key, route_namespace_label_key, GatewayNames, get_cluster_local_ingress_rules,
  get_public_ingress_rules, virtual_service_namespace, get_hosts, keep_local_hostnames,
  make_virtual_service_route,
}

module _ ⦃sets : SetLib⦄ where
  module _ ⦃net : Network⦄ where
    -- the loop over `http.Match`
    unfoldable pub add_gateways : StringSet → List HttpMatchRequest → StringSet
    add_gateways gw [] = gw
    add_gateways gw (m ∷ matches) =
        add_gateways (sets.union gw (sets.insert sets.empty m.gateways)) matches

    -- the routes of the paths of one rule
    unfoldable pub rule_routes :
        StringSet → GatewayNames → IngressRule → List HttpIngressPath → List HttpRoute
    unfolding make_virtual_service_route
    rule_routes hosts gateways rule [] = []
    rule_routes hosts gateways rule (p ∷ paths) =
        let shared = sets.intersection hosts (sets.insert sets.empty rule.hosts) in
        let rest = rule_routes hosts gateways rule paths in
        if sets.size shared == 0
        then rest
        else make_virtual_service_route shared p gateways rule.visibility ∷ rest

    -- `spec.Http` after all rules
    unfoldable pub all_routes : StringSet → GatewayNames → List IngressRule → List HttpRoute
    unfolding rule_routes
    all_routes hosts gateways [] = []
    all_routes hosts gateways (rule ∷ rules) =
        rule_routes hosts gateways rule rule.paths ++ all_routes hosts gateways rules

    -- `gw` after all routes
    unfoldable pub used_gateways : StringSet → List HttpRoute → StringSet
    unfolding add_gateways
    used_gateways gw [] = gw
    used_gateways gw (route ∷ routes) = used_gateways (add_gateways gw route.matches) routes

    -- `makeVirtualServiceSpec`
    unfoldable pub make_virtual_service_spec :
        Ingress → GatewayNames → StringSet → VirtualServiceSpec
    unfolding all_routes used_gateways
    make_virtual_service_spec ing gateways hosts =
        let routes = all_routes hosts gateways ing.rules in
        record {
          hosts = sets.to_list hosts;
          gateways = sets.to_list (used_gateways sets.empty routes);
          http = routes;
        }

module _ ⦃kmeta : Kmeta⦄ ⦃keys : Keys⦄ where
  -- The labels of a child of an Ingress.
  unfoldable pub child_labels : Ingress → StringMap
  unfolding str_eq
  child_labels ing = insert keys.ingress_label ing.meta.name (
      kmeta.filter_map ing.meta.labels
        (λ k. not (str_eq k route_label_key) && not (str_eq k route_namespace_label_key)))

module _ ⦃sets : SetLib⦄ ⦃net : Network⦄ ⦃kmeta : Kmeta⦄ ⦃helpers : IngressHelpers⦄
    ⦃keys : Keys⦄ where
  -- The metadata that both kinds of VirtualService get.
  unfoldable pub virtual_service_meta : GoString → Ingress → ObjectMeta
  unfolding virtual_service_namespace child_labels
  virtual_service_meta name ing = record {
    name = name;
    namespace = virtual_service_namespace ing;
    uid = [];
    labels = child_labels ing;
    annotations = ing.meta.annotations;
    owner_references = kmeta.new_controller_ref ing.meta ∷ [];
  }

  -- `MakeIngressVirtualService`, with `names.IngressVirtualService`
  unfoldable pub make_ingress_virtual_service : Ingress → GatewayNames → VirtualService
  unfolding virtual_service_meta make_virtual_service_spec get_hosts
  make_ingress_virtual_service ing gateways = record {
    meta = virtual_service_meta (kmeta.child_name ing.meta.name (bytes "-ingress")) ing;
    spec = make_virtual_service_spec ing gateways (helpers.expanded_hosts (get_hosts ing));
  }

  -- the hosts of the mesh VirtualService
  unfoldable pub mesh_hosts : Ingress → GatewayNames → StringSet
  unfolding keep_local_hostnames get_hosts
  mesh_hosts ing gateways =
      let hosts = keep_local_hostnames (get_hosts ing) in
      if sets.size gateways.local == 0 then hosts else helpers.expanded_hosts hosts

  -- `MakeMeshVirtualService`, with `names.MeshVirtualService`
  unfoldable pub make_mesh_virtual_service : Ingress → GatewayNames → Option VirtualService
  unfolding virtual_service_meta make_virtual_service_spec mesh_hosts
  make_mesh_virtual_service ing gateways =
      let hosts = mesh_hosts ing gateways in
      let mesh = sets.insert sets.empty (bytes "mesh" ∷ []) in
      if sets.size hosts == 0
      then none
      else some (record {
        meta = virtual_service_meta (kmeta.child_name ing.meta.name (bytes "-mesh")) ing;
        spec = make_virtual_service_spec ing (record { external = mesh; local = mesh }) hosts;
      })

  -- `requiredGatewayCount`
  unfoldable pub required_gateway_count : Ingress → GatewayNames → ℕ
  unfolding get_public_ingress_rules get_cluster_local_ingress_rules
  required_gateway_count ing gateways =
      (if ltb 0 (length (get_public_ingress_rules ing)) then sets.size gateways.external else 0)
      + (if ltb 0 (length (get_cluster_local_ingress_rules ing))
          then sets.size gateways.local
          else 0)

  unfoldable pub option_list : Option VirtualService → List VirtualService
  option_list none = []
  option_list (some vs) = vs ∷ []

  -- `MakeVirtualServices`
  unfoldable pub make_virtual_services : Ingress → GatewayNames → Result (List VirtualService)
  unfolding make_mesh_virtual_service required_gateway_count make_ingress_virtual_service
      option_list
  make_virtual_services original gateways = do
    ing ← wrap_error "failed to insert a probe into the Ingress: %w" (helpers.insert_probe original)
    ok (
        option_list (make_mesh_virtual_service ing gateways)
        ++ (if ltb 0 (required_gateway_count ing gateways)
            then make_ingress_virtual_service ing gateways ∷ []
            else []))
