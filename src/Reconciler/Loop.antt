-- ===== src/Reconciler/Loop.antt =====
-- `ReconcileKind` and `reconcileIngress`: one round of the control loop.
use knative_extensions_net_i.Base.{
  Option, none, some, Bool, true, false, ◌&&◌, ◌||◌, List, [], ◌∷◌, ◌++◌, wrap_error, if◌then◌else◌,
  map, length, ltb,
}
use knative_extensions_net_i.GoString.{GoString}
use knative_extensions_net_i.Api.{
  Ingress, IngressRule, Gateway, Server, HttpOption, external_ip, cluster_local,
}
use knative_extensions_net_i.Platform.{
  SetLib, StringSet, Network, Kmeta, Keys, Selectors, IngressHelpers,
}
use knative_extensions_net_i.Config.{GatewayConfig, qualified_name}
use knative_extensions_net_i.Accessor.Kinds.{Comparisons}
use knative_extensions_net_i.Resources.VirtualService.{GatewayNames, make_virtual_services}
use knative_extensions_net_i.Resources.Servers.{make_http_server, get_non_wildcard_ingress_tls}
use knative_extensions_net_i.Resources.Secrets.{
  Certificates, get_secrets, categorize_secrets, make_secrets, make_wildcard_secrets,
}
use knative_extensions_net_i.Resources.Selection.{SelectedGateways, gateways_from_context}
use knative_extensions_net_i.Resources.Gateways.{
  make_ingress_tls_gateways, make_external_ingress_gateways, make_wildcard_tls_gateways,
  get_qualified_gateway_names,
}
use knative_extensions_net_i.Resources.DestinationRule.{RoutingNames}
use knative_extensions_net_i.Reconciler.Run.{
  Run, LoadBalancerStatus, marked, initialized, network_configured, load_balancer_not_ready,
  ingress_not_ready, load_balancer_failed, load_balancer_ready, mesh_only, domain_internal, ◌>>=◌,
  ◌>>◌, pure, lift, emit, on_error,
}
use knative_extensions_net_i.Reconciler.World.{World}
use knative_extensions_net_i.Reconciler.Objects.{
  reconcile_cert_secrets, reconcile_ingress_gateways, reconcile_wildcard_gateways,
  reconcile_virtual_services,
}
use knative_extensions_net_i.Reconciler.Rules.{reconcile_destination_rules}
use knative_extensions_net_i.Reconciler.Cleanup.{
  is_external, is_ingress_public, should_reconcile_external_domain_tls,
  should_reconcile_cluster_local_domain_tls,
}

-- `gatewayServiceURL(gateways)`
unfoldable pub gateway_service_url : List GatewayConfig → GoString
gateway_service_url [] = []
gateway_service_url (g ∷ gs) = g.service_url

-- `getLBStatus(gatewayServiceURL)`
unfoldable pub get_lb_status : GoString → List LoadBalancerStatus
get_lb_status [] = mesh_only ∷ []
get_lb_status (c ∷ url) = domain_internal (c ∷ url) ∷ []

unfoldable pub is_redirected : HttpOption → Bool
is_redirected HttpOption.redirected = true
is_redirected _ = false

-- `[]*Server{httpServer}`: a nil server is an element of the slice like any other
unfoldable pub server_list : Server → Option Server → List Server
server_list nil_server none = nil_server ∷ []
server_list nil_server (some server) = server ∷ []

-- The Gateways of an Ingress with the names that its VirtualServices use besides.
pub record ExternalGateways : Type 0 where
  pub gateways : List Gateway
  pub names : StringSet

module _ ⦃sets : SetLib⦄ where
  -- `getPublicHosts`
  unfoldable pub public_hosts_from : StringSet → List IngressRule → StringSet
  unfolding is_external
  public_hosts_from hosts [] = hosts
  public_hosts_from hosts (rule ∷ rules) =
      public_hosts_from
        (if is_external rule.visibility then sets.insert hosts rule.hosts else hosts) rules

  unfoldable pub get_public_hosts : Ingress → List GoString
  unfolding public_hosts_from
  get_public_hosts ing = sets.to_list (public_hosts_from sets.empty ing.rules)

module _ ⦃helpers : IngressHelpers⦄ where
  -- `shouldReconcileHTTPServer`
  unfoldable pub should_reconcile_http_server : Ingress → Bool
  unfolding is_ingress_public is_redirected
  should_reconcile_http_server ing =
      is_ingress_public ing
      && (is_redirected ing.http_option
          || ltb 0 (length (helpers.tls_for_visibility ing external_ip)))

module _ ⦃sets : SetLib⦄ ⦃net : Network⦄ ⦃kmeta : Kmeta⦄ ⦃keys : Keys⦄ ⦃selectors : Selectors⦄
    ⦃helpers : IngressHelpers⦄ ⦃certs : Certificates⦄ ⦃cmp : Comparisons⦄ ⦃routing : RoutingNames⦄
    (world : World) (ing : Ingress) where
  -- the branch of `shouldReconcileExternalDomainTLS`
  unfoldable pub external_tls : Run ExternalGateways
  unfolding get_secrets categorize_secrets make_secrets make_wildcard_secrets reconcile_cert_secrets
      get_non_wildcard_ingress_tls make_ingress_tls_gateways make_wildcard_tls_gateways
      reconcile_wildcard_gateways get_qualified_gateway_names
  external_tls = do
    origin_secrets ← lift (get_secrets ing external_ip world.secrets.find)
    sorted ← lift (categorize_secrets origin_secrets)
    target ← lift (make_secrets world.istio (sorted.0) ing)
    target_wildcard ← lift (make_wildcard_secrets world.istio (sorted.1) ing)
    reconcile_cert_secrets world (target ++ target_wildcard)
    gateways ← lift (
        make_ingress_tls_gateways world.istio ing external_ip
          (get_non_wildcard_ingress_tls (helpers.tls_for_visibility ing external_ip) (sorted.0))
          (sorted.0) world.services)
    wildcard ←
        lift (
          make_wildcard_tls_gateways world.new_secret_ref world.istio ing (sorted.1) world.services)
    reconcile_wildcard_gateways world wildcard
    pure (record {
      gateways = gateways;
      names = sets.insert sets.empty (get_qualified_gateway_names wildcard);
    })

  -- the branch of the cluster-local TLS
  unfoldable pub cluster_local_tls : Run (List Gateway)
  unfolding get_secrets make_secrets reconcile_cert_secrets make_ingress_tls_gateways
  cluster_local_tls = do
    origin_secrets ← lift (get_secrets ing cluster_local world.secrets.find)
    target ← lift (make_secrets world.istio origin_secrets ing)
    reconcile_cert_secrets world target
    lift (
        make_ingress_tls_gateways world.istio ing cluster_local
          (helpers.tls_for_visibility ing cluster_local) origin_secrets world.services)

  -- the HTTP server, nil or not, on Gateways of its own where there are none
  unfoldable pub with_http_server : List Server → List Gateway → Run (List Gateway)
  unfolding make_external_ingress_gateways
  with_http_server servers [] =
      lift (make_external_ingress_gateways world.istio ing servers world.services)
  with_http_server servers (g ∷ gs) = pure (
      map (λ (gateway : Gateway). record gateway { servers = gateway.servers ++ servers }) (g ∷ gs))

  -- the branch of `shouldReconcileHTTPServer`
  unfoldable pub external_http : SelectedGateways → ExternalGateways → Run ExternalGateways
  unfolding should_reconcile_http_server make_http_server get_public_hosts with_http_server
      qualified_name server_list
  external_http defaults external =
      if should_reconcile_http_server ing
      then (do
        gateways ←
            with_http_server
              (server_list world.nil_server
                (make_http_server ing.http_option (get_public_hosts ing)))
              external.gateways
        pure (record { gateways = gateways; names = external.names }))
      else pure (record {
        gateways = external.gateways;
        names = sets.insert external.names (map qualified_name defaults.external);
      })

  unfoldable pub no_gateways : ExternalGateways
  no_gateways = record { gateways = []; names = sets.empty }

  -- The objects of the Ingress, up to the VirtualServices that are wanted.
  unfoldable pub reconcile_gateways : SelectedGateways → Run GatewayNames
  unfolding should_reconcile_external_domain_tls external_tls no_gateways
      should_reconcile_cluster_local_domain_tls cluster_local_tls external_http
      reconcile_ingress_gateways get_qualified_gateway_names reconcile_destination_rules
      qualified_name
  reconcile_gateways defaults = do
    tls ← (if should_reconcile_external_domain_tls ing then external_tls else pure no_gateways)
    local ←
        (if world.cluster_local_tls && should_reconcile_cluster_local_domain_tls ing
          then cluster_local_tls
          else pure [])
    external ← external_http defaults tls
    reconcile_ingress_gateways world external.gateways
    reconcile_ingress_gateways world local
    (if world.internal_tls then reconcile_destination_rules world ing else pure tt)
    pure (record {
      external = sets.insert external.names (get_qualified_gateway_names external.gateways);
      local =
          sets.insert (sets.insert sets.empty (map qualified_name defaults.local))
            (get_qualified_gateway_names local);
    })

  -- the probe, skipped where the Ingress is ready
  unfoldable pub probed : Run Bool
  probed =
      if world.is_ready ing
      then pure true
      else lift (wrap_error "failed to probe Ingress %s/%s: %w" (world.probe ing))

  unfoldable pub mark_load_balancer : SelectedGateways → Bool → Run (Unit {0})
  unfolding gateway_service_url get_lb_status
  mark_load_balancer defaults ready =
      if ready
      then emit (
          marked (
            load_balancer_ready (get_lb_status (gateway_service_url defaults.external))
              (get_lb_status (gateway_service_url defaults.local))))
      else emit (marked load_balancer_not_ready)

  -- `reconcileIngress`, after the defaults are set
  unfoldable pub reconcile_defaulted : Run (Unit {0})
  unfolding gateways_from_context reconcile_gateways make_virtual_services
      reconcile_virtual_services probed mark_load_balancer
  reconcile_defaulted = do
    emit (marked initialized)
    defaults ← lift (gateways_from_context world.istio ing.meta)
    names ← reconcile_gateways defaults
    vses ← lift (make_virtual_services ing names)
    on_error (λ e. marked (load_balancer_failed "ReconcileVirtualServiceFailed" e) ∷ [])
        (reconcile_virtual_services world ing vses)
    emit (marked network_configured)
    ready ← probed
    mark_load_balancer defaults ready

module _ ⦃sets : SetLib⦄ ⦃net : Network⦄ ⦃kmeta : Kmeta⦄ ⦃keys : Keys⦄ ⦃selectors : Selectors⦄
    ⦃helpers : IngressHelpers⦄ ⦃certs : Certificates⦄ ⦃cmp : Comparisons⦄ ⦃routing : RoutingNames⦄
    (world : World) where
  -- `reconcileIngress`
  unfoldable pub reconcile_ingress : Ingress → Run (Unit {0})
  unfolding reconcile_defaulted
  reconcile_ingress ing = reconcile_defaulted world (world.set_defaults ing)

  -- `ReconcileKind`
  unfoldable pub reconcile_kind : Ingress → Run (Unit {0})
  unfolding reconcile_ingress
  reconcile_kind ing =
      on_error (λ e. marked (ingress_not_ready "ReconcileIngressFailed") ∷ [])
        (reconcile_ingress ing)
