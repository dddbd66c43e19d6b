-- ===== src/Reconciler/Cleanup.antt =====
-- `FinalizeKind`: the servers of the Ingress leave the shared Gateways, and the copies of its
-- certificates are deleted.
use knative_extensions_net_i.Base.{
  Bool, not, ◌&&◌, List, [], ◌∷◌, ◌++◌, Result, ok, err, Error, wrap_error, if◌then◌else◌, any,
  length, ltb, true, false,
}
use knative_extensions_net_i.Api.{
  Ingress, IngressRule, IngressTls, Secret, Gateway, Server, Visibility, external_ip, cluster_local,
}
use knative_extensions_net_i.Platform.{SetLib, Keys, Selectors, IngressHelpers}
use knative_extensions_net_i.Config.{GatewayConfig}
use knative_extensions_net_i.Accessor.{delete, update, updated}
use knative_extensions_net_i.Resources.Servers.{get_servers, update_gateway}
use knative_extensions_net_i.Resources.Secrets.{make_target_secret_labels}
use knative_extensions_net_i.Resources.Selection.{
  ServiceName, get_ingress_gateway_svc_name_namespaces,
}
use knative_extensions_net_i.Reconciler.Run.{
  Run, on_secret, on_gateway, emitted, ◌>>=◌, ◌>>◌, pure, lift, emit, tell, for_each, or_errors,
}
use knative_extensions_net_i.Reconciler.World.{World}

-- `rule.Visibility == v1alpha1.IngressVisibilityExternalIP`
unfoldable pub is_external : Visibility → Bool
is_external external_ip = true
is_external cluster_local = false
is_external (Visibility.other v) = false

-- `isIngressPublic`
unfoldable pub is_ingress_public : Ingress → Bool
unfolding any is_external
is_ingress_public ing = any (λ (rule : IngressRule). is_external rule.visibility) ing.rules

module _ ⦃helpers : IngressHelpers⦄ where
  -- `shouldReconcileExternalDomainTLS`
  unfoldable pub should_reconcile_external_domain_tls : Ingress → Bool
  unfolding is_ingress_public
  should_reconcile_external_domain_tls ing =
      is_ingress_public ing && ltb 0 (length (helpers.tls_for_visibility ing external_ip))

  -- `shouldReconcileClusterLocalDomainTLS`
  unfoldable pub should_reconcile_cluster_local_domain_tls : Ingress → Bool
  should_reconcile_cluster_local_domain_tls ing =
      ltb 0 (length (helpers.tls_for_visibility ing cluster_local))

module _ (world : World) where
  -- `errors.NewAggregate(errs)`, nil where there are none
  unfoldable pub new_aggregate : List Error → Result (Unit {0})
  new_aggregate [] = ok tt
  new_aggregate (e ∷ es) = err (world.aggregate e es)

  module _ ⦃sets : SetLib⦄ (ing : Ingress) where
    -- `reconcileGateway(ing, gateway, existing, desired)`
    unfoldable pub reconcile_gateway : Gateway → List Server → List Server → Run (Unit {0})
    unfolding update_gateway
    reconcile_gateway gateway existing desired =
        if world.same_servers existing desired then pure tt else (do
          _ ←
              tell
                (wrap_error "failed to update Gateway: %w" (
                  world.gateways.on_update
                    (update_gateway world.is_placeholder gateway desired existing)))
                (on_gateway (update (update_gateway world.is_placeholder gateway desired existing))
                  ∷ [])
          emit (emitted (updated gateway.meta.namespace gateway.meta.name)))

    -- `reconcileIngressServers(ing, gw, desired)`
    unfoldable pub reconcile_ingress_servers : List Server → GatewayConfig → Run (Unit {0})
    unfolding get_servers reconcile_gateway
    reconcile_ingress_servers desired gw = do
      gateway ←
          lift (wrap_error "failed to get Gateway: %w" (world.gateways.find gw.namespace gw.name))
      reconcile_gateway gateway (get_servers gateway ing) desired

  -- the loop that deletes the listed secrets: the errors it collects
  unfoldable pub delete_secrets : List Secret → Run (List Error)
  delete_secrets [] = pure []
  delete_secrets (secret ∷ secrets) = do
    errs ← or_errors (
        tell (world.delete_secret secret.meta.namespace secret.meta.name)
          (on_secret (delete secret.meta.namespace secret.meta.name) ∷ []))
    rest ← delete_secrets secrets
    pure (errs ++ rest)

  module _ ⦃keys : Keys⦄ where
    -- one gateway service: the errors of listing and of deleting
    unfoldable pub delete_listed : Result (List Secret) → Run (List Error)
    unfolding delete_secrets
    delete_listed (err e) = pure (e ∷ [])
    delete_listed (ok secrets) = delete_secrets secrets

    unfoldable pub cleanup_services : IngressTls → List ServiceName → Run (List Error)
    unfolding delete_listed make_target_secret_labels
    cleanup_services tls [] = pure []
    cleanup_services tls (service ∷ services) = do
      errs ← delete_listed (
          world.list_secrets service.namespace
            (make_target_secret_labels tls.secret_name tls.secret_namespace))
      rest ← cleanup_services tls services
      pure (errs ++ rest)

    module _ ⦃selectors : Selectors⦄ (ing : Ingress) where
      -- one TLS block
      unfoldable pub cleanup_block : Result (List ServiceName) → IngressTls → Run (List Error)
      unfolding cleanup_services
      cleanup_block (err e) tls = pure (e ∷ [])
      cleanup_block (ok services) tls = cleanup_services tls services

      unfoldable pub cleanup_blocks : List IngressTls → Run (List Error)
      unfolding cleanup_block get_ingress_gateway_svc_name_namespaces
      cleanup_blocks [] = pure []
      cleanup_blocks (tls ∷ blocks) = do
        errs ← cleanup_block (get_ingress_gateway_svc_name_namespaces world.istio ing.meta) tls
        rest ← cleanup_blocks blocks
        pure (errs ++ rest)

      module _ ⦃helpers : IngressHelpers⦄ where
        -- `cleanupCertificateSecrets`
        unfoldable pub cleanup_certificate_secrets : Run (Unit {0})
        unfolding should_reconcile_external_domain_tls should_reconcile_cluster_local_domain_tls
            cleanup_blocks new_aggregate
        cleanup_certificate_secrets =
            if not (should_reconcile_external_domain_tls ing)
              && not (should_reconcile_cluster_local_domain_tls ing)
            then pure tt
            else (do errs ← cleanup_blocks ing.tls; lift (new_aggregate errs))

        -- `FinalizeKind`
        unfoldable pub finalize_kind : ⦃sets : SetLib⦄ → Run (Unit {0})
        unfolding reconcile_ingress_servers for_each cleanup_certificate_secrets
        finalize_kind = do
          for_each (reconcile_ingress_servers ing []) world.istio.ingress_gateways
          for_each (reconcile_ingress_servers ing []) world.istio.local_gateways
          cleanup_certificate_secrets
