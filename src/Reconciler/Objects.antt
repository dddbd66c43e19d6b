-- ===== src/Reconciler/Objects.antt =====
-- The steps of the loop that write objects: secrets, Gateways, VirtualServices, DestinationRules.
use knative_extensions_net_i.Base.{
  not, none, some, List, [], ◌∷◌, Result, ok, err, Error, wrap_error, if◌then◌else◌,
}
use knative_extensions_net_i.Base.Sort.{sort}
use knative_extensions_net_i.GoString.{GoString}
use knative_extensions_net_i.GoString.Order.{str_lt}
use knative_extensions_net_i.Api.{Ingress, Secret, Gateway, VirtualService, get}
use knative_extensions_net_i.Platform.{SetLib, StringSet, Kmeta, Keys}
use knative_extensions_net_i.Accessor.{
  create, update, delete, reconcile_object, is_not_owned, is_not_found,
}
use knative_extensions_net_i.Accessor.Kinds.{Comparisons, virtual_service_kind, secret_kind}
use knative_extensions_net_i.Resources.VirtualService.{route_label_key}
use knative_extensions_net_i.Resources.Secrets.{secret_ref, extract_origin_secret_ref}
use knative_extensions_net_i.Resources.Gateways.{gateway_ref}
use knative_extensions_net_i.Reconciler.Run.{
  Run, on_secret, on_gateway, on_virtual_service, tracked, marked, resource_not_owned, ◌>>=◌, ◌>>◌,
  pure, lift, emit, tell, of_outcome, for_each, prefixed,
}
use knative_extensions_net_i.Reconciler.World.{World, has_istio_class}

module _ ⦃kmeta : Kmeta⦄ ⦃keys : Keys⦄ ⦃cmp : Comparisons⦄ (world : World) where
  -- one round of `reconcileCertSecrets`
  unfoldable pub reconcile_cert_secret : Secret → Run (Unit {0})
  unfolding secret_ref extract_origin_secret_ref reconcile_object secret_kind
  reconcile_cert_secret secret = do
    emit (tracked (secret_ref secret.meta.namespace secret.meta.name))
    emit (tracked (extract_origin_secret_ref secret))
    _ ← of_outcome on_secret (reconcile_object secret_kind none secret world.secrets world.recorder)
    pure tt

  -- `reconcileCertSecrets`
  unfoldable pub reconcile_cert_secrets : List Secret → Run (Unit {0})
  unfolding reconcile_cert_secret for_each
  reconcile_cert_secrets = for_each reconcile_cert_secret

  -- the branches of `reconcileSystemGeneratedGateway`
  unfoldable pub gateway_found : Gateway → Result Gateway → Run (Unit {0})
  unfolding is_not_found
  gateway_found desired (err e) =
      if is_not_found e
      then (do
        _ ← tell (world.gateways.on_create desired) (on_gateway (create desired) ∷ [])
        pure tt)
      else lift (err e)
  gateway_found desired (ok existing) =
      let copy = record existing { selector = desired.selector; servers = desired.servers } in
      if not (cmp.same_gateways existing desired)
      then (do _ ← tell (world.gateways.on_update copy) (on_gateway (update copy) ∷ []); pure tt)
      else pure tt

  -- `reconcileSystemGeneratedGateway`
  unfoldable pub reconcile_system_generated_gateway : Gateway → Run (Unit {0})
  unfolding gateway_found
  reconcile_system_generated_gateway desired =
      gateway_found desired (world.gateways.find desired.meta.namespace desired.meta.name)

  -- `reconcileIngressGateways`
  unfoldable pub reconcile_ingress_gateways : List Gateway → Run (Unit {0})
  unfolding reconcile_system_generated_gateway for_each
  reconcile_ingress_gateways = for_each reconcile_system_generated_gateway

  -- `reconcileWildcardGateways`
  unfoldable pub reconcile_wildcard_gateways : List Gateway → Run (Unit {0})
  unfolding reconcile_system_generated_gateway for_each gateway_ref
  reconcile_wildcard_gateways =
      for_each λ g. do emit (tracked (gateway_ref g)); reconcile_system_generated_gateway g

  -- the error of `ReconcileVirtualService`, marked where another owner has the object
  unfoldable pub virtual_service_failed : GoString → Error → Run (Unit {0})
  unfolding is_not_owned
  virtual_service_failed name e =
      if is_not_owned e
      then tell (err e) (marked (resource_not_owned "VirtualService" name) ∷ [])
      else lift (err e)

  unfoldable pub or_virtual_service_failed : GoString → Run VirtualService → Run (Unit {0})
  unfolding virtual_service_failed
  or_virtual_service_failed name r = elim r.result [
    | ok vs ↦ record { result = ok tt; effects = r.effects }
    | err e ↦ prefixed r.effects (virtual_service_failed name e)
  ]

  module _ ⦃sets : SetLib⦄ (ing : Ingress) where
    -- the first loop of `reconcileVirtualServices`: the names that are kept
    unfoldable pub create_virtual_services : StringSet → List VirtualService → Run StringSet
    unfolding or_virtual_service_failed reconcile_object virtual_service_kind
    create_virtual_services kept [] = pure kept
    create_virtual_services kept (d ∷ desired) =
        let skip = create_virtual_services kept desired in
        let reconciled = do
          or_virtual_service_failed d.meta.name (
              of_outcome on_virtual_service (
                reconcile_object virtual_service_kind (some ing.meta) d world.virtual_services
                  world.recorder))
          create_virtual_services (sets.insert kept (d.meta.name ∷ [])) desired
        in if has_istio_class world d.meta then reconciled else skip

    -- one round of the innermost loop: a VirtualService that is not wanted any more
    unfoldable pub delete_stale : StringSet → VirtualService → Run (Unit {0})
    delete_stale kept vs =
        if sets.has kept vs.meta.name
        then pure tt
        else if not (kmeta.is_controlled_by vs.meta ing.meta)
        then pure tt
        else tell
            (wrap_error "failed to delete VirtualService: %w"
              (world.delete_virtual_service vs.meta.namespace vs.meta.name))
            (on_virtual_service (delete vs.meta.namespace vs.meta.name) ∷ [])

    -- `sort.Slice` by name
    unfoldable pub sort_by_name : List VirtualService → List VirtualService
    unfolding sort str_lt
    sort_by_name = sort λ a b. str_lt a.meta.name b.meta.name

    -- one round of the loop over `selectors`
    unfoldable pub delete_selected : StringSet → GoString × GoString → Run (Unit {0})
    unfolding delete_stale sort_by_name for_each
    delete_selected kept (k, v) = do
      vses ← lift (
          wrap_error "failed to list VirtualServices: %w"
            (world.list_virtual_services ing.meta.namespace k v))
      for_each (delete_stale kept) (sort_by_name vses)

    -- `reconcileVirtualServices`
    unfoldable pub reconcile_virtual_services : List VirtualService → Run (Unit {0})
    unfolding create_virtual_services delete_selected for_each get
    reconcile_virtual_services desired = do
      kept ← create_virtual_services sets.empty desired
      for_each (delete_selected kept) (
          (keys.ingress_label, ing.meta.name)
          ∷ (route_label_key, get route_label_key ing.meta.labels)
          ∷ [])
