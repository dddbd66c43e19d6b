-- ===== src/Reconciler/Rules.antt =====
-- `reconcileDestinationRules`: one DestinationRule for each service behind the Ingress.
use knative_extensions_net_i.Base.{
  Bool, not, ◌||◌, some, List, [], ◌∷◌, any, wrap_error, if◌then◌else◌,
}
use knative_extensions_net_i.GoString.{GoString, bytes, str_eq}
use knative_extensions_net_i.Api.{Ingress, IngressRule, HttpIngressPath, BackendSplit, ServicePort}
use knative_extensions_net_i.Platform.{SetLib, StringSet, Kmeta, Keys, Network}
use knative_extensions_net_i.Accessor.{reconcile_object}
use knative_extensions_net_i.Accessor.Kinds.{Comparisons, destination_rule_kind}
use knative_extensions_net_i.Resources.DestinationRule.{
  RoutingNames, make_internal_encryption_destination_rule,
}
use knative_extensions_net_i.Reconciler.Run.{
  Run, on_destination_rule, ◌>>=◌, pure, lift, of_outcome, wrapping,
}
use knative_extensions_net_i.Reconciler.World.{World}

-- A port of the service is named for HTTP/2.
unfoldable pub has_http2_port : List ServicePort → Bool
unfolding any str_eq
has_http2_port =
    any λ (port : ServicePort). str_eq port.name (bytes "http2") || str_eq port.name (bytes "h2c")

module _ ⦃sets : SetLib⦄ ⦃net : Network⦄ ⦃kmeta : Kmeta⦄ ⦃keys : Keys⦄ ⦃cmp : Comparisons⦄
    ⦃names : RoutingNames⦄ (world : World) (ing : Ingress) where
  -- one rule, where the host has none yet
  unfoldable pub reconcile_rule : StringSet → GoString → Bool → Run StringSet
  unfolding make_internal_encryption_destination_rule reconcile_object destination_rule_kind
  reconcile_rule drs hostname http2 = if sets.has drs hostname then pure drs else (do
    _ ← wrapping "failed to reconcile DestinationRule: %w" (
        of_outcome on_destination_rule (
          reconcile_object destination_rule_kind (some ing.meta)
            (make_internal_encryption_destination_rule hostname ing http2) world.destination_rules
            world.recorder))
    pure (sets.insert drs (hostname ∷ [])))

  -- the loop over the splits of a path
  unfoldable pub reconcile_splits : StringSet → List BackendSplit → Run StringSet
  unfolding has_http2_port reconcile_rule
  reconcile_splits drs [] = pure drs
  reconcile_splits drs (split ∷ splits) = do
    svc ← lift (
        wrap_error "failed to get service: %w"
          (world.services split.service_namespace split.service_name))
    more ←
        reconcile_rule drs (net.service_hostname split.service_name split.service_namespace)
          (has_http2_port svc.ports)
    reconcile_splits more splits

  -- the loop over the paths of a rule: a path with a rewritten host is skipped
  unfoldable pub reconcile_paths : StringSet → List HttpIngressPath → Run StringSet
  unfolding reconcile_splits str_eq
  reconcile_paths drs [] = pure drs
  reconcile_paths drs (path ∷ paths) =
      let skip = reconcile_paths drs paths in
      let visit = do more ← reconcile_splits drs path.splits; reconcile_paths more paths
      in if not (str_eq path.rewrite_host []) then skip else visit

  unfoldable pub reconcile_rules : StringSet → List IngressRule → Run StringSet
  unfolding reconcile_paths
  reconcile_rules drs [] = pure drs
  reconcile_rules drs (rule ∷ rules) = do
    more ← reconcile_paths drs rule.paths
    reconcile_rules more rules

  -- `reconcileDestinationRules`
  unfoldable pub reconcile_destination_rules : Run (Unit {0})
  unfolding reconcile_rules
  reconcile_destination_rules = do _ ← reconcile_rules sets.empty ing.rules; pure tt
