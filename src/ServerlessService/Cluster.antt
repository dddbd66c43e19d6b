-- ===== src/ServerlessService/Cluster.antt =====
-- A cluster that stores the objects of both kinds, under the effects of a run.
use knative_extensions_net_i.Base.{◌≡◌, refl, ap, ◌∙◌, List, [], ◌∷◌, ◌++◌, map}
use knative_extensions_net_i.Api.{VirtualService, DestinationRule}
use knative_extensions_net_i.Accessor.{Write, Event, Outcome}
use knative_extensions_net_i.Accessor.Kinds.{
  Comparisons, virtual_service_kind, destination_rule_kind,
}
use knative_extensions_net_i.Accessor.Convergence.{Store, write_all, write}
use knative_extensions_net_i.Reconciler.Run.{
  Effect, on_virtual_service, on_destination_rule, emitted, of_outcome,
}

pub record Cluster : Type 0 where
  pub virtual_services : Store VirtualService
  pub destination_rules : Store DestinationRule

module _ ⦃cmp : Comparisons⦄ where
  -- What an effect does to the cluster.
  unfoldable pub apply : Effect → Cluster → Cluster
  unfolding write
  apply (on_virtual_service w) cluster = record cluster {
    virtual_services = write virtual_service_kind w cluster.virtual_services;
  }
  apply (on_destination_rule w) cluster = record cluster {
    destination_rules = write destination_rule_kind w cluster.destination_rules;
  }
  apply _ cluster = cluster

  unfoldable pub apply_all : List Effect → Cluster → Cluster
  unfolding apply
  apply_all [] cluster = cluster
  apply_all (e ∷ es) cluster = apply_all es (apply e cluster)

  pub apply_all-append :
      (es fs : List Effect) (cluster : Cluster)
      → apply_all (es ++ fs) cluster ≡ apply_all fs (apply_all es cluster)
  unfolding apply_all
  apply_all-append [] fs cluster = refl
  apply_all-append (e ∷ es) fs cluster = apply_all-append es fs (apply e cluster)

  apply_all_events :
      (events : List Event) (cluster : Cluster) → apply_all (map emitted events) cluster ≡ cluster
  unfolding apply_all
  apply_all_events [] cluster = refl
  apply_all_events (e ∷ events) cluster = apply_all_events events cluster

  apply_all_services :
      (ws : List (Write VirtualService)) (cluster : Cluster)
      → apply_all (map on_virtual_service ws) cluster ≡ record {
        virtual_services = write_all virtual_service_kind ws cluster.virtual_services;
        destination_rules = cluster.destination_rules;
      }
  unfolding apply_all write_all
  apply_all_services [] cluster = refl
  apply_all_services (w ∷ ws) cluster = apply_all_services ws (apply (on_virtual_service w) cluster)

  apply_all_rules :
      (ws : List (Write DestinationRule)) (cluster : Cluster)
      → apply_all (map on_destination_rule ws) cluster ≡ record {
        virtual_services = cluster.virtual_services;
        destination_rules = write_all destination_rule_kind ws cluster.destination_rules;
      }
  unfolding apply_all write_all
  apply_all_rules [] cluster = refl
  apply_all_rules (w ∷ ws) cluster = apply_all_rules ws (apply (on_destination_rule w) cluster)

  pub service_effects :
      (o : Outcome VirtualService) (cluster : Cluster)
      → apply_all (of_outcome on_virtual_service o).effects cluster ≡ record {
        virtual_services = write_all virtual_service_kind o.writes cluster.virtual_services;
        destination_rules = cluster.destination_rules;
      }
  service_effects o cluster =
      apply_all-append (map on_virtual_service o.writes) (map emitted o.events) cluster
      ∙ apply_all_events o.events (apply_all (map on_virtual_service o.writes) cluster)
      ∙ apply_all_services o.writes cluster

  rule_effects :
      (o : Outcome DestinationRule) (cluster : Cluster)
      → apply_all (of_outcome on_destination_rule o).effects cluster ≡ record {
        virtual_services = cluster.virtual_services;
        destination_rules = write_all destination_rule_kind o.writes cluster.destination_rules;
      }
  rule_effects o cluster =
      apply_all-append (map on_destination_rule o.writes) (map emitted o.events) cluster
      ∙ apply_all_events o.events (apply_all (map on_destination_rule o.writes) cluster)
      ∙ apply_all_rules o.writes cluster

  pub both_effects :
      (o : Outcome VirtualService) (p : Outcome DestinationRule) (cluster : Cluster)
      → apply_all
          ((of_outcome on_virtual_service o).effects
            ++ ((of_outcome on_destination_rule p).effects ++ []))
          cluster
        ≡ record {
          virtual_services = write_all virtual_service_kind o.writes cluster.virtual_services;
          destination_rules = write_all destination_rule_kind p.writes cluster.destination_rules;
        }
  unfolding apply_all
  both_effects o p cluster =
      apply_all-append (of_outcome on_virtual_service o).effects _ cluster
      ∙ ap (apply_all ((of_outcome on_destination_rule p).effects ++ []))
          (service_effects o cluster)
      ∙ apply_all-append (of_outcome on_destination_rule p).effects [] _
      ∙ rule_effects p _
