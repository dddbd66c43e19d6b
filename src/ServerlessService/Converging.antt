-- ===== src/ServerlessService/Converging.antt =====
-- The reconciler of private services against a cluster that stores both kinds of objects.
use knative_extensions_net_i.Base.{
  subst, ◌≡◌, refl, ap, ◌∙◌, true, false, [], ok, err, inl, inr, ◌⊎◌, Error, wrapped, sym,
}
use knative_extensions_net_i.GoString.{str_eq}
use knative_extensions_net_i.Api.{ServerlessService, VirtualService, DestinationRule}
use knative_extensions_net_i.Platform.{Network, Kmeta}
use knative_extensions_net_i.Accessor.{Outcome, is_not_owned}
use knative_extensions_net_i.Accessor.Kinds.{
  Comparisons, virtual_service_kind, destination_rule_kind, virtual_service_kind-IsLawful,
  destination_rule_kind-IsLawful,
}
use knative_extensions_net_i.Accessor.Convergence.{
  client_of, write_all, WellKeyed, Settled, Refused, InPlace, reconcile_in,
  reconcile_object_converges,
}
use knative_extensions_net_i.Reconciler.Run.{Run, on_virtual_service, of_outcome}
use knative_extensions_net_i.ServerlessService.{
  AddressabilityWorld, RequestHeaders, make_virtual_service, make_destination_rule,
  reconcile_addressability, reconcile_private_service, private_meta,
}
use knative_extensions_net_i.ServerlessService.Cluster.{
  Cluster, apply_all, apply_all-append, service_effects, both_effects,
}

-- A world with the feature and an event recorder, whose listers show the cluster.
abbrev pub world_of : Cluster → AddressabilityWorld
world_of cluster = record {
  enable_mesh_pod_addressability = true;
  recorder = true;
  virtual_services = client_of cluster.virtual_services;
  destination_rules = client_of cluster.destination_rules;
}

module _ ⦃net : Network⦄ ⦃kmeta : Kmeta⦄ ⦃headers : RequestHeaders⦄ ⦃cmp : Comparisons⦄
    (sks : ServerlessService) (cluster : Cluster) where
  abbrev pub cluster_after : Cluster
  cluster_after = apply_all (reconcile_addressability (world_of cluster) sks).effects cluster

  -- The reconciliation succeeds, both objects are in place afterwards, and a second one has nothing
  -- to do.
  pub record Addressable : Type 0 where
    pub succeeds : (reconcile_addressability (world_of cluster) sks).result ≡ ok tt
    pub service_in_place :
        InPlace virtual_service_kind virtual_service_kind-IsLawful sks.meta
          (make_virtual_service sks)
          cluster_after.virtual_services
    pub rule_in_place :
        InPlace destination_rule_kind destination_rule_kind-IsLawful sks.meta
          (make_destination_rule sks)
          cluster_after.destination_rules
    pub second :
        reconcile_addressability (world_of cluster_after) sks
        ≡ record { result = ok tt; effects = [] }

  -- An object of another owner is in the way: it stays, and the error says so.
  pub record Blocked : Type 0 where
    pub error : Error
    pub refused : (reconcile_addressability (world_of cluster) sks).result ≡ err error
    pub not_owned : is_not_owned error ≡ true
    pub rules_stay : cluster_after.destination_rules ≡ cluster.destination_rules
    pub in_the_way :
        Refused virtual_service_kind virtual_service_kind-IsLawful sks.meta
          (make_virtual_service sks)
          cluster.virtual_services
        ⊎ Refused destination_rule_kind destination_rule_kind-IsLawful sks.meta
            (make_destination_rule sks)
            cluster.destination_rules

  abbrev service_outcome : Outcome VirtualService
  service_outcome =
      reconcile_in virtual_service_kind sks.meta (make_virtual_service sks) cluster.virtual_services

  abbrev rule_outcome : Outcome DestinationRule
  rule_outcome =
      reconcile_in destination_rule_kind sks.meta (make_destination_rule sks)
        cluster.destination_rules

  -- The cluster with what the two reconciliations write.
  abbrev written : Cluster
  written = record {
    virtual_services =
        write_all virtual_service_kind service_outcome.writes cluster.virtual_services;
    destination_rules =
        write_all destination_rule_kind rule_outcome.writes cluster.destination_rules;
  }

  module _ (named : str_eq sks.private_service_name [] ≡ false) where
    both_succeed :
        (vs : VirtualService) (dr : DestinationRule)
        → service_outcome.result ≡ ok vs
        → rule_outcome.result ≡ ok dr
        → ((reconcile_addressability (world_of cluster) sks).result ≡ ok tt)
          × (cluster_after ≡ written)
    unfolding reconcile_addressability reconcile_private_service
    both_succeed vs dr e f =
        rw (named, e, f) (refl, both_effects service_outcome rule_outcome cluster)

    rule_fails :
        (vs : VirtualService) (error : Error)
        → service_outcome.result ≡ ok vs
        → rule_outcome ≡ record { result = err error; writes = []; events = [] }
        → ((reconcile_addressability (world_of cluster) sks).result
            ≡ err (wrapped "failed to reconcile DestinationRule: %w" error))
          × (cluster_after ≡ record {
            virtual_services =
                write_all virtual_service_kind service_outcome.writes cluster.virtual_services;
            destination_rules = cluster.destination_rules;
          })
    unfolding reconcile_addressability reconcile_private_service apply_all
    rule_fails vs error e f =
        rw (named, e, f)
          (
            refl,
            apply_all-append (of_outcome on_virtual_service service_outcome).effects [] cluster
                ∙ service_effects service_outcome cluster,
          )

    service_fails :
        (error : Error)
        → service_outcome ≡ record { result = err error; writes = []; events = [] }
        → reconcile_addressability (world_of cluster) sks ≡ record {
          result = err (wrapped "failed to reconcile VirtualService: %w" error);
          effects = [];
        }
    unfolding reconcile_addressability reconcile_private_service
    service_fails error e = rw (named, e) refl

    abbrev ServiceSettled : Type 0
    ServiceSettled =
        Settled virtual_service_kind virtual_service_kind-IsLawful sks.meta
          (make_virtual_service sks) cluster.virtual_services

    abbrev RuleSettled : Type 0
    RuleSettled =
        Settled destination_rule_kind destination_rule_kind-IsLawful sks.meta
          (make_destination_rule sks) cluster.destination_rules

    abbrev ServiceRefused : Type 0
    ServiceRefused =
        Refused virtual_service_kind virtual_service_kind-IsLawful sks.meta
          (make_virtual_service sks) cluster.virtual_services

    abbrev RuleRefused : Type 0
    RuleRefused =
        Refused destination_rule_kind destination_rule_kind-IsLawful sks.meta
          (make_destination_rule sks) cluster.destination_rules

    second_run :
        ServiceSettled
        → RuleSettled
        → reconcile_addressability (world_of written) sks ≡ record { result = ok tt; effects = [] }
    unfolding reconcile_addressability reconcile_private_service
    second_run v r = rw (named, v.second, r.second) refl

    all_settled : ServiceSettled → RuleSettled → Addressable
    all_settled v r =
        let (done, same) = both_succeed v.reconciled r.reconciled v.succeeds r.succeeds in
        record {
          succeeds = done;
          service_in_place =
              subst
                (λ (c : Cluster).
                  InPlace virtual_service_kind virtual_service_kind-IsLawful sks.meta
                    (make_virtual_service sks) c.virtual_services)
                (sym same) v.in_place;
          rule_in_place =
              subst
                (λ (c : Cluster).
                  InPlace destination_rule_kind destination_rule_kind-IsLawful sks.meta
                    (make_destination_rule sks) c.destination_rules)
                (sym same) r.in_place;
          second =
              ap (λ (c : Cluster). reconcile_addressability (world_of c) sks) same ∙ second_run v r;
        }

    rule_refused : ServiceSettled → RuleRefused → Blocked
    unfolding is_not_owned
    rule_refused v x =
        let (e, f) = rule_fails v.reconciled x.error v.succeeds x.refused in
        record {
          error = wrapped "failed to reconcile DestinationRule: %w" x.error;
          refused = e;
          not_owned = x.not_owned;
          rules_stay = ap (λ (c : Cluster). c.destination_rules) f;
          in_the_way = inr x;
        }

    service_refused : ServiceRefused → Blocked
    unfolding is_not_owned apply_all
    service_refused x =
        let e = service_fails x.error x.refused in
        record {
          error = wrapped "failed to reconcile VirtualService: %w" x.error;
          refused = ap (λ (r : Run (Unit {0})). r.result) e;
          not_owned = x.not_owned;
          rules_stay =
              ap (λ (r : Run (Unit {0})). (apply_all r.effects cluster).destination_rules) e;
          in_the_way = inl x;
        }

    -- For a serverless service with a private service, against a cluster whose objects stand
    -- under their own names and whose writes succeed, and with the feature on and an event
    -- recorder, ReconcileKind either succeeds, leaves both objects in place and has nothing
    -- to do in a second run, or meets an object of another owner, leaves the
    -- DestinationRules as they were and returns a NotOwned error.
    pub reconcile_addressability_converges :
        WellKeyed virtual_service_kind cluster.virtual_services
        → WellKeyed destination_rule_kind cluster.destination_rules
        → Addressable ⊎ Blocked
    unfolding make_virtual_service make_destination_rule private_meta virtual_service_kind
        destination_rule_kind
    reconcile_addressability_converges k l =
        elim (reconcile_object_converges virtual_service_kind virtual_service_kind-IsLawful sks.meta
          (make_virtual_service sks) cluster.virtual_services k
          (kmeta.controlled_by_ref (make_virtual_service sks).meta sks.meta refl)) [
            | inr x ↦ inr (service_refused x)
            | inl v ↦
                elim (reconcile_object_converges destination_rule_kind
                  destination_rule_kind-IsLawful sks.meta (make_destination_rule sks)
                  cluster.destination_rules l
                  (kmeta.controlled_by_ref (make_destination_rule sks).meta sks.meta refl)) [
                    | inr y ↦ inr (rule_refused v y)
                    | inl r ↦ inl (all_settled v r)
                  ]
          ]
