-- ===== src/ServerlessService.antt =====
-- pkg/reconciler/serverlessservice: the VirtualService and the DestinationRule that make the pods of
-- a private service addressable.
pub mod Routing
pub mod Cluster
pub mod Converging
use knative_extensions_net_i.Base.{◌≡◌, Bool, List, [], if◌then◌else◌, none, ◌∷◌, not, some}
use knative_extensions_net_i.GoString.{GoString, bytes, str_eq}
use knative_extensions_net_i.Api.{
  ServerlessService, DestinationRule, ObjectMeta, VirtualService, HttpMatchRequest, HttpRoute,
  exact, least_request, LoadBalancer, RouteDestination,
}
use knative_extensions_net_i.Platform.{Network, Kmeta}
use knative_extensions_net_i.Accessor.{Client, reconcile_object}
use knative_extensions_net_i.Accessor.Kinds.{
  Comparisons, virtual_service_kind, destination_rule_kind,
}
use knative_extensions_net_i.Reconciler.Run.{
  Run, ◌>>=◌, pure, wrapping, of_outcome, on_virtual_service, on_destination_rule,
}

abbrev pub subset_normal : GoString
subset_normal = bytes "normal"

abbrev pub subset_direct : GoString
subset_direct = bytes "direct"

-- knative.dev/networking/pkg/http/header
pub record RequestHeaders : Type 0 where
  -- `header.PassthroughLoadbalancingKey`
  pub passthrough_loadbalancing : GoString

module _ ⦃net : Network⦄ where
  -- `pkgnetwork.GetServiceHostname(name, ns)` of the private service
  unfoldable pub private_host : ServerlessService → GoString
  private_host sks = net.service_hostname sks.private_service_name sks.meta.namespace

  module _ ⦃kmeta : Kmeta⦄ where
    unfoldable pub private_meta : ServerlessService → ObjectMeta
    private_meta sks = record {
      name = sks.private_service_name;
      namespace = sks.meta.namespace;
      uid = [];
      labels = [];
      annotations = [];
      owner_references = kmeta.new_controller_ref sks.meta ∷ [];
    }

    -- a destination of a route
    unfoldable pub to_subset : ServerlessService → GoString → RouteDestination
    unfolding private_host
    to_subset sks subset = record {
      host = private_host sks;
      subset = subset;
      port = none;
      weight = 0;
      headers = none;
    }

    unfoldable pub subset_route : ServerlessService → GoString → List HttpMatchRequest → HttpRoute
    unfolding to_subset
    subset_route sks subset matches = record {
      matches = matches;
      route = to_subset sks subset ∷ [];
      rewrite = none;
      headers = none;
      retries = none;
    }

    -- `MakeDestinationRule(sks)`
    unfoldable pub make_destination_rule : ServerlessService → DestinationRule
    unfolding private_host private_meta
    make_destination_rule sks = record {
      meta = private_meta sks;
      spec = record {
        host = private_host sks;
        traffic_policy = none;
        subsets =
            record { name = subset_normal; load_balancer = least_request }
            ∷ record { name = subset_direct; load_balancer = LoadBalancer.passthrough }
            ∷ [];
      };
    }

    -- the route of the requests that ask for their pod
    unfoldable pub direct_route : ⦃headers : RequestHeaders⦄ → ServerlessService → HttpRoute
    unfolding subset_route
    direct_route ⦃headers⦄ sks = subset_route sks subset_direct (
        record {
          gateways = [];
          authority = none;
          uri = none;
          headers = (headers.passthrough_loadbalancing, exact (bytes "true")) ∷ [];
        }
        ∷ [])

    -- `MakeVirtualService(sks)`
    unfoldable pub make_virtual_service :
        ⦃headers : RequestHeaders⦄ → ServerlessService → VirtualService
    unfolding private_host private_meta direct_route subset_route
    make_virtual_service sks = record {
      meta = private_meta sks;
      spec = record {
        hosts = private_host sks ∷ [];
        gateways = [];
        http = direct_route sks ∷ subset_route sks subset_normal [] ∷ [];
      };
    }

-- What the reconciler reads.
pub record AddressabilityWorld : Type 0 where
  -- `config.FromContext(ctx).Network.EnableMeshPodAddressability`
  pub enable_mesh_pod_addressability : Bool
  -- whether the context has an event recorder
  pub recorder : Bool
  pub virtual_services : Client VirtualService
  pub destination_rules : Client DestinationRule

module _ ⦃net : Network⦄ ⦃kmeta : Kmeta⦄ ⦃headers : RequestHeaders⦄ ⦃cmp : Comparisons⦄
    (world : AddressabilityWorld) (sks : ServerlessService) where
  unfoldable pub reconcile_private_service : Run (Unit {0})
  unfolding reconcile_object virtual_service_kind destination_rule_kind make_virtual_service
      make_destination_rule
  reconcile_private_service = do
    _ ← wrapping "failed to reconcile VirtualService: %w" (
        of_outcome on_virtual_service (
          reconcile_object virtual_service_kind (some sks.meta) (make_virtual_service sks)
            world.virtual_services world.recorder))
    _ ← wrapping "failed to reconcile DestinationRule: %w" (
        of_outcome on_destination_rule (
          reconcile_object destination_rule_kind (some sks.meta) (make_destination_rule sks)
            world.destination_rules world.recorder))
    pure tt

  -- `ReconcileKind`
  unfoldable pub reconcile_addressability : Run (Unit {0})
  unfolding reconcile_private_service str_eq
  reconcile_addressability =
      if not world.enable_mesh_pod_addressability
      then pure tt
      else if str_eq sks.private_service_name []
      then pure tt
      else reconcile_private_service
