-- ===== src/Lib.antt =====
-- A verification library for net-istio, the controller that turns Knative Ingresses into Istio
-- Gateways, VirtualServices and DestinationRules.
--
-- The parts, from the bottom up:
-- Base, GoString: lists over native numbers, sorting, Go errors as values, and strings as lists of
-- bytes with the functions of package strings, adler32 and decimal numbers.
-- Api: the objects of Kubernetes, Knative and Istio, with the fields that the program uses; a Go
-- map is the list of its entries.
-- Platform: what the program calls of other projects, as records that are instance arguments:
-- sets.Set, kmeta, network, label selectors, the helpers of Ingresses, and the label keys.
-- Config, of pkg/reconciler/ingress/config/istio.go: the configuration and its two formats.
-- NewIstioFromConfigMap is new_istio_from_config_map of Config/Parse.
-- Resources, of pkg/reconciler/ingress/resources. Naming, Servers, Selection and Gateways are of
-- gateway.go, VirtualService of virtual_service.go, Secrets of secret.go, and DestinationRule of
-- destinationrule.go. Each function has its name in snake case; a loop of a function is a function
-- of its own.
-- Accessor, of pkg/reconciler/accessor: one generic function for ReconcileVirtualService,
-- ReconcileDestinationRule, ReconcileSecret and ReconcileCertificate, with a record for what tells them apart.
-- Convergence runs it against a store, and Interleaving has several owners on one store.
-- Reconciler, of pkg/reconciler/ingress/ingress.go: a run is a result with the list of its effects
-- in order. World holds what a run reads: the configuration, the listers, and the answers of the
-- API server. Loop is ReconcileKind, Cleanup is FinalizeKind, Objects and Rules are the steps,
-- and Finalizing, Tracking, Stale, Collecting, Deleting and Status have the lemmas on them.
-- Lister, of pkg/reconciler/ingress/lister.go: ListProbeTargets is list_probe_targets. An Answer is
-- a value, an error or a panic, for the index that the code does not check.
-- ServerlessService, of pkg/reconciler/serverlessservice: ReconcileKind is
-- reconcile_addressability, with the objects of its resources; it uses Accessor. Cluster has the
-- stores that the effects of a run change.
-- Defaults, of pkg/defaults/deployment_defaults.go: SetDefaults is set_defaults.
-- InformerFiltering, of pkg/reconciler/informerfiltering/util.go: the selector of the informers.
-- Tests: concrete instances of the parameters, and a run of each theorem.
--
-- No function needs fuel: each loop is over a list. Machine integers are cut to their width where
-- the code converts them, as in the port and the weight of a destination; lengths are unbounded.
-- The listers read a cache, which the writes of the same run do not change. An HTTP server that
-- is nil, as for an empty HTTP option, is an element of the servers of a Gateway, as in the code.
--
-- Not modelled: logging, the generated clients and deep copies, the wiring of informers and event
-- handlers in the files controller.go and store.go and in cmd, and GenerateCertificate, which makes
-- keys for tests.
pub mod Base
pub mod GoString
pub mod Api
pub mod Platform
pub mod Config
pub mod Resources
pub mod Accessor
pub mod Reconciler
pub mod Lister
pub mod ServerlessService
pub mod Defaults
pub mod InformerFiltering
mod Tests
