-- ===== src/Tests/LoopRuns.antt =====
-- Runs of the theorems on the control loop.
use knative_extensions_net_i.Base.{
  keep, ◌⊎◌, Error, ◌||◌, ◌++◌, ◌≡◌, ◌↔◌, Bool, refl, true, false, List, [], ◌∷◌, ok, err,
  not_found, all, Member, inl, Result, any,
}
use native.Mathlib.Decide.{ℕ_discrete}
use knative_extensions_net_i.Resources.Servers.{belongs_to_ingress, placeholder_server}
use knative_extensions_net_i.GoString.{GoString, str_eq, bytes, elem, str_eq}
use knative_extensions_net_i.Api.{GoMap, VirtualService, Secret, Server}
use knative_extensions_net_i.Accessor.{Client, delete}
use knative_extensions_net_i.Platform.{StringSet}
use knative_extensions_net_i.Reconciler.Run.{on_virtual_service, Effect}
use knative_extensions_net_i.Reconciler.World.{World}
use knative_extensions_net_i.Reconciler.Objects.{
  reconcile_virtual_services, create_virtual_services, reconcile_cert_secrets,
}
use knative_extensions_net_i.Reconciler.Collecting.{wants_name, reconcile_virtual_services_complete}
use knative_extensions_net_i.Reconciler.Tracking.{Tracks, reconcile_cert_secrets-Tracks}
use knative_extensions_net_i.Resources.Secrets.{copies, copy_of}
use knative_extensions_net_i.Reconciler.Stale.{Obsolete, reconcile_virtual_services-Obsolete}
use knative_extensions_net_i.Reconciler.Cleanup.{
  reconcile_ingress_servers, cleanup_certificate_secrets, should_reconcile_external_domain_tls,
  should_reconcile_cluster_local_domain_tls,
}
use knative_extensions_net_i.Reconciler.Finalizing.{Settles, reconcile_ingress_servers_lem}
use knative_extensions_net_i.Resources.Selection.{
  ServiceName, get_ingress_gateway_svc_name_namespaces,
}
use knative_extensions_net_i.Resources.DestinationRule.{RoutingNames}
use knative_extensions_net_i.Reconciler.Loop.{reconcile_kind}
use knative_extensions_net_i.Reconciler.Status.{Marked, NotReady, reconcile_kind_lem}
use knative_extensions_net_i.Reconciler.Deleting.{
  deleted, deletion, cleanup_certificate_secrets_lem,
}
use knative_extensions_net_i.Tests.Library.{
  match_all, plain_helpers, cluster_network, plain_certificates, list_sets, knative_keys, by_uid,
  field_comparisons,
}
use knative_extensions_net_i.Tests.Objects.{
  cert_secret, cert_block, web_ingress, shared_gateway, one_gateway, istio_config, is_placeholder,
  is_placeholder_iff, gateway_service, meta_of,
}

abbrev is_yes {ℓ} : {A : Type ℓ} → Dec A → Bool
is_yes (yes a) = true
is_yes (no n) = false

is_yes_iff {ℓ} : {A : Type ℓ} (d : Dec A) → (is_yes d ≡ true) ↔ A
is_yes_iff (yes a) = (λ h. a, λ b. refl)
is_yes_iff (no n) = (λ h. absurd (cc h), λ b. absurd (n b))

server_lists_discrete : Discrete (List Server)
server_lists_discrete = hlevel ℕ_discrete

-- `cmp.Equal` on servers
abbrev same_server_lists : List Server → List Server → Bool
same_server_lists a b = is_yes (server_lists_discrete a b)

same_server_lists_iff : (a b : List Server) → (same_server_lists a b ≡ true) ↔ (a ≡ b)
same_server_lists_iff a b = is_yes_iff (server_lists_discrete a b)

abbrev empty_client : Client Secret
empty_client = record {
  find = λ ns name. err not_found;
  on_create = λ a. ok a;
  on_update = λ a. ok a;
}

abbrev stale_service : VirtualService
stale_service = record {
  meta = record (meta_of (bytes "shop") (bytes "old") (bytes "vs")) {
    owner_references = by_uid.new_controller_ref web_ingress.meta ∷ [];
  };
  spec = record { hosts = []; gateways = []; http = [] };
}

abbrev small_world : World
small_world = record {
  istio = istio_config;
  cluster_local_tls = false;
  internal_tls = false;
  recorder = true;
  secrets = empty_client;
  gateways = record {
    find = λ ns name. ok shared_gateway;
    on_create = λ a. ok a;
    on_update = λ a. ok a;
  };
  virtual_services = record {
    find = λ ns name. err not_found;
    on_create = λ a. ok a;
    on_update = λ a. ok a;
  };
  destination_rules = record {
    find = λ ns name. err not_found;
    on_create = λ a. ok a;
    on_update = λ a. ok a;
  };
  services = λ ns name. ok gateway_service;
  list_virtual_services = λ ns k v. ok (stale_service ∷ []);
  delete_virtual_service = λ ns name. ok tt;
  list_secrets = λ ns m. ok [];
  delete_secret = λ ns name. ok tt;
  set_defaults = λ ing. ing;
  nil_server = record placeholder_server { hosts = [] };
  is_ready = λ ing. false;
  probe = λ ing. ok true;
  aggregate = λ e es. e;
  same_servers = same_server_lists;
  is_placeholder = is_placeholder;
  same_servers_iff = same_server_lists_iff;
  is_placeholder_iff = is_placeholder_iff;
  new_secret_ref = by_uid.new_controller_ref;
  ingress_class_annotation_key = bytes "networking.knative.dev/ingress.class";
  istio_ingress_class_name = bytes "istio.ingress.networking.knative.dev";
}

no_servers_own : all (λ s. belongs_to_ingress s web_ingress) [] ≡ true
unfolding all
no_servers_own = refl

reconcile_ingress_servers_lem_example : Settles small_world web_ingress [] shared_gateway (
    reconcile_ingress_servers small_world web_ingress []
      (one_gateway (bytes "knative-ingress-gateway") (bytes "a.b.c")))
reconcile_ingress_servers_lem_example =
    reconcile_ingress_servers_lem small_world web_ingress []
      (one_gateway (bytes "knative-ingress-gateway") (bytes "a.b.c")) shared_gateway no_servers_own
      refl

abbrev old_deleted : Effect
old_deleted = on_virtual_service (delete (bytes "shop") (bytes "old"))

old_deleted_there :
    Member old_deleted (reconcile_virtual_services small_world web_ingress []).effects
unfolding reconcile_virtual_services elem
old_deleted_there = inl refl

reconcile_virtual_services-Obsolete_example :
    (kept : StringSet) × ((create_virtual_services small_world web_ingress list_sets.empty
        []).result
      ≡ ok kept)
    × Obsolete small_world web_ingress kept old_deleted
reconcile_virtual_services-Obsolete_example =
    reconcile_virtual_services-Obsolete small_world web_ingress [] old_deleted old_deleted_there
      refl

instance abbrev certificate_names : RoutingNames
certificate_names = record {
  serving_routing_cert = bytes "routing-serving-certs";
  data_plane_routing_san = bytes "kn-routing";
  data_plane_user_san = λ namespace. bytes "kn-user-" ++ namespace;
}

reconcile_kind_lem_example :
    Marked small_world
      (small_world.set_defaults web_ingress)
      (reconcile_kind small_world web_ingress)
    ⊎ NotReady small_world (reconcile_kind small_world web_ingress)
reconcile_kind_lem_example = reconcile_kind_lem small_world web_ingress

-- The API server refuses to delete.
abbrev refusing_world : World
refusing_world = record small_world {
  list_secrets = λ ns m. ok (cert_secret ∷ []);
  delete_secret = λ ns name. err (Error.external (bytes "forbidden"));
}

abbrev gateway_name_of_service : ServiceName
gateway_name_of_service = record {
  namespace = bytes "istio-system";
  name = bytes "istio-ingressgateway";
}

services_configured :
    get_ingress_gateway_svc_name_namespaces istio_config web_ingress.meta
    ≡ ok (gateway_name_of_service ∷ [])
unfolding get_ingress_gateway_svc_name_namespaces keep
services_configured = refl

web_has_tls :
    (should_reconcile_external_domain_tls web_ingress
      || should_reconcile_cluster_local_domain_tls web_ingress)
    ≡ true
unfolding should_reconcile_external_domain_tls should_reconcile_cluster_local_domain_tls
web_has_tls = refl

cleanup_certificate_secrets_lem_example :
    Member
      (deleted refusing_world cert_secret)
      (cleanup_certificate_secrets refusing_world web_ingress).effects
    × ((deletion refusing_world cert_secret ≡ ok tt)
        ⊎ ((e : Error) × ((cleanup_certificate_secrets refusing_world web_ingress).result ≡ err e)))
cleanup_certificate_secrets_lem_example =
    cleanup_certificate_secrets_lem refusing_world cert_block gateway_name_of_service cert_secret
      (cert_secret ∷ []) refl (inl refl) web_ingress (gateway_name_of_service ∷ [])
      services_configured (inl refl) (inl refl) web_has_tls

abbrev keeps_nothing : Result (Unit {0})
keeps_nothing = (reconcile_virtual_services small_world web_ingress []).result

nothing_fails : keeps_nothing ≡ ok tt
unfolding reconcile_virtual_services elem
nothing_fails = refl

old_owned : by_uid.is_controlled_by stale_service.meta web_ingress.meta ≡ true
unfolding str_eq
old_owned = refl

old_unwanted : wants_name small_world web_ingress [] (bytes "old") ≡ false
unfolding any
old_unwanted = refl

reconcile_virtual_services_complete_example :
    Member old_deleted (reconcile_virtual_services small_world web_ingress []).effects
    × (small_world.delete_virtual_service (bytes "shop") (bytes "old") ≡ ok tt)
reconcile_virtual_services_complete_example =
    reconcile_virtual_services_complete small_world web_ingress [] (stale_service ∷ [])
      knative_keys.ingress_label (bytes "web") stale_service nothing_fails (inl refl) refl
      (inl refl) old_owned old_unwanted

abbrev copy_name : Secret → GoString
copy_name origin = bytes "copy"

abbrev origins : GoMap Secret
origins = (bytes "certs/cert", cert_secret) ∷ []

abbrev made_copies : List Secret
made_copies = copies copy_name (gateway_name_of_service ∷ []) origins

copies_reconciled : (reconcile_cert_secrets small_world made_copies).result ≡ ok tt
unfolding reconcile_cert_secrets copies str_eq
copies_reconciled = refl

copy_is_made : Member (copy_of copy_name cert_secret gateway_name_of_service) made_copies
unfolding copies str_eq
copy_is_made = inl refl

reconcile_cert_secrets-Tracks_example :
    Tracks small_world origins
      (copy_of copy_name cert_secret gateway_name_of_service)
      (reconcile_cert_secrets small_world made_copies)
reconcile_cert_secrets-Tracks_example =
    reconcile_cert_secrets-Tracks small_world copy_name (gateway_name_of_service ∷ []) origins
      (copy_of copy_name cert_secret gateway_name_of_service) copies_reconciled copy_is_made
