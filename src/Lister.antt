-- ===== src/Lister.antt =====
-- pkg/reconciler/ingress/lister.go: the targets that the status prober visits for an Ingress.
pub mod Targets
pub mod Keys
pub mod Complete
pub mod Once
pub mod Answers
pub mod Hosts
use knative_extensions_net_i.Base.{
  ℕ, ◌%◌, ◌^◌, Bool, true, false, not, ◌||◌, Option, none, some, List, [], ◌∷◌, ◌++◌, Result, ok,
  err, Error, errorf, wrapped, wrap_error, if◌then◌else◌, map, ◌≡◌,
}
use knative_extensions_net_i.GoString.{GoString, bytes, str_eq, elem}
use knative_extensions_net_i.GoString.Order.{sort_strings}
use knative_extensions_net_i.GoString.Decimal.{decimal}
use knative_extensions_net_i.Api.{
  GoMap, lookup, StringMap, Ingress, Server, ServerTls, mutual_tls, TlsMode, Gateway, Service,
  EndpointSubset, Endpoints,
}
use knative_extensions_net_i.Platform.{SetLib, StringSet, Selectors}
use knative_extensions_net_i.Config.{IstioConfig}
use knative_extensions_net_i.Resources.VirtualService.{GatewayNames}
use knative_extensions_net_i.Resources.Selection.{qualified_gateway_names_from_context}

-- `url.URL` with the two fields that the program sets
pub record Url : Type 0 where
  pub scheme : GoString
  pub host : GoString

-- `status.ProbeTarget`: the slice `URLs` has one element always.
pub record ProbeTarget : Type 0 where
  pub pod_ips : StringSet
  pub pod_port : GoString
  pub port : GoString
  pub url : Url

-- knative.dev/networking/pkg/k8s, knative.dev/networking/pkg/ingress and k8s.io/client-go/tools/cache
pub record ProbeHelpers : Type 0 where
  -- `k8s.NameForPortNumber(svc, int32(number))`, by the bit pattern of the number
  pub name_for_port_number : Service → ℕ → Result GoString
  -- `k8s.PortNumberForName(subset, name)`
  pub port_number_for_name : EndpointSubset → GoString → Result ℕ
  -- `cache.SplitMetaNamespaceKey(key)`: the namespace and the name
  pub split_meta_namespace_key : GoString → Result (GoString × GoString)
  -- `ingress.HostsPerVisibility(ing, names)`: it adds a key with its first host
  pub hosts_per_visibility : Ingress → GatewayNames → GoMap StringSet
  pub hosts_present :
      (ing : Ingress) (names : GatewayNames) (k : GoString) (hosts : StringSet)
      → lookup k (hosts_per_visibility ing names) ≡ some hosts
      → (h : GoString) × (elem h hosts.keys ≡ true)

-- The listers that the prober reads.
pub record ProbeListers : Type 0 where
  -- `gatewayLister.Gateways(namespace).Get(name)`
  pub gateway : GoString → GoString → Result Gateway
  -- `serviceLister.List(labels.SelectorFromSet(selector))`
  pub list_services : StringMap → Result (List Service)
  -- `endpointsLister.Endpoints(namespace).Get(name)`
  pub endpoints : GoString → GoString → Result Endpoints

-- What a call gives: a value, an error, or a panic where an index is out of range.
pub data Answer {ℓ} (A : Type ℓ) : Type ℓ where
  value : A → Answer A
  failure : Error → Answer A
  panic : Answer A

infixl 5 ◌>>=◌
abbrev pub ◌>>=◌ {κ ℓ} : {B : Type κ} {A : Type ℓ} → Answer A → (A → Answer B) → Answer B
value a >>= next = next a
failure e >>= next = failure e
panic >>= next = panic

abbrev pub answer {ℓ} : {A : Type ℓ} → Result A → Answer A
answer (ok a) = value a
answer (err e) = failure e

-- `server.Tls != nil && server.Tls.HttpsRedirect`
unfoldable pub redirects : Option ServerTls → Bool
redirects none = false
redirects (some tls) = tls.https_redirect

unfoldable pub is_mutual_mode : TlsMode → Bool
is_mutual_mode mutual_tls = true
is_mutual_mode _ = false

-- `server.GetTls().GetMode() == MUTUAL`: of nil the mode is PASSTHROUGH
unfoldable pub is_mutual : Option ServerTls → Bool
unfolding is_mutual_mode
is_mutual none = false
is_mutual (some tls) = is_mutual_mode tls.mode

-- the `switch` over the protocol: the scheme, or nothing where the server is skipped
unfoldable pub scheme_of : Server → Option GoString
unfolding redirects is_mutual str_eq
scheme_of server =
    if str_eq server.port.protocol (bytes "HTTP") || str_eq server.port.protocol (bytes "HTTP2")
    then (if redirects server.tls then none else some (bytes "http"))
    else if str_eq server.port.protocol (bytes "HTTPS")
    then (if is_mutual server.tls then none else some (bytes "https"))
    else none

-- `server.Port.Protocol + "/" + strconv.Itoa(int(server.Port.Number))`
unfoldable pub server_key : Server → GoString
unfolding decimal
server_key server = server.port.protocol ++ b'/' ∷ decimal server.port.number

-- `newURL.Host = host + ":" + target.Port`
unfoldable pub qualify : GoString → ProbeTarget → ProbeTarget
qualify host target = record target {
  url = record { scheme = target.url.scheme; host = host ++ b':' ∷ target.port };
}

-- the loop over the targets of a Gateway: `sets.List(hosts)[0]` panics where there is no host
unfoldable pub qualify_all : List GoString → List ProbeTarget → Answer (List ProbeTarget)
unfolding qualify
qualify_all hosts [] = value []
qualify_all [] (target ∷ targets) = panic
qualify_all (host ∷ hosts) (target ∷ targets) = value (map (qualify host) (target ∷ targets))

module _ ⦃sets : SetLib⦄ where
  -- `sets.List(hostsByGateway[name])`: of a missing key the set is nil
  unfoldable pub hosts_of : Option StringSet → List GoString
  hosts_of none = []
  hosts_of (some hosts) = sets.to_list hosts

  -- the sorted keys of a map
  unfoldable pub sorted_keys : GoMap StringSet → List GoString
  unfolding sort_strings
  sorted_keys m = sort_strings (map (λ (entry : GoString × StringSet). entry.0) m)

module _ ⦃sets : SetLib⦄ ⦃helpers : ProbeHelpers⦄ where
  -- the target of a subset, at the number of its port
  unfoldable pub make_target : Server → GoString → EndpointSubset → ℕ → ProbeTarget
  unfolding decimal
  make_target server scheme sub number = record {
    pod_ips = sets.insert sets.empty sub.addresses;
    pod_port = decimal number;
    port = decimal server.port.number;
    url = record { scheme = scheme; host = [] };
  }

  -- the loop over the subsets of the endpoints
  unfoldable pub subset_targets :
      Server → GoString → GoString → List EndpointSubset → List ProbeTarget
  unfolding make_target
  subset_targets server scheme port_name [] = []
  subset_targets server scheme port_name (sub ∷ subsets) =
      let rest = subset_targets server scheme port_name subsets in
      elim (helpers.port_number_for_name sub port_name) [
        | err e ↦ rest
        | ok number ↦ make_target server scheme sub number ∷ rest
      ]

  unfoldable pub named_port : GoString → Result GoString → Option (GoString × GoString)
  named_port scheme (err e) = none
  named_port scheme (ok port_name) = some (scheme, port_name)

  unfoldable pub schemed_port : Service → Server → Option GoString → Option (GoString × GoString)
  unfolding named_port
  schemed_port service server none = none
  schemed_port service server (some scheme) =
      named_port scheme (helpers.name_for_port_number service (server.port.number % 2 ^ 32))

  -- what a server needs to be probed: its scheme and the name of the service's port
  unfoldable pub probed_as : Service → Server → Option (GoString × GoString)
  unfolding scheme_of schemed_port
  probed_as service server = schemed_port service server (scheme_of server)

  -- the loop over the servers, with `seen`
  unfoldable pub server_targets :
      Service → List EndpointSubset → StringSet → List Server → List ProbeTarget
  unfolding probed_as server_key subset_targets
  server_targets service subsets seen [] = []
  server_targets service subsets seen (server ∷ servers) =
      let skip = server_targets service subsets seen servers in
      let after =
        server_targets service subsets (sets.insert seen (server_key server ∷ [])) servers in
      elim (probed_as service server) [
        | none ↦ skip
        | some (scheme, port_name) ↦
            if sets.has seen (server_key server)
            then skip
            else subset_targets server scheme port_name subsets ++ after
      ]

  module _ (listers : ProbeListers) where
    -- the rest of `listGatewayTargets` with the services that were listed: the first one counts
    unfoldable pub targets_of_services : Gateway → List Service → Result (List ProbeTarget)
    unfolding server_targets
    targets_of_services gateway [] = ok []
    targets_of_services gateway (service ∷ services) =
        elim (listers.endpoints service.meta.namespace service.meta.name) [
          | err e ↦ err (wrapped "failed to get Endpoints: %w" e)
          | ok endpoints ↦ ok (server_targets service endpoints.subsets sets.empty gateway.servers)
        ]

    -- `listGatewayTargets(gateway)`
    unfoldable pub list_gateway_targets : Gateway → Result (List ProbeTarget)
    unfolding targets_of_services
    list_gateway_targets gateway = elim (listers.list_services gateway.selector) [
      | err e ↦ err (wrapped "failed to list Services: %w" e)
      | ok services ↦ targets_of_services gateway services
    ]

    -- `getGateway(name)`
    unfoldable pub get_gateway : GoString → Result Gateway
    unfolding str_eq
    get_gateway name = elim (helpers.split_meta_namespace_key name) [
      | err e ↦ err (wrapped "failed to parse Gateway name %q: %w" e)
      | ok (namespace, short_name) ↦
          if str_eq namespace []
          then err (errorf "unexpected unqualified Gateway name %q" (short_name ∷ []))
          else listers.gateway namespace short_name
    ]

    -- the loop over the sorted names of the Gateways
    unfoldable pub targets_from : GoMap StringSet → List GoString → Answer (List ProbeTarget)
    unfolding get_gateway list_gateway_targets qualify_all hosts_of lookup
    targets_from hosts_by_gateway [] = value []
    targets_from hosts_by_gateway (name ∷ names) = do
      gateway ← answer (wrap_error "failed to get Gateway %q: %w" (get_gateway name))
      targets ← answer (
          wrap_error "failed to list the probing URLs of Gateway %q: %w"
            (list_gateway_targets gateway))
      qualified ← qualify_all (hosts_of (lookup name hosts_by_gateway)) targets
      rest ← targets_from hosts_by_gateway names
      value (qualified ++ rest)

    -- `ListProbeTargets(ctx, ing)`
    unfoldable pub list_probe_targets :
        ⦃selectors : Selectors⦄ → IstioConfig → Ingress → Answer (List ProbeTarget)
    unfolding qualified_gateway_names_from_context targets_from sorted_keys
    list_probe_targets conf ing = do
      names ← answer (
          wrap_error "failed to get gateways for ingress: %w"
            (qualified_gateway_names_from_context conf ing.meta))
      targets_from (helpers.hosts_per_visibility ing names)
          (sorted_keys (helpers.hosts_per_visibility ing names))
