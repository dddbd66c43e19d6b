-- ===== src/Resources/VirtualService/Routes.antt =====
-- resources/virtual_service.go: rules, host prefixes, matches and routes.
use knative_extensions_net_i.Base.{
  ◌%◌, ◌^◌, Bool, true, false, not, Option, none, some, List, [], ◌∷◌, ◌++◌, if◌then◌else◌, any,
  keep, map, ◌==◌, length,
}
use knative_extensions_net_i.GoString.{GoString, bytes, str_eq, has_prefix, has_suffix, trim_suffix}
use knative_extensions_net_i.Api.{
  Ingress, IngressRule, HttpIngressPath, BackendSplit, Visibility, external_ip, cluster_local,
  StringMap, StringMatch, exact, prefix, HttpMatchRequest, RouteDestination, HttpRoute,
}
use knative_extensions_net_i.Platform.{SetLib, StringSet, Network}

-- `RouteLabelKey` and `RouteNamespaceLabelKey` of resources/util.go
abbrev pub route_label_key : GoString
route_label_key = bytes "serving.knative.dev/route"

abbrev pub route_namespace_label_key : GoString
route_namespace_label_key = bytes "serving.knative.dev/routeNamespace"

-- `map[v1alpha1.IngressVisibility]sets.Set[string]`: the controller sets no other keys.
pub record GatewayNames : Type 0 where
  pub external : StringSet
  pub local : StringSet

unfoldable pub is_cluster_local : Visibility → Bool
is_cluster_local cluster_local = true
is_cluster_local _ = false

-- external, or the empty string
unfoldable pub is_public : Visibility → Bool
is_public external_ip = true
is_public cluster_local = false
is_public (Visibility.other v) = str_eq v []

-- `getClusterLocalIngressRules`
unfoldable pub get_cluster_local_ingress_rules : Ingress → List IngressRule
unfolding is_cluster_local
get_cluster_local_ingress_rules ing = keep (λ r. is_cluster_local r.visibility) ing.rules

-- `getPublicIngressRules`
unfoldable pub get_public_ingress_rules : Ingress → List IngressRule
unfolding is_public
get_public_ingress_rules ing = keep (λ r. is_public r.visibility) ing.rules

-- a set header operation, for a map that is not empty
unfoldable pub header_operations : StringMap → Option StringMap
header_operations [] = none
header_operations (h ∷ hs) = some (h ∷ hs)

-- The loop over the headers of `makeMatch`: each round replaces the whole map.
unfoldable pub match_headers :
    List (GoString × StringMatch) → StringMap → List (GoString × StringMatch)
match_headers set [] = set
match_headers set ((k, v) ∷ headers) = match_headers ((k, exact v) ∷ []) headers

-- a URI match, for a path that is not empty
unfoldable pub match_uri : GoString → Option StringMatch
match_uri [] = none
match_uri (c ∷ path) = some (prefix (c ∷ path))

-- a rewrite, for a host that is not empty
unfoldable pub rewrite_to : GoString → Option GoString
rewrite_to [] = none
rewrite_to (c ∷ host) = some (c ∷ host)

module _ ⦃net : Network⦄ where
  -- `".svc." + network.GetClusterDomainName()`
  abbrev pub local_suffix : GoString
  local_suffix = bytes ".svc." ++ net.cluster_domain

  -- `VirtualServiceNamespace(ing)`
  unfoldable pub virtual_service_namespace : Ingress → GoString
  virtual_service_namespace ing =
      if length ing.meta.namespace == 0 then net.system_namespace else ing.meta.namespace

  -- `hostPrefix(host)`
  unfoldable pub host_prefix : GoString → GoString
  unfolding has_suffix trim_suffix
  host_prefix host =
      if not (has_suffix host local_suffix) then host else trim_suffix host local_suffix

  -- one destination of a route: `uint32` of the port and `int32` of the percentage, as bit patterns
  unfoldable pub destination : BackendSplit → RouteDestination
  unfolding header_operations
  destination split = record {
    host = net.service_hostname split.service_name split.service_namespace;
    subset = [];
    port = some (split.service_port % 2 ^ 32);
    weight = split.percent % 2 ^ 32;
    headers = header_operations split.append_headers;
  }

module _ ⦃sets : SetLib⦄ where
  -- `gateways[visibility]`, the nil set for any other key
  unfoldable pub gateways_at : GatewayNames → Visibility → StringSet
  gateways_at gateways external_ip = gateways.external
  gateways_at gateways cluster_local = gateways.local
  gateways_at gateways (Visibility.other v) = sets.empty

  -- `makeMatch(host, path, headers, gateways)`
  unfoldable pub make_match : GoString → GoString → StringMap → StringSet → HttpMatchRequest
  unfolding match_headers match_uri
  make_match host path headers gateways = record {
    gateways = sets.to_list gateways;
    authority = some (prefix host);
    uri = match_uri path;
    headers = match_headers [] headers;
  }

  -- `getHosts(ing)`
  unfoldable pub get_hosts_from : StringSet → List IngressRule → StringSet
  get_hosts_from hosts [] = hosts
  get_hosts_from hosts (rule ∷ rules) = get_hosts_from (sets.insert hosts rule.hosts) rules

  unfoldable pub get_hosts : Ingress → StringSet
  unfolding get_hosts_from
  get_hosts ing = get_hosts_from sets.empty ing.rules

  module _ ⦃net : Network⦄ where
    -- the loop of `getDistinctHostPrefixes` over the sorted hosts
    unfoldable pub distinct_from : StringSet → List GoString → StringSet
    unfolding host_prefix has_prefix any
    distinct_from ns [] = ns
    distinct_from ns (h ∷ hosts) =
        distinct_from
          (if any (has_prefix (host_prefix h)) ns.keys
            then ns
            else sets.insert ns (host_prefix h ∷ []))
          hosts

    -- `getDistinctHostPrefixes(hosts)`
    unfoldable pub get_distinct_host_prefixes : StringSet → StringSet
    unfolding distinct_from
    get_distinct_host_prefixes hosts = distinct_from sets.empty (sets.to_list hosts)

    -- `keepLocalHostnames(hosts)`
    unfoldable pub keep_local_hostnames : StringSet → StringSet
    unfolding has_suffix
    keep_local_hostnames hosts =
        sets.insert sets.empty (keep (λ h. has_suffix h local_suffix) (sets.to_list hosts))

    -- `makeVirtualServiceRoute`
    unfoldable pub make_virtual_service_route :
        StringSet → HttpIngressPath → GatewayNames → Visibility → HttpRoute
    unfolding get_distinct_host_prefixes make_match gateways_at destination rewrite_to
        header_operations
    make_virtual_service_route hosts http gateways visibility = record {
      matches =
          map (λ host. make_match host http.path http.headers (gateways_at gateways visibility))
            (sets.to_list (get_distinct_host_prefixes hosts));
      route = map destination http.splits;
      rewrite = rewrite_to http.rewrite_host;
      headers = header_operations http.append_headers;
      retries = some 0;
    }
