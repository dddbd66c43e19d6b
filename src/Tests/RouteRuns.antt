-- ===== src/Tests/RouteRuns.antt =====
-- Runs of the theorems on VirtualServices.
use knative_extensions_net_i.Base.{◌≡◌, refl, true, false, List, [], ◌∷◌, any, arith, ◌&&◌}
use knative_extensions_net_i.GoString.{bytes, GoString, has_suffix, elem, str_eq→eq}
use knative_extensions_net_i.Api.{exact}
use knative_extensions_net_i.Platform.{StringSet}
use knative_extensions_net_i.Resources.VirtualService.{
  make_match, make_virtual_service_spec, get_distinct_host_prefixes, host_prefix, local_suffix,
}
use knative_extensions_net_i.Resources.VirtualService.Minimal.{
  is_minimal, get_distinct_host_prefixes-minimal,
}
use knative_extensions_net_i.Resources.VirtualService.Prefixes.{
  get_distinct_host_prefixes_cover, Covers,
}
use knative_extensions_net_i.Resources.VirtualService.Matching.{
  make_virtual_service_spec_gateways, make_match_last_header, names_gateway,
}
use knative_extensions_net_i.Resources.VirtualService.Children.{Children}
use knative_extensions_net_i.Tests.Library.{
  list_sets, knative_keys, by_uid, plain_helpers, cluster_network,
}
use knative_extensions_net_i.Tests.Objects.{web_ingress, gateway_names}
use knative_extensions_net_i.GoString.Order.{sort_strings}
use knative_extensions_net_i.Base.{drop}
use knative_extensions_net_i.Base.{take}

abbrev set_of : List GoString → StringSet
set_of xs = list_sets.insert list_sets.empty xs

abbrev web_hosts : StringSet
web_hosts = set_of (bytes "web.example.com" ∷ bytes "web.example.com:80" ∷ [])

-- Host and prefixes of two local hosts: the prefix that sorts first is not the shorter one.
abbrev local_hosts : StringSet
local_hosts = set_of (bytes "a-b.svc.cluster.local" ∷ bytes "a.svc.cluster.local" ∷ [])

local_prefixes :
    list_sets.to_list (get_distinct_host_prefixes local_hosts) ≡ bytes "a" ∷ bytes "a-b" ∷ []
unfolding get_distinct_host_prefixes sort_strings elem drop take
local_prefixes = refl

get_distinct_host_prefixes_cover_example :
    ((h : GoString)
      → list_sets.has web_hosts h ≡ true
      → Covers (get_distinct_host_prefixes web_hosts) h)
    × ((e : GoString)
        → list_sets.has (get_distinct_host_prefixes web_hosts) e ≡ true
        → (h : GoString) × (list_sets.has web_hosts h ≡ true) × (e ≡ host_prefix h))
get_distinct_host_prefixes_cover_example = get_distinct_host_prefixes_cover web_hosts

abbrev one_host_set : StringSet
one_host_set = record { keys = bytes "web.example.com" ∷ [] }

external_only :
    (h : GoString) → list_sets.has one_host_set h ≡ true → has_suffix h local_suffix ≡ false
unfolding elem has_suffix any
external_only h k = let e : h ≡ bytes "web.example.com" = str_eq→eq h _ (ground arith) in rw e refl

make_virtual_service_spec_gateways_example :
    elem
      (bytes "knative-serving/knative-ingress-gateway")
      (make_virtual_service_spec web_ingress gateway_names web_hosts).gateways
    ≡ any
        (names_gateway (bytes "knative-serving/knative-ingress-gateway"))
        (make_virtual_service_spec web_ingress gateway_names web_hosts).http
make_virtual_service_spec_gateways_example =
    make_virtual_service_spec_gateways web_ingress gateway_names web_hosts
      (bytes "knative-serving/knative-ingress-gateway")

make_match_last_header_example :
    (make_match
      (bytes "web.example.com")
      (bytes "/")
      ((bytes "first", bytes "1") ∷ (bytes "second", bytes "2") ∷ [])
      web_hosts).headers
    ≡ (bytes "second", exact (bytes "2")) ∷ []
make_match_last_header_example =
    make_match_last_header (bytes "web.example.com") (bytes "/") ((bytes "first", bytes "1") ∷ [])
      (bytes "second") (bytes "2") web_hosts

get_distinct_host_prefixes-minimal_example :
    list_sets.has (get_distinct_host_prefixes one_host_set) (bytes "web.example.com") ≡ (
      list_sets.has one_host_set (bytes "web.example.com")
      && is_minimal one_host_set (bytes "web.example.com"))
get_distinct_host_prefixes-minimal_example =
    get_distinct_host_prefixes-minimal one_host_set external_only (bytes "web.example.com")
