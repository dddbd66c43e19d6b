-- ===== src/ServerlessService/Routing.antt =====
-- Where Istio sends a request to a private service, by the two objects of the reconciler.
use knative_extensions_net_i.Base.{
  if◌then◌else◌, ◌≡◌, refl, Bool, true, false, none, some, List, [], ◌∷◌, Option, any, Bool-cases,
  ◌&&◌, inl, Member, inr,
}
use knative_extensions_net_i.GoString.{GoString, bytes, str_eq, has_prefix}
use knative_extensions_net_i.Api.{
  ServerlessService, lookup, GoMap, HttpMatchRequest, HttpRoute, LoadBalancer, StringMap,
  StringMatch, exact, RouteDestination, least_request, prefix, Subset,
}
use knative_extensions_net_i.Platform.{Network, Kmeta}
use knative_extensions_net_i.ServerlessService.{
  make_virtual_service, make_destination_rule, RequestHeaders, direct_route, to_subset,
  subset_direct, subset_route, subset_normal,
}

pub record Request : Type 0 where
  pub authority : GoString
  pub path : GoString
  pub headers : StringMap

-- The semantics of an Istio VirtualService: the first route with a match, or without matches.
abbrev pub string_accepts : StringMatch → GoString → Bool
string_accepts (exact s) v = str_eq v s
string_accepts (prefix s) v = has_prefix v s

abbrev pub value_accepts : StringMatch → Option GoString → Bool
value_accepts m none = false
value_accepts m (some v) = string_accepts m v

abbrev pub field_accepts : Option StringMatch → GoString → Bool
field_accepts none v = true
field_accepts (some m) v = string_accepts m v

abbrev pub headers_accept : GoMap StringMatch → StringMap → Bool
headers_accept [] headers = true
headers_accept ((key, m) ∷ ms) headers =
    value_accepts m (lookup key headers) && headers_accept ms headers

abbrev pub match_accepts : Request → HttpMatchRequest → Bool
match_accepts request m =
    field_accepts m.authority request.authority
    && (field_accepts m.uri request.path && headers_accept m.headers request.headers)

abbrev pub route_accepts : List HttpMatchRequest → Request → Bool
route_accepts [] request = true
route_accepts (m ∷ ms) request = any (match_accepts request) (m ∷ ms)

abbrev pub served_by : List HttpRoute → Request → Option HttpRoute
served_by [] request = none
served_by (route ∷ routes) request =
    let rest = served_by routes request in
    if route_accepts route.matches request then some route else rest

module _ ⦃net : Network⦄ ⦃kmeta : Kmeta⦄ ⦃headers : RequestHeaders⦄ where
  -- A request asks for its pod where its header has the value "true".
  abbrev pub asks_for_pod : Request → Bool
  asks_for_pod request =
      value_accepts (exact (bytes "true"))
        (lookup headers.passthrough_loadbalancing request.headers)

  abbrev pub balanced : Bool → LoadBalancer
  balanced true = LoadBalancer.passthrough
  balanced false = least_request

  -- The request goes to one destination: the private service's host, in a subset that the
  -- DestinationRule of the same host has, under the load balancer that the request asks for.
  pub record Balanced (sks : ServerlessService) (request : Request) : Type 0 where
    pub route : HttpRoute
    pub goes_to : RouteDestination
    pub subset : Subset
    pub served : served_by (make_virtual_service sks).spec.http request ≡ some route
    pub sole : route.route ≡ goes_to ∷ []
    pub same_host : goes_to.host ≡ (make_destination_rule sks).spec.host
    pub listed : Member subset (make_destination_rule sks).spec.subsets
    pub same_subset : subset.name ≡ goes_to.subset
    pub policy : subset.load_balancer ≡ balanced (asks_for_pod request)

  -- By the VirtualService of a private service each request goes to one destination, the host
  -- and a subset of the DestinationRule; the load balancer of the subset is PASSTHROUGH where
  -- the passthrough header has the value true, and else LEAST_REQUEST.
  pub make_virtual_service-Balanced :
      (sks : ServerlessService) (request : Request) → Balanced sks request
  unfolding make_virtual_service make_destination_rule any
  make_virtual_service-Balanced sks request = elim (Bool-cases (asks_for_pod request)) [
    | inl e ↦ record {
      route = direct_route sks;
      goes_to = to_subset sks subset_direct;
      subset = record { name = subset_direct; load_balancer = LoadBalancer.passthrough };
      served = rw e refl;
      sole = refl;
      same_host = refl;
      listed = inr (inl refl);
      same_subset = refl;
      policy = rw e refl;
    }
    | inr e ↦ record {
      route = subset_route sks subset_normal [];
      goes_to = to_subset sks subset_normal;
      subset = record { name = subset_normal; load_balancer = least_request };
      served = rw e refl;
      sole = refl;
      same_host = refl;
      listed = inl refl;
      same_subset = refl;
      policy = rw e refl;
    }
  ]
