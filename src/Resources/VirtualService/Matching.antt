-- ===== src/Resources/VirtualService/Matching.antt =====
-- The routes of a VirtualService: what they match, and which Gateways they use.
use knative_extensions_net_i.Base.{
  ◌≡◌, refl, true, some, List, [], ◌∷◌, ◌++◌, Member, Member-map, Bool, any, ◌∙◌, ap, arith, ◌||◌,
}
use knative_extensions_net_i.GoString.{GoString, has_prefix, elem}
use knative_extensions_net_i.Api.{
  IngressRule, HttpIngressPath, StringMap, StringMatch, exact, prefix, HttpMatchRequest, HttpRoute,
  Ingress,
}
use knative_extensions_net_i.Platform.{SetLib, StringSet, Network}
use knative_extensions_net_i.Resources.VirtualService.{
  GatewayNames, gateways_at, match_headers, make_match, host_prefix, get_distinct_host_prefixes,
  make_virtual_service_route, add_gateways, all_routes, make_virtual_service_spec, used_gateways,
}
use knative_extensions_net_i.Resources.VirtualService.Prefixes.{
  get_distinct_host_prefixes_cover, Member-of_has,
}

match_headers_last :
    (set : List (GoString × StringMatch)) (headers : StringMap) (k v : GoString)
    → match_headers set (headers ++ (k, v) ∷ []) ≡ (k, exact v) ∷ []
unfolding match_headers
match_headers_last set [] k v = refl
match_headers_last set ((j, w) ∷ headers) k v = match_headers_last ((j, exact w) ∷ []) headers k v

-- However many headers a path asks for, the match demands only the one that the loop over them
-- visits last.
pub make_match_last_header :
    ⦃sets : SetLib⦄ (host path : GoString) (headers : StringMap) (k v : GoString)
    (gateways : StringSet)
    → (make_match host path (headers ++ (k, v) ∷ []) gateways).headers ≡ (k, exact v) ∷ []
unfolding make_match
make_match_last_header host path headers k v gateways = match_headers_last [] headers k v

module _ ⦃sets : SetLib⦄ ⦃net : Network⦄ where
  -- A match of the route takes every authority that begins with the host's prefix.
  abbrev pub Accepts : HttpRoute → GoString → Type 0
  Accepts route h =
      (m : HttpMatchRequest) × (e : GoString) × Member m route.matches
      × (m.authority ≡ some (prefix e))
      × (has_prefix (host_prefix h) e ≡ true)

  -- Every host of a route's hosts is accepted by one of its matches.
  pub make_virtual_service_route-Accepts :
      (hosts : StringSet) (http : HttpIngressPath) (rule : IngressRule) (gateways : GatewayNames)
      (h : GoString)
      → sets.has hosts h ≡ true
      → Accepts (make_virtual_service_route hosts http gateways rule.visibility) h
  unfolding make_virtual_service_route make_match
  make_virtual_service_route-Accepts hosts http rule gateways h k =
      let (e, m, p) = (get_distinct_host_prefixes_cover hosts).0 h k in
      let f = λ (host : GoString).
        make_match host http.path http.headers (gateways_at gateways rule.visibility) in
      (
        f e,
        e,
        Member-map f e (sets.to_list (get_distinct_host_prefixes hosts))
            (Member-of_has (get_distinct_host_prefixes hosts) e m),
        refl,
        p,
      )

  -- Whether a match of a route names a Gateway.
  abbrev pub names_gateway : GoString → HttpRoute → Bool
  names_gateway g route = any (λ (m : HttpMatchRequest). elem g m.gateways) route.matches

  add_gateways_has :
      (gw : StringSet) (matches : List HttpMatchRequest) (g : GoString)
      → sets.has (add_gateways gw matches) g
        ≡ (sets.has gw g || any (λ (m : HttpMatchRequest). elem g m.gateways) matches)
  unfolding add_gateways any
  add_gateways_has gw [] g = ground arith
  add_gateways_has gw (m ∷ matches) g =
      let one = sets.insert sets.empty m.gateways in
      ground (
        arith,
        add_gateways_has (sets.union gw one) matches g,
        sets.has-union gw one g,
        sets.has-insert sets.empty m.gateways g,
        sets.has-empty g,
      )

  used_gateways_has :
      (gw : StringSet) (routes : List HttpRoute) (g : GoString)
      → sets.has (used_gateways gw routes) g ≡ (sets.has gw g || any (names_gateway g) routes)
  unfolding used_gateways any
  used_gateways_has gw [] g = ground arith
  used_gateways_has gw (r ∷ routes) g = ground (
    arith,
    used_gateways_has (add_gateways gw r.matches) routes g,
    add_gateways_has gw r.matches g,
  )

  -- The Gateways of a VirtualService are just those that the matches of its routes name.
  pub make_virtual_service_spec_gateways :
      (ing : Ingress) (gateways : GatewayNames) (hosts : StringSet) (g : GoString)
      → elem g (make_virtual_service_spec ing gateways hosts).gateways
        ≡ any (names_gateway g) (make_virtual_service_spec ing gateways hosts).http
  unfolding make_virtual_service_spec
  make_virtual_service_spec_gateways ing gateways hosts g =
      let routes = all_routes hosts gateways ing.rules in
      sets.elem-to_list (used_gateways sets.empty routes) g
      ∙ used_gateways_has sets.empty routes g
      ∙ ap (λ (b : Bool). b || any (names_gateway g) routes) (sets.has-empty g)
