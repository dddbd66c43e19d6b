-- ===== src/Lister/Hosts.antt =====
-- `ListProbeTargets` of lister.go: the hosts of the targets, and the index that could panic.
use knative_extensions_net_i.Base.{
  ◌≡◌, ◌≢◌, refl, some, List, [], ◌∷◌, ◌++◌, ok, wrap_error, map, Bool-cases, inl, inr, Member,
  Member-append_cases, wrap_error-eq-ok, sym, ◌∙◌,
}
use knative_extensions_net_i.Base.Sort.{Member-of_sort}
use knative_extensions_net_i.GoString.{GoString, str_eq, str_eq_refl}
use knative_extensions_net_i.GoString.Order.{sort_strings}
use knative_extensions_net_i.Api.{GoMap, lookup, Ingress, Gateway}
use knative_extensions_net_i.Platform.{SetLib, StringSet}
use knative_extensions_net_i.Resources.VirtualService.{GatewayNames}
use knative_extensions_net_i.Resources.VirtualService.Prefixes.{Member-of_has}
use knative_extensions_net_i.Lister.{
  ProbeTarget, ProbeHelpers, ProbeListers, value, panic, answer, qualify, qualify_all, hosts_of,
  get_gateway, list_gateway_targets, targets_from, sorted_keys, Selectors, IstioConfig,
  list_probe_targets, qualified_gateway_names_from_context,
}
use knative_extensions_net_i.Lister.Answers.{
  >>=-eq-value, >>=-eq-panic, answer-ne-panic, answer-eq-value,
}

-- A key of a map has an entry.
lookup_of_key {ℓ} :
    {V : Type ℓ} (k : GoString) (m : GoMap V)
    → Member k (map (λ (entry : GoString × V). entry.0) m)
    → (v : V) × (lookup k m ≡ some v)
unfolding lookup
lookup_of_key k [] h = elim h [ ]
lookup_of_key k ((j, v) ∷ m) (inl e) = (v, rw (← e, str_eq_refl k) refl)
lookup_of_key k ((j, v) ∷ m) (inr h) = elim (Bool-cases (str_eq j k)) [
  | inl e ↦ (v, rw e refl)
  | inr e ↦ let (w, f) = lookup_of_key k m h in (w, rw e f)
]

module _ ⦃sets : SetLib⦄ where
  -- The Gateway's set of hosts is there, and has a host.
  abbrev pub HasHost : GoMap StringSet → GoString → Type 0
  HasHost hosts_by_gateway name =
      (host : GoString) × (rest : List GoString) × (hosts_of (lookup name hosts_by_gateway)
        ≡ host ∷ rest)

  nonempty_list :
      (xs : List GoString) (x : GoString)
      → Member x xs
      → (host : GoString) × (rest : List GoString) × (xs ≡ host ∷ rest)
  nonempty_list [] x m = elim m [ ]
  nonempty_list (y ∷ ys) x m = (y, ys, refl)

  module _ ⦃helpers : ProbeHelpers⦄ where
    present_host :
        (ing : Ingress) (names : GatewayNames) (name : GoString)
        → Member name (sorted_keys (helpers.hosts_per_visibility ing names))
        → HasHost (helpers.hosts_per_visibility ing names) name
    unfolding sorted_keys sort_strings hosts_of
    present_host ing names name m =
        let by_gateway = helpers.hosts_per_visibility ing names in
        let (hosts, e) =
          lookup_of_key name by_gateway (
            Member-of_sort _ name (map (λ (entry : GoString × StringSet). entry.0) by_gateway) m) in
        let (h, k) = helpers.hosts_present ing names name hosts e in
        rw e (
          nonempty_list (sets.to_list hosts) h
            (Member-of_has hosts h (sym (sets.elem-keys hosts h) ∙ k)))

    qualify_all-ne-panic :
        (host : GoString) (rest : List GoString) (targets : List ProbeTarget)
        → qualify_all (host ∷ rest) targets ≢ panic
    unfolding qualify_all
    qualify_all-ne-panic host rest [] h = cc
    qualify_all-ne-panic host rest (t ∷ targets) h = cc

    Member-of_map :
        (f : ProbeTarget → ProbeTarget) (t : ProbeTarget) (ts : List ProbeTarget)
        → Member t (map f ts)
        → (t' : ProbeTarget) × Member t' ts × (t ≡ f t')
    Member-of_map f t [] m = elim m [ ]
    Member-of_map f t (s ∷ ts) (inl e) = (s, inl refl, e)
    Member-of_map f t (s ∷ ts) (inr m) = let (u, k, e) = Member-of_map f t ts m in (u, inr k, e)

    qualified_targets :
        (hosts : List GoString) (targets qualified : List ProbeTarget) (t : ProbeTarget)
        → qualify_all hosts targets ≡ value qualified
        → Member t qualified
        → (host : GoString) × (t' : ProbeTarget) × (rest : List GoString) × (hosts ≡ host ∷ rest)
          × Member t' targets
          × (t ≡ qualify host t')
    unfolding qualify_all
    qualified_targets hosts [] qualified t h m =
        let e : [] ≡ qualified = cc h in elim (rw (← e) at m) [ ]
    qualified_targets [] (x ∷ targets) qualified t h m = absurd (cc h)
    qualified_targets (host ∷ hosts) (x ∷ targets) qualified t h m =
        let e : map (qualify host) (x ∷ targets) ≡ qualified = cc h in
        let (u, k, q) = Member-of_map (qualify host) t (x ∷ targets) (rw (← e) at m) in
        (host, u, hosts, refl, k, q)

    module _ (listers : ProbeListers) (hosts_by_gateway : GoMap StringSet) where
      targets_from-ne-panic :
          (names : List GoString)
          → ((name : GoString) → Member name names → HasHost hosts_by_gateway name)
          → targets_from listers hosts_by_gateway names ≢ panic
      unfolding targets_from
      targets_from-ne-panic [] present h = cc
      targets_from-ne-panic (name ∷ names) present h =
          elim (>>=-eq-panic
            (answer (wrap_error "failed to get Gateway %q: %w" (get_gateway listers name))) _ h) [
              | inl p ↦ answer-ne-panic _ p
              | inr (gateway, e, k) ↦
                  elim (>>=-eq-panic
                    (answer (
                      wrap_error "failed to list the probing URLs of Gateway %q: %w"
                        (list_gateway_targets listers gateway)))
                    _ k) [
                      | inl p ↦ answer-ne-panic _ p
                      | inr (targets, f, l) ↦
                          elim (>>=-eq-panic
                            (qualify_all (hosts_of (lookup name hosts_by_gateway)) targets) _ l) [
                              | inl p ↦
                                  let (host, rest, q) = present name (inl refl) in
                                  qualify_all-ne-panic host rest targets (rw q at p)
                              | inr (qualified, g, n) ↦
                                  elim (>>=-eq-panic (targets_from listers hosts_by_gateway names) _
                                    n) [
                                      | inl p ↦
                                          targets_from-ne-panic names (λ x m. present x (inr m)) p
                                      | inr (rest, a, b) ↦ cc b
                                    ]
                            ]
                    ]
            ]

      -- A target of a Gateway, for the first of the Gateway's hosts.
      pub record Targets (names : List GoString) (t : ProbeTarget) : Type 0 where
        pub name : GoString
        pub gateway : Gateway
        pub targets : List ProbeTarget
        pub target : ProbeTarget
        pub host : GoString
        pub hosts : List GoString
        pub named : Member name names
        pub found : get_gateway listers name ≡ ok gateway
        pub listed : list_gateway_targets listers gateway ≡ ok targets
        pub member : Member target targets
        pub hosted : hosts_of (lookup name hosts_by_gateway) ≡ host ∷ hosts
        pub made : t ≡ qualify host target

      Targets-weaken :
          (names : List GoString) (n : GoString) (t : ProbeTarget)
          → Targets names t
          → Targets (n ∷ names) t
      Targets-weaken names n t p = record {
        name = p.name;
        gateway = p.gateway;
        targets = p.targets;
        target = p.target;
        host = p.host;
        hosts = p.hosts;
        named = inr p.named;
        found = p.found;
        listed = p.listed;
        member = p.member;
        hosted = p.hosted;
        made = p.made;
      }

      targets_from-Targets :
          (names : List GoString) (ts : List ProbeTarget) (t : ProbeTarget)
          → targets_from listers hosts_by_gateway names ≡ value ts
          → Member t ts
          → Targets names t
      unfolding targets_from
      targets_from-Targets [] ts t h m = let e : [] ≡ ts = cc h in elim (rw (← e) at m) [ ]
      targets_from-Targets (name ∷ names) ts t h m =
          let (gateway, e, h1) =
            >>=-eq-value
              (answer (wrap_error "failed to get Gateway %q: %w" (get_gateway listers name))) _ h in
          let (targets, f, h2) =
            >>=-eq-value
              (answer (
                wrap_error "failed to list the probing URLs of Gateway %q: %w"
                  (list_gateway_targets listers gateway)))
              _ h1 in
          let (qualified, g, h3) =
            >>=-eq-value (qualify_all (hosts_of (lookup name hosts_by_gateway)) targets) _ h2 in
          let (rest, k, h4) = >>=-eq-value (targets_from listers hosts_by_gateway names) _ h3 in
          let all_of : qualified ++ rest ≡ ts = cc h4 in
          elim (Member-append_cases t qualified rest (rw (← all_of) at m)) [
            | inl here ↦
                let (host, u, rest_hosts, a, b, c) =
                  qualified_targets (hosts_of (lookup name hosts_by_gateway)) targets qualified t g
                    here in
                record {
                  name = name;
                  gateway = gateway;
                  targets = targets;
                  target = u;
                  host = host;
                  hosts = rest_hosts;
                  named = inl refl;
                  found = wrap_error-eq-ok _ _ (answer-eq-value _ e);
                  listed = wrap_error-eq-ok _ _ (answer-eq-value _ f);
                  member = b;
                  hosted = a;
                  made = c;
                }
            | inr later ↦ Targets-weaken names name t (targets_from-Targets names rest t k later)
          ]

    module _ ⦃selectors : Selectors⦄ (listers : ProbeListers) (conf : IstioConfig)
        (ing : Ingress) where
      -- ListProbeTargets takes the first host of no empty set, and so never panics.
      pub list_probe_targets-ne-panic : list_probe_targets listers conf ing ≢ panic
      unfolding list_probe_targets
      list_probe_targets-ne-panic h =
          elim (>>=-eq-panic
            (answer (
              wrap_error "failed to get gateways for ingress: %w"
                (qualified_gateway_names_from_context conf ing.meta)))
            _ h) [
              | inl p ↦ answer-ne-panic _ p
              | inr (names, e, k) ↦
                  targets_from-ne-panic listers (helpers.hosts_per_visibility ing names)
                    (sorted_keys (helpers.hosts_per_visibility ing names)) (present_host ing names)
                    k
            ]

      -- Where ListProbeTargets succeeds, each target is one that listGatewayTargets has
      -- for the Gateway of a name that HostsPerVisibility gives, with the first host of
      -- this Gateway and the port in its URL.
      pub list_probe_targets-Targets :
          (names : GatewayNames) (ts : List ProbeTarget) (t : ProbeTarget)
          → qualified_gateway_names_from_context conf ing.meta ≡ ok names
          → list_probe_targets listers conf ing ≡ value ts
          → Member t ts
          → Targets listers
              (helpers.hosts_per_visibility ing names)
              (sorted_keys (helpers.hosts_per_visibility ing names))
              t
      unfolding list_probe_targets
      list_probe_targets-Targets names ts t e h m =
          let (names', f, k) =
            >>=-eq-value
              (answer (
                wrap_error "failed to get gateways for ingress: %w"
                  (qualified_gateway_names_from_context conf ing.meta)))
              _ h in
          let g = wrap_error-eq-ok _ _ (answer-eq-value _ f) in
          let both : ok names' ≡ ok names = sym g ∙ e in
          let same : names' ≡ names = cc both in
          targets_from-Targets listers (helpers.hosts_per_visibility ing names)
            (sorted_keys (helpers.hosts_per_visibility ing names)) ts t (rw same at k) m
