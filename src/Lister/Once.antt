-- ===== src/Lister/Once.antt =====
-- `listGatewayTargets` of lister.go: which servers it visits, and how many targets it gives.
use knative_extensions_net_i.Base.{
  ℕ, ◌+◌, ◌≡◌, refl, sym, ap, ◌∙◌, ◌↔◌, Bool, true, false, not, ◌&&◌, ◌||◌, none, some, List, [],
  ◌∷◌, ◌++◌, ok, err, Bool-cases, Option-cases, Result-cases, inl, inr, Member, arith, all, any,
  all_imp, map, keep, length, length-append, suc,
}
use knative_extensions_net_i.GoString.{GoString, elem, str_eq, str_eq_refl, str_eq_iff}
use knative_extensions_net_i.Api.{Server, Service, EndpointSubset, Endpoints, Gateway}
use knative_extensions_net_i.Platform.{SetLib, StringSet}
use knative_extensions_net_i.Lister.{
  ProbeTarget, ProbeHelpers, ProbeListers, subset_targets, probed_as, server_targets, server_key,
  list_gateway_targets,
}
use knative_extensions_net_i.Lister.Targets.{Probes}
use knative_extensions_net_i.Lister.Keys.{in_range}
use knative_extensions_net_i.Lister.Complete.{list_gateway_targets_iff, listed_targets}

-- The first servers are some of the second ones, in their order.
pub data Among : List Server → List Server → Type 0 where
  done : Among [] []
  passed : {s : Server} {cs ss : List Server} → Among cs ss → Among cs (s ∷ ss)
  taken : {s : Server} {cs ss : List Server} → Among cs ss → Among (s ∷ cs) (s ∷ ss)

-- No two strings are the same.
abbrev pub all_distinct : List GoString → Bool
all_distinct [] = true
all_distinct (k ∷ ks) = not (elem k ks) && all_distinct ks

abbrev pub server_keys : List Server → List GoString
server_keys = map server_key

fresh-elem :
    (p : GoString → Bool) (k : GoString) (servers : List Server)
    → p k ≡ true
    → all (λ (s : Server). not (p (server_key s))) servers ≡ true
    → elem k (server_keys servers) ≡ false
unfolding elem any all
fresh-elem p k [] h f = refl
fresh-elem p k (s ∷ servers) h f = elim (Bool-cases (str_eq k (server_key s))) [
  | inl e ↦
      let same : k ≡ server_key s = (str_eq_iff k (server_key s)).0 e in
      let there : p (server_key s) ≡ true = rw (← same) h in absurd (ground (arith, f, there))
  | inr e ↦ rw e (fresh-elem p k servers h (ground (arith, f)))
]

module _ ⦃sets : SetLib⦄ ⦃helpers : ProbeHelpers⦄ (service : Service)
    (subsets : List EndpointSubset) where
  -- A server that can be probed.
  abbrev pub is_probed : Server → Bool
  is_probed s = elim (probed_as service s) [ none ↦ false | some p ↦ true ]

  -- The subset has a port of the name.
  abbrev pub has_port : GoString → EndpointSubset → Bool
  has_port name sub = elim (helpers.port_number_for_name sub name) [ err e ↦ false | ok n ↦ true ]

  -- How many subsets have the port of a server that can be probed.
  abbrev pub target_count : Server → ℕ
  target_count s = elim (probed_as service s) [
    | none ↦ 0
    | some (scheme, name) ↦ length (keep (has_port name) subsets)
  ]

  abbrev pub total : List Server → ℕ
  total [] = 0
  total (s ∷ servers) = target_count s + total servers

  -- The servers visited are of different keys, and any other that can be probed has the key of one
  -- of them; there is one target for each subset with a visited server's port.
  pub record Visited (servers : List Server) (targets : List ProbeTarget) : Type 0 where
    pub chosen : List Server
    pub in_order : Among chosen servers
    pub probed : all is_probed chosen ≡ true
    pub distinct : all_distinct (server_keys chosen) ≡ true
    pub complete :
        all (λ s. not (is_probed s) || elem (server_key s) (server_keys chosen)) servers ≡ true
    pub counted : length targets ≡ total chosen

  length-subset_targets :
      (s : Server) (scheme name : GoString) (subs : List EndpointSubset)
      → length (subset_targets s scheme name subs) ≡ length (keep (has_port name) subs)
  unfolding subset_targets keep
  length-subset_targets s scheme name [] = refl
  length-subset_targets s scheme name (sub ∷ subs) =
      elim (Result-cases (helpers.port_number_for_name sub name)) [
        | inl (n, e) ↦ rw (e, length, has_port) (ap suc (length-subset_targets s scheme name subs))
        | inr (x, e) ↦ rw (e, length, has_port) (length-subset_targets s scheme name subs)
      ]

  probed_lem :
      (s : Server) (scheme name : GoString)
      → probed_as service s ≡ some (scheme, name)
      → (is_probed s ≡ true) × (target_count s ≡ length (keep (has_port name) subsets))
  probed_lem s scheme name p = (rw (p, is_probed) refl, rw (p, target_count) refl)

  -- The same of a loop that has seen some keys.
  record VisitedAfter (seen : StringSet) (servers : List Server) (targets : List ProbeTarget)
      : Type 0 where
    chosen : List Server
    in_order : Among chosen servers
    probed : all is_probed chosen ≡ true
    distinct : all_distinct (server_keys chosen) ≡ true
    fresh : all (λ (s : Server). not (sets.has seen (server_key s))) chosen ≡ true
    complete :
        all
          (λ s.
            not (is_probed s)
            || (sets.has seen (server_key s) || elem (server_key s) (server_keys chosen)))
          servers
        ≡ true
    counted : length targets ≡ total chosen

  skipped :
      (seen : StringSet) (s : Server) (servers : List Server) (targets : List ProbeTarget)
      → (not (is_probed s) || sets.has seen (server_key s)) ≡ true
      → VisitedAfter seen servers targets
      → VisitedAfter seen (s ∷ servers) targets
  unfolding all
  skipped seen s servers targets h v = record {
    chosen = v.chosen;
    in_order = passed v.in_order;
    probed = v.probed;
    distinct = v.distinct;
    fresh = v.fresh;
    complete = ground (arith, h, v.complete);
    counted = v.counted;
  }

  seen_more :
      (seen : StringSet) (k x : GoString)
      → sets.has (sets.insert seen (k ∷ [])) x ≡ (sets.has seen x || str_eq x k)
  unfolding elem any
  seen_more seen k x = sets.has-insert seen (k ∷ []) x ∙ ground arith

  visits :
      (seen : StringSet) (s : Server) (servers : List Server) (scheme name : GoString)
      (targets : List ProbeTarget)
      → probed_as service s ≡ some (scheme, name)
      → sets.has seen (server_key s) ≡ false
      → VisitedAfter (sets.insert seen (server_key s ∷ [])) servers targets
      → VisitedAfter seen (s ∷ servers) (subset_targets s scheme name subsets ++ targets)
  unfolding all elem any
  visits seen s servers scheme name targets p new v =
      let k = server_key s in
      let more = sets.insert seen (k ∷ []) in
      let other : elem k (server_keys v.chosen) ≡ false =
        fresh-elem (sets.has more) k v.chosen
          (seen_more seen k k ∙ rw (str_eq_refl k) (ground arith)) v.fresh in
      record {
        chosen = s ∷ v.chosen;
        in_order = taken v.in_order;
        probed = rw (probed_lem s scheme name p).0 v.probed;
        distinct = rw other v.distinct;
        fresh = rw new (
            all_imp (λ (x : Server). not (sets.has more (server_key x)))
              (λ (x : Server). not (sets.has seen (server_key x))) v.chosen
              (λ x h. ground (arith, h, seen_more seen k (server_key x))) v.fresh);
        complete = rw (str_eq_refl k) (
            ground (
              arith,
              all_imp
                  (λ x.
                    not (is_probed x)
                    || (sets.has more (server_key x) || elem (server_key x) (server_keys v.chosen)))
                  (λ x.
                    not (is_probed x)
                    || (sets.has seen (server_key x)
                        || elem (server_key x) (server_keys (s ∷ v.chosen))))
                  servers (λ x h. ground (arith, h, seen_more seen k (server_key x))) v.complete,
            ));
        counted =
            length-append (subset_targets s scheme name subsets) targets
            ∙ rw
                (
                  length-subset_targets s scheme name subsets,
                  v.counted,
                  (probed_lem s scheme name p).1,
                )
                refl;
      }

  server_targets-VisitedAfter :
      (seen : StringSet) (servers : List Server)
      → VisitedAfter seen servers (server_targets service subsets seen servers)
  unfolding server_targets all
  server_targets-VisitedAfter seen [] = record {
    chosen = [];
    in_order = done;
    probed = refl;
    distinct = refl;
    fresh = refl;
    complete = refl;
    counted = refl;
  }
  server_targets-VisitedAfter seen (s ∷ servers) = elim (Option-cases (probed_as service s)) [
    | inl e ↦
        let v =
          skipped seen s servers (server_targets service subsets seen servers)
            (let idle : is_probed s ≡ false = rw (e, is_probed) refl in rw idle refl)
            (server_targets-VisitedAfter seen servers) in
        rw (e, server_targets) v
    | inr ((scheme, name), e) ↦ elim (Bool-cases (sets.has seen (server_key s))) [
      | inl b ↦
          let v =
            skipped seen s servers (server_targets service subsets seen servers) (ground (arith, b))
              (server_targets-VisitedAfter seen servers) in
          rw (e, b, server_targets) v
      | inr b ↦
          let v =
            visits seen s servers scheme name _ e b
              (server_targets-VisitedAfter (sets.insert seen (server_key s ∷ [])) servers) in
          rw (e, b, server_targets) v
    ]
  ]

module _ ⦃sets : SetLib⦄ ⦃helpers : ProbeHelpers⦄ where
  server_targets-Visited :
      (service : Service) (subsets : List EndpointSubset) (servers : List Server)
      → Visited service subsets servers (server_targets service subsets sets.empty servers)
  server_targets-Visited service subsets servers =
      let v = server_targets-VisitedAfter service subsets sets.empty servers in
      record {
        chosen = v.chosen;
        in_order = v.in_order;
        probed = v.probed;
        distinct = v.distinct;
        complete =
            all_imp
              (λ s.
                not (is_probed service subsets s)
                || (sets.has sets.empty (server_key s)
                    || elem (server_key s) (server_keys v.chosen)))
              (λ s. not (is_probed service subsets s) || elem (server_key s) (server_keys v.chosen))
              servers (λ s h. ground (arith, h, sets.has-empty (server_key s))) v.complete;
        counted = v.counted;
      }

  -- For a Gateway whose port numbers fit 64 bits, with a service and its endpoints,
  -- listGatewayTargets succeeds and visits servers of different keys, in order, so that each
  -- server that can be probed has the key of a visited one; there are as many targets as pairs
  -- of a visited server and a subset with its port, and the targets are just those of the
  -- servers that can be probed.
  pub list_gateway_targets_once :
      (listers : ProbeListers) (gateway : Gateway) (service : Service) (services : List Service)
      (endpoints : Endpoints) (t : ProbeTarget)
      → all in_range gateway.servers ≡ true
      → listers.list_services gateway.selector ≡ ok (service ∷ services)
      → listers.endpoints service.meta.namespace service.meta.name ≡ ok endpoints
      → (targets : List ProbeTarget) × (list_gateway_targets listers gateway ≡ ok targets)
        × Visited service endpoints.subsets gateway.servers targets
        × (Member t targets ↔ Probes service endpoints.subsets gateway.servers t)
  list_gateway_targets_once listers gateway service services endpoints t r h e =
      let (targets, made, both) =
        list_gateway_targets_iff listers gateway service services endpoints t r h e in
      let made_here = listed_targets listers gateway service services endpoints h e in
      let same : ok targets
          ≡ ok (server_targets service endpoints.subsets sets.empty gateway.servers) =
        sym made ∙ made_here in
      let equal : server_targets service endpoints.subsets sets.empty gateway.servers ≡ targets =
        cc same in
      (
        targets,
        made,
        rw (← equal) (server_targets-Visited service endpoints.subsets gateway.servers),
        both,
      )
