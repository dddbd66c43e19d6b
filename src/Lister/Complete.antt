-- ===== src/Lister/Complete.antt =====
-- `listGatewayTargets` of lister.go: a target for each probed server and each subset with its port.
use knative_extensions_net_i.Base.{
  ◌≡◌, refl, sym, ap, ◌∙◌, ℕ, ◌↔◌, true, false, some, List, [], ◌∷◌, ok, Bool-cases, Option-cases,
  inl, inr, Member, Member-append_left, Member-append_right, Member-all, arith, all, any, &&-right,
  &&-left,
}
use knative_extensions_net_i.GoString.{GoString, str_eq, str_eq→eq, elem}
use knative_extensions_net_i.Api.{Server, Service, EndpointSubset, Endpoints, Gateway}
use knative_extensions_net_i.Platform.{SetLib, StringSet}
use knative_extensions_net_i.Lister.{
  ProbeTarget, ProbeHelpers, ProbeListers, make_target, subset_targets, probed_as, server_targets,
  server_key, list_gateway_targets, targets_of_services,
}
use knative_extensions_net_i.Lister.Targets.{Probes, target_of_subset, server_targets-Probes}
use knative_extensions_net_i.Lister.Keys.{same_key, same_target, in_range}

module _ ⦃sets : SetLib⦄ ⦃helpers : ProbeHelpers⦄ where
  not_seen :
      (seen : StringSet) (k j : GoString)
      → sets.has seen k ≡ false
      → str_eq k j ≡ false
      → sets.has (sets.insert seen (j ∷ [])) k ≡ false
  unfolding elem any
  not_seen seen k j h e = sets.has-insert seen (j ∷ []) k ∙ ground (arith, h, e)

  pub server_targets_complete :
      (service : Service) (subsets : List EndpointSubset) (seen : StringSet) (servers : List Server)
      (server : Server) (scheme port_name : GoString) (sub : EndpointSubset) (n : ℕ)
      → all in_range servers ≡ true
      → Member server servers
      → probed_as service server ≡ some (scheme, port_name)
      → sets.has seen (server_key server) ≡ false
      → Member sub subsets
      → helpers.port_number_for_name sub port_name ≡ ok n
      → Member (make_target server scheme sub n) (server_targets service subsets seen servers)
  unfolding server_targets
  server_targets_complete service subsets seen [] server scheme port_name sub n r m p fresh i e =
      elim m [ ]
  server_targets_complete service subsets seen (s ∷ servers) server scheme port_name sub n r (inl q)
        p fresh i e =
      let p' : probed_as service s ≡ some (scheme, port_name) =
        ap (probed_as service) (sym q) ∙ p in
      let fresh' : sets.has seen (server_key s) ≡ false =
        ap (λ x. sets.has seen (server_key x)) (sym q) ∙ fresh in
      rw (p', fresh', Member)
        (Member-append_left _ (subset_targets s scheme port_name subsets) _ (
          rw (← ap (λ x. make_target x scheme sub n) q) at
            (target_of_subset s scheme port_name subsets sub n i e)))
  server_targets_complete service subsets seen (s ∷ servers) server scheme port_name sub n r (inr m)
        p fresh i e =
      let ranges = &&-right (in_range s) (all in_range servers) (unfold all in r) in
      let go = λ (marked : StringSet) (f : sets.has marked (server_key server) ≡ false).
        server_targets_complete service subsets marked servers server scheme port_name sub n ranges
          m p f i e in
      let target = make_target server scheme sub n in
      elim (Option-cases (probed_as service s)) [
        | inl none_here ↦ rw (none_here, Member) (go seen fresh)
        | inr ((x, name), here) ↦ elim (Bool-cases (sets.has seen (server_key s))) [
          | inl b ↦ rw (here, b, Member) (go seen fresh)
          | inr b ↦ elim (Bool-cases (str_eq (server_key server) (server_key s))) [
            | inl k ↦
                let (number, schemes, names) =
                  same_key service server s scheme x port_name name
                    (Member-all in_range server servers ranges m)
                    (&&-left (in_range s) (all in_range servers) (unfold all in r)) p here
                    (str_eq→eq (server_key server) (server_key s) k) in
                let found : helpers.port_number_for_name sub name ≡ ok n =
                  ap (helpers.port_number_for_name sub) (sym names) ∙ e in
                rw (here, b, Member)
                  (Member-append_left target (subset_targets s x name subsets) _ (
                    rw (same_target server s scheme x sub n number schemes)
                      (target_of_subset s x name subsets sub n i found)))
            | inr k ↦
                rw (here, b, Member)
                  (Member-append_right target (subset_targets s x name subsets) _ (
                    go (sets.insert seen (server_key s ∷ []))
                      (not_seen seen (server_key server) (server_key s) fresh k)))
          ]
        ]
      ]

  pub listed_targets :
      (listers : ProbeListers) (gateway : Gateway) (service : Service) (services : List Service)
      (endpoints : Endpoints)
      → listers.list_services gateway.selector ≡ ok (service ∷ services)
      → listers.endpoints service.meta.namespace service.meta.name ≡ ok endpoints
      → list_gateway_targets listers gateway
        ≡ ok (server_targets service endpoints.subsets sets.empty gateway.servers)
  unfolding list_gateway_targets targets_of_services
  listed_targets listers gateway service services endpoints h e =
      rw (h, list_gateway_targets) (rw (e, targets_of_services) refl)

  -- The targets are those of the servers that can be probed.
  pub list_gateway_targets_iff :
      (listers : ProbeListers) (gateway : Gateway) (service : Service) (services : List Service)
      (endpoints : Endpoints) (t : ProbeTarget)
      → all in_range gateway.servers ≡ true
      → listers.list_services gateway.selector ≡ ok (service ∷ services)
      → listers.endpoints service.meta.namespace service.meta.name ≡ ok endpoints
      → (targets : List ProbeTarget) × (list_gateway_targets listers gateway ≡ ok targets)
        × (Member t targets ↔ Probes service endpoints.subsets gateway.servers t)
  list_gateway_targets_iff listers gateway service services endpoints t r h e = (
    server_targets service endpoints.subsets sets.empty gateway.servers,
    listed_targets listers gateway service services endpoints h e,
    (
      server_targets-Probes service endpoints.subsets sets.empty gateway.servers t,
      λ p. rw (← sym p.made) (
          server_targets_complete service endpoints.subsets sets.empty gateway.servers p.server
            p.scheme p.port_name p.subset p.number r p.listed p.probed
            (sets.has-empty (server_key p.server)) p.present p.found),
    ),
  )
