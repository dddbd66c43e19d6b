-- ===== src/Lister/Targets.antt =====
-- `listGatewayTargets` of lister.go: the server and the subset behind a target.
use knative_extensions_net_i.Base.{
  ◌≡◌, refl, sym, ap, ◌∙◌, some, List, [], ◌∷◌, ok, Bool-cases, Result-cases, Option-cases, inl,
  inr, Member, Member-append_cases, ℕ,
}
use knative_extensions_net_i.GoString.{GoString}
use knative_extensions_net_i.Api.{Server, Service, EndpointSubset}
use knative_extensions_net_i.Platform.{SetLib, StringSet}
use knative_extensions_net_i.Lister.{
  ProbeTarget, ProbeHelpers, make_target, subset_targets, probed_as, server_targets, server_key,
}

module _ ⦃sets : SetLib⦄ ⦃helpers : ProbeHelpers⦄ (service : Service)
    (subsets : List EndpointSubset) where
  -- The target is that of a probed server and a subset with the server's port.
  pub record Probes (servers : List Server) (t : ProbeTarget) : Type 0 where
    pub server : Server
    pub scheme : GoString
    pub port_name : GoString
    pub subset : EndpointSubset
    pub number : ℕ
    pub listed : Member server servers
    pub probed : probed_as service server ≡ some (scheme, port_name)
    pub present : Member subset subsets
    pub found : helpers.port_number_for_name subset port_name ≡ ok number
    pub made : t ≡ make_target server scheme subset number

  pub Probes-weaken :
      (servers : List Server) (s : Server) (t : ProbeTarget)
      → Probes servers t
      → Probes (s ∷ servers) t
  Probes-weaken servers s t p = record {
    server = p.server;
    scheme = p.scheme;
    port_name = p.port_name;
    subset = p.subset;
    number = p.number;
    listed = inr p.listed;
    probed = p.probed;
    present = p.present;
    found = p.found;
    made = p.made;
  }

module _ ⦃sets : SetLib⦄ ⦃helpers : ProbeHelpers⦄ where
  -- A target of the inner loop is that of a subset with the port.
  subset_of_target :
      (server : Server) (scheme port_name : GoString) (subsets : List EndpointSubset)
      (t : ProbeTarget)
      → Member t (subset_targets server scheme port_name subsets)
      → (sub : EndpointSubset) × (number : ℕ) × Member sub subsets
        × (helpers.port_number_for_name sub port_name ≡ ok number)
        × (t ≡ make_target server scheme sub number)
  unfolding subset_targets
  subset_of_target server scheme port_name [] t m = elim m [ ]
  subset_of_target server scheme port_name (s ∷ subsets) t m =
      elim (Result-cases (helpers.port_number_for_name s port_name)) [
        | inl (n, e) ↦ elim (rw (e, Member) at m) [
          | inl q ↦ (s, n, inl refl, e, q)
          | inr k ↦
              let (sub, j, a, b, c) = subset_of_target server scheme port_name subsets t k in
              (sub, j, inr a, b, c)
        ]
        | inr (x, e) ↦
            let (sub, j, a, b, c) =
              subset_of_target server scheme port_name subsets t (rw (e, Member) at m) in
            (sub, j, inr a, b, c)
      ]

  -- The inner loop has a target for each subset with the port.
  pub target_of_subset :
      (server : Server) (scheme port_name : GoString) (subsets : List EndpointSubset)
      (sub : EndpointSubset) (number : ℕ)
      → Member sub subsets
      → helpers.port_number_for_name sub port_name ≡ ok number
      → Member
          (make_target server scheme sub number)
          (subset_targets server scheme port_name subsets)
  unfolding subset_targets
  target_of_subset server scheme port_name [] sub number m e = elim m [ ]
  target_of_subset server scheme port_name (s ∷ subsets) sub number (inl q) e =
      let f : helpers.port_number_for_name s port_name ≡ ok number =
        ap (λ x. helpers.port_number_for_name x port_name) (sym q) ∙ e in
      rw (f, Member) (inl (ap (λ x. make_target server scheme x number) q))
  target_of_subset server scheme port_name (s ∷ subsets) sub number (inr m) e =
      let later = target_of_subset server scheme port_name subsets sub number m e in
      elim (Result-cases (helpers.port_number_for_name s port_name)) [
        | inl (n, f) ↦ rw (f, Member) (inr later)
        | inr (x, f) ↦ rw (f, Member) later
      ]

  pub server_targets-Probes :
      (service : Service) (subsets : List EndpointSubset) (seen : StringSet) (servers : List Server)
      (t : ProbeTarget)
      → Member t (server_targets service subsets seen servers)
      → Probes service subsets servers t
  unfolding server_targets
  server_targets-Probes service subsets seen [] t m = elim m [ ]
  server_targets-Probes service subsets seen (s ∷ servers) t m =
      let later =
        λ (marked : StringSet) (k : Member t (server_targets service subsets marked servers)).
          Probes-weaken service subsets servers s t
            (server_targets-Probes service subsets marked servers t k) in
      elim (Option-cases (probed_as service s)) [
        | inl e ↦ later seen (rw (e, Member) at m)
        | inr ((scheme, port_name), e) ↦ elim (Bool-cases (sets.has seen (server_key s))) [
          | inl b ↦ later seen (rw (e, b, Member) at m)
          | inr b ↦
              elim (Member-append_cases t (subset_targets s scheme port_name subsets) _
                (rw (e, b, Member) at m)) [
                  | inl here ↦
                      let (sub, n, a, c, d) = subset_of_target s scheme port_name subsets t here in
                      record {
                        server = s;
                        scheme = scheme;
                        port_name = port_name;
                        subset = sub;
                        number = n;
                        listed = inl refl;
                        probed = e;
                        present = a;
                        found = c;
                        made = d;
                      }
                  | inr k ↦ later (sets.insert seen (server_key s ∷ [])) k
                ]
        ]
      ]
