-- ===== src/Resources/VirtualService/Selection.antt =====
-- Which VirtualServices `MakeVirtualServices` makes.
use knative_extensions_net_i.Base.{
  ℕ, ◌+◌, ◌≡◌, refl, Bool, ◌&&◌, ◌||◌, List, [], ◌∷◌, arith, if◌then◌else◌, any, keep, ltb, length,
}
use knative_extensions_net_i.Api.{Ingress, IngressRule}
use knative_extensions_net_i.Platform.{SetLib, Network, Kmeta, IngressHelpers, Keys}
use knative_extensions_net_i.Resources.VirtualService.{
  GatewayNames, is_public, is_cluster_local, get_public_ingress_rules,
  get_cluster_local_ingress_rules, required_gateway_count,
}

some_kept {ℓ} : {A : Type ℓ} (p : A → Bool) (xs : List A) → ltb 0 (length (keep p xs)) ≡ any p xs
unfolding keep any
some_kept p [] = refl
some_kept p (x ∷ xs) = ground (arith, some_kept p xs)

sum_positive :
    (a b : Bool) (m n : ℕ)
    → ltb 0 ((if a then m else 0) + (if b then n else 0)) ≡ ((a && ltb 0 m) || (b && ltb 0 n))
sum_positive a b m n = ground arith

module _ ⦃sets : SetLib⦄ ⦃net : Network⦄ ⦃kmeta : Kmeta⦄ ⦃helpers : IngressHelpers⦄
    ⦃keys : Keys⦄ where
  -- A public rule has a public Gateway to be served by, or a cluster-local one a local Gateway.
  abbrev pub needs_gateway : Ingress → GatewayNames → Bool
  needs_gateway ing gateways =
      (any (λ (r : IngressRule). is_public r.visibility) ing.rules
        && ltb 0 (sets.size gateways.external))
      || (any (λ (r : IngressRule). is_cluster_local r.visibility) ing.rules
          && ltb 0 (sets.size gateways.local))

  pub required_iff_needs :
      (ing : Ingress) (gateways : GatewayNames)
      → ltb 0 (required_gateway_count ing gateways) ≡ needs_gateway ing gateways
  unfolding required_gateway_count get_public_ingress_rules get_cluster_local_ingress_rules
  required_iff_needs ing gateways =
      rw
        (
          some_kept (λ (r : IngressRule). is_public r.visibility) ing.rules,
          some_kept (λ (r : IngressRule). is_cluster_local r.visibility) ing.rules,
        )
        (sum_positive (any (λ (r : IngressRule). is_public r.visibility) ing.rules)
          (any (λ (r : IngressRule). is_cluster_local r.visibility) ing.rules)
          (sets.size gateways.external) (sets.size gateways.local))
