-- ===== src/Resources/Gateways/Made.antt =====
-- What the Gateways that resources/gateway.go makes for an Ingress have in common.
use knative_extensions_net_i.Base.{
  ◌≡◌, refl, ap, true, List, [], ◌∷◌, Result, ok, >>=-eq-ok, map_result, length, Member, inl, inr,
  suc,
}
use knative_extensions_net_i.Api.{Gateway, Ingress}
use knative_extensions_net_i.Platform.{Keys, Kmeta}
use knative_extensions_net_i.Resources.Naming.{is_dns1123_label}

module _ {ℓ κ} {A : Type ℓ} {B : Type κ} where
  -- Each result comes from an element, one for each.
  pub map_result-ok :
      (f : A → Result B) (xs : List A) (ys : List B)
      → map_result f xs ≡ ok ys
      → (length ys ≡ length xs) × ((y : B) → Member y ys → (x : A) × Member x xs × (f x ≡ ok y))
  unfolding map_result
  map_result-ok f [] ys h =
      let e : [] ≡ ys = cc h in (rw (← e) refl, λ y m. elim (rw (← e) at m) [ ])
  map_result-ok f (x ∷ xs) ys h =
      let (z, e, h₁) = >>=-eq-ok (f x) _ h in
      let (zs, g, h₂) = >>=-eq-ok (map_result f xs) _ h₁ in
      let (len, from) = map_result-ok f xs zs g in
      let same : z ∷ zs ≡ ys = cc h₂ in
      (
        rw (← same) (ap suc len),
        λ y m. elim (rw (← same) at m) [
          | inl q ↦ (x, inl refl, rw q e)
          | inr n ↦ let (x', k, p) = from y n in (x', inr k, p)
        ],
      )

-- A Gateway made for an Ingress: its name is a DNS label, it lies in the Ingress's namespace, and
-- it is owned by the Ingress.
pub record IsMadeFor ⦃keys : Keys⦄ ⦃kmeta : Kmeta⦄ (ing : Ingress) (g : Gateway) : Type 0 where
  pub named : is_dns1123_label g.meta.name ≡ true
  pub placed : g.meta.namespace ≡ ing.meta.namespace
  pub labelled : g.meta.labels ≡ (keys.ingress_label, ing.meta.name) ∷ []
  pub owned : kmeta.is_controlled_by g.meta ing.meta ≡ true
