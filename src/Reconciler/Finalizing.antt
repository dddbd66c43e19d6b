-- ===== src/Reconciler/Finalizing.antt =====
-- `reconcileIngressServers`: what becomes of the servers of an Ingress in a shared Gateway.
use knative_extensions_net_i.Base.{
  ◌<◌, ◌≡◌, refl, true, not, ◌&&◌, List, [], ◌∷◌, ok, all, keep, length, Bool-cases, inl, inr, ◌⊎◌,
  Result-cases,
}
use knative_extensions_net_i.Api.{Ingress, Gateway, Server}
use knative_extensions_net_i.Platform.{SetLib}
use knative_extensions_net_i.Config.{GatewayConfig}
use knative_extensions_net_i.Accessor.{update}
use knative_extensions_net_i.Resources.Servers.{
  belongs_to_ingress, get_servers, sort_servers, update_gateway,
}
use knative_extensions_net_i.Resources.Servers.Update.{
  get-update_gateway, update_gateway_others, update_gateway-ne-nil,
}
use knative_extensions_net_i.Reconciler.Run.{Run, Effect, on_gateway}
use knative_extensions_net_i.Reconciler.World.{World}
use knative_extensions_net_i.Reconciler.Cleanup.{reconcile_gateway, reconcile_ingress_servers}

module _ ⦃sets : SetLib⦄ (world : World) (ing : Ingress) where
  -- The Gateway that is written: the Ingress has the wanted servers there and no other, it has some
  -- server, and the servers of all others are what they were.
  pub record Replaces (desired : List Server) (old new : Gateway) : Type 0 where
    pub own : get_servers new ing ≡ sort_servers desired
    pub nonempty : 0 < length new.servers
    pub others :
        keep (λ s. not (belongs_to_ingress s ing) && not (world.is_placeholder s)) new.servers
        ≡ sort_servers
            (keep (λ s. not (belongs_to_ingress s ing) && not (world.is_placeholder s)) old.servers)

  update_gateway-Replaces :
      (desired : List Server) (gateway : Gateway)
      → all (λ s. belongs_to_ingress s ing) desired ≡ true
      → Replaces desired gateway
          (update_gateway world.is_placeholder gateway desired (get_servers gateway ing))
  update_gateway-Replaces desired gateway own = record {
    own = get-update_gateway world.is_placeholder world.is_placeholder_iff gateway ing desired own;
    nonempty = update_gateway-ne-nil world.is_placeholder gateway desired (get_servers gateway ing);
    others =
        update_gateway_others world.is_placeholder world.is_placeholder_iff gateway ing desired own;
  }

  -- Either the servers are as wanted and nothing is written, or they are not, and the first effect
  -- is the update to a Gateway with the servers replaced.
  abbrev pub Settles : List Server → Gateway → Run (Unit {0}) → Type 0
  Settles desired gateway run =
      ((get_servers gateway ing ≡ desired) × (run.result ≡ ok tt) × (run.effects ≡ []))
      ⊎ (¬ (get_servers gateway ing ≡ desired)
          × (new : Gateway) × (later : List Effect) × (run.effects
              ≡ on_gateway (update new) ∷ later)
          × Replaces desired gateway new)

  reconcile_gateway-Settles :
      (desired : List Server) (gateway : Gateway)
      → all (λ s. belongs_to_ingress s ing) desired ≡ true
      → Settles desired gateway
          (reconcile_gateway world ing gateway (get_servers gateway ing) desired)
  unfolding reconcile_gateway
  reconcile_gateway-Settles desired gateway own =
      let new = update_gateway world.is_placeholder gateway desired (get_servers gateway ing) in
      elim (Bool-cases (world.same_servers (get_servers gateway ing) desired)) [
        | inl e ↦
            rw e (inl ((world.same_servers_iff (get_servers gateway ing) desired).0 e, refl, refl))
        | inr e ↦
            let differ : ¬ (get_servers gateway ing ≡ desired) = λ q.
              let t : world.same_servers (get_servers gateway ing) desired ≡ true =
                (world.same_servers_iff (get_servers gateway ing) desired).1 q in
              cc (t, e) in
            elim (Result-cases (world.gateways.on_update new)) [
              | inl (a, h) ↦
                  rw (e, h)
                    (inr (differ, new, _, refl, update_gateway-Replaces desired gateway own))
              | inr (x, h) ↦
                  rw (e, h)
                    (inr (differ, new, _, refl, update_gateway-Replaces desired gateway own))
            ]
      ]

  -- Where the shared Gateway exists and the wanted servers are the Ingress's own,
  -- reconcileIngressServers writes nothing if the Gateway has just these, and else its first
  -- effect is an update after which the Ingress has these and no other, some server is left,
  -- and the servers of others are as they were.
  pub reconcile_ingress_servers_lem :
      (desired : List Server) (gw : GatewayConfig) (gateway : Gateway)
      → all (λ s. belongs_to_ingress s ing) desired ≡ true
      → world.gateways.find gw.namespace gw.name ≡ ok gateway
      → Settles desired gateway (reconcile_ingress_servers world ing desired gw)
  unfolding reconcile_ingress_servers
  reconcile_ingress_servers_lem desired gw gateway own found =
      rw found (reconcile_gateway-Settles desired gateway own)
