-- ===== src/Reconciler/Status.antt =====
-- `ReconcileKind` of ingress.go: what it leaves in the status of the Ingress.
use knative_extensions_net_i.Base.{
  append_assoc, append-nil, wrap_error-eq-ok, ◌≡◌, refl, sym, ◌∙◌, Bool, true, false, List, [], ◌∷◌,
  ◌++◌, ok, err, Error, Result-cases, Bool-cases, inl, inr, ◌⊎◌, if◌then◌else◌, wrap_error-eq-ok,
}
use knative_extensions_net_i.Api.{Ingress}
use knative_extensions_net_i.GoString.{GoString, str_eq}
use knative_extensions_net_i.Config.{GatewayConfig}
use knative_extensions_net_i.Platform.{SetLib, Network, Kmeta, Keys, Selectors, IngressHelpers}
use knative_extensions_net_i.Accessor.Kinds.{Comparisons}
use knative_extensions_net_i.Resources.Secrets.{Certificates}
use knative_extensions_net_i.Resources.Selection.{SelectedGateways, gateways_from_context}
use knative_extensions_net_i.Resources.DestinationRule.{RoutingNames}
use knative_extensions_net_i.Reconciler.Run.{
  ◌>>◌, Run, Effect, LoadBalancerStatus, mesh_only, domain_internal, marked, network_configured,
  ingress_not_ready, load_balancer_not_ready, load_balancer_ready, ◌>>=◌, emit, initialized, lift,
  on_error, load_balancer_failed,
}
use knative_extensions_net_i.Resources.VirtualService.{make_virtual_services, GatewayNames}
use knative_extensions_net_i.Reconciler.Objects.{reconcile_virtual_services}
use knative_extensions_net_i.Reconciler.Effects.{continue-eq-ok}
use knative_extensions_net_i.Reconciler.World.{World}
use knative_extensions_net_i.Reconciler.Loop.{
  reconcile_kind, reconcile_ingress, reconcile_defaulted, probed, mark_load_balancer,
  gateway_service_url, get_lb_status, reconcile_gateways,
}

module _ (world : World) (ing : Ingress) where
  -- What the probe says of the Ingress, which is asked where the Ingress is not ready yet.
  abbrev pub Probed : Bool → Type 0
  Probed ready =
      ((world.is_ready ing ≡ true) × (ready ≡ true))
      ⊎ ((world.is_ready ing ≡ false) × (world.probe ing ≡ ok ready))

-- The effect is the last one.
abbrev pub Ends : Effect → List Effect → Type 0
Ends e es = (before : List Effect) × (es ≡ before ++ e ∷ [])

continue-Ends {ℓ κ} :
    {A : Type ℓ} {B : Type κ} (r : Run A) (f : A → Run B) (a : A) (e : Effect)
    → (r >>= f).effects ≡ r.effects ++ (f a).effects
    → Ends e (f a).effects
    → Ends e (r >>= f).effects
continue-Ends r f a e h (before, k) =
    (r.effects ++ before, h ∙ rw k (sym (append_assoc r.effects before (e ∷ []))))

-- The address of a load balancer: the service of the first gateway, or only the mesh where there is
-- no gateway or it names no service.
abbrev pub addresses : List GatewayConfig → List LoadBalancerStatus
addresses [] = mesh_only ∷ []
addresses (g ∷ gs) =
    if str_eq g.service_url [] then mesh_only ∷ [] else domain_internal g.service_url ∷ []

lb_status-addresses :
    (gateways : List GatewayConfig)
    → get_lb_status (gateway_service_url gateways) ≡ addresses gateways
unfolding get_lb_status gateway_service_url str_eq
lb_status-addresses [] = refl
lb_status-addresses (g ∷ gs) = first g.service_url
  where
    first :
        (url : GoString)
        → get_lb_status url ≡ (if str_eq url [] then mesh_only ∷ [] else domain_internal url ∷ [])
    first [] = refl
    first (c ∷ url) = refl

module _ ⦃sets : SetLib⦄ ⦃net : Network⦄ ⦃kmeta : Kmeta⦄ ⦃keys : Keys⦄ ⦃selectors : Selectors⦄
    ⦃helpers : IngressHelpers⦄ ⦃certs : Certificates⦄ ⦃cmp : Comparisons⦄ ⦃routing : RoutingNames⦄
    (world : World) where
  -- the last change of the status where there is no error
  abbrev pub last_mark : SelectedGateways → Bool → Effect
  last_mark defaults ready =
      if ready
      then marked (load_balancer_ready (addresses defaults.external) (addresses defaults.local))
      else marked load_balancer_not_ready

  -- The run succeeds; its last effect is to mark the load balancer by what the probe says.
  pub record Marked (ing : Ingress) (r : Run (Unit {0})) : Type 0 where
    pub defaults : SelectedGateways
    pub ready : Bool
    pub succeeds : r.result ≡ ok tt
    pub selected : gateways_from_context world.istio ing.meta ≡ ok defaults
    pub said : Probed world ing ready
    pub ends : Ends (last_mark defaults ready) r.effects

  -- The run fails; its last effect is to mark the Ingress as not ready.
  abbrev pub NotReady : Run (Unit {0}) → Type 0
  NotReady r =
      (e : Error) × (r.result ≡ err e)
      × Ends (marked (ingress_not_ready "ReconcileIngressFailed")) r.effects

  probed-Probed :
      (ing : Ingress) (ready : Bool) → (probed world ing).result ≡ ok ready → Probed world ing ready
  unfolding probed
  probed-Probed ing ready h = elim (Bool-cases (world.is_ready ing)) [
    | inl e ↦
        let both : ok true ≡ ok ready = rw e at h in
        let same : true ≡ ready = cc both in inl (e, sym same)
    | inr e ↦ inr (e, wrap_error-eq-ok _ (world.probe ing) (rw e at h))
  ]

  mark_load_balancer_ends :
      (ing : Ingress) (defaults : SelectedGateways) (ready : Bool)
      → (mark_load_balancer world ing defaults ready).effects ≡ last_mark defaults ready ∷ []
  unfolding mark_load_balancer
  mark_load_balancer_ends ing defaults true =
      rw (lb_status-addresses defaults.external, lb_status-addresses defaults.local) refl
  mark_load_balancer_ends ing defaults false = refl

  module _ (ing : Ingress) where
    -- The run ends by marking the load balancer.
    abbrev Finishes : SelectedGateways → Run (Unit {0}) → Type 0
    Finishes defaults r =
        (ready : Bool) × Probed world ing ready × Ends (last_mark defaults ready) r.effects

    passes {ℓ} :
        {A : Type ℓ} (defaults : SelectedGateways) (r : Run A) (f : A → Run (Unit {0}))
        → (r >>= f).result ≡ ok tt
        → ((a : A) → (f a).result ≡ ok tt → Finishes defaults (f a))
        → Finishes defaults (r >>= f)
    passes defaults r f h rest =
        let (a, e, k, l) = continue-eq-ok r f h in
        let (ready, said, ends) = rest a k in
        (ready, said, continue-Ends r f a (last_mark defaults ready) l ends)

    -- what follows the writes
    abbrev marking : SelectedGateways → Run (Unit {0})
    marking defaults = do ready ← probed world ing; mark_load_balancer world ing defaults ready

    -- what follows the Gateways
    abbrev routing_steps : SelectedGateways → GatewayNames → Run (Unit {0})
    routing_steps defaults names = do
      vses ← lift (make_virtual_services ing names)
      on_error (λ e. marked (load_balancer_failed "ReconcileVirtualServiceFailed" e) ∷ [])
          (reconcile_virtual_services world ing vses)
      emit (marked network_configured)
      marking defaults

    -- what follows the choice of the gateways
    abbrev chosen_steps : SelectedGateways → Run (Unit {0})
    chosen_steps defaults = do
      names ← reconcile_gateways world ing defaults
      routing_steps defaults names

    marking-Finishes :
        (defaults : SelectedGateways)
        → (marking defaults).result ≡ ok tt
        → Finishes defaults (marking defaults)
    marking-Finishes defaults h =
        let (ready, e, k, l) =
          continue-eq-ok (probed world ing) (mark_load_balancer world ing defaults) h in
        (
          ready,
          probed-Probed ing ready e,
          continue-Ends (probed world ing) (mark_load_balancer world ing defaults) ready
              (last_mark defaults ready) l ([], mark_load_balancer_ends ing defaults ready),
        )

    routing_steps-Finishes :
        (defaults : SelectedGateways) (names : GatewayNames)
        → (routing_steps defaults names).result ≡ ok tt
        → Finishes defaults (routing_steps defaults names)
    routing_steps-Finishes defaults names h =
        passes defaults (lift (make_virtual_services ing names))
          (λ vses. do
            on_error (λ e. marked (load_balancer_failed "ReconcileVirtualServiceFailed" e) ∷ [])
                (reconcile_virtual_services world ing vses)
            emit (marked network_configured)
            marking defaults)
          h
          (λ vses h1.
            passes defaults
              (on_error (λ e. marked (load_balancer_failed "ReconcileVirtualServiceFailed" e) ∷ [])
                (reconcile_virtual_services world ing vses))
              (λ u. do emit (marked network_configured); marking defaults) h1
              (λ u h2.
                passes defaults (emit (marked network_configured)) (λ v. marking defaults) h2
                  (λ v h3. marking-Finishes defaults h3)))

    reconcile_defaulted-Marked :
        (reconcile_defaulted world ing).result ≡ ok tt → Marked ing (reconcile_defaulted world ing)
    unfolding reconcile_defaulted
    reconcile_defaulted-Marked h =
        let chosen = lift (gateways_from_context world.istio ing.meta) in
        let start = emit (marked initialized) in
        let (u, a, k, l) = continue-eq-ok start (λ _. chosen >>= chosen_steps) h in
        let (defaults, b, m, n) = continue-eq-ok chosen chosen_steps k in
        let (ready, said, ends) =
          passes defaults (reconcile_gateways world ing defaults) (routing_steps defaults) m
            (routing_steps-Finishes defaults) in
        record {
          defaults = defaults;
          ready = ready;
          succeeds = h;
          selected = b;
          said = said;
          ends =
              continue-Ends start (λ _. chosen >>= chosen_steps) u (last_mark defaults ready) l
                (continue-Ends chosen chosen_steps defaults (last_mark defaults ready) n ends);
        }

  -- ReconcileKind either succeeds, and then its last effect marks the load balancer: where the
  -- Ingress was ready or the probe said so, as ready, with the service of the first public
  -- gateway and that of the first private one, each of them the mesh alone where there is no
  -- gateway or it names no service, and as not ready where the probe said that; or it fails,
  -- and then its last effect marks the Ingress as not ready.
  pub reconcile_kind_lem :
      (ing : Ingress)
      → Marked (world.set_defaults ing) (reconcile_kind world ing)
        ⊎ NotReady (reconcile_kind world ing)
  unfolding reconcile_kind reconcile_ingress
  reconcile_kind_lem ing = elim (Result-cases (reconcile_ingress world ing).result) [
    | inl (u, e) ↦
        let m = reconcile_defaulted-Marked (world.set_defaults ing) e in
        inl (record {
          defaults = m.defaults;
          ready = m.ready;
          succeeds = e;
          selected = m.selected;
          said = m.said;
          ends = rw e (m.ends.0, append-nil _ ∙ m.ends.1);
        })
    | inr (x, e) ↦ inr (x, e, ((reconcile_ingress world ing).effects, rw e refl))
  ]
