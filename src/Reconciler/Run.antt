-- ===== src/Reconciler/Run.antt =====
-- Runs of the control loop: a result, with the effects in order. The listers read a cache that the
-- run's own writes do not change.
use knative_extensions_net_i.Base.{
  List, [], ◌∷◌, ◌++◌, map, Result, ok, err, Error, wrap_error, String,
}
use knative_extensions_net_i.GoString.{GoString}
use knative_extensions_net_i.Api.{Reference, Secret, Gateway, VirtualService, DestinationRule}
use knative_extensions_net_i.Accessor.{Write, Event, Outcome}

-- `v1alpha1.LoadBalancerIngressStatus`
pub data LoadBalancerStatus : Type 0 where
  mesh_only : LoadBalancerStatus
  domain_internal : GoString → LoadBalancerStatus

-- The calls that change the status of the Ingress.
pub data Mark : Type 0 where
  initialized network_configured load_balancer_not_ready : Mark
  ingress_not_ready : String → Mark
  load_balancer_failed : String → Error → Mark
  resource_not_owned : String → GoString → Mark
  load_balancer_ready : List LoadBalancerStatus → List LoadBalancerStatus → Mark

pub data Effect : Type 0 where
  on_secret : Write Secret → Effect
  on_gateway : Write Gateway → Effect
  on_virtual_service : Write VirtualService → Effect
  on_destination_rule : Write DestinationRule → Effect
  tracked : Reference → Effect
  emitted : Event → Effect
  marked : Mark → Effect

pub record Run {ℓ} (A : Type ℓ) : Type ℓ where
  pub result : Result A
  pub effects : List Effect

-- A run that goes on after the effects of an earlier one.
abbrev pub prefixed {ℓ} : {A : Type ℓ} → List Effect → Run A → Run A
prefixed es r = record { result = r.result; effects = es ++ r.effects }

abbrev pub continue {ℓ κ} : {A : Type ℓ} {B : Type κ} → Result A → List Effect → (A → Run B) → Run B
continue (ok a) es f = prefixed es (f a)
continue (err e) es f = record { result = err e; effects = es }

infixl 5 ◌>>=◌ ◌>>◌
abbrev pub ◌>>=◌ {ℓ κ} : {A : Type ℓ} {B : Type κ} → Run A → (A → Run B) → Run B
m >>= f = continue m.result m.effects f

abbrev pub ◌>>◌ {ℓ} : {B : Type ℓ} → Run (Unit {0}) → Run B → Run B
m >> k = m >>= λ _. k

abbrev pub pure {ℓ} : {A : Type ℓ} → A → Run A
pure a = record { result = ok a; effects = [] }

-- a call that has no effect
abbrev pub lift {ℓ} : {A : Type ℓ} → Result A → Run A
lift r = record { result = r; effects = [] }

abbrev pub emit : Effect → Run (Unit {0})
emit e = record { result = ok tt; effects = e ∷ [] }

-- a write with the answer of the client, and what is emitted after it
abbrev pub tell {ℓ} : {A : Type ℓ} → Result A → List Effect → Run A
tell r es = record { result = r; effects = es }

-- `if err != nil { return fmt.Errorf("…: %w", err) }` after the effects
abbrev pub wrapping {ℓ} : {A : Type ℓ} → String → Run A → Run A
wrapping message r = record { result = wrap_error message r.result; effects = r.effects }

abbrev pub error_of {ℓ} : {A : Type ℓ} → Result A → List Error
error_of (ok a) = []
error_of (err e) = e ∷ []

-- `if err != nil { errs = append(errs, err) }`
abbrev pub or_errors {ℓ} : {A : Type ℓ} → Run A → Run (List Error)
or_errors r = record { result = ok (error_of r.result); effects = r.effects }

-- effects before an error is returned
abbrev pub on_error {ℓ} : {A : Type ℓ} → (Error → List Effect) → Run A → Run A
on_error f r = record {
  result = r.result;
  effects = r.effects ++ elim r.result [ ok a ↦ [] | err e ↦ f e ];
}

-- the outcome of an accessor, as a run
abbrev pub of_outcome {ℓ} : {A : Type ℓ} → (Write A → Effect) → Outcome A → Run A
of_outcome write o = record {
  result = o.result;
  effects = map write o.writes ++ map emitted o.events;
}

module _ {ℓ} {A : Type ℓ} where
  -- `for _, x := range xs { if err := f(x); err != nil { return err } }`
  unfoldable pub for_each : (A → Run (Unit {0})) → List A → Run (Unit {0})
  for_each f [] = pure tt
  for_each f (x ∷ xs) = let rest = for_each f xs in do f x; rest
