-- ===== src/Tests/AccessorRuns.antt =====
-- Runs of the theorems on the accessors.
use knative_extensions_net_i.Base.{
  ◌≡◌, refl, true, List, [], ◌∷◌, some, none, ◌⊎◌, Bool-cases, if◌then◌else◌, ◌&&◌, inl, &&-left,
  &&-right, inr, false, ok,
}
use knative_extensions_net_i.GoString.{bytes, GoString, str_eq, str_eq→eq}
use knative_extensions_net_i.Api.{VirtualService}
use knative_extensions_net_i.Accessor.{reconcile_object}
use knative_extensions_net_i.Accessor.Interleaving.{
  Others, acts, here, Others-leave, Settled_stays, after-WellKeyed,
}
use knative_extensions_net_i.Accessor.Convergence.{
  client_of, write_all, Store, WellKeyed, Settled, Refused, reconcile_object_converges, after,
  reconcile_in,
}
use knative_extensions_net_i.Accessor.Kinds.{virtual_service_kind, virtual_service_kind-IsLawful}
use knative_extensions_net_i.Tests.Library.{by_uid, field_comparisons}
use knative_extensions_net_i.Tests.Objects.{web_ingress, api_ingress, meta_of}

abbrev service_with : List GoString → VirtualService
service_with hosts = record {
  meta = record (meta_of (bytes "shop") (bytes "web-ingress") (bytes "vs")) {
    owner_references = by_uid.new_controller_ref web_ingress.meta ∷ [];
  };
  spec = record { hosts = hosts; gateways = []; http = [] };
}

-- One VirtualService, under its name.
abbrev one_object : Store VirtualService
one_object ns name =
    if str_eq (bytes "shop") ns && str_eq (bytes "web-ingress") name
    then some (service_with [])
    else none

one_object_keyed : WellKeyed virtual_service_kind one_object
unfolding virtual_service_kind
one_object_keyed ns name a h =
    elim (Bool-cases (str_eq (bytes "shop") ns && str_eq (bytes "web-ingress") name)) [
      | inl e ↦
          let same : some (service_with []) ≡ some a = rw e at h in
          let here : service_with [] ≡ a = cc same in
          let n = str_eq→eq (bytes "shop") ns (&&-left (str_eq (bytes "shop") ns) _ e) in
          let m = str_eq→eq (bytes "web-ingress") name (&&-right (str_eq (bytes "shop") ns) _ e) in
          rw (← here) (n, m)
      | inr e ↦ absurd (cc (rw e at h))
    ]

wanted_owned :
    by_uid.is_controlled_by
      (virtual_service_kind.meta (service_with (bytes "web.example.com" ∷ [])))
      web_ingress.meta
    ≡ true
unfolding virtual_service_kind str_eq
wanted_owned = refl

reconcile_object_converges_example :
    Settled virtual_service_kind virtual_service_kind-IsLawful web_ingress.meta
      (service_with (bytes "web.example.com" ∷ []))
      one_object
    ⊎ Refused virtual_service_kind virtual_service_kind-IsLawful web_ingress.meta
        (service_with (bytes "web.example.com" ∷ []))
        one_object
reconcile_object_converges_example =
    reconcile_object_converges virtual_service_kind virtual_service_kind-IsLawful web_ingress.meta
      (service_with (bytes "web.example.com" ∷ [])) one_object one_object_keyed wanted_owned

abbrev wanted : VirtualService
wanted = service_with (bytes "web.example.com" ∷ [])

abbrev reconciled_store : Store VirtualService
reconciled_store = after virtual_service_kind web_ingress.meta wanted one_object

web_settled :
    Settled virtual_service_kind virtual_service_kind-IsLawful web_ingress.meta wanted one_object
unfolding virtual_service_kind str_eq reconcile_object client_of write_all
web_settled = record {
  in_place = record { object = wanted; present = refl; as_desired = refl; controlled = refl };
  reconciled = wanted;
  succeeds = refl;
  second = refl;
}

api_foreign : by_uid.is_controlled_by wanted.meta api_ingress.meta ≡ false
unfolding str_eq
api_foreign = refl

-- Another Ingress wants the same VirtualService, and then it wants another one.
abbrev api_wanted : VirtualService
api_wanted = record {
  meta = record (meta_of (bytes "shop") (bytes "api-ingress") (bytes "vs")) {
    owner_references = by_uid.new_controller_ref api_ingress.meta ∷ [];
  };
  spec = record { hosts = bytes "api.example.com" ∷ []; gateways = []; http = [] };
}

abbrev Between : Store VirtualService → Store VirtualService → Type 0
Between = Others virtual_service_kind virtual_service_kind-IsLawful wanted

abbrev last_store : Store VirtualService
last_store =
    after virtual_service_kind api_ingress.meta api_wanted
      (after virtual_service_kind api_ingress.meta wanted reconciled_store)

api_runs : Between reconciled_store last_store
unfolding virtual_service_kind
api_runs =
    acts api_ingress.meta wanted api_foreign (acts api_ingress.meta api_wanted api_foreign here)

reconciled_keyed : WellKeyed virtual_service_kind reconciled_store
reconciled_keyed =
    after-WellKeyed virtual_service_kind virtual_service_kind-IsLawful web_ingress.meta wanted
      one_object one_object_keyed

reconciled_present : reconciled_store (bytes "shop") (bytes "web-ingress") ≡ some wanted
unfolding virtual_service_kind str_eq reconcile_object client_of write_all
reconciled_present = refl

Others-leave_example :
    (last_store (bytes "shop") (bytes "web-ingress") ≡ some wanted)
    × WellKeyed virtual_service_kind last_store
Others-leave_example =
    Others-leave virtual_service_kind virtual_service_kind-IsLawful (bytes "shop")
      (bytes "web-ingress") wanted reconciled_store last_store reconciled_keyed reconciled_present
      api_runs

Settled_stays_example :
    reconcile_in virtual_service_kind web_ingress.meta wanted last_store
    ≡ record { result = ok wanted; writes = []; events = [] }
unfolding web_settled
Settled_stays_example =
    Settled_stays virtual_service_kind virtual_service_kind-IsLawful web_ingress.meta wanted
      one_object last_store one_object_keyed web_settled api_runs
