-- ===== src/Accessor/Convergence.antt =====
-- The accessors of pkg/reconciler/accessor against an API server that answers from a store.
use knative_extensions_net_i.Base.{
  ◌≡◌, refl, ◌∙◌, true, false, ◌&&◌, Option, none, some, List, [], ◌∷◌, Result, ok, err, Error,
  not_found, arith, if◌then◌else◌, Bool-cases, inl, inr, ◌⊎◌, Option-cases, accessor_error, errorf,
}
use knative_extensions_net_i.GoString.{GoString, str_eq, str_eq_iff}
use knative_extensions_net_i.Api.{ObjectMeta}
use knative_extensions_net_i.Platform.{Kmeta}
use knative_extensions_net_i.Accessor.{
  Write, create, update, delete, Client, Outcome, Kind, is_not_owned, reconcile_object,
  not_own_resource,
}
use knative_extensions_net_i.Accessor.Kinds.{IsLawful}

-- The objects of one kind, by namespace and name.
abbrev pub Store {ℓ} : Type ℓ → Type ℓ
Store A = GoString → GoString → Option A

unfoldable pub found_or_missing {ℓ} : {A : Type ℓ} → Option A → Result A
found_or_missing none = err not_found
found_or_missing (some a) = ok a

-- A lister that shows the store, and a client whose writes succeed.
unfoldable pub client_of {ℓ} : {A : Type ℓ} → Store A → Client A
unfolding found_or_missing
client_of store = record {
  find = λ ns name. found_or_missing (store ns name);
  on_create = λ a. ok a;
  on_update = λ a. ok a;
}

module _ {ℓ} {A : Type ℓ} (kind : Kind A) where
  unfoldable pub put : A → Store A → Store A
  put a store ns name =
      if str_eq (kind.meta a).namespace ns && str_eq (kind.meta a).name name
      then some a
      else store ns name

  unfoldable pub remove : GoString → GoString → Store A → Store A
  remove ns' name' store ns name =
      if str_eq ns' ns && str_eq name' name then none else store ns name

  unfoldable pub write : Write A → Store A → Store A
  unfolding put remove
  write (create a) store = put a store
  write (update a) store = put a store
  write (delete ns name) store = remove ns name store

  unfoldable pub write_all : List (Write A) → Store A → Store A
  unfolding write
  write_all [] store = store
  write_all (w ∷ ws) store = write_all ws (write w store)

  -- What a reconciliation does to the store.
  abbrev pub reconcile_in : ⦃kmeta : Kmeta⦄ → ObjectMeta → A → Store A → Outcome A
  reconcile_in owner desired store =
      reconcile_object kind (some owner) desired (client_of store) true

  abbrev pub after : ⦃kmeta : Kmeta⦄ → ObjectMeta → A → Store A → Store A
  after owner desired store = write_all (reconcile_in owner desired store).writes store

  put_at :
      (a : A) (store : Store A) (ns name : GoString)
      → (kind.meta a).namespace ≡ ns
      → (kind.meta a).name ≡ name
      → put a store ns name ≡ some a
  unfolding put
  put_at a store ns name e f =
      ground (arith, str_eq_iff (kind.meta a).namespace ns, str_eq_iff (kind.meta a).name name)

  -- An object stands under its own name.
  abbrev pub WellKeyed : Store A → Type ℓ
  WellKeyed store =
      (ns name : GoString) (a : A)
      → store ns name ≡ some a
      → ((kind.meta a).namespace ≡ ns) × ((kind.meta a).name ≡ name)

  module _ ⦃kmeta : Kmeta⦄ (lawful : IsLawful kind) (owner : ObjectMeta) (desired : A) where
    abbrev at : Store A → Option A
    at store = store (kind.meta desired).namespace (kind.meta desired).name

    -- The object is in place: owned, and as desired.
    pub record InPlace (store : Store A) : Type ℓ where
      pub object : A
      pub present : at store ≡ some object
      pub as_desired : kind.differs object desired ≡ false
      pub controlled : kmeta.is_controlled_by (kind.meta object) owner ≡ true

    -- Then there is nothing to do.
    pub InPlace-outcome :
        (store : Store A) (p : InPlace store)
        → reconcile_in owner desired store
          ≡ record { result = ok p.object; writes = []; events = [] }
    unfolding reconcile_object client_of
    InPlace-outcome store p = rw (p.present, p.controlled, p.as_desired) refl

    module _ (store : Store A) where
      missing :
          at store ≡ none
          → kmeta.is_controlled_by (kind.meta desired) owner ≡ true
          → InPlace (after owner desired store)
      unfolding reconcile_object client_of write_all
      missing e own = record {
        object = desired;
        present =
            rw e (
              put_at desired store (kind.meta desired).namespace (kind.meta desired).name refl
                refl);
        as_desired = lawful.differs_self desired;
        controlled = own;
      }

      differing :
          (a : A)
          → at store ≡ some a
          → WellKeyed store
          → kmeta.is_controlled_by (kind.meta a) owner ≡ true
          → kind.differs a desired ≡ true
          → InPlace (after owner desired store)
      unfolding reconcile_object client_of write_all
      differing a e keyed own d =
          let m = kind.merged a desired in
          let (ns, name) = keyed (kind.meta desired).namespace (kind.meta desired).name a e in
          record {
            object = m;
            present =
                rw (e, own, d)
                  (put_at m store (kind.meta desired).namespace (kind.meta desired).name
                    (lawful.merged_namespace a desired ∙ ns) (lawful.merged_name a desired ∙ name));
            as_desired = lawful.merged_same a desired;
            controlled =
                kmeta.controlled_by_owners (kind.meta m) (kind.meta a) owner
                  (lawful.merged_owners a desired)
                ∙ own;
          }

      already :
          (a : A)
          → at store ≡ some a
          → kmeta.is_controlled_by (kind.meta a) owner ≡ true
          → kind.differs a desired ≡ false
          → InPlace (after owner desired store)
      unfolding reconcile_object client_of write_all
      already a e own d = record {
        object = a;
        present = rw (e, own, d) e;
        as_desired = d;
        controlled = own;
      }

      -- The object that stands in the way belongs to another owner: nothing is written, and the
      -- error says so.
      pub record Refused : Type ℓ where
        pub object : A
        pub present : at store ≡ some object
        pub foreign : kmeta.is_controlled_by (kind.meta object) owner ≡ false
        pub error : Error
        pub refused :
            reconcile_in owner desired store
            ≡ record { result = err error; writes = []; events = [] }
        pub not_owned : is_not_owned error ≡ true

      refuse :
          (a : A) → at store ≡ some a → kmeta.is_controlled_by (kind.meta a) owner ≡ false → Refused
      unfolding reconcile_object client_of is_not_owned
      refuse a e own = record {
        object = a;
        present = e;
        foreign = own;
        error =
            accessor_error
              (errorf kind.not_owned
                ((kind.not_owned_of (kind.meta desired) (kind.meta a)).name ∷ []))
              not_own_resource;
        refused = rw (e, own) refl;
        not_owned = refl;
      }

      -- The object is in place afterwards, the reconciliation succeeds, and a second one has
      -- nothing to do.
      pub record Settled : Type ℓ where
        pub in_place : InPlace (after owner desired store)
        pub reconciled : A
        pub succeeds : (reconcile_in owner desired store).result ≡ ok reconciled
        pub second :
            reconcile_in owner desired (after owner desired store)
            ≡ record { result = ok in_place.object; writes = []; events = [] }

      settled :
          (a : A)
          → InPlace (after owner desired store)
          → (reconcile_in owner desired store).result ≡ ok a
          → Settled
      settled a p e = record {
        in_place = p;
        reconciled = a;
        succeeds = e;
        second = InPlace-outcome (after owner desired store) p;
      }

      -- Against a store whose writes succeed and whose objects stand under their own
      -- names, with an event recorder and a desired object that is controlled by its
      -- owner, a reconciliation of a kind with lawful fields either succeeds and puts the
      -- object in place, so that a second one returns it without a write or an event, or
      -- meets an object of another owner, writes nothing and returns a NotOwned error.
      pub reconcile_object_converges :
          WellKeyed store
          → kmeta.is_controlled_by (kind.meta desired) owner ≡ true
          → Settled ⊎ Refused
      unfolding reconcile_object client_of
      reconcile_object_converges keyed own = elim (Option-cases (at store)) [
        | inl e ↦ inl (settled desired (missing e own) (rw e refl))
        | inr (a, e) ↦ elim (Bool-cases (kmeta.is_controlled_by (kind.meta a) owner)) [
          | inl c ↦ elim (Bool-cases (kind.differs a desired)) [
            | inl d ↦
                inl (settled (kind.merged a desired) (differing a e keyed c d) (rw (e, c, d) refl))
            | inr d ↦ inl (settled a (already a e c d) (rw (e, c, d) refl))
          ]
          | inr c ↦ inr (refuse a e c)
        ]
      ]
