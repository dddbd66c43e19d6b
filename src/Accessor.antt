-- ===== src/Accessor.antt =====
-- pkg/reconciler/accessor: bringing one object of the cluster to a desired state.
pub mod Kinds
pub mod Convergence
pub mod Interleaving
use knative_extensions_net_i.Base.{
  Bool, true, false, not, Option, none, some, List, [], ◌∷◌, Result, ok, err, Error, not_found,
  external, errorf, wrapped, accessor_error, if◌then◌else◌, String,
}
use knative_extensions_net_i.GoString.{GoString, bytes, str_eq}
use knative_extensions_net_i.Api.{ObjectMeta}
use knative_extensions_net_i.Platform.{Kmeta}

-- `accessor.NotOwnResource`
abbrev pub not_own_resource : GoString
not_own_resource = bytes "NotOwned"

-- `accessor.IsNotOwned(err)`: `errors.As` looks through the wrapped errors for an `accessor.Error`
unfoldable pub is_not_owned : Error → Bool
unfolding str_eq
is_not_owned not_found = false
is_not_owned (external e) = false
is_not_owned (errorf f args) = false
is_not_owned (wrapped f e) = is_not_owned e
is_not_owned (accessor_error e reason) = str_eq reason not_own_resource

-- `apierrs.IsNotFound(err)`
unfoldable pub is_not_found : Error → Bool
is_not_found not_found = true
is_not_found (wrapped f e) = is_not_found e
is_not_found _ = false

-- A write to the API server, in the order of the calls.
pub data Write {ℓ} (A : Type ℓ) : Type ℓ where
  create update : A → Write A
  delete : GoString → GoString → Write A

pub data Event : Type 0 where
  creation_failed created update_failed updated : GoString → GoString → Event

-- The lister and the client of one kind of object.
pub record Client {ℓ} (A : Type ℓ) : Type ℓ where
  pub find : GoString → GoString → Result A
  pub on_create : A → Result A
  pub on_update : A → Result A

-- What a reconciliation returns, the writes that it tried, and its events.
pub record Outcome {ℓ} (A : Type ℓ) : Type ℓ where
  pub result : Result A
  pub writes : List (Write A)
  pub events : List Event

-- What tells the kinds of objects apart.
pub record Kind {ℓ} (A : Type ℓ) : Type ℓ where
  pub meta : A → ObjectMeta
  -- whether the current object has to be updated to be as desired
  pub differs : A → A → Bool
  -- the current object with the fields of the desired one
  pub merged : A → A → A
  pub get_failed : Error → Error
  -- of the desired object's metadata and that of the object at hand, what the messages name: where
  -- the object was created, where its update failed, where it was updated, where it is not owned
  pub created_of : ObjectMeta → ObjectMeta → ObjectMeta
  pub update_failure_events : ObjectMeta → ObjectMeta → List Event
  pub updated_of : ObjectMeta → ObjectMeta → ObjectMeta
  pub not_owned_of : ObjectMeta → ObjectMeta → ObjectMeta
  pub no_recorder : String
  pub create_failed : String
  pub update_failed : String
  pub not_owned : String

module _ {ℓ} {A : Type ℓ} (kind : Kind A) where
  unfoldable pub after_create : A → Result A → Outcome A
  after_create desired (ok created_object) = record {
    result = ok created_object;
    writes = create desired ∷ [];
    events =
        created (kind.created_of (kind.meta desired) (kind.meta created_object)).namespace
          (kind.created_of (kind.meta desired) (kind.meta created_object)).name
        ∷ [];
  }
  after_create desired (err e) = record {
    result = err (wrapped kind.create_failed e);
    writes = create desired ∷ [];
    events = creation_failed (kind.meta desired).namespace (kind.meta desired).name ∷ [];
  }

  unfoldable pub after_update : A → A → Result A → Outcome A
  after_update object desired (ok updated_object) = record {
    result = ok updated_object;
    writes = update object ∷ [];
    events =
        updated (kind.updated_of (kind.meta desired) (kind.meta object)).namespace
          (kind.updated_of (kind.meta desired) (kind.meta object)).name
        ∷ [];
  }
  after_update object desired (err e) = record {
    result = err (wrapped kind.update_failed e);
    writes = update object ∷ [];
    events = kind.update_failure_events (kind.meta desired) (kind.meta object);
  }

  unfoldable pub failed : Error → Outcome A
  failed e = record { result = err e; writes = []; events = [] }

  -- Without an owner the secret accessor asks for no ownership.
  unfoldable pub owned : ⦃kmeta : Kmeta⦄ → A → Option ObjectMeta → Bool
  owned object none = true
  owned ⦃kmeta⦄ object (some owner) = kmeta.is_controlled_by (kind.meta object) owner

  module _ ⦃kmeta : Kmeta⦄ (owner : Option ObjectMeta) (desired : A) (client : Client A) where
    -- the branches after the lister's answer
    unfoldable pub on_found : Result A → Outcome A
    unfolding is_not_found after_create after_update failed owned
    on_found (err e) =
        if is_not_found e
        then after_create desired (client.on_create desired)
        else failed (kind.get_failed e)
    on_found (ok object) =
        if not (owned object owner)
        then failed (
            accessor_error
              (errorf kind.not_owned
                ((kind.not_owned_of (kind.meta desired) (kind.meta object)).name ∷ []))
              not_own_resource)
        else if kind.differs object desired
        then after_update (kind.merged object desired) desired
            (client.on_update (kind.merged object desired))
        else record { result = ok object; writes = []; events = [] }

    -- `ReconcileVirtualService` and its like; `has_recorder` says whether the context has an event
    -- recorder
    unfoldable pub reconcile_object : Bool → Outcome A
    unfolding on_found
    reconcile_object has_recorder =
        if not has_recorder
        then failed (
            errorf kind.no_recorder ((kind.meta desired).namespace ∷ (kind.meta desired).name ∷ []))
        else on_found (client.find (kind.meta desired).namespace (kind.meta desired).name)
