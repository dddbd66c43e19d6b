-- ===== src/Accessor/Interleaving.antt =====
-- The accessors of pkg/reconciler/accessor when several controllers work on the same objects.
use knative_extensions_net_i.Base.{
  ◌≡◌, refl, sym, ◌∙◌, true, false, ◌&&◌, none, some, [], Bool-cases, inl, inr, ◌⊎◌, Option-cases,
  &&-left, &&-right, ap₂,
}
use knative_extensions_net_i.GoString.{GoString, str_eq, str_eq→eq}
use knative_extensions_net_i.Api.{ObjectMeta}
use knative_extensions_net_i.Platform.{Kmeta}
use knative_extensions_net_i.Accessor.{Kind, reconcile_object, ok}
use knative_extensions_net_i.Accessor.Kinds.{IsLawful}
use knative_extensions_net_i.Accessor.Convergence.{
  Store, client_of, put, write_all, WellKeyed, Settled, after, reconcile_in, InPlace-outcome,
}

module _ {ℓ} {A : Type ℓ} (kind : Kind A) where
  -- A put leaves the objects under other keys.
  put_other :
      (a : A) (store : Store A) (ns name : GoString)
      → (str_eq (kind.meta a).namespace ns && str_eq (kind.meta a).name name) ≡ false
      → put kind a store ns name ≡ store ns name
  unfolding put
  put_other a store ns name e = rw e refl

  put-WellKeyed :
      (a : A) (store : Store A) → WellKeyed kind store → WellKeyed kind (put kind a store)
  unfolding put
  put-WellKeyed a store keyed ns name b h =
      elim (Bool-cases (str_eq (kind.meta a).namespace ns && str_eq (kind.meta a).name name)) [
        | inl e ↦
            let same : some a ≡ some b = rw e at h in
            let here : a ≡ b = cc same in
            rw (← here) (
              str_eq→eq (kind.meta a).namespace ns
                  (&&-left (str_eq (kind.meta a).namespace ns) _ e),
              str_eq→eq (kind.meta a).name name (&&-right (str_eq (kind.meta a).namespace ns) _ e),
            )
        | inr e ↦ keyed ns name b (rw e at h)
      ]

  module _ ⦃kmeta : Kmeta⦄ (lawful : IsLawful kind) where
    -- What one reconciliation does to the store: nothing, or a put under the desired object's key,
    -- where there is no object or one that its owner controls.
    pub record Puts (owner : ObjectMeta) (desired : A) (store : Store A) : Type ℓ where
      pub object : A
      pub same_namespace : (kind.meta object).namespace ≡ (kind.meta desired).namespace
      pub same_name : (kind.meta object).name ≡ (kind.meta desired).name
      pub changed : after kind owner desired store ≡ put kind object store
      pub free :
          (store (kind.meta desired).namespace (kind.meta desired).name ≡ none)
          ⊎ ((a : A) × (store (kind.meta desired).namespace (kind.meta desired).name ≡ some a)
              × (kmeta.is_controlled_by (kind.meta a) owner ≡ true))

    after_cases :
        (owner : ObjectMeta) (desired : A) (store : Store A)
        → WellKeyed kind store
        → (after kind owner desired store ≡ store) ⊎ Puts owner desired store
    unfolding reconcile_object client_of write_all
    after_cases owner desired store keyed =
        elim (Option-cases (store (kind.meta desired).namespace (kind.meta desired).name)) [
          | inl e ↦ inr (record {
            object = desired;
            same_namespace = refl;
            same_name = refl;
            changed = rw e refl;
            free = inl e;
          })
          | inr (a, e) ↦ elim (Bool-cases (kmeta.is_controlled_by (kind.meta a) owner)) [
            | inl c ↦ elim (Bool-cases (kind.differs a desired)) [
              | inl d ↦
                  let (ns, name) =
                    keyed (kind.meta desired).namespace (kind.meta desired).name a e in
                  inr (record {
                    object = kind.merged a desired;
                    same_namespace = lawful.merged_namespace a desired ∙ ns;
                    same_name = lawful.merged_name a desired ∙ name;
                    changed = rw (e, c, d) refl;
                    free = inr (a, e, c);
                  })
              | inr d ↦ inl (rw (e, c, d) refl)
            ]
            | inr c ↦ inl (rw (e, c) refl)
          ]
        ]

    pub after-WellKeyed :
        (owner : ObjectMeta) (desired : A) (store : Store A)
        → WellKeyed kind store
        → WellKeyed kind (after kind owner desired store)
    after-WellKeyed owner desired store keyed = elim (after_cases owner desired store keyed) [
      | inl e ↦ rw e keyed
      | inr p ↦ rw p.changed (put-WellKeyed p.object store keyed)
    ]

    not_free :
        (owner : ObjectMeta) (desired : A) (store : Store A) (a : A)
        → store (kind.meta desired).namespace (kind.meta desired).name ≡ some a
        → kmeta.is_controlled_by (kind.meta a) owner ≡ false
        → ¬ (
            (store (kind.meta desired).namespace (kind.meta desired).name ≡ none)
            ⊎ ((b : A) × (store (kind.meta desired).namespace (kind.meta desired).name ≡ some b)
                × (kmeta.is_controlled_by (kind.meta b) owner ≡ true)))
    not_free owner desired store a h foreign (inl e) =
        let none_some : none ≡ some a = sym e ∙ h in cc none_some
    not_free owner desired store a h foreign (inr (b, e, c)) =
        let both : some b ≡ some a = sym e ∙ h in
        let same : b ≡ a = cc both in
        let true_false : true ≡ false = sym (rw same at c) ∙ foreign in cc true_false

    -- A reconciliation for an owner leaves an object that the owner does not control.
    after_foreign :
        (owner : ObjectMeta) (desired : A) (store : Store A) (ns name : GoString) (a : A)
        → WellKeyed kind store
        → store ns name ≡ some a
        → kmeta.is_controlled_by (kind.meta a) owner ≡ false
        → after kind owner desired store ns name ≡ some a
    after_foreign owner desired store ns name a keyed h foreign =
        elim (after_cases owner desired store keyed) [
          | inl e ↦ rw e h
          | inr p ↦
              elim (Bool-cases (
                str_eq (kind.meta p.object).namespace ns
                && str_eq (kind.meta p.object).name name)) [
                  | inl s ↦
                      let e =
                        sym p.same_namespace
                        ∙ str_eq→eq (kind.meta p.object).namespace ns
                            (&&-left (str_eq (kind.meta p.object).namespace ns) _ s) in
                      let f =
                        sym p.same_name
                        ∙ str_eq→eq (kind.meta p.object).name name
                            (&&-right (str_eq (kind.meta p.object).namespace ns) _ s) in
                      absurd (not_free owner desired store a (ap₂ store e f ∙ h) foreign p.free)
                  | inr s ↦ rw p.changed (put_other p.object store ns name s ∙ h)
                ]
        ]

    -- Reconciliations in any order, of any objects, for owners that do not control this object.
    pub data Others (a : A) : Store A → Store A → Type ℓ where
      here : {store : Store A} → Others a store store
      acts :
          {store last : Store A} (owner : ObjectMeta) (desired : A)
          → kmeta.is_controlled_by (kind.meta a) owner ≡ false
          → Others a (after kind owner desired store) last
          → Others a store last

    -- In a store whose objects stand under their own names, any sequence of reconciliations
    -- for owners that do not control an object leaves it as it is, and leaves every object
    -- under its own name.
    pub Others-leave :
        (ns name : GoString) (a : A) (store last : Store A)
        → WellKeyed kind store
        → store ns name ≡ some a
        → Others a store last
        → (last ns name ≡ some a) × WellKeyed kind last
    Others-leave ns name a store last keyed h here = (h, keyed)
    Others-leave ns name a store last keyed h (acts owner desired foreign run) =
        Others-leave ns name a (after kind owner desired store) last
          (after-WellKeyed owner desired store keyed)
          (after_foreign owner desired store ns name a keyed h foreign) run

    -- After a reconciliation that put its object in place, and then any sequence of
    -- reconciliations of the same kind for owners that do not control the object, the next
    -- one for the owner returns the object without a write or an event.
    pub Settled_stays :
        (owner : ObjectMeta) (desired : A) (store last : Store A)
        → WellKeyed kind store
        → (settled : Settled kind lawful owner desired store)
        → Others settled.in_place.object (after kind owner desired store) last
        → reconcile_in kind owner desired last
          ≡ record { result = ok settled.in_place.object; writes = []; events = [] }
    Settled_stays owner desired store last keyed settled run =
        let p = settled.in_place in
        InPlace-outcome kind lawful owner desired last (record {
          object = p.object;
          present =
              (Others-leave (kind.meta desired).namespace (kind.meta desired).name p.object
                (after kind owner desired store) last (after-WellKeyed owner desired store keyed)
                p.present run).0;
          as_desired = p.as_desired;
          controlled = p.controlled;
        })
