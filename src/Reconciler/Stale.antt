-- ===== src/Reconciler/Stale.antt =====
-- `reconcileVirtualServices`: which VirtualServices are deleted.
use knative_extensions_net_i.Base.{
  ◌≡◌, refl, ◌∙◌, Bool, true, false, some, List, [], ◌∷◌, Result, ok, err, any, map, Bool-cases,
  Result-cases, inl, inr, Member, any_of_Member, any-append, wrap_error-eq-ok, wrap_error, Option,
}
use knative_extensions_net_i.GoString.{GoString}
use knative_extensions_net_i.Base.Sort.{Member-of_sort}
use knative_extensions_net_i.Api.{Ingress, VirtualService, ObjectMeta, get}
use knative_extensions_net_i.Platform.{SetLib, StringSet, Kmeta, Keys}
use knative_extensions_net_i.Accessor.{
  delete, Event, Outcome, Client, on_found, reconcile_object, after_create, after_update, failed,
  is_not_owned, is_not_found, owned,
}
use knative_extensions_net_i.Accessor.Kinds.{Comparisons, virtual_service_kind}
use knative_extensions_net_i.Resources.VirtualService.{route_label_key}
use knative_extensions_net_i.Reconciler.Run.{
  Run, Effect, on_virtual_service, emitted, continue, for_each, of_outcome,
}
use knative_extensions_net_i.Reconciler.World.{World, has_istio_class}
use knative_extensions_net_i.Reconciler.Effects.{Member-continue, Member-for_each}
use knative_extensions_net_i.Reconciler.Objects.{
  create_virtual_services, or_virtual_service_failed, virtual_service_failed, delete_stale,
  delete_selected, sort_by_name, reconcile_virtual_services,
}

-- A call that deletes a VirtualService.
abbrev pub is_delete : Effect → Bool
is_delete (on_virtual_service (delete ns name)) = true
is_delete _ = false

no_delete_events : (events : List Event) → any is_delete (map emitted events) ≡ false
unfolding any
no_delete_events [] = refl
no_delete_events (e ∷ es) = no_delete_events es

no_delete_continue {ℓ κ} :
    {A : Type ℓ} {B : Type κ} (r : Result A) (es : List Effect) (f : A → Run B)
    → any is_delete es ≡ false
    → ((a : A) → any is_delete (f a).effects ≡ false)
    → any is_delete (continue r es f).effects ≡ false
no_delete_continue (ok a) es f h k = any-append is_delete es (f a).effects ∙ rw (h, k a) refl
no_delete_continue (err x) es f h k = h

module _ ⦃sets : SetLib⦄ ⦃kmeta : Kmeta⦄ ⦃keys : Keys⦄ ⦃cmp : Comparisons⦄ (world : World)
    (ing : Ingress) where
  -- Why a VirtualService is deleted: it was listed for one of the two labels, it is controlled by
  -- the Ingress, and its name is not one that is kept.
  pub record Obsolete (kept : StringSet) (e : Effect) : Type 0 where
    pub label : GoString
    pub content : GoString
    pub listed : List VirtualService
    pub vs : VirtualService
    pub list : world.list_virtual_services ing.meta.namespace label content ≡ ok listed
    pub member : Member vs listed
    pub effect : e ≡ on_virtual_service (delete vs.meta.namespace vs.meta.name)
    pub not_kept : sets.has kept vs.meta.name ≡ false
    pub controlled : kmeta.is_controlled_by vs.meta ing.meta ≡ true

  delete_stale_effect :
      (kept : StringSet) (vs : VirtualService) (e : Effect)
      → Member e (delete_stale world ing kept vs).effects
      → (e ≡ on_virtual_service (delete vs.meta.namespace vs.meta.name))
        × (sets.has kept vs.meta.name ≡ false)
        × (kmeta.is_controlled_by vs.meta ing.meta ≡ true)
  unfolding delete_stale
  delete_stale_effect kept vs e m = elim (Bool-cases (sets.has kept vs.meta.name)) [
    | inl k ↦ elim (rw k at m) [ ]
    | inr k ↦ elim (Bool-cases (kmeta.is_controlled_by vs.meta ing.meta)) [
      | inl c ↦ elim (rw (k, c) at m) [ inl q ↦ (q, k, c) | inr n ↦ elim n [ ] ]
      | inr c ↦ elim (rw (k, c) at m) [ ]
    ]
  ]

  delete_selected_effect :
      (kept : StringSet) (entry : GoString × GoString) (e : Effect)
      → Member e (delete_selected world ing kept entry).effects
      → Obsolete kept e
  unfolding delete_selected sort_by_name
  delete_selected_effect kept (k, v) e m =
      elim (Member-continue
        (wrap_error "failed to list VirtualServices: %w"
          (world.list_virtual_services ing.meta.namespace k v))
        [] (λ vses. for_each (delete_stale world ing kept) (sort_by_name world ing vses)) e m) [
          | inl n ↦ elim n [ ]
          | inr (vses, q, n) ↦
              let (vs, i, d) =
                Member-for_each (delete_stale world ing kept) (sort_by_name world ing vses) e n in
              let (a, b, c) = delete_stale_effect kept vs e d in
              record {
                label = k;
                content = v;
                listed = vses;
                vs = vs;
                list =
                    wrap_error-eq-ok "failed to list VirtualServices: %w"
                      (world.list_virtual_services ing.meta.namespace k v) q;
                member = Member-of_sort _ vs vses i;
                effect = a;
                not_kept = b;
                controlled = c;
              }
        ]

  -- an outcome whose writes delete nothing
  abbrev NoDeletes : Outcome VirtualService → Type 0
  NoDeletes o = any is_delete (of_outcome on_virtual_service o).effects ≡ false

  after_create-NoDeletes :
      (desired : VirtualService) (r : Result VirtualService)
      → NoDeletes (after_create virtual_service_kind desired r)
  unfolding after_create any
  after_create-NoDeletes desired (ok a) = refl
  after_create-NoDeletes desired (err e) = refl

  after_update-NoDeletes :
      (object desired : VirtualService) (r : Result VirtualService)
      → NoDeletes (after_update virtual_service_kind object desired r)
  unfolding after_update any virtual_service_kind
  after_update-NoDeletes object desired (ok a) = refl
  after_update-NoDeletes object desired (err e) = refl

  on_found-NoDeletes :
      (owner : Option ObjectMeta) (desired : VirtualService) (client : Client VirtualService)
      (r : Result VirtualService)
      → NoDeletes (on_found virtual_service_kind owner desired client r)
  unfolding on_found failed any
  on_found-NoDeletes owner desired client (err e) = elim (Bool-cases (is_not_found e)) [
    | inl b ↦ rw b (after_create-NoDeletes desired (client.on_create desired))
    | inr b ↦ rw b refl
  ]
  on_found-NoDeletes owner desired client (ok object) =
      elim (Bool-cases (owned virtual_service_kind object owner)) [
        | inl b ↦ elim (Bool-cases (virtual_service_kind.differs object desired)) [
          | inl d ↦
              let merged = virtual_service_kind.merged object desired in
              rw (b, d) (after_update-NoDeletes merged desired (client.on_update merged))
          | inr d ↦ rw (b, d) refl
        ]
        | inr b ↦ rw b refl
      ]

  -- a reconciliation deletes nothing
  reconcile_object-NoDeletes :
      (owner : Option ObjectMeta) (desired : VirtualService) (client : Client VirtualService)
      (recorder : Bool)
      → NoDeletes (reconcile_object virtual_service_kind owner desired client recorder)
  unfolding reconcile_object failed any
  reconcile_object-NoDeletes owner desired client true = on_found-NoDeletes owner desired client (
      client.find (virtual_service_kind.meta desired).namespace
        (virtual_service_kind.meta desired).name)
  reconcile_object-NoDeletes owner desired client false = refl

  no_delete_failed :
      (name : GoString) (r : Run VirtualService)
      → any is_delete r.effects ≡ false
      → any is_delete (or_virtual_service_failed world name r).effects ≡ false
  unfolding or_virtual_service_failed virtual_service_failed any
  no_delete_failed name r h = elim (Result-cases r.result) [
    | inl (a, e) ↦ rw e h
    | inr (x, e) ↦ elim (Bool-cases (is_not_owned x)) [
      | inl b ↦ rw (e, b) (any-append is_delete r.effects _ ∙ rw h refl)
      | inr b ↦ rw (e, b) (any-append is_delete r.effects [] ∙ rw h refl)
    ]
  ]

  -- one round of the first loop
  abbrev created_one : VirtualService → Run (Unit {0})
  created_one d = or_virtual_service_failed world d.meta.name (
      of_outcome on_virtual_service (
        reconcile_object virtual_service_kind (some ing.meta) d world.virtual_services
          world.recorder))

  no_delete_created : (d : VirtualService) → any is_delete (created_one d).effects ≡ false
  no_delete_created d =
      no_delete_failed d.meta.name
        (of_outcome on_virtual_service (
          reconcile_object virtual_service_kind (some ing.meta) d world.virtual_services
            world.recorder))
        (reconcile_object-NoDeletes (some ing.meta) d world.virtual_services world.recorder)

  no_delete_create :
      (kept : StringSet) (desired : List VirtualService)
      → any is_delete (create_virtual_services world ing kept desired).effects ≡ false
  unfolding create_virtual_services any
  no_delete_create kept [] = refl
  no_delete_create kept (d ∷ desired) =
      let more = sets.insert kept (d.meta.name ∷ []) in
      elim (Bool-cases (has_istio_class world d.meta)) [
        | inl c ↦ rw c (
            no_delete_continue (created_one d).result (created_one d).effects
              (λ u. create_virtual_services world ing more desired) (no_delete_created d)
              (λ u. no_delete_create more desired))
        | inr c ↦ rw c (no_delete_create kept desired)
      ]

  -- Every VirtualService that reconcileVirtualServices deletes was listed for a label in the
  -- Ingress's namespace, is controlled by the Ingress, and has none of the names that the run
  -- keeps.
  pub reconcile_virtual_services-Obsolete :
      (desired : List VirtualService) (e : Effect)
      → Member e (reconcile_virtual_services world ing desired).effects
      → is_delete e ≡ true
      → (kept : StringSet) × ((create_virtual_services world ing sets.empty desired).result
          ≡ ok kept)
        × Obsolete kept e
  unfolding reconcile_virtual_services
  reconcile_virtual_services-Obsolete desired e m d =
      let made = create_virtual_services world ing sets.empty desired in
      let selectors : List (GoString × GoString) =
        (keys.ingress_label, ing.meta.name)
        ∷ (route_label_key, get route_label_key ing.meta.labels)
        ∷ [] in
      elim (Member-continue made.result made.effects
        (λ kept. for_each (delete_selected world ing kept) selectors) e m) [
          | inl n ↦
              absurd (
                cc
                  (any_of_Member is_delete e made.effects n d, no_delete_create sets.empty desired))
          | inr (kept, q, n) ↦
              let (entry, i, k) = Member-for_each (delete_selected world ing kept) selectors e n in
              (kept, q, delete_selected_effect kept entry e k)
        ]
