-- ===== src/Reconciler/Collecting.antt =====
-- `reconcileVirtualServices` of ingress.go: every VirtualService that is not wanted goes.
use knative_extensions_net_i.Base.{
  ◌≡◌, refl, sym, ap, ◌∙◌, Bool, true, false, ◌&&◌, ◌||◌, List, [], ◌∷◌, ok, any, Bool-cases, inl,
  inr, Member, Member-append_right, arith, wrap_error-eq-ok, some,
}
use knative_extensions_net_i.Base.Sort.{Member-sort}
use knative_extensions_net_i.GoString.{GoString, str_eq}
use knative_extensions_net_i.Api.{Ingress, VirtualService, get}
use knative_extensions_net_i.Platform.{SetLib, StringSet, Kmeta, Keys}
use knative_extensions_net_i.Accessor.{delete, reconcile_object}
use knative_extensions_net_i.Accessor.Kinds.{Comparisons, virtual_service_kind}
use knative_extensions_net_i.Resources.VirtualService.{route_label_key}
use knative_extensions_net_i.Resources.VirtualService.Prefixes.{has-insert_one}
use knative_extensions_net_i.Reconciler.Run.{Run, on_virtual_service, of_outcome, for_each}
use knative_extensions_net_i.Reconciler.World.{World, has_istio_class}
use knative_extensions_net_i.Reconciler.Effects.{continue-eq-ok, for_each-eq-ok}
use knative_extensions_net_i.Reconciler.Objects.{
  create_virtual_services, or_virtual_service_failed, delete_stale, delete_selected, sort_by_name,
  reconcile_virtual_services,
}

module _ ⦃sets : SetLib⦄ ⦃kmeta : Kmeta⦄ ⦃keys : Keys⦄ ⦃cmp : Comparisons⦄ (world : World)
    (ing : Ingress) where
  -- The annotation of the Ingress class is that of Istio.
  abbrev pub is_istio_class : VirtualService → Bool
  is_istio_class d =
      str_eq (get world.ingress_class_annotation_key d.meta.annotations)
        world.istio_ingress_class_name

  is_istio_class_lem :
      (d : VirtualService) (b : Bool) → has_istio_class world d.meta ≡ b → is_istio_class d ≡ b
  unfolding has_istio_class
  is_istio_class_lem d b e = e

  -- A VirtualService of the Istio class is wanted under the name.
  abbrev pub wants_name : List VirtualService → GoString → Bool
  wants_name desired n = any (λ d. is_istio_class d && str_eq n d.meta.name) desired

  -- the labels by which the VirtualServices of the Ingress are listed
  abbrev pub service_labels : List (GoString × GoString)
  service_labels =
      (keys.ingress_label, ing.meta.name)
      ∷ (route_label_key, get route_label_key ing.meta.labels)
      ∷ []

  abbrev reconciled_one : VirtualService → Run (Unit {0})
  reconciled_one d = or_virtual_service_failed world d.meta.name (
      of_outcome on_virtual_service (
        reconcile_object virtual_service_kind (some ing.meta) d world.virtual_services
          world.recorder))

  -- The names that are kept are those that are wanted.
  create_virtual_services-has :
      (n : GoString) (kept last : StringSet) (desired : List VirtualService)
      → (create_virtual_services world ing kept desired).result ≡ ok last
      → sets.has last n ≡ (sets.has kept n || wants_name desired n)
  unfolding create_virtual_services any
  create_virtual_services-has n kept last [] h =
      let same : kept ≡ last = cc h in rw (← same) (ground arith)
  create_virtual_services-has n kept last (d ∷ desired) h =
      elim (Bool-cases (has_istio_class world d.meta)) [
        | inl e ↦
            let more = sets.insert kept (d.meta.name ∷ []) in
            let (u, a, k, l) =
              continue-eq-ok (reconciled_one d)
                (λ u. create_virtual_services world ing more desired) (rw e at h) in
            create_virtual_services-has n more last desired k
            ∙ rw (has-insert_one kept d.meta.name n, is_istio_class_lem d true e) (ground arith)
        | inr e ↦
            create_virtual_services-has n kept last desired (rw e at h)
            ∙ rw (is_istio_class_lem d false e) refl
      ]

  deletes :
      (kept : StringSet) (vs : VirtualService)
      → (delete_stale world ing kept vs).result ≡ ok tt
      → sets.has kept vs.meta.name ≡ false
      → kmeta.is_controlled_by vs.meta ing.meta ≡ true
      → Member
          (on_virtual_service (delete vs.meta.namespace vs.meta.name))
          (delete_stale world ing kept vs).effects
        × (world.delete_virtual_service vs.meta.namespace vs.meta.name ≡ ok tt)
  unfolding delete_stale
  deletes kept vs h k c = (rw (k, c, Member) (inl refl), wrap_error-eq-ok _ _ (rw (k, c) at h))

  selected_lem :
      (kept : StringSet) (label content : GoString) (listed : List VirtualService)
      → world.list_virtual_services ing.meta.namespace label content ≡ ok listed
      → delete_selected world ing kept (label, content)
        ≡ for_each (delete_stale world ing kept) (sort_by_name world ing listed)
  unfolding delete_selected
  selected_lem kept label content listed q = rw q refl

  -- When reconcileVirtualServices succeeds, each VirtualService that is listed for one of the
  -- two labels, is controlled by the Ingress and has no name of a wanted VirtualService of the
  -- Istio class was deleted.
  pub reconcile_virtual_services_complete :
      (desired listed : List VirtualService) (label content : GoString) (vs : VirtualService)
      → (reconcile_virtual_services world ing desired).result ≡ ok tt
      → Member (label, content) service_labels
      → world.list_virtual_services ing.meta.namespace label content ≡ ok listed
      → Member vs listed
      → kmeta.is_controlled_by vs.meta ing.meta ≡ true
      → wants_name desired vs.meta.name ≡ false
      → Member
          (on_virtual_service (delete vs.meta.namespace vs.meta.name))
          (reconcile_virtual_services world ing desired).effects
        × (world.delete_virtual_service vs.meta.namespace vs.meta.name ≡ ok tt)
  unfolding reconcile_virtual_services sort_by_name
  reconcile_virtual_services_complete desired listed label content vs h m q found own stale =
      let made = create_virtual_services world ing sets.empty desired in
      let (kept, a, k, l) =
        continue-eq-ok made (λ kept. for_each (delete_selected world ing kept) service_labels) h in
      let (done, more) =
        for_each-eq-ok (delete_selected world ing kept) service_labels (label, content) k m in
      let not_kept : sets.has kept vs.meta.name ≡ false =
        create_virtual_services-has vs.meta.name sets.empty kept desired a
        ∙ rw (sets.has-empty vs.meta.name, stale) refl in
      let selected = selected_lem kept label content listed q in
      let sorted = sort_by_name world ing listed in
      let (round, inside) =
        for_each-eq-ok (delete_stale world ing kept) sorted vs
          (sym (ap (λ (r : Run (Unit {0})). r.result) selected) ∙ done)
          (Member-sort _ vs listed found) in
      let (there, deleted) = deletes kept vs round not_kept own in
      let effect = on_virtual_service (delete vs.meta.namespace vs.meta.name) in
      (
        rw l (
            Member-append_right effect made.effects
              (for_each (delete_selected world ing kept) service_labels).effects
              (more effect (rw selected (inside effect there)))),
        deleted,
      )
