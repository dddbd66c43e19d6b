-- ===== src/Reconciler/Deleting.antt =====
-- `cleanupCertificateSecrets` of ingress.go: what it deletes, whatever fails on the way.
use knative_extensions_net_i.Base.{
  ◌≡◌, refl, true, not, ◌||◌, ◌&&◌, List, [], ◌∷◌, ◌++◌, Result, ok, err, Error, Result-cases, inl,
  inr, ◌⊎◌, Member, Member-append_left,
}
use knative_extensions_net_i.Api.{Ingress, IngressTls, Secret}
use knative_extensions_net_i.Platform.{Keys, Selectors, IngressHelpers}
use knative_extensions_net_i.Accessor.{delete}
use knative_extensions_net_i.Resources.Selection.{
  ServiceName, get_ingress_gateway_svc_name_namespaces,
}
use knative_extensions_net_i.Resources.Secrets.{make_target_secret_labels}
use knative_extensions_net_i.Reconciler.Run.{
  Run, Effect, on_secret, pure, tell, or_errors, ◌>>=◌, lift,
}
use knative_extensions_net_i.Reconciler.World.{World}
use knative_extensions_net_i.Reconciler.Cleanup.{
  delete_secrets, delete_listed, cleanup_services, cleanup_block, cleanup_blocks,
  cleanup_certificate_secrets, should_reconcile_external_domain_tls,
  should_reconcile_cluster_local_domain_tls, new_aggregate,
}
use knative_extensions_net_i.Reconciler.Attempts.{
  Collects, Attempts, both-Collects, Attempts-left, Attempts-right, neither, if_false,
}

module _ (world : World) where
  -- the call that deletes a secret
  abbrev pub deletion : Secret → Result (Unit {0})
  deletion s = world.delete_secret s.meta.namespace s.meta.name

  abbrev pub deleted : Secret → Effect
  deleted s = on_secret (delete s.meta.namespace s.meta.name)

  abbrev one_deletion : Secret → Run (List Error)
  one_deletion s = or_errors (tell (deletion s) (deleted s ∷ []))

  one_deletion-Attempts : (s : Secret) → Attempts (one_deletion s) (deleted s) (deletion s)
  one_deletion-Attempts s = elim (Result-cases (deletion s)) [
    | inl (u, e) ↦ record { errors = []; collected = rw e refl; tried = inl refl; reported = inl e }
    | inr (x, e) ↦ record {
      errors = x ∷ [];
      collected = rw e refl;
      tried = inl refl;
      reported = inr (x, [], refl);
    }
  ]

  one_deletion-Collects : (s : Secret) → Collects (one_deletion s)
  one_deletion-Collects s = let a = one_deletion-Attempts s in (a.errors, a.collected)

  delete_secrets-Collects : (ss : List Secret) → Collects (delete_secrets world ss)
  unfolding delete_secrets
  delete_secrets-Collects [] = ([], refl)
  delete_secrets-Collects (s ∷ ss) =
      both-Collects (one_deletion s) (delete_secrets world ss) (one_deletion-Collects s)
        (delete_secrets-Collects ss)

  delete_secrets-Attempts :
      (s : Secret) (ss : List Secret)
      → Member s ss
      → Attempts (delete_secrets world ss) (deleted s) (deletion s)
  unfolding delete_secrets
  delete_secrets-Attempts s [] m = elim m [ ]
  delete_secrets-Attempts s (t ∷ ss) (inl e) = rw e (
      Attempts-left (one_deletion t) (delete_secrets world ss) (one_deletion-Attempts t)
        (delete_secrets-Collects ss))
  delete_secrets-Attempts s (t ∷ ss) (inr m) =
      Attempts-right (one_deletion t) (delete_secrets world ss) (one_deletion-Collects t)
        (delete_secrets-Attempts s ss m)

  module _ ⦃keys : Keys⦄ where
    -- the copies that are listed for a block in a service's namespace
    abbrev pub listed_copies : IngressTls → ServiceName → Result (List Secret)
    listed_copies tls service =
        world.list_secrets service.namespace
          (make_target_secret_labels tls.secret_name tls.secret_namespace)

    delete_listed-Collects : (r : Result (List Secret)) → Collects (delete_listed world r)
    unfolding delete_listed
    delete_listed-Collects (err e) = (e ∷ [], refl)
    delete_listed-Collects (ok secrets) = delete_secrets-Collects secrets

    cleanup_services-Collects :
        (tls : IngressTls) (services : List ServiceName)
        → Collects (cleanup_services world tls services)
    unfolding cleanup_services
    cleanup_services-Collects tls [] = ([], refl)
    cleanup_services-Collects tls (service ∷ services) =
        both-Collects (delete_listed world (listed_copies tls service))
          (cleanup_services world tls services) (delete_listed-Collects (listed_copies tls service))
          (cleanup_services-Collects tls services)

    module _ (tls : IngressTls) (service : ServiceName) (s : Secret) (secrets : List Secret)
        (listed : listed_copies tls service ≡ ok secrets) (found : Member s secrets) where
      cleanup_services-Attempts :
          (services : List ServiceName)
          → Member service services
          → Attempts (cleanup_services world tls services) (deleted s) (deletion s)
      unfolding cleanup_services delete_listed
      cleanup_services-Attempts [] m = elim m [ ]
      cleanup_services-Attempts (x ∷ services) (inl e) =
          Attempts-left (delete_listed world (listed_copies tls x))
            (cleanup_services world tls services)
            (rw (← e, listed) (delete_secrets-Attempts s secrets found))
            (cleanup_services-Collects tls services)
      cleanup_services-Attempts (x ∷ services) (inr m) =
          Attempts-right (delete_listed world (listed_copies tls x))
            (cleanup_services world tls services) (delete_listed-Collects (listed_copies tls x))
            (cleanup_services-Attempts services m)

      module _ ⦃selectors : Selectors⦄ (ing : Ingress) (services : List ServiceName)
          (configured : get_ingress_gateway_svc_name_namespaces world.istio ing.meta ≡ ok services)
          (serves : Member service services) where
        cleanup_blocks-Collects :
            (blocks : List IngressTls) → Collects (cleanup_blocks world ing blocks)
        unfolding cleanup_blocks cleanup_block
        cleanup_blocks-Collects [] = ([], refl)
        cleanup_blocks-Collects (b ∷ blocks) =
            both-Collects
              (cleanup_block world ing
                (get_ingress_gateway_svc_name_namespaces world.istio ing.meta) b)
              (cleanup_blocks world ing blocks)
              (rw configured (cleanup_services-Collects b services))
              (cleanup_blocks-Collects blocks)

        cleanup_blocks-Attempts :
            (blocks : List IngressTls)
            → Member tls blocks
            → Attempts (cleanup_blocks world ing blocks) (deleted s) (deletion s)
        unfolding cleanup_blocks cleanup_block
        cleanup_blocks-Attempts [] m = elim m [ ]
        cleanup_blocks-Attempts (b ∷ blocks) (inl e) =
            Attempts-left
              (cleanup_block world ing
                (get_ingress_gateway_svc_name_namespaces world.istio ing.meta) b)
              (cleanup_blocks world ing blocks)
              (rw (configured, ← e) (cleanup_services-Attempts services serves))
              (cleanup_blocks-Collects blocks)
        cleanup_blocks-Attempts (b ∷ blocks) (inr m) =
            Attempts-right
              (cleanup_block world ing
                (get_ingress_gateway_svc_name_namespaces world.istio ing.meta) b)
              (cleanup_blocks world ing blocks)
              (rw configured (cleanup_services-Collects b services))
              (cleanup_blocks-Attempts blocks m)

        -- the run behind the guard
        abbrev reported_cleanup : Run (Unit {0})
        reported_cleanup = do
          errs ← cleanup_blocks world ing ing.tls
          lift (new_aggregate world errs)

        guard_passed :
            ⦃helpers : IngressHelpers⦄
            → (should_reconcile_external_domain_tls ing
                || should_reconcile_cluster_local_domain_tls ing)
              ≡ true
            → cleanup_certificate_secrets world ing ≡ reported_cleanup
        unfolding cleanup_certificate_secrets
        guard_passed h =
            if_false
              (not (should_reconcile_external_domain_tls ing)
                && not (should_reconcile_cluster_local_domain_tls ing))
              (pure tt) reported_cleanup
              (neither (should_reconcile_external_domain_tls ing)
                (should_reconcile_cluster_local_domain_tls ing) h)

        reported_effects :
            (errs : List Error)
            → (cleanup_blocks world ing ing.tls).result ≡ ok errs
            → reported_cleanup.effects ≡ (cleanup_blocks world ing ing.tls).effects ++ []
        reported_effects errs e = rw e refl

        reported_error :
            (errs rest : List Error) (first : Error)
            → (cleanup_blocks world ing ing.tls).result ≡ ok errs
            → errs ≡ first ∷ rest
            → reported_cleanup.result ≡ err (world.aggregate first rest)
        unfolding new_aggregate
        reported_error errs rest first e f = rw (e, f) refl

        -- For an Ingress with TLS to clean up and whose gateway services are known,
        -- cleanupCertificateSecrets tries to delete each secret that is listed for a TLS
        -- block in the namespace of a service, whatever fails before, and returns an
        -- error where that deletion fails.
        pub cleanup_certificate_secrets_lem :
            ⦃helpers : IngressHelpers⦄
            → Member tls ing.tls
            → (should_reconcile_external_domain_tls ing
                || should_reconcile_cluster_local_domain_tls ing)
              ≡ true
            → Member (deleted s) (cleanup_certificate_secrets world ing).effects
              × ((deletion s ≡ ok tt)
                  ⊎ ((e : Error) × ((cleanup_certificate_secrets world ing).result ≡ err e)))
        cleanup_certificate_secrets_lem m h =
            let a = cleanup_blocks-Attempts ing.tls m in
            rw (guard_passed h) (
              rw (reported_effects a.errors a.collected) (
                  Member-append_left (deleted s) (cleanup_blocks world ing ing.tls).effects []
                    a.tried),
              elim a.reported [
                | inl e ↦ inl e
                | inr (first, rest, e) ↦
                    inr
                      (world.aggregate first rest, reported_error a.errors rest first a.collected e)
              ],
            )
