-- ===== src/Reconciler/Tracking.antt =====
-- `reconcileCertSecrets` of ingress.go on the copies that resources/secret.go makes.
use knative_extensions_net_i.Base.{◌≡◌, refl, ap, ◌∙◌, List, ok, inl, inr, Member, none, subst}
use knative_extensions_net_i.GoString.{GoString}
use knative_extensions_net_i.Api.{GoMap, Secret}
use knative_extensions_net_i.Platform.{Kmeta, Keys}
use knative_extensions_net_i.Accessor.{reconcile_object, Outcome}
use knative_extensions_net_i.Accessor.Kinds.{Comparisons, secret_kind}
use knative_extensions_net_i.Resources.Selection.{ServiceName}
use knative_extensions_net_i.Resources.Secrets.{copies, secret_ref, extract_origin_secret_ref}
use knative_extensions_net_i.Resources.Secrets.Copies.{copies_iff}
use knative_extensions_net_i.Resources.Secrets.Origin.{extract-copy_of}
use knative_extensions_net_i.Reconciler.Run.{Run, tracked, on_secret, of_outcome, pure}
use knative_extensions_net_i.Reconciler.World.{World}
use knative_extensions_net_i.Reconciler.Effects.{continue-eq-ok, for_each-eq-ok}
use knative_extensions_net_i.Reconciler.Objects.{reconcile_cert_secret, reconcile_cert_secrets}

module _ ⦃kmeta : Kmeta⦄ ⦃keys : Keys⦄ ⦃cmp : Comparisons⦄ (world : World) where
  -- the reconciliation of one secret
  abbrev pub secret_outcome : Secret → Outcome Secret
  secret_outcome s = reconcile_object secret_kind none s world.secrets world.recorder

  -- A copy and its origin are tracked, and the copy is reconciled.
  pub record Tracks (origins : GoMap Secret) (s : Secret) (r : Run (Unit {0})) : Type 0 where
    pub key : GoString
    pub origin : Secret
    pub reconciled : Secret
    pub listed : Member (key, origin) origins
    pub same_content : s.content ≡ origin.content
    pub copy_tracked : Member (tracked (secret_ref s.meta.namespace s.meta.name)) r.effects
    pub origin_tracked :
        Member (tracked (secret_ref origin.meta.namespace origin.meta.name)) r.effects
    pub succeeds : (secret_outcome s).result ≡ ok reconciled

  one_tracked :
      (s : Secret)
      → (reconcile_cert_secret world s).result ≡ ok tt
      → (a : Secret) × ((secret_outcome s).result ≡ ok a)
        × Member
            (tracked (secret_ref s.meta.namespace s.meta.name))
            (reconcile_cert_secret world s).effects
        × Member (tracked (extract_origin_secret_ref s)) (reconcile_cert_secret world s).effects
  unfolding reconcile_cert_secret
  one_tracked s h =
      let (a, r, u, v) =
        continue-eq-ok (of_outcome on_secret (secret_outcome s)) (λ (t : Secret). pure tt) h in
      (a, r, inl refl, inr (inl refl))

  -- When reconcileCertSecrets succeeds on the copies that MakeSecrets and MakeWildcardSecrets
  -- make, then for each copy there is an origin with its content, the copy and this origin are
  -- both tracked and the copy is reconciled.
  pub reconcile_cert_secrets-Tracks :
      (target : Secret → GoString) (metas : List ServiceName) (origins : GoMap Secret) (s : Secret)
      → (reconcile_cert_secrets world (copies target metas origins)).result ≡ ok tt
      → Member s (copies target metas origins)
      → Tracks origins s (reconcile_cert_secrets world (copies target metas origins))
  unfolding reconcile_cert_secrets
  reconcile_cert_secrets-Tracks target metas origins s h m =
      let (key, origin, n, (meta, i, d, e)) = (copies_iff target metas origins s).0 m in
      let (done, more) =
        for_each-eq-ok (reconcile_cert_secret world) (copies target metas origins) s h m in
      let (a, r, there, from) = one_tracked s done in
      let facts = extract-copy_of target origin meta in
      record {
        key = key;
        origin = origin;
        reconciled = a;
        listed = n;
        same_content = ap (λ (c : Secret). c.content) e ∙ facts.1;
        copy_tracked = more (tracked (secret_ref s.meta.namespace s.meta.name)) there;
        origin_tracked = more (tracked (secret_ref origin.meta.namespace origin.meta.name)) (
            subst (λ ref. Member (tracked ref) (reconcile_cert_secret world s).effects)
              (ap extract_origin_secret_ref e ∙ facts.0) from);
        succeeds = r;
      }
