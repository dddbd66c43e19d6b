-- ===== src/Resources/Gateways/Sources.antt =====
-- Which services and certificates the wildcard Gateways come from.
use knative_extensions_net_i.Base.{
  length, length-append, ◌*◌, Result, map_result, Member-append_left, Member-append_right,
  if◌then◌else◌, ◌≡◌, refl, List, [], ◌∷◌, ◌++◌, ok, inl, inr, Member, Member-append_cases,
  >>=-eq-ok, sym, ◌∙◌, arith, ap,
}
use knative_extensions_net_i.GoString.{GoString, bytes, str_eq}
use knative_extensions_net_i.Api.{GoMap, Secret, Service, Gateway, OwnerReference, ObjectMeta}
use knative_extensions_net_i.Platform.{Keys, Kmeta}
use knative_extensions_net_i.Resources.Servers.{tls_server, external_gateway_https_port}
use knative_extensions_net_i.Resources.Secrets.{Certificates, get_hosts_from_cert_secret}
use knative_extensions_net_i.Resources.Gateways.{
  wildcard_gateway, wildcard_gateways_for, wildcard_gateways, target_wildcard_secret_name,
}
use knative_extensions_net_i.Resources.Naming.{wildcard_gateway_name}
use knative_extensions_net_i.Resources.Gateways.Made.{map_result-ok}

ok_inj {ℓ} : {A : Type ℓ} {a b : A} → ok a ≡ ok b → a ≡ b
ok_inj h = cc h

map_result-Member {ℓ κ} :
    {A : Type ℓ} {B : Type κ} (f : A → Result B) (xs : List A) (ys : List B) (x : A)
    → map_result f xs ≡ ok ys
    → Member x xs
    → (y : B) × Member y ys × (f x ≡ ok y)
unfolding map_result
map_result-Member f [] ys x h m = elim m [ ]
map_result-Member f (z ∷ xs) ys x h m =
    let (w, e, h₁) = >>=-eq-ok (f z) _ h in
    let (ws, g, h₂) = >>=-eq-ok (map_result f xs) _ h₁ in
    let same : w ∷ ws ≡ ys = cc h₂ in
    elim m [
      | inl q ↦ (w, rw (← same) (inl refl), ap f q ∙ e)
      | inr n ↦ let (y, k, p) = map_result-Member f xs ws x g n in (y, rw (← same) (inr k), p)
    ]

module _ ⦃keys : Keys⦄ ⦃kmeta : Kmeta⦄ ⦃certs : Certificates⦄
    (new_secret_ref : ObjectMeta → OwnerReference) where
  -- the name of the secret that a wildcard Gateway uses
  abbrev pub credential_of : Service → Secret → GoString
  credential_of svc origin =
      if str_eq origin.meta.namespace svc.meta.namespace
      then origin.meta.name
      else target_wildcard_secret_name origin.meta.name origin.meta.namespace

  pub wildcard_gateway_parts :
      (svc : Service) (origin : Secret) (g : Gateway)
      → wildcard_gateway new_secret_ref svc origin ≡ ok g
      → (hosts : List GoString) × (get_hosts_from_cert_secret origin ≡ ok hosts)
        × ((g.selector ≡ svc.selector)
            × (g.meta.name
                ≡ wildcard_gateway_name origin.meta.name svc.meta.namespace svc.meta.name)
            × (g.meta.namespace ≡ origin.meta.namespace))
        × (g.servers
            ≡ tls_server hosts
                (bytes "https")
                external_gateway_https_port
                (credential_of svc origin)
              ∷ [])
  unfolding wildcard_gateway
  wildcard_gateway_parts svc origin g h =
      let (hosts, q, k) = >>=-eq-ok (get_hosts_from_cert_secret origin) _ h in
      let e = sym (ok_inj k) in
      (
        hosts,
        q,
        (
          ap (λ (x : Gateway). x.selector) e,
          ap (λ (x : Gateway). x.meta.name) e,
          ap (λ (x : Gateway). x.meta.namespace) e,
        ),
        ap (λ (x : Gateway). x.servers) e,
      )

  -- A wildcard Gateway comes from a service and a secret.
  abbrev pub ComesFrom : GoMap Secret → List Service → Gateway → Type 0
  ComesFrom secrets svcs g =
      (svc : Service) × (key : GoString) × (origin : Secret) × Member svc svcs
      × Member (key, origin) secrets
      × (wildcard_gateway new_secret_ref svc origin ≡ ok g)

  pub wildcard_gateways-ComesFrom :
      (secrets : GoMap Secret) (svcs : List Service) (gateways : List Gateway) (g : Gateway)
      → wildcard_gateways new_secret_ref secrets svcs ≡ ok gateways
      → Member g gateways
      → ComesFrom secrets svcs g
  unfolding wildcard_gateways wildcard_gateways_for
  wildcard_gateways-ComesFrom secrets [] gateways g h m =
      let e : [] ≡ gateways = cc h in elim (rw (← e) at m) [ ]
  wildcard_gateways-ComesFrom secrets (svc ∷ svcs) gateways g h m =
      let (gws, e, h1) = >>=-eq-ok (wildcard_gateways_for new_secret_ref secrets svc) _ h in
      let (rest, f, h2) = >>=-eq-ok (wildcard_gateways new_secret_ref secrets svcs) _ h1 in
      let same : gws ++ rest ≡ gateways = cc h2 in
      elim (Member-append_cases g gws rest (rw (← same) at m)) [
        | inl here ↦
            let (len, from) =
              map_result-ok
                (λ (entry : GoString × Secret). wildcard_gateway new_secret_ref svc entry.1) secrets
                gws e in
            let (entry, n, p) = from g here in (svc, entry.0, entry.1, inl refl, n, p)
        | inr later ↦
            let (s, k, o, i, n, p) = wildcard_gateways-ComesFrom secrets svcs rest g f later in
            (s, k, o, inr i, n, p)
      ]

  pub wildcard_gateways-Member :
      (secrets : GoMap Secret) (svcs : List Service) (gateways : List Gateway) (svc : Service)
      (key : GoString) (origin : Secret)
      → wildcard_gateways new_secret_ref secrets svcs ≡ ok gateways
      → Member svc svcs
      → Member (key, origin) secrets
      → (g : Gateway) × Member g gateways × (wildcard_gateway new_secret_ref svc origin ≡ ok g)
  unfolding wildcard_gateways wildcard_gateways_for
  wildcard_gateways-Member secrets [] gateways svc key origin h i n = elim i [ ]
  wildcard_gateways-Member secrets (s ∷ svcs) gateways svc key origin h i n =
      let (gws, e, h1) = >>=-eq-ok (wildcard_gateways_for new_secret_ref secrets s) _ h in
      let (rest, f, h2) = >>=-eq-ok (wildcard_gateways new_secret_ref secrets svcs) _ h1 in
      let same : gws ++ rest ≡ gateways = cc h2 in
      elim i [
        | inl here ↦
            let (g, m, p) =
              map_result-Member
                (λ (entry : GoString × Secret). wildcard_gateway new_secret_ref s entry.1) secrets
                gws (key, origin) e n in
            let q : wildcard_gateway new_secret_ref svc origin ≡ ok g =
              ap (λ x. wildcard_gateway new_secret_ref x origin) here ∙ p in
            (g, rw (← same) (Member-append_left g gws rest m), q)
        | inr later ↦
            let (g, m, p) = wildcard_gateways-Member secrets svcs rest svc key origin f later n in
            (g, rw (← same) (Member-append_right g gws rest m), p)
      ]

  pub length-wildcard_gateways :
      (secrets : GoMap Secret) (svcs : List Service) (gateways : List Gateway)
      → wildcard_gateways new_secret_ref secrets svcs ≡ ok gateways
      → length gateways ≡ length svcs * length secrets
  unfolding wildcard_gateways wildcard_gateways_for
  length-wildcard_gateways secrets [] gateways h =
      let e : [] ≡ gateways = cc h in rw (← e) (omega arith)
  length-wildcard_gateways secrets (s ∷ svcs) gateways h =
      let (gws, e, h1) = >>=-eq-ok (wildcard_gateways_for new_secret_ref secrets s) _ h in
      let (rest, f, h2) = >>=-eq-ok (wildcard_gateways new_secret_ref secrets svcs) _ h1 in
      let same : gws ++ rest ≡ gateways = cc h2 in
      let (len, from) =
        map_result-ok (λ (entry : GoString × Secret). wildcard_gateway new_secret_ref s entry.1)
          secrets gws e in
      rw (← same) (
        length-append gws rest
        ∙ rw (len, length-wildcard_gateways secrets svcs rest f) (omega arith))
