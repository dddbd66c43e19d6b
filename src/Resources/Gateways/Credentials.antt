-- ===== src/Resources/Gateways/Credentials.antt =====
-- The credentials that the wildcard Gateways name, and the secrets that carry them.
use knative_extensions_net_i.Base.{
  length, ◌*◌, ◌≡◌, refl, List, [], ◌∷◌, ok, inl, inr, ◌⊎◌, Member, >>=-eq-ok, Bool-cases, sym,
  true, false, ◌∙◌, arith,
}
use knative_extensions_net_i.GoString.{GoString, bytes, str_eq, str_eq_iff, str_eq→eq, str_eq_refl}
use knative_extensions_net_i.Api.{
  GoMap, Secret, Service, Gateway, Ingress, OwnerReference, ObjectMeta,
}
use knative_extensions_net_i.Platform.{Keys, Kmeta, Selectors}
use knative_extensions_net_i.Config.{IstioConfig}
use knative_extensions_net_i.Resources.Servers.{tls_server, external_gateway_https_port}
use knative_extensions_net_i.Resources.Selection.{
  ServiceLister, ServiceName, get_gateway_services, get_ingress_gateway_svc_name_namespaces,
}
use knative_extensions_net_i.Resources.Secrets.{
  Certificates, get_hosts_from_cert_secret, copy_of, make_wildcard_secrets, copies, make_secret,
}
use knative_extensions_net_i.Resources.Gateways.{
  wildcard_gateway, wildcard_gateways, make_wildcard_tls_gateways, target_wildcard_secret_name,
}
use knative_extensions_net_i.Resources.Secrets.Copies.{copies_iff}
use knative_extensions_net_i.Resources.Naming.{wildcard_gateway_name}
use knative_extensions_net_i.Resources.Gateways.Made.{map_result-ok}
use knative_extensions_net_i.Resources.Gateways.Sources.{
  credential_of, wildcard_gateway_parts, wildcard_gateways-ComesFrom, wildcard_gateways-Member,
  length-wildcard_gateways,
}

module _ ⦃keys : Keys⦄ ⦃kmeta : Kmeta⦄ ⦃certs : Certificates⦄
    (new_secret_ref : ObjectMeta → OwnerReference) where
  -- The credential is the certificate's secret where this is in the service's namespace, and else
  -- a copy of it there.
  abbrev pub Carried : List Secret → Secret → Service → GoString → Type 0
  Carried made origin svc credential =
      ((origin.meta.namespace ≡ svc.meta.namespace) × (credential ≡ origin.meta.name))
      ⊎ (¬ (origin.meta.namespace ≡ svc.meta.namespace)
          × (copy : Secret) × Member copy made
          × (copy.meta.name ≡ credential)
          × (copy.meta.namespace ≡ svc.meta.namespace)
          × (copy.content ≡ origin.content))

  -- The Gateway for a service and a certificate: its one server has the hosts of the certificate,
  -- and its credential is the certificate's secret, or a copy of it in the service's namespace.
  pub record Provides (made : List Secret) (origin : Secret) (svc : Service) (g : Gateway)
      : Type 0 where
    pub hosts : List GoString
    pub credential : GoString
    pub named :
        g.meta.name ≡ wildcard_gateway_name origin.meta.name svc.meta.namespace svc.meta.name
    pub placed : g.meta.namespace ≡ origin.meta.namespace
    pub selected : g.selector ≡ svc.selector
    pub certified : get_hosts_from_cert_secret origin ≡ ok hosts
    pub one_server :
        g.servers ≡ tls_server hosts (bytes "https") external_gateway_https_port credential ∷ []
    pub carried : Carried made origin svc credential

  -- The Gateway is that of one of the gateway services and one of the certificates.
  pub record Provided ⦃selectors : Selectors⦄ (conf : IstioConfig) (ing : Ingress)
      (lister : ServiceLister) (secrets : GoMap Secret) (made : List Secret) (g : Gateway)
      : Type 0 where
    pub services : List Service
    pub key : GoString
    pub origin : Secret
    pub svc : Service
    pub configured : get_gateway_services conf ing.meta lister ≡ ok services
    pub served : Member svc services
    pub listed : Member (key, origin) secrets
    pub provides : Provides made origin svc g

  module _ ⦃selectors : Selectors⦄ (conf : IstioConfig) (ing : Ingress) (lister : ServiceLister)
      (named : (namespace name : GoString) (svc : Service)
        → lister namespace name ≡ ok svc
        → svc.meta.namespace ≡ namespace) where
    service_place :
        (svcs : List Service) (svc : Service)
        → get_gateway_services conf ing.meta lister ≡ ok svcs
        → Member svc svcs
        → (metas : List ServiceName) × (meta : ServiceName)
          × (get_ingress_gateway_svc_name_namespaces conf ing.meta ≡ ok metas)
          × Member meta metas
          × (svc.meta.namespace ≡ meta.namespace)
    unfolding get_gateway_services
    service_place svcs svc h m =
        let (metas, e, h1) =
          >>=-eq-ok (get_ingress_gateway_svc_name_namespaces conf ing.meta) _ h in
        let (len, from) =
          map_result-ok (λ (n : ServiceName). lister n.namespace n.name) metas svcs h1 in
        let (meta, n, p) = from svc m in (metas, meta, e, n, named meta.namespace meta.name svc p)

    abbrev wildcard_name : Secret → GoString
    wildcard_name origin = target_wildcard_secret_name origin.meta.name origin.meta.namespace

    credential_copied :
        (svc : Service) (origin : Secret)
        → str_eq origin.meta.namespace svc.meta.namespace ≡ false
        → credential_of new_secret_ref svc origin ≡ wildcard_name origin
    credential_copied svc origin b = rw b refl

    made_copies :
        (secrets : GoMap Secret) (made : List Secret) (metas : List ServiceName)
        → get_ingress_gateway_svc_name_namespaces conf ing.meta ≡ ok metas
        → make_wildcard_secrets conf secrets ing ≡ ok made
        → copies wildcard_name metas secrets ≡ made
    unfolding make_wildcard_secrets
    made_copies secrets made metas e h =
        let (ms, f, h1) = >>=-eq-ok (get_ingress_gateway_svc_name_namespaces conf ing.meta) _ h in
        let both : ok ms ≡ ok metas = sym f ∙ e in
        let same : ms ≡ metas = cc both in
        let all_made : copies wildcard_name ms secrets ≡ made = cc h1 in rw (← same) all_made

    copy_for :
        (secrets : GoMap Secret) (made : List Secret) (key : GoString) (origin : Secret)
        (svc : Service) (metas : List ServiceName) (meta : ServiceName)
        → copies wildcard_name metas secrets ≡ made
        → Member (key, origin) secrets
        → Member meta metas
        → svc.meta.namespace ≡ meta.namespace
        → str_eq origin.meta.namespace svc.meta.namespace ≡ false
        → (copy : Secret) × Member copy made
          × (copy.meta.name ≡ wildcard_name origin)
          × (copy.meta.namespace ≡ svc.meta.namespace)
          × (copy.content ≡ origin.content)
    unfolding copy_of make_secret
    copy_for secrets made key origin svc metas meta e n i same apart =
        let d : str_eq meta.namespace origin.meta.namespace ≡ false = rw (← same) (
          ground (
            arith,
            str_eq_iff origin.meta.namespace svc.meta.namespace,
            str_eq_iff svc.meta.namespace origin.meta.namespace,
          )) in
        (
          copy_of wildcard_name origin meta,
          rw (← e) (
              (copies_iff wildcard_name metas secrets (copy_of wildcard_name origin meta)).1
                (key, origin, n, (meta, i, d, refl))),
          refl,
          sym same,
          refl,
        )

    wildcard_gateway-Provides :
        (secrets : GoMap Secret) (made : List Secret) (svcs : List Service) (svc : Service)
        (key : GoString) (origin : Secret) (g : Gateway)
        → get_gateway_services conf ing.meta lister ≡ ok svcs
        → make_wildcard_secrets conf secrets ing ≡ ok made
        → Member svc svcs
        → Member (key, origin) secrets
        → wildcard_gateway new_secret_ref svc origin ≡ ok g
        → Provides made origin svc g
    wildcard_gateway-Provides secrets made svcs svc key origin g e w i n p =
        let (metas, meta, f, j, same) = service_place svcs svc e i in
        let copied = made_copies secrets made metas f w in
        let (hosts, certified, (selected, titled, placed), server) =
          wildcard_gateway_parts new_secret_ref svc origin g p in
        let provided : (credential : GoString)
            → credential_of new_secret_ref svc origin ≡ credential
            → Carried made origin svc credential
            → Provides made origin svc g =
          λ credential q from. record {
            hosts = hosts;
            credential = credential;
            named = titled;
            placed = placed;
            selected = selected;
            certified = certified;
            one_server = server ∙ rw q refl;
            carried = from;
          } in
        elim (Bool-cases (str_eq origin.meta.namespace svc.meta.namespace)) [
          | inl b ↦
              provided origin.meta.name (rw b refl)
                (inl (str_eq→eq origin.meta.namespace svc.meta.namespace b, refl))
          | inr b ↦
              let (copy, there, title, place, content) =
                copy_for secrets made key origin svc metas meta copied n j same b in
              let apart : ¬ (origin.meta.namespace ≡ svc.meta.namespace) = λ q.
                let equal : str_eq origin.meta.namespace svc.meta.namespace ≡ true =
                  rw q (str_eq_refl svc.meta.namespace) in
                cc (b, equal) in
              provided (wildcard_name origin) (credential_copied svc origin b)
                (inr (apart, copy, there, title, place, content))
        ]

    -- Where a service that the lister gives lies in the namespace that it was asked for, and
    -- MakeWildcardTLSGateways and MakeWildcardSecrets succeed on the same certificates, each
    -- wildcard Gateway has the selector of one of the gateway services of the Ingress and
    -- the name and namespace for it and a certificate, and one server with the hosts of that
    -- certificate, and the credential of the server names the certificate's secret where
    -- this lies in the namespace of the service, and else a copy in that namespace that
    -- MakeWildcardSecrets made.
    pub make_wildcard_tls_gateways-Provided :
        (secrets : GoMap Secret) (made : List Secret) (gateways : List Gateway) (g : Gateway)
        → make_wildcard_tls_gateways new_secret_ref conf ing secrets lister ≡ ok gateways
        → make_wildcard_secrets conf secrets ing ≡ ok made
        → Member g gateways
        → Provided conf ing lister secrets made g
    unfolding make_wildcard_tls_gateways
    make_wildcard_tls_gateways-Provided [] made gateways g h w m =
        let e : [] ≡ gateways = cc h in elim (rw (← e) at m) [ ]
    make_wildcard_tls_gateways-Provided (s ∷ secrets) made gateways g h w m =
        let (svcs, e, h1) = >>=-eq-ok (get_gateway_services conf ing.meta lister) _ h in
        let (svc, key, origin, i, n, p) =
          wildcard_gateways-ComesFrom new_secret_ref (s ∷ secrets) svcs gateways g h1 m in
        record {
          services = svcs;
          key = key;
          origin = origin;
          svc = svc;
          configured = e;
          served = i;
          listed = n;
          provides = wildcard_gateway-Provides (s ∷ secrets) made svcs svc key origin g e w i n p;
        }

    -- Where a service that the lister gives lies in the namespace that it was asked for, and
    -- MakeWildcardTLSGateways and MakeWildcardSecrets succeed on the same certificates,
    -- MakeWildcardTLSGateways makes as many Gateways as there are pairs of a gateway service
    -- and a certificate, and for each such pair one with the selector of the service, the
    -- name and namespace for both, and one server with the hosts of the certificate and, as
    -- the credential, the certificate's secret or its copy in the namespace of the service.
    pub make_wildcard_tls_gateways_complete :
        (secrets : GoMap Secret) (made : List Secret) (svcs : List Service)
        (gateways : List Gateway) (svc : Service) (key : GoString) (origin : Secret)
        → get_gateway_services conf ing.meta lister ≡ ok svcs
        → make_wildcard_tls_gateways new_secret_ref conf ing secrets lister ≡ ok gateways
        → make_wildcard_secrets conf secrets ing ≡ ok made
        → Member svc svcs
        → Member (key, origin) secrets
        → (length gateways ≡ length svcs * length secrets)
          × ((g : Gateway) × Member g gateways × Provides made origin svc g)
    unfolding make_wildcard_tls_gateways
    make_wildcard_tls_gateways_complete [] made svcs gateways svc key origin e h w i n = elim n [ ]
    make_wildcard_tls_gateways_complete (s ∷ secrets) made svcs gateways svc key origin e h w i n =
        let (services, f, h1) = >>=-eq-ok (get_gateway_services conf ing.meta lister) _ h in
        let both : ok services ≡ ok svcs = sym f ∙ e in
        let same : services ≡ svcs = cc both in
        let made_all : wildcard_gateways new_secret_ref (s ∷ secrets) svcs ≡ ok gateways =
          rw (← same) h1 in
        let (g, m, p) =
          wildcard_gateways-Member new_secret_ref (s ∷ secrets) svcs gateways svc key origin
            made_all i n in
        (
          length-wildcard_gateways new_secret_ref (s ∷ secrets) svcs gateways made_all,
          (g, m, wildcard_gateway-Provides (s ∷ secrets) made svcs svc key origin g e w i n p),
        )
