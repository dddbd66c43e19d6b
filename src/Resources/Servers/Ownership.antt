-- ===== src/Resources/Servers/Ownership.antt =====
-- Which Ingress a server belongs to: `belongsToIngress` and `MakeTLSServers` of
-- resources/gateway.go.
use knative_extensions_net_i.Base.{
  ℕ, ◌+◌, ◌≡◌, refl, ap, ◌∙◌, Bool, true, false, not, List, [], ◌∷◌, ◌++◌, arith, ok, >>=-eq-ok,
  all, keep-append, keep-all, keep_none, length,
}
use knative_extensions_net_i.Base.Sort.{all-sort, sort_idem, length-sort}
use knative_extensions_net_i.GoString.{GoString, str_eq, str_eq_refl, str_eq→eq}
use knative_extensions_net_i.GoString.Order.{str_lt_asym, not-str_lt_trans}
use knative_extensions_net_i.GoString.Split.{split, lacks}
use knative_extensions_net_i.GoString.Decimal.{decimal}
use knative_extensions_net_i.Api.{Server, Gateway, Ingress, IngressTls, Visibility, Secret, GoMap}
use knative_extensions_net_i.Platform.{Keys}
use knative_extensions_net_i.Resources.Naming.{port_name_prefix, is_dns1123_label}
use knative_extensions_net_i.Resources.Naming.PortNames.{split_port_name, port_name_prefix_inj}
use knative_extensions_net_i.Resources.Servers.{
  server_lt, sort_servers, owned_by, belongs_to_ingress, get_servers, https_port, credential_name,
  tls_server, tls_servers_from, make_tls_servers,
}

pub server_lt_asym : (a b : Server) → server_lt a b ≡ true → server_lt b a ≡ false
unfolding server_lt
server_lt_asym a b = str_lt_asym a.port.name b.port.name

pub not-server_lt_trans :
    (a b c : Server) → server_lt b a ≡ false → server_lt c b ≡ false → server_lt c a ≡ false
unfolding server_lt
not-server_lt_trans a b c = not-str_lt_trans a.port.name b.port.name c.port.name

pub sort_servers_idem :
    (servers : List Server) → sort_servers (sort_servers servers) ≡ sort_servers servers
unfolding sort_servers
sort_servers_idem = sort_idem server_lt server_lt_asym not-server_lt_trans

pub all-sort_servers :
    (p : Server → Bool) (servers : List Server) → all p (sort_servers servers) ≡ all p servers
unfolding sort_servers
all-sort_servers p servers = all-sort server_lt p servers

-- Only the port's name counts.
pub belongs_by_name :
    (s t : Server) (ing : Ingress)
    → str_eq s.port.name t.port.name ≡ true
    → belongs_to_ingress s ing ≡ belongs_to_ingress t ing
unfolding belongs_to_ingress
belongs_by_name s t ing h =
    ap
      (λ (n : GoString).
        owned_by (port_name_prefix ing.meta.namespace ing.meta.name) (split b':' n))
      (str_eq→eq s.port.name t.port.name h)

owned_prefix :
    (prefix : GoString) (parts : List GoString)
    → owned_by prefix parts ≡ true
    → (number : GoString) × (parts ≡ prefix ∷ number ∷ [])
unfolding owned_by
owned_prefix prefix [] h = absurd (ground arith)
owned_prefix prefix (a ∷ []) h = absurd (ground arith)
owned_prefix prefix (a ∷ b ∷ []) h = (b, rw (str_eq→eq a prefix h) refl)
owned_prefix prefix (a ∷ b ∷ c ∷ l) h = absurd (ground arith)

-- A server that belongs to two Ingresses belongs to one of the same namespace and name, where
-- their namespaces have no slash and their names are DNS labels.
pub belongs_to_one :
    (s : Server) (a b : Ingress)
    → lacks b'/' a.meta.namespace ≡ true
    → lacks b'/' b.meta.namespace ≡ true
    → is_dns1123_label a.meta.name ≡ true
    → is_dns1123_label b.meta.name ≡ true
    → belongs_to_ingress s a ≡ true
    → belongs_to_ingress s b ≡ true
    → (a.meta.namespace ≡ b.meta.namespace) × (a.meta.name ≡ b.meta.name)
unfolding belongs_to_ingress
belongs_to_one s a b ha hb la lb ka kb =
    let pa = port_name_prefix a.meta.namespace a.meta.name in
    let pb = port_name_prefix b.meta.namespace b.meta.name in
    let (m, e) = owned_prefix pa (split b':' s.port.name) ka in
    let (n, f) = owned_prefix pb (split b':' s.port.name) kb in
    let same : pa ≡ pb = cc (e, f) in
    port_name_prefix_inj a.meta.namespace a.meta.name b.meta.namespace b.meta.name ha hb la lb same

module _ ⦃keys : Keys⦄ (ing : Ingress) (named : lacks b':' ing.meta.namespace ≡ true) where
  tls_server_belongs :
      (hosts : List GoString) (i port : ℕ) (credential : GoString)
      → belongs_to_ingress
          (tls_server hosts
            (port_name_prefix ing.meta.namespace ing.meta.name ++ b':' ∷ decimal i)
            port
            credential)
          ing
        ≡ true
  unfolding belongs_to_ingress tls_server
  tls_server_belongs hosts i port credential =
      rw (split_port_name ing.meta.namespace ing.meta.name i named)
        (unfold owned_by in str_eq_refl (port_name_prefix ing.meta.namespace ing.meta.name))

  tls_servers_from_belong :
      (port : ℕ) (service_namespace : GoString) (secrets : GoMap Secret) (i : ℕ)
      (tls : List IngressTls) (servers : List Server)
      → tls_servers_from ing port service_namespace secrets i tls ≡ ok servers
      → (all (λ s. belongs_to_ingress s ing) servers ≡ true) × (length servers ≡ length tls)
  unfolding tls_servers_from all
  tls_servers_from_belong port ns secrets i [] servers h = ground arith
  tls_servers_from_belong port ns secrets i (t ∷ tls) servers h =
      let (c, e, h₁) = >>=-eq-ok (credential_name ing ns secrets t) _ h in
      let (rest, f, h₂) = >>=-eq-ok (tls_servers_from ing port ns secrets (i + 1) tls) _ h₁ in
      let ih = tls_servers_from_belong port ns secrets (i + 1) tls rest f in
      ground (arith, ih, h₂, tls_server_belongs t.hosts i port c)

  -- Where the namespace of the Ingress has no colon, the servers that MakeTLSServers returns
  -- are one for each TLS block, and GetServers finds just these in a Gateway whose other
  -- servers are not the Ingress's.
  pub get-make_tls_servers :
      (visibility : Visibility) (tls : List IngressTls) (service_namespace : GoString)
      (secrets : GoMap Secret) (servers : List Server) (gateway : Gateway) (others : List Server)
      → make_tls_servers ing visibility tls service_namespace secrets ≡ ok servers
      → gateway.servers ≡ others ++ servers
      → all (λ s. not (belongs_to_ingress s ing)) others ≡ true
      → (get_servers gateway ing ≡ servers) × (length servers ≡ length tls)
  unfolding make_tls_servers get_servers
  get-make_tls_servers v tls ns secrets servers gateway others h g o =
      let own = λ (s : Server). belongs_to_ingress s ing in
      let (port, e, h₁) = >>=-eq-ok (https_port v) _ h in
      let (made, f, h₂) = >>=-eq-ok (tls_servers_from ing port ns secrets 0 tls) _ h₁ in
      let (b, l) = tls_servers_from_belong port ns secrets 0 tls made f in
      let sorted : sort_servers made ≡ servers = cc h₂ in
      let all_own : all own servers ≡ true = rw (← sorted) (all-sort_servers own made ∙ b) in
      (
        rw
            (
              g,
              keep-append own others servers,
              keep_none own others o,
              keep-all own servers all_own,
              ← sorted,
            )
            (sort_servers_idem made),
        rw (← sorted) (unfold sort_servers in length-sort server_lt made ∙ l),
      )
