-- ===== src/Resources/Servers/Making.antt =====
-- `MakeTLSServers` of resources/gateway.go: the servers for the TLS blocks, and its errors.
use knative_extensions_net_i.Base.{
  ℕ, ◌+◌, ◌≡◌, refl, ap, Bool, true, false, ◌||◌, errorf, List, [], ◌∷◌, ◌++◌, Result, ok, err, all,
  some, none, Bool-cases, inl, inr, ◌⊎◌,
}
use knative_extensions_net_i.GoString.{GoString, bytes, str_eq, str_eq_refl, str_eq→eq}
use knative_extensions_net_i.GoString.Decimal.{decimal}
use knative_extensions_net_i.Api.{
  Server, Ingress, IngressTls, Visibility, Secret, ServerTls, GoMap, external_ip, cluster_local,
  lookup, lookup_of_has_key, has_key, simple,
}
use knative_extensions_net_i.Platform.{Keys}
use knative_extensions_net_i.Resources.Naming.{port_name_prefix, secret_key, target_secret}
use knative_extensions_net_i.Resources.Servers.{
  sort_servers, credential_name, tls_server, tls_servers_from, make_tls_servers, https_port,
}

lookup_of_missing {ℓ} :
    {V : Type ℓ} (k : GoString) (m : GoMap V) → has_key k m ≡ false → lookup k m ≡ none
unfolding lookup has_key
lookup_of_missing k [] h = refl
lookup_of_missing k ((j, v) ∷ m) h = elim (Bool-cases (str_eq j k)) [
  | inl e ↦ absurd (cc (rw e at h))
  | inr e ↦ rw e (lookup_of_missing k m (rw e at h))
]

module _ ⦃keys : Keys⦄ (ing : Ingress) (service_namespace : GoString) (secrets : GoMap Secret) where
  -- The secret that a TLS block names is in the service's namespace, or among the known ones.
  abbrev pub is_known : IngressTls → Bool
  is_known t = str_eq t.secret_namespace service_namespace || has_key (secret_key t) secrets

  -- The credential is the secret itself in the service's namespace, and else the copy's name.
  abbrev pub Credential : IngressTls → GoString → Type 0
  Credential t c =
      ((t.secret_namespace ≡ service_namespace) × (c ≡ t.secret_name))
      ⊎ (¬ (t.secret_namespace ≡ service_namespace)
          × (origin : Secret) × (lookup (secret_key t) secrets ≡ some origin)
          × (c ≡ target_secret origin ing.meta))

  -- The server for the TLS block with an index: it ends TLS for the block's hosts.
  pub record ServerFor (port i : ℕ) (t : IngressTls) (s : Server) : Type 0 where
    pub hosts : s.hosts ≡ t.hosts
    pub named : s.port.name ≡ port_name_prefix ing.meta.namespace ing.meta.name ++ b':' ∷ decimal i
    pub number : s.port.number ≡ port
    pub protocol : s.port.protocol ≡ bytes "HTTPS"
    pub settings : ServerTls
    pub secured : s.tls ≡ some settings
    pub ends_tls : (settings.mode ≡ simple) × (settings.https_redirect ≡ false)
    pub credential : Credential t settings.credential_name

  -- There is one server for each block, in the order of the blocks.
  abbrev pub Serves : ℕ → ℕ → List IngressTls → List Server → Type 0
  Serves port i [] [] = Unit
  Serves port i [] (s ∷ servers) = ⊥
  Serves port i (t ∷ tls) [] = ⊥
  Serves port i (t ∷ tls) (s ∷ servers) = ServerFor port i t s × Serves port (i + 1) tls servers

  -- The error names the first block whose secret is not known.
  abbrev pub Refused : List IngressTls → Result (List Server) → Type 0
  Refused tls r =
      (before : List IngressTls) × (t : IngressTls) × (after : List IngressTls) × (tls
        ≡ before ++ t ∷ after)
      × (all is_known before ≡ true)
      × (is_known t ≡ false)
      × (r
          ≡ err (
              errorf "unable to get the original secret %s/%s"
                (t.secret_namespace ∷ t.secret_name ∷ [])))

  abbrev Loops : ℕ → ℕ → List IngressTls → Result (List Server) → Type 0
  Loops port i tls r =
      ((servers : List Server) × (all is_known tls ≡ true)
        × (r ≡ ok servers)
        × Serves port i tls servers)
      ⊎ Refused tls r

  credential_name-Credential :
      (t : IngressTls)
      → ((c : GoString) × (is_known t ≡ true)
          × (credential_name ing service_namespace secrets t ≡ ok c)
          × Credential t c)
        ⊎ ((is_known t ≡ false)
            × (credential_name ing service_namespace secrets t
                ≡ err (
                    errorf "unable to get the original secret %s/%s"
                      (t.secret_namespace ∷ t.secret_name ∷ []))))
  unfolding credential_name
  credential_name-Credential t = elim (Bool-cases (str_eq t.secret_namespace service_namespace)) [
    | inl e ↦ inl (
      t.secret_name,
      rw e refl,
      rw e refl,
      inl (str_eq→eq t.secret_namespace service_namespace e, refl),
    )
    | inr e ↦ elim (Bool-cases (has_key (secret_key t) secrets)) [
      | inl k ↦
          let (s, f) = lookup_of_has_key (secret_key t) secrets k in
          let apart : ¬ (t.secret_namespace ≡ service_namespace) = λ q.
            let same : str_eq t.secret_namespace service_namespace ≡ true =
              rw q (str_eq_refl service_namespace) in
            cc (e, same) in
          inl (target_secret s ing.meta, rw (e, k) refl, rw (e, f) refl, inr (apart, s, f, refl))
      | inr k ↦ inr (rw (e, k) refl, rw (e, lookup_of_missing (secret_key t) secrets k) refl)
    ]
  ]

  server_for :
      (port i : ℕ) (t : IngressTls) (c : GoString)
      → Credential t c
      → ServerFor port i t (
          tls_server t.hosts
            (port_name_prefix ing.meta.namespace ing.meta.name ++ b':' ∷ decimal i)
            port
            c)
  unfolding tls_server
  server_for port i t c from = record {
    hosts = refl;
    named = refl;
    number = refl;
    protocol = refl;
    settings = _;
    secured = refl;
    ends_tls = (refl, refl);
    credential = from;
  }

  tls_servers_from-Loops :
      (port i : ℕ) (tls : List IngressTls)
      → Loops port i tls (tls_servers_from ing port service_namespace secrets i tls)
  unfolding tls_servers_from all
  tls_servers_from-Loops port i [] = inl ([], refl, refl, tt)
  tls_servers_from-Loops port i (t ∷ tls) = elim (credential_name-Credential t) [
    | inr (k, e) ↦ inr ([], t, tls, refl, refl, k, rw e refl)
    | inl (c, k, e, from) ↦ elim (tls_servers_from-Loops port (i + 1) tls) [
      | inl (servers, ks, f, rest) ↦ inl (
        tls_server t.hosts (port_name_prefix ing.meta.namespace ing.meta.name ++ b':' ∷ decimal i)
              port c
            ∷ servers,
        rw (k, ks) refl,
        rw (e, f) refl,
        (server_for port i t c from, rest),
      )
      | inr (before, u, after, q, ks, n, f) ↦
          inr (t ∷ before, u, after, ap (◌∷◌ t) q, rw (k, ks) refl, n, rw (e, f) refl)
    ]
  ]

  -- The servers at a port, sorted, or the error.
  abbrev pub Served : ℕ → List IngressTls → Result (List Server) → Type 0
  Served port tls r =
      ((made : List Server) × (all is_known tls ≡ true)
        × (r ≡ ok (sort_servers made))
        × Serves port 0 tls made)
      ⊎ Refused tls r

  -- What MakeTLSServers answers by the visibility.
  abbrev pub Answers : Visibility → List IngressTls → Result (List Server) → Type 0
  Answers external_ip tls r = Served 443 tls r
  Answers cluster_local tls r = Served 8444 tls r
  Answers (Visibility.other v) tls r = r ≡ err (errorf "invalid ingress visibility: %v" (v ∷ []))

  -- For the two visibilities that have a port, MakeTLSServers either finds the secret of each
  -- TLS block in the namespace of the service or among the known ones, and returns, sorted,
  -- one server for each block with its hosts, its index in the name of the port, and the
  -- secret itself or the name of its copy as the credential; or it returns the error for the
  -- first block whose secret is in neither; for any other visibility it returns the error for
  -- that.
  pub make_tls_servers-Answers :
      (visibility : Visibility) (tls : List IngressTls)
      → Answers visibility tls (make_tls_servers ing visibility tls service_namespace secrets)
  unfolding make_tls_servers https_port
  make_tls_servers-Answers external_ip tls = elim (tls_servers_from-Loops 443 0 tls) [
    | inl (made, ks, f, s) ↦ inl (made, ks, rw f refl, s)
    | inr (before, t, after, q, ks, n, f) ↦ inr (before, t, after, q, ks, n, rw f refl)
  ]
  make_tls_servers-Answers cluster_local tls = elim (tls_servers_from-Loops 8444 0 tls) [
    | inl (made, ks, f, s) ↦ inl (made, ks, rw f refl, s)
    | inr (before, t, after, q, ks, n, f) ↦ inr (before, t, after, q, ks, n, rw f refl)
  ]
  make_tls_servers-Answers (Visibility.other v) tls = refl
