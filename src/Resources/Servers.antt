-- ===== src/Resources/Servers.antt =====
-- The `Server`s of a Gateway, resources/gateway.go: those of an Ingress, the TLS and HTTP servers
-- made for it, and their replacement.
pub mod Ownership
pub mod Making
pub mod Update
use knative_extensions_net_i.Base.{
  ℕ, suc, ◌+◌, ◌*◌, ◌≡◌, ◌↔◌, Bool, true, false, not, ◌||◌, Option, none, some, List, [], ◌∷◌, ◌++◌,
  Result, ok, err, ◌>>=◌, errorf, wrapped, if◌then◌else◌, keep, map,
}
use knative_extensions_net_i.Base.Sort.{sort}
use knative_extensions_net_i.GoString.{GoString, bytes, str_eq}
use knative_extensions_net_i.GoString.Order.{str_lt}
use knative_extensions_net_i.GoString.Split.{split}
use knative_extensions_net_i.GoString.Decimal.{decimal}
use knative_extensions_net_i.Api.{
  Server, Port, ServerTls, simple, passthrough, TlsMode, tls_auto, tls_v1_2, Gateway, Ingress,
  IngressTls, Visibility, external_ip, cluster_local, HttpOption, Secret, GoMap, lookup, has_key,
}
use knative_extensions_net_i.Platform.{Keys, SetLib}
use knative_extensions_net_i.Resources.Naming.{port_name_prefix, secret_key, target_secret}

abbrev pub gateway_http_port : ℕ
gateway_http_port = 80

abbrev pub external_gateway_https_port : ℕ
external_gateway_https_port = 443

abbrev pub cluster_local_gateway_https_port : ℕ
cluster_local_gateway_https_port = 8444

abbrev pub http_server_port_name : GoString
http_server_port_name = bytes "http-server"

abbrev pub place_holder : GoString
place_holder = bytes "place-holder"

-- `placeholderServer`
unfoldable pub placeholder_server : Server
placeholder_server = record {
  hosts = bytes "place-holder.place-holder" ∷ [];
  port = record { name = place_holder; number = 9999; protocol = bytes "HTTP" };
  tls = none;
}

-- `strings.Compare(a.Port.Name, b.Port.Name) < 0`
unfoldable pub server_lt : Server → Server → Bool
unfolding str_lt
server_lt a b = str_lt a.port.name b.port.name

-- `SortServers`
unfoldable pub sort_servers : List Server → List Server
unfolding server_lt
sort_servers = sort server_lt

-- the test on `portNameSplits`
unfoldable pub owned_by : GoString → List GoString → Bool
owned_by prefix (first ∷ number ∷ []) = str_eq first prefix
owned_by prefix _ = false

-- `belongsToIngress(server, ing)`
unfoldable pub belongs_to_ingress : Server → Ingress → Bool
unfolding owned_by
belongs_to_ingress server ing =
    owned_by (port_name_prefix ing.meta.namespace ing.meta.name) (split b':' server.port.name)

-- `GetServers(gateway, ing)`
unfoldable pub get_servers : Gateway → Ingress → List Server
unfolding sort_servers belongs_to_ingress
get_servers gateway ing = sort_servers (keep (λ s. belongs_to_ingress s ing) gateway.servers)

first_http_server : List Server → Option Server
first_http_server [] = none
first_http_server (server ∷ rest) =
    if str_eq server.port.name http_server_port_name || str_eq server.port.name (bytes "http")
    then some server
    else first_http_server rest

-- `GetHTTPServer(gateway)`
unfoldable pub get_http_server : Gateway → Option Server
unfolding first_http_server
get_http_server gateway = first_http_server gateway.servers

-- `MakeHTTPServer(httpOption, hosts)`
unfoldable pub make_http_server : HttpOption → List GoString → Option Server
make_http_server HttpOption.unset hosts = none
make_http_server HttpOption.redirected hosts = some (record {
  hosts = hosts;
  port = record {
    name = http_server_port_name;
    number = gateway_http_port;
    protocol = bytes "HTTP";
  };
  tls = some (record {
    https_redirect = true;
    mode = TlsMode.passthrough;
    server_certificate = [];
    private_key = [];
    credential_name = [];
    min_protocol_version = tls_auto;
  });
})
make_http_server (HttpOption.other option) hosts = some (record {
  hosts = hosts;
  port = record {
    name = http_server_port_name;
    number = gateway_http_port;
    protocol = bytes "HTTP";
  };
  tls = none;
})

-- The port by visibility, the first step of `MakeTLSServers`.
unfoldable pub https_port : Visibility → Result ℕ
https_port external_ip = ok external_gateway_https_port
https_port cluster_local = ok cluster_local_gateway_https_port
https_port (Visibility.other v) = err (errorf "invalid ingress visibility: %v" (v ∷ []))

-- The name of the secret in the gateway service's namespace.
unfoldable pub credential_name : Ingress → GoString → GoMap Secret → IngressTls → Result GoString
credential_name ing service_namespace origin_secrets tls =
    if str_eq tls.secret_namespace service_namespace
    then ok tls.secret_name
    else elim (lookup (secret_key tls) origin_secrets) [
      | none ↦ err (
          errorf "unable to get the original secret %s/%s"
            (tls.secret_namespace ∷ tls.secret_name ∷ []))
      | some origin ↦ ok (target_secret origin ing.meta)
    ]

module _ ⦃keys : Keys⦄ where
  -- A server that ends TLS with a certificate and its key.
  unfoldable pub tls_server : List GoString → GoString → ℕ → GoString → Server
  tls_server hosts port_name number credential = record {
    hosts = hosts;
    port = record { name = port_name; number = number; protocol = bytes "HTTPS" };
    tls = some (record {
      https_redirect = false;
      mode = simple;
      server_certificate = keys.tls_cert;
      private_key = keys.tls_private_key;
      credential_name = credential;
      min_protocol_version = tls_v1_2;
    });
  }

  -- the loop of `MakeTLSServers`, from index `i`
  unfoldable pub tls_servers_from :
      Ingress → ℕ → GoString → GoMap Secret → ℕ → List IngressTls → Result (List Server)
  unfolding tls_server credential_name
  tls_servers_from ing port service_namespace origin_secrets i [] = ok []
  tls_servers_from ing port service_namespace origin_secrets i (tls ∷ rest) = do
    credential ← credential_name ing service_namespace origin_secrets tls
    servers ← tls_servers_from ing port service_namespace origin_secrets (i + 1) rest
    ok (
        tls_server tls.hosts (port_name_prefix ing.meta.namespace ing.meta.name ++ b':' ∷ decimal i)
          port credential
        ∷ servers)

  -- `MakeTLSServers`. The port's name stands for `fmt.Sprintf(prefix+":%d", i)`: no name or
  -- namespace holds a `%`.
  unfoldable pub make_tls_servers :
      Ingress → Visibility → List IngressTls → GoString → GoMap Secret → Result (List Server)
  unfolding https_port tls_servers_from
  make_tls_servers ing visibility ingress_tls service_namespace origin_secrets = do
    port ← https_port visibility
    servers ← tls_servers_from ing port service_namespace origin_secrets 0 ingress_tls
    ok (sort_servers servers)

-- `GetNonWildcardIngressTLS`
unfoldable pub get_non_wildcard_ingress_tls : List IngressTls → GoMap Secret → List IngressTls
get_non_wildcard_ingress_tls ingress_tls non_wildcard_secrets =
    keep (λ tls. has_key (secret_key tls) non_wildcard_secrets) ingress_tls

-- `if len(servers) == 0`, the placeholder comes back
unfoldable pub or_placeholder : List Server → List Server
or_placeholder [] = placeholder_server ∷ []
or_placeholder (s ∷ servers) = s ∷ servers

module _ ⦃sets : SetLib⦄ (is_placeholder : Server → Bool) where
  -- The servers that `UpdateGateway` leaves: neither existing ones nor placeholders.
  unfoldable pub kept_servers : List Server → List Server → List Server
  kept_servers existing servers =
      let existing_servers = sets.insert sets.empty (map (λ (s : Server). s.port.name) existing) in
      keep (λ s. not (sets.has existing_servers s.port.name || is_placeholder s)) servers

  -- `UpdateGateway(gateway, want, existing)`; `is_placeholder` is `isPlaceHolderServer`, the call
  -- of `cmp.Equal` on the protobuf messages.
  unfoldable pub update_gateway : Gateway → List Server → List Server → Gateway
  unfolding kept_servers or_placeholder sort_servers
  update_gateway gateway want existing = record gateway {
    servers = sort_servers (or_placeholder (kept_servers existing gateway.servers ++ want));
  }
