-- ===== src/Tests/ServerRuns.antt =====
-- Runs of the theorems on Gateway servers.
use knative_extensions_net_i.Base.{◌≡◌, refl, true, not, ◌&&◌, [], ◌∷◌, ok, all, keep, length}
use knative_extensions_net_i.GoString.{bytes}
use knative_extensions_net_i.GoString.Split.{split, lacks}
use knative_extensions_net_i.Api.{Server, Gateway, external_ip}
use knative_extensions_net_i.Resources.Naming.{is_dns1123_label, port_name_prefix}
use knative_extensions_net_i.Resources.Servers.{
  belongs_to_ingress, get_servers, sort_servers, update_gateway, make_tls_servers, tls_server,
  placeholder_server,
}
use knative_extensions_net_i.Resources.Servers.Update.{get-update_gateway, update_gateway_others}
use knative_extensions_net_i.Resources.Servers.Ownership.{get-make_tls_servers, belongs_to_one}
use knative_extensions_net_i.Resources.Servers.Making.{Answers, make_tls_servers-Answers}
use knative_extensions_net_i.Tests.Library.{list_sets, knative_keys}
use knative_extensions_net_i.Tests.Objects.{
  web_ingress, shared_gateway, wanted_servers, is_placeholder, is_placeholder_iff, cert_block,
  server_named,
}
use knative_extensions_net_i.GoString.{str_eq}
use knative_extensions_net_i.Base.Sort.{sort}

wanted_own : all (λ s. belongs_to_ingress s web_ingress) wanted_servers ≡ true
unfolding all belongs_to_ingress split port_name_prefix str_eq
wanted_own = refl

get-update_gateway_example :
    get_servers
      (update_gateway is_placeholder shared_gateway wanted_servers
        (get_servers shared_gateway web_ingress))
      web_ingress
    ≡ sort_servers wanted_servers
get-update_gateway_example =
    get-update_gateway is_placeholder is_placeholder_iff shared_gateway web_ingress wanted_servers
      wanted_own

update_gateway_others_example :
    keep
      (λ s. not (belongs_to_ingress s web_ingress) && not (is_placeholder s))
      (update_gateway is_placeholder shared_gateway wanted_servers
        (get_servers shared_gateway web_ingress)).servers
    ≡ sort_servers (
        keep
          (λ s. not (belongs_to_ingress s web_ingress) && not (is_placeholder s))
          shared_gateway.servers)
update_gateway_others_example =
    update_gateway_others is_placeholder is_placeholder_iff shared_gateway web_ingress
      wanted_servers wanted_own

web_server : belongs_to_ingress (server_named (bytes "shop/web:0")) web_ingress ≡ true
unfolding belongs_to_ingress split port_name_prefix str_eq
web_server = refl

no_slash : lacks b'/' (bytes "shop") ≡ true
unfolding lacks
no_slash = refl

no_colon : lacks b':' (bytes "shop") ≡ true
unfolding lacks
no_colon = refl

web_label : is_dns1123_label (bytes "web") ≡ true
unfolding is_dns1123_label
web_label = refl

belongs_to_one_example : (bytes "shop" ≡ bytes "shop") × (bytes "web" ≡ bytes "web")
belongs_to_one_example =
    belongs_to_one (server_named (bytes "shop/web:0")) web_ingress web_ingress no_slash no_slash
      web_label web_label web_server web_server

abbrev made_server : Server
made_server = tls_server (bytes "web.example.com" ∷ []) (bytes "shop/web:0") 443 (bytes "cert")

made_servers :
    make_tls_servers web_ingress external_ip (cert_block ∷ []) (bytes "certs") []
    ≡ ok (made_server ∷ [])
unfolding make_tls_servers port_name_prefix str_eq sort_servers sort
made_servers = refl

abbrev holding_gateway : Gateway
holding_gateway = record shared_gateway { servers = placeholder_server ∷ made_server ∷ [] }

placeholder_other :
    all (λ s. not (belongs_to_ingress s web_ingress)) (placeholder_server ∷ []) ≡ true
unfolding all belongs_to_ingress split placeholder_server
placeholder_other = refl

get-make_tls_servers_example :
    (get_servers holding_gateway web_ingress ≡ made_server ∷ [])
    × (length (made_server ∷ []) ≡ length (cert_block ∷ []))
get-make_tls_servers_example =
    get-make_tls_servers web_ingress no_colon external_ip (cert_block ∷ []) (bytes "certs") []
      (made_server ∷ []) holding_gateway (placeholder_server ∷ []) made_servers refl
      placeholder_other

make_tls_servers-Answers_example :
    Answers web_ingress
      (bytes "certs")
      []
      external_ip
      (cert_block ∷ [])
      (make_tls_servers web_ingress external_ip (cert_block ∷ []) (bytes "certs") [])
make_tls_servers-Answers_example =
    make_tls_servers-Answers web_ingress (bytes "certs") [] external_ip (cert_block ∷ [])
