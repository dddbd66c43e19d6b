-- ===== src/Tests/Objects.antt =====
-- The objects of the runs.
use knative_extensions_net_i.Base.{
  ◌≡◌, ◌↔◌, refl, ap, Bool, true, false, ◌&&◌, none, some, Option, List, [], ◌∷◌, ◌++◌, ◌==◌,
  ==_iff, &&-left, &&-right,
}
use knative_extensions_net_i.GoString.{GoString, bytes, str_eq, str_eq→eq}
use knative_extensions_net_i.Api.{
  ObjectMeta, Ingress, IngressTls, IngressRule, HttpIngressPath, BackendSplit, external_ip,
  HttpOption, Server, ServerTls, Gateway, Secret, Service,
}
use knative_extensions_net_i.Config.{GatewayConfig, IstioConfig}
use knative_extensions_net_i.Resources.Servers.{placeholder_server, place_holder}
use knative_extensions_net_i.Resources.VirtualService.{GatewayNames}

abbrev pub meta_of : GoString → GoString → GoString → ObjectMeta
meta_of namespace name uid = record {
  name = name;
  namespace = namespace;
  uid = uid;
  labels = (bytes "serving.knative.dev/route", bytes "web") ∷ (bytes "team", bytes "blue") ∷ [];
  annotations = [];
  owner_references = [];
}

abbrev pub cert_block : IngressTls
cert_block = record {
  hosts = bytes "web.example.com" ∷ [];
  secret_name = bytes "cert";
  secret_namespace = bytes "certs";
}

abbrev pub web_split : BackendSplit
web_split = record {
  service_name = bytes "web-00001";
  service_namespace = bytes "shop";
  service_port = 80;
  percent = 100;
  append_headers = [];
}

abbrev pub web_path : HttpIngressPath
web_path = record {
  path = bytes "/";
  rewrite_host = [];
  headers = [];
  append_headers = [];
  splits = web_split ∷ [];
}

abbrev pub web_rule : IngressRule
web_rule = record {
  hosts = bytes "web.example.com" ∷ [];
  visibility = external_ip;
  paths = web_path ∷ [];
}

abbrev pub ingress_named : GoString → Ingress
ingress_named name = record {
  meta = meta_of (bytes "shop") name (bytes "uid-" ++ name);
  tls = cert_block ∷ [];
  rules = web_rule ∷ [];
  http_option = HttpOption.redirected;
}

abbrev pub web_ingress : Ingress
web_ingress = ingress_named (bytes "web")

abbrev pub api_ingress : Ingress
api_ingress = ingress_named (bytes "api")

abbrev pub server_named : GoString → Server
server_named name = record {
  hosts = bytes "web.example.com" ∷ [];
  port = record { name = name; number = 443; protocol = bytes "HTTPS" };
  tls = none;
}

abbrev pub shared_gateway : Gateway
shared_gateway = record {
  meta = meta_of (bytes "knative-serving") (bytes "knative-ingress-gateway") (bytes "gw");
  selector = [];
  servers =
      server_named (bytes "shop/web:0")
      ∷ server_named (bytes "shop/api:0")
      ∷ placeholder_server
      ∷ [];
}

abbrev pub wanted_servers : List Server
wanted_servers = server_named (bytes "shop/web:1") ∷ server_named (bytes "shop/web:0") ∷ []

abbrev pub cert_secret : Secret
cert_secret = record {
  meta = meta_of (bytes "certs") (bytes "cert") (bytes "uid-cert");
  content = (bytes "tls.crt", bytes "certificate") ∷ (bytes "tls.key", bytes "key") ∷ [];
  secret_type = bytes "kubernetes.io/tls";
}

abbrev pub gateway_service : Service
gateway_service = record {
  meta = meta_of (bytes "istio-system") (bytes "istio-ingressgateway") (bytes "svc");
  selector = (bytes "istio", bytes "ingressgateway") ∷ [];
  ports = record { name = bytes "http2"; port = 80 } ∷ [];
}

abbrev pub one_gateway : GoString → GoString → GatewayConfig
one_gateway name url = record {
  namespace = bytes "knative-serving";
  name = name;
  service_url = url;
  label_selector = none;
}

abbrev pub istio_config : IstioConfig
istio_config = record {
  ingress_gateways =
      one_gateway (bytes "knative-ingress-gateway")
        (bytes "istio-ingressgateway.istio-system.svc.cluster.local")
      ∷ [];
  local_gateways =
      one_gateway (bytes "knative-local-gateway")
        (bytes "knative-local-gateway.istio-system.svc.cluster.local")
      ∷ [];
}

abbrev pub gateway_names : GatewayNames
gateway_names = record {
  external = record { keys = bytes "knative-serving/knative-ingress-gateway" ∷ [] };
  local = record { keys = bytes "knative-serving/knative-local-gateway" ∷ [] };
}

-- `isPlaceHolderServer`, by the fields
abbrev pub one_host : List GoString → Bool
one_host (h ∷ []) = str_eq h (bytes "place-holder.place-holder")
one_host _ = false

abbrev pub no_tls : Option ServerTls → Bool
no_tls none = true
no_tls (some t) = false

abbrev pub is_placeholder : Server → Bool
is_placeholder s =
    one_host s.hosts
    && (no_tls s.tls
        && (str_eq s.port.name place_holder
            && (s.port.number == 9999 && str_eq s.port.protocol (bytes "HTTP"))))

one_host_eq : (l : List GoString) → one_host l ≡ true → l ≡ bytes "place-holder.place-holder" ∷ []
one_host_eq [] h = cc
one_host_eq (a ∷ []) h = ap (λ (t : GoString). t ∷ []) (str_eq→eq a _ h)
one_host_eq (a ∷ b ∷ l) h = cc

no_tls_eq : (t : Option ServerTls) → no_tls t ≡ true → t ≡ none
no_tls_eq none h = refl
no_tls_eq (some t) h = cc

pub is_placeholder_iff : (s : Server) → (is_placeholder s ≡ true) ↔ (s ≡ placeholder_server)
unfolding placeholder_server str_eq
is_placeholder_iff s = (to, λ e. rw e refl)
  where
    to : is_placeholder s ≡ true → s ≡ placeholder_server
    to h =
        let b = &&-right (one_host s.hosts) _ h in
        let c = &&-right (no_tls s.tls) _ b in
        let d = &&-right (str_eq s.port.name place_holder) _ c in
        let e = one_host_eq s.hosts (&&-left (one_host s.hosts) _ h) in
        let f = no_tls_eq s.tls (&&-left (no_tls s.tls) _ b) in
        let g =
          str_eq→eq s.port.name place_holder (&&-left (str_eq s.port.name place_holder) _ c) in
        let n = (==_iff s.port.number 9999).0 (&&-left (s.port.number == 9999) _ d) in
        let p = str_eq→eq s.port.protocol (bytes "HTTP") (&&-right (s.port.number == 9999) _ d) in
        cc (e, f, g, n, p)
