-- ===== src/Tests/ListerRuns.antt =====
-- Runs of the theorems on the probe targets.
use knative_extensions_net_i.Base.{
  keep, ◌≡◌, ◌≢◌, ◌↔◌, refl, true, List, [], ◌∷◌, ◌++◌, Result, ok, err, none, some, ◌==◌,
  if◌then◌else◌, Bool-cases, inl, inr, all, Member, Error, ℕ, any,
}
use knative_extensions_net_i.GoString.{GoString, bytes, str_eq, str_eq_refl, elem}
use knative_extensions_net_i.GoString.Split.{split}
use knative_extensions_net_i.Api.{
  GoMap, IngressRule, Gateway, Server, ServicePort, EndpointPort, EndpointSubset, Endpoints, lookup,
}
use knative_extensions_net_i.Platform.{StringSet}
use knative_extensions_net_i.Resources.Selection.{qualified_gateway_names_from_context}
use knative_extensions_net_i.Lister.{
  ProbeHelpers, ProbeListers, ProbeTarget, value, panic, list_probe_targets, list_gateway_targets,
  sorted_keys,
}
use knative_extensions_net_i.Lister.Targets.{Probes}
use knative_extensions_net_i.Lister.Once.{Visited, list_gateway_targets_once}
use knative_extensions_net_i.Lister.Keys.{in_range}
use knative_extensions_net_i.Lister.Hosts.{
  Targets, list_probe_targets-ne-panic, list_probe_targets-Targets,
}
use knative_extensions_net_i.Tests.Library.{list_sets, match_all}
use knative_extensions_net_i.Tests.Objects.{
  web_ingress, gateway_service, istio_config, meta_of, gateway_names,
}

abbrev rule_hosts : List IngressRule → List GoString
rule_hosts [] = []
rule_hosts (rule ∷ rules) = rule.hosts ++ rule_hosts rules

-- The hosts under each Gateway, where there are hosts.
abbrev under_each : List GoString → List GoString → GoMap StringSet
under_each [] keys = []
under_each (h ∷ hs) [] = []
under_each (h ∷ hs) (k ∷ keys) = (k, record { keys = h ∷ hs }) ∷ under_each (h ∷ hs) keys

under_each_same :
    (h : GoString) (hs keys : List GoString) (k : GoString) (s : StringSet)
    → lookup k (under_each (h ∷ hs) keys) ≡ some s
    → record { keys = h ∷ hs } ≡ s
unfolding lookup
under_each_same h hs [] k s e = absurd (cc e)
under_each_same h hs (j ∷ keys) k s e = elim (Bool-cases (str_eq j k)) [
  | inl f ↦ let same : some (record { keys = h ∷ hs }) ≡ some s = rw f at e in cc same
  | inr f ↦ under_each_same h hs keys k s (rw f at e)
]

under_each_present :
    (hosts keys : List GoString) (k : GoString) (s : StringSet)
    → lookup k (under_each hosts keys) ≡ some s
    → (h : GoString) × (elem h s.keys ≡ true)
unfolding elem lookup any
under_each_present [] keys k s e = absurd (cc e)
under_each_present (h ∷ hs) keys k s e =
    (h, rw (← under_each_same h hs keys k s e, str_eq_refl h) refl)

abbrev port_named : List ServicePort → ℕ → Result GoString
port_named [] n = err (Error.external (bytes "no port with that number"))
port_named (p ∷ ports) n = let rest = port_named ports n in if p.port == n then ok p.name else rest

abbrev port_numbered : List EndpointPort → GoString → Result ℕ
port_numbered [] name = err (Error.external (bytes "no port with that name"))
port_numbered (p ∷ ports) name =
    let rest = port_numbered ports name in if str_eq p.name name then ok p.port else rest

abbrev key_parts : List GoString → Result (GoString × GoString)
key_parts (name ∷ []) = ok ([], name)
key_parts (namespace ∷ name ∷ []) = ok (namespace, name)
key_parts _ = err (Error.external (bytes "unexpected key format"))

instance abbrev plain_probe_helpers : ProbeHelpers
plain_probe_helpers = record {
  name_for_port_number = λ service n. port_named service.ports n;
  port_number_for_name = λ sub name. port_numbered sub.ports name;
  split_meta_namespace_key = λ key. key_parts (split b'/' key);
  hosts_per_visibility = λ ing names. under_each (rule_hosts ing.rules) names.external.keys;
  hosts_present =
      λ ing names k s e. under_each_present (rule_hosts ing.rules) names.external.keys k s e;
}

abbrev http_server : Server
http_server = record {
  hosts = bytes "*" ∷ [];
  port = record { name = bytes "http"; number = 80; protocol = bytes "HTTP" };
  tls = none;
}

abbrev probed_gateway : Gateway
probed_gateway = record {
  meta = meta_of (bytes "knative-serving") (bytes "knative-ingress-gateway") (bytes "gw");
  selector = (bytes "istio", bytes "ingressgateway") ∷ [];
  servers = http_server ∷ record http_server { hosts = bytes "web.example.com" ∷ [] } ∷ [];
}

abbrev pods : EndpointSubset
pods = record {
  addresses = bytes "10.0.0.1" ∷ [];
  ports = record { name = bytes "http2"; port = 8080 } ∷ [];
}

abbrev gateway_endpoints : Endpoints
gateway_endpoints = record { subsets = pods ∷ record pods { ports = [] } ∷ [] }

abbrev one_of_each : ProbeListers
one_of_each = record {
  gateway = λ namespace name. ok probed_gateway;
  list_services = λ selector. ok (gateway_service ∷ []);
  endpoints = λ namespace name. ok gateway_endpoints;
}

abbrev probe_target : ProbeTarget
probe_target = record {
  pod_ips = record { keys = bytes "10.0.0.1" ∷ [] };
  pod_port = bytes "8080";
  port = bytes "80";
  url = record { scheme = bytes "http"; host = [] };
}

numbers_in_range : all in_range probed_gateway.servers ≡ true
unfolding all
numbers_in_range = refl

list_gateway_targets_once_example :
    (targets : List ProbeTarget) × (list_gateway_targets one_of_each probed_gateway ≡ ok targets)
    × Visited gateway_service gateway_endpoints.subsets probed_gateway.servers targets
    × (Member probe_target targets
        ↔ Probes gateway_service gateway_endpoints.subsets probed_gateway.servers probe_target)
list_gateway_targets_once_example =
    list_gateway_targets_once one_of_each probed_gateway gateway_service [] gateway_endpoints
      probe_target numbers_in_range refl refl

list_probe_targets-ne-panic_example :
    list_probe_targets one_of_each istio_config web_ingress ≢ panic
list_probe_targets-ne-panic_example =
    list_probe_targets-ne-panic one_of_each istio_config web_ingress

abbrev web_target : ProbeTarget
web_target = record probe_target {
  url = record { scheme = bytes "http"; host = bytes "web.example.com:80" };
}

names_found : qualified_gateway_names_from_context istio_config web_ingress.meta ≡ ok gateway_names
unfolding qualified_gateway_names_from_context keep elem
names_found = refl

targets_found : list_probe_targets one_of_each istio_config web_ingress ≡ value (web_target ∷ [])
unfolding list_probe_targets keep elem split
targets_found = refl

list_probe_targets-Targets_example :
    Targets one_of_each
      (plain_probe_helpers.hosts_per_visibility web_ingress gateway_names)
      (sorted_keys (plain_probe_helpers.hosts_per_visibility web_ingress gateway_names))
      web_target
list_probe_targets-Targets_example =
    list_probe_targets-Targets one_of_each istio_config web_ingress gateway_names (web_target ∷ [])
      web_target names_found targets_found (inl refl)
