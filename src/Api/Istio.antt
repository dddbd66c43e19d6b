-- ===== src/Api/Istio.antt =====
-- The Istio networking objects: Gateway, VirtualService, DestinationRule.
use knative_extensions_net_i.Base.{ℕ, Bool, List, Option}
use knative_extensions_net_i.GoString.{GoString}
use knative_extensions_net_i.Api.Maps.{StringMap, GoMap}
use knative_extensions_net_i.Api.Meta.{ObjectMeta}

pub record Port : Type 0 where
  pub name : GoString
  pub number : ℕ
  pub protocol : GoString

pub data TlsMode : Type 0 where
  passthrough simple mutual_tls : TlsMode

pub data TlsVersion : Type 0 where
  tls_auto tls_v1_2 : TlsVersion

-- `ServerTLSSettings`
pub record ServerTls : Type 0 where
  pub https_redirect : Bool
  pub mode : TlsMode
  pub server_certificate : GoString
  pub private_key : GoString
  pub credential_name : GoString
  pub min_protocol_version : TlsVersion

-- `Port` is not nil: Istio admits no server without one.
pub record Server : Type 0 where
  pub hosts : List GoString
  pub port : Port
  pub tls : Option ServerTls

pub record Gateway : Type 0 where
  pub meta : ObjectMeta
  pub selector : StringMap
  pub servers : List Server

pub data StringMatch : Type 0 where
  exact prefix : GoString → StringMatch

pub record HttpMatchRequest : Type 0 where
  pub gateways : List GoString
  pub authority : Option StringMatch
  pub uri : Option StringMatch
  pub headers : GoMap StringMatch

-- `Headers` is the map `Headers.Request.Set`.
pub record RouteDestination : Type 0 where
  pub host : GoString
  pub subset : GoString
  pub port : Option ℕ
  pub weight : ℕ
  pub headers : Option StringMap

-- `retries` is the number of attempts of an `HTTPRetry`.
pub record HttpRoute : Type 0 where
  pub matches : List HttpMatchRequest
  pub route : List RouteDestination
  pub rewrite : Option GoString
  pub headers : Option StringMap
  pub retries : Option ℕ

pub record VirtualServiceSpec : Type 0 where
  pub hosts : List GoString
  pub gateways : List GoString
  pub http : List HttpRoute

pub record VirtualService : Type 0 where
  pub meta : ObjectMeta
  pub spec : VirtualServiceSpec

pub data LoadBalancer : Type 0 where
  least_request passthrough : LoadBalancer

pub record Subset : Type 0 where
  pub name : GoString
  pub load_balancer : LoadBalancer

-- `TrafficPolicy.Tls` with mode SIMPLE
pub record ClientTls : Type 0 where
  pub credential_name : GoString
  pub subject_alt_names : List GoString

-- `h2_upgrade` says whether the connection pool has the policy UPGRADE.
pub record TrafficPolicy : Type 0 where
  pub tls : ClientTls
  pub h2_upgrade : Bool

pub record DestinationRuleSpec : Type 0 where
  pub host : GoString
  pub traffic_policy : Option TrafficPolicy
  pub subsets : List Subset

pub record DestinationRule : Type 0 where
  pub meta : ObjectMeta
  pub spec : DestinationRuleSpec
