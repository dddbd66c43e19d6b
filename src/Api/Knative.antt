-- ===== src/Api/Knative.antt =====
-- knative.dev/networking: Ingress, Certificate, ServerlessService.
use knative_extensions_net_i.Base.{ℕ, List}
use knative_extensions_net_i.GoString.{GoString}
use knative_extensions_net_i.Api.Maps.{StringMap}
use knative_extensions_net_i.Api.Meta.{ObjectMeta}

-- `v1alpha1.IngressVisibility`, a string: two named values and any other, "" among them.
pub data Visibility : Type 0 where
  external_ip cluster_local : Visibility
  other : GoString → Visibility

-- `v1alpha1.HTTPOption`, a string: "", "Redirected" and any other, "Enabled" among them.
pub data HttpOption : Type 0 where
  unset redirected : HttpOption
  other : GoString → HttpOption

pub record IngressTls : Type 0 where
  pub hosts : List GoString
  pub secret_name : GoString
  pub secret_namespace : GoString

pub record BackendSplit : Type 0 where
  pub service_name : GoString
  pub service_namespace : GoString
  -- `ServicePort.IntValue()`
  pub service_port : ℕ
  pub percent : ℕ
  pub append_headers : StringMap

pub record HttpIngressPath : Type 0 where
  pub path : GoString
  pub rewrite_host : GoString
  -- a header's name with the `Exact` of its `HeaderMatch`
  pub headers : StringMap
  pub append_headers : StringMap
  pub splits : List BackendSplit

-- `rule.HTTP` is not nil: the API server admits no other rule.
pub record IngressRule : Type 0 where
  pub hosts : List GoString
  pub visibility : Visibility
  pub paths : List HttpIngressPath

pub record Ingress : Type 0 where
  pub meta : ObjectMeta
  pub tls : List IngressTls
  pub rules : List IngressRule
  pub http_option : HttpOption

pub record CertificateSpec : Type 0 where
  pub dns_names : List GoString
  pub domain : GoString
  pub secret_name : GoString

pub record Certificate : Type 0 where
  pub meta : ObjectMeta
  pub spec : CertificateSpec

-- with the one field of its status that the program reads
pub record ServerlessService : Type 0 where
  pub meta : ObjectMeta
  pub private_service_name : GoString
