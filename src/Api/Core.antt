-- ===== src/Api/Core.antt =====
-- k8s.io/api/core/v1: Secret and Service.
use knative_extensions_net_i.Base.{ℕ, List}
use knative_extensions_net_i.GoString.{GoString}
use knative_extensions_net_i.Api.Maps.{StringMap}
use knative_extensions_net_i.Api.Meta.{ObjectMeta}

pub record Secret : Type 0 where
  pub meta : ObjectMeta
  pub content : StringMap
  pub secret_type : GoString

pub record ServicePort : Type 0 where
  pub name : GoString
  pub port : ℕ

pub record Service : Type 0 where
  pub meta : ObjectMeta
  pub selector : StringMap
  pub ports : List ServicePort

-- `EndpointPort`
pub record EndpointPort : Type 0 where
  pub name : GoString
  pub port : ℕ

-- `EndpointSubset`, with the IPs of its addresses
pub record EndpointSubset : Type 0 where
  pub addresses : List GoString
  pub ports : List EndpointPort

pub record Endpoints : Type 0 where
  pub subsets : List EndpointSubset
