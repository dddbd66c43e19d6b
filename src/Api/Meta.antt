-- ===== src/Api/Meta.antt =====
-- k8s.io/apimachinery: object metadata, selectors, and references.
use knative_extensions_net_i.Base.{Bool, List}
use knative_extensions_net_i.GoString.{GoString}
use knative_extensions_net_i.Api.Maps.{StringMap}

pub record OwnerReference : Type 0 where
  pub uid : GoString
  pub controller : Bool

pub record ObjectMeta : Type 0 where
  pub name : GoString
  pub namespace : GoString
  pub uid : GoString
  pub labels : StringMap
  pub annotations : StringMap
  pub owner_references : List OwnerReference

-- `metav1.LabelSelectorRequirement`
pub record Requirement : Type 0 where
  pub key : GoString
  pub operator : GoString
  pub values : List GoString

pub record LabelSelector : Type 0 where
  pub match_labels : StringMap
  pub match_expressions : List Requirement

-- `tracker.Reference`
pub record Reference : Type 0 where
  pub api_version : GoString
  pub kind : GoString
  pub namespace : GoString
  pub name : GoString
