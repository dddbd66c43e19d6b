-- ===== src/Reconciler/World.antt =====
-- What the control loop reads: the configuration, the listers and the answers of the API server.
use knative_extensions_net_i.Base.{◌≡◌, true, ◌↔◌, Error, Bool, List, Result}
use knative_extensions_net_i.GoString.{GoString, str_eq}
use knative_extensions_net_i.Api.{
  get, Server, ObjectMeta, OwnerReference, StringMap, Ingress, Secret, Gateway, Service,
  VirtualService, DestinationRule,
}
use knative_extensions_net_i.Config.{IstioConfig}
use knative_extensions_net_i.Accessor.{Client}
use knative_extensions_net_i.Resources.Servers.{placeholder_server}

pub record World : Type 0 where
  -- `config.FromContext(ctx)`
  pub istio : IstioConfig
  -- `cfg.Network.ClusterLocalDomainTLS == EncryptionEnabled`
  pub cluster_local_tls : Bool
  -- `Network.SystemInternalTLSEnabled()`
  pub internal_tls : Bool
  -- whether the context has an event recorder
  pub recorder : Bool
  pub secrets : Client Secret
  pub gateways : Client Gateway
  pub virtual_services : Client VirtualService
  pub destination_rules : Client DestinationRule
  pub services : GoString → GoString → Result Service
  -- `virtualServiceLister.VirtualServices(ns).List(selector)`, by the one label of the selector
  pub list_virtual_services : GoString → GoString → GoString → Result (List VirtualService)
  pub delete_virtual_service : GoString → GoString → Result (Unit {0})
  -- `secretLister.Secrets(ns).List(selector)`, by the selector's labels
  pub list_secrets : GoString → StringMap → Result (List Secret)
  pub delete_secret : GoString → GoString → Result (Unit {0})
  -- `ing.SetDefaults(ctx)`
  pub set_defaults : Ingress → Ingress
  -- the nil pointer as an element of `Spec.Servers`, which the loop passes on to the client unread
  pub nil_server : Server
  -- `ing.IsReady()`
  pub is_ready : Ingress → Bool
  -- `statusManager.IsReady(ctx, ing)`
  pub probe : Ingress → Result Bool
  -- `metav1.NewControllerRef(secret, gvk)`
  pub new_secret_ref : ObjectMeta → OwnerReference
  -- `errors.NewAggregate` of at least one error
  pub aggregate : Error → List Error → Error
  -- `cmp.Equal(existing, desired, protocmp.Transform())` on servers, and on one server with the
  -- placeholder
  pub same_servers : List Server → List Server → Bool
  pub is_placeholder : Server → Bool
  pub same_servers_iff : (a b : List Server) → (same_servers a b ≡ true) ↔ (a ≡ b)
  pub is_placeholder_iff : (s : Server) → (is_placeholder s ≡ true) ↔ (s ≡ placeholder_server)
  -- `networking.IngressClassAnnotationKey` and `netconfig.IstioIngressClassName`
  pub ingress_class_annotation_key : GoString
  pub istio_ingress_class_name : GoString

-- `GetAnnotations()[networking.IngressClassAnnotationKey] == netconfig.IstioIngressClassName`
unfoldable pub has_istio_class : World → ObjectMeta → Bool
unfolding get str_eq
has_istio_class world meta =
    str_eq (get world.ingress_class_annotation_key meta.annotations) world.istio_ingress_class_name
