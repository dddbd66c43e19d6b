-- ===== src/Resources.antt =====
-- pkg/reconciler/ingress/resources: the objects that the controller wants for an Ingress.
pub mod Naming
pub mod Servers
pub mod VirtualService
pub mod Selection
pub mod Secrets
pub mod Gateways
pub mod DestinationRule
