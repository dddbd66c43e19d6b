-- ===== src/Resources/VirtualService.antt =====
-- resources/virtual_service.go: the VirtualServices of an Ingress.
mod Routes
mod Making
pub mod Prefixes
pub mod Minimal
pub mod Matching
pub mod Labels
pub mod Children
pub mod Selection
unfoldable pub use Routes.*
unfoldable pub use Making.*
