-- ===== src/Api.antt =====
-- The Kubernetes, Knative and Istio objects that the controller reads and writes, with the fields
-- that it uses. A Go map is a list of its entries, in the order in which `range` gives them; a
-- pointer that may be nil is an `Option`.
pub mod Maps
mod Meta
mod Core
mod Knative
mod Istio
unfoldable pub use Maps.*
pub use Meta.*
pub use Core.*
pub use Knative.*
pub use Istio.*
