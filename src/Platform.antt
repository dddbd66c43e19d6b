-- ===== src/Platform.antt =====
-- What the controller calls of other projects' packages, as parameters: the operations as fields,
-- and next to them the documented behaviour that the proofs rely on.
mod Sets
mod Packages
pub use Sets.*
pub use Packages.*
