-- ===== src/Tests.antt =====
-- Runs of the theorems on concrete objects.
pub mod Library
pub mod Objects
mod ServerRuns
mod NameRuns
mod RouteRuns
mod ConfigRuns
mod AccessorRuns
mod LoopRuns
mod ListerRuns
mod ServerlessRuns
mod CredentialRuns
