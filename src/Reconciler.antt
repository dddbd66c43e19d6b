-- ===== src/Reconciler.antt =====
-- pkg/reconciler/ingress/ingress.go: the control loop of an Ingress, its steps, and its
-- cleanup.
pub mod Run
pub mod World
pub mod Objects
pub mod Rules
pub mod Cleanup
pub mod Loop
pub mod Finalizing
pub mod Effects
pub mod Tracking
pub mod Stale
pub mod Collecting
pub mod Attempts
pub mod Deleting
pub mod Status
