-- ===== src/ControlPlane.antt =====
-- The K0sControlPlane controller, internal/controller/controlplane: control planes that run on
-- Cluster API machines.
pub mod Scope
pub mod Action
pub mod Hooks
pub mod Trigger
pub mod Scaling
pub mod Machines
pub mod Remediation
pub mod Template
pub mod Drift
pub mod Retrieval
pub mod Deletions
pub mod Readiness
pub mod InPlace
pub mod Replace
pub mod Admission
pub mod Availability
pub mod Status
pub mod Reconcile
pub mod Report
