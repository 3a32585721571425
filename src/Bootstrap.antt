-- ===== src/Bootstrap.antt =====
-- The bootstrap API, api/bootstrap: k0s configuration specs, their two versions and their
-- validation.
pub mod Args
pub mod Conversion
pub mod Install
pub mod JoinHost
pub mod Validation
