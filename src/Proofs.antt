-- ===== src/Proofs.antt =====
-- The oracle's checks of evidence, packages/sdk/src/proofs.
pub mod ReplayGuard
pub mod Tlsn
pub mod Verifier
pub mod IntegrityStore
