-- ===== src/Proofs/Tlsn.antt =====
-- TLSNotary presentations, packages/sdk/src/proofs/tlsn-types.ts and tlsn-validation.ts.
pub mod Types
pub mod Regex
pub mod Conditions
pub mod Verdict
pub mod Validation
pub mod Accepted
pub mod Replay
