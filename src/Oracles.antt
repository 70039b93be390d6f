-- ===== src/Oracles.antt =====
-- Finding oracles and asking them: packages/sdk/src/adapters/oracle-client/registry.ts and
-- packages/sdk/src/requests/application/query-verification.ts.
pub mod Registry
pub mod Quorum
