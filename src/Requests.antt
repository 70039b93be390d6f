-- ===== src/Requests.antt =====
-- The request lifecycle, packages/sdk/src/requests.
pub mod Types
pub mod Transitions
pub mod Validation
pub mod Aggregate
pub mod Store
pub mod Finalize
pub mod Lifecycle
pub mod EscrowFlow
pub mod Service
