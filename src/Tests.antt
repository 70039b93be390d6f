-- ===== src/Tests.antt =====
-- The theorems at concrete inputs, and runs of the definitions.
mod Data
mod Aggregate
mod Oracles
mod Payments
mod Proofs
mod Protocol
mod Tlsn
mod Escrow
mod Attachments
mod Customer
mod Service
