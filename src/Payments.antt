-- ===== src/Payments.antt =====
-- What unlocks a payment, packages/sdk/src/payments.
pub mod Preimage
pub mod Redeem
pub mod Coordinator
pub mod Signer
pub mod Escrow
pub mod PeerSigning
