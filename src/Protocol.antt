-- ===== src/Protocol.antt =====
-- The shared protocol package, packages/protocol/src.
pub mod Schema
pub mod Nostr
pub mod Events
