-- ===== src/Protocol/Events/RoundTrip.antt =====
-- What a parser of packages/protocol/src/events.ts reads from an event of its builder.
pub mod Notices
pub mod Selection
pub mod Response
pub mod Messages
