-- ===== src/Protocol/Events.antt =====
-- The payloads of the Anchr events, packages/protocol/src/events.ts. A field of a literal type
-- (version, status, type) has one value and is left out of the records; `x?: T` and a value of
-- type `unknown`, which may be `undefined`, are options; amounts and times are finite numbers.
pub mod Payload
pub mod Request
pub mod Offer
pub mod Selection
pub mod Response
pub mod Messages
pub mod Channel
pub mod RoundTrip
pub mod Accepted
