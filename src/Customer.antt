-- ===== src/Customer.antt =====
-- The customer's request: packages/sdk/src/customer.ts. Its network, mint, oracle and selectors are
-- parameters; the parts of `request` follow each other as in the source.
pub mod Offers
pub mod Types
pub mod Request
pub mod Cheapest
pub mod Paid
