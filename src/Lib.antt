-- ===== src/Lib.antt =====
-- anchr: the request marketplace of packages/sdk and packages/protocol.
--
-- A customer makes a query (a request for evidence, with a payment locked), providers answer it,
-- and oracles judge the answer. A query without an escrow is answered by one submission; one with
-- an escrow goes through offers, the selection of a provider, work and a verification, and a
-- passing verdict delivers what unlocks the payment: the preimage of a hash lock, or the signature
-- of a FROST group.
--
-- The files and the code they are about (paths below packages/sdk/src unless given whole):
--   Prelude        Boolean tests, lists, decimals, and maps as lists of pairs in insertion order.
--   Protocol       packages/protocol/src:
--     Schema         `isSchemaUri` of schema.ts.   Nostr    nostr.ts.
--     Events         events.ts: one child for each kind of payload, Channel with what the encryption
--                    is relied on for, RoundTrip and Accepted with the theorems.
--   Requests       requests/domain and requests/application:
--     Types          types.ts, values.ts, domain/ports.ts: the records of a query.
--     Transitions    query-transitions.ts.   Validation    value-objects.ts.
--     Aggregate      query-aggregate.ts: one function for each operation, from a query to a query or
--                    an error. Aggregate/Create makes a query; Aggregate/Operations has the
--                    operations as data, and histories.
--     Store          query-store.ts.
--     Finalize       query-service-deps.ts, ports.ts, query-escrow-validation.ts and
--                    verification-orchestration.ts: from the verdict to the settled query.
--     Lifecycle      query-lifecycle-methods.ts.   EscrowFlow    escrow-flow-methods.ts, with
--                    `doSubmitEscrowResult` in EscrowFlow/Submit.
--     Service        query-service.ts: the calls of `createQueryService` as a system of steps.
--   Oracles        adapters/oracle-client/registry.ts (Registry) and
--                  requests/application/query-verification.ts (Quorum).
--   Payments       payments/cashu/preimage-store.ts (Preimage), payments/cashu/redeem-swap.ts
--                  (Redeem), and in payments/frost frost-coordinator.ts (Coordinator) and
--                  frost-signer.ts (Signer), and frost-signing-coordinator.ts (PeerSigning). Escrow has
--                  the lock checks of payments/cashu/cashu-escrow-provider.ts (Htlc) and
--                  frost-escrow-provider.ts (Frost, Signatures); Requests/EscrowFlow/Locked puts the
--                  first behind the port that the service calls.
--   Attachments    attachments/url-validation.ts.
--   Customer       customer.ts: Types has the data of a request, Offers what is collected in its
--                  window and the default selector, Request its course up to the payment lock
--                  (choose) and after it (deliver_request); Cheapest and Paid are about these.
--   Proofs         proofs:
--     ReplayGuard    replay-guard.ts.
--     IntegrityStore integrity-store.ts.
--     Tlsn           tlsn-types.ts (Types) and tlsn-validation.ts: Regex has the guard of regular
--                    expressions, Conditions their evaluation, Verdict the checks of a proof, and
--                    Validation `validateTlsn` in two parts, before and after its await.
--     Verifier       verification/verifier.ts with the registry of schema.ts; Media has the checks of
--                    generic-media-schema.ts, Tlsn the one of verification/checks/tlsn.ts.
--   Tests          the theorems at concrete inputs.
--
-- How the code is read. A Map is a list of pairs in insertion order: setting a key that is there
-- keeps its place. An optional field is an Option; a field of a `Partial` that may be absent or
-- undefined is an Option of an Option. Clocks and random generators are arguments. The code awaits
-- oracles, the escrow provider and the FROST signers; what they resolve to is a function in the
-- dependencies, and between the two parts of a call that awaits, any other call may run: a `Task` of
-- Requests/Service holds what a call has read, `resumes` lets it go on with the store as it is by
-- then, and `rejects` ends it where what it waits for is rejected. A selection for which no check of a
-- token is due does not wait. A thrown error is a value. Numbers are natural numbers; a lock time, which may be
-- infinite or NaN, is a `Number`. Loops go over the lists they read, so no fuel is needed.
--
-- The URL parser, SHA-256, the verdicts of oracles, the checks of the escrow provider, the
-- signatures of the FROST signers and the answers of the mint are code outside the repository or
-- calls over the network, and are parameters.
--
-- JSON values are a type of their own; `JSON.parse`, `JSON.stringify`, NIP-44, `finalizeEvent`,
-- `new RegExp` and the TLSNotary verifier binary are parameters too. In Requests a value of type
-- `unknown` is the text of its JSON form, in Proofs the value itself.
--
-- Not modelled: the checks of images, the processes that the code starts, relays, the Cashu tokens
-- themselves, the HTTP services, storage on disk, the
-- facades of the provider and the oracle, and the Rust programs.
pub mod Prelude
pub mod Protocol
pub mod Requests
pub mod Oracles
pub mod Payments
pub mod Attachments
pub mod Customer
pub mod Proofs
mod Tests
