-- ===== src/Requests/Types.antt =====
-- The data of a request: packages/sdk/src/requests/domain/types.ts, oracle-types.ts and ports.ts,
-- values.ts, and the verdict of proofs/verification/contract.ts.
-- Times and amounts are natural numbers. A value of type `unknown` is the text of its JSON form.
-- `x?: T` is `Option T`.
use anchr.Prelude.{ℕ, String, Option, List, Bool}
use anchr.Prelude.Dict.{Dict}

pub data QueryStatus : Type 0 where
  pending awaiting_offers provider_selected processing verifying approved rejected expired :
      QueryStatus

pub data PaymentStatus : Type 0 where
  unpaid escrow_pending escrow_locked escrow_swapped locked released cancelled : PaymentStatus

pub data CustomerType : Type 0 where
  agent human app : CustomerType

pub data ExecutorType : Type 0 where
  human agent service : ExecutorType

pub data SubmissionChannel : Type 0 where
  adapter : SubmissionChannel

pub data AttachmentStorageKind : Type 0 where
  blossom external : AttachmentStorageKind

-- A number of the language that need not be finite.
pub data Number : Type 0 where
  finite : ℕ → Number
  infinite nan : Number

pub record AttachmentRef : Type 0 where
  pub id : String
  pub uri : String
  pub mime_type : String
  pub storage_kind : AttachmentStorageKind
  pub filename : Option String
  pub size_bytes : Option ℕ
  pub blossom_hash : Option String
  pub blossom_servers : Option (List String)

pub record BlossomKeyMaterial : Type 0 where
  pub encrypt_key : String
  pub encrypt_iv : String

abbrev pub BlossomKeyMap : Type 0
BlossomKeyMap = Dict String BlossomKeyMaterial

pub record VerificationDetail : Type 0 where
  pub passed : Bool
  pub checks : List String
  pub failures : List String
  pub warnings : Option (List String)
  pub schema_verdict : Option String

pub record QueryInput : Type 0 where
  pub description : String
  pub schema : Option String
  pub location_hint : Option String
  pub verification_requirements : Option (List String)
  pub schema_requirement : Option String

pub record QueryResult : Type 0 where
  pub attachments : List AttachmentRef
  pub notes : Option String
  pub schema_evidence : Option String

pub record CustomerMeta : Type 0 where
  pub customer_type : CustomerType
  pub customer_id : Option String
  pub client_name : Option String

pub record SubmissionMeta : Type 0 where
  pub executor_type : ExecutorType
  pub channel : SubmissionChannel

pub record PaymentLockInfo : Type 0 where
  pub amount_sats : ℕ
  pub escrow_token : Option String

-- What tells the escrow variants apart: `hash` of an HTLC escrow, `group_pubkey` of a FROST one.
pub data EscrowLock : Type 0 where
  htlc : String → EscrowLock
  p2pk_frost : String → EscrowLock

pub record EscrowInfo : Type 0 where
  pub lock : EscrowLock
  pub oracle_pubkeys : List String
  pub customer_pubkey : String
  pub provider_pubkey : Option String
  pub locktime : Number
  pub escrow_token : Option String
  pub verified_escrow_sats : Option ℕ
  pub escrow_ref : Option String

pub record OfferInfo : Type 0 where
  pub provider_pubkey : String
  pub amount_sats : Option ℕ
  pub offer_event_id : String
  pub received_at : ℕ

pub record QuorumConfig : Type 0 where
  pub min_approvals : ℕ

pub record OracleAttestationRecord : Type 0 where
  pub oracle_id : String
  pub passed : Bool
  pub checks : List String
  pub failures : List String
  pub attested_at : ℕ
  pub schema_verdict : Option String

pub record OracleAttestation : Type 0 where
  pub oracle_id : String
  pub query_id : String
  pub passed : Bool
  pub checks : List String
  pub failures : List String
  pub attested_at : ℕ
  pub schema_verdict : Option String

pub record Query : Type 0 where
  pub id : String
  pub schema : Option String
  pub status : QueryStatus
  pub description : String
  pub location_hint : Option String
  pub challenge_nonce : Option String
  pub verification_requirements : List String
  pub created_at : ℕ
  pub expires_at : ℕ
  pub customer_meta : Option CustomerMeta
  pub payment_lock : Option PaymentLockInfo
  pub oracle_ids : Option (List String)
  pub assigned_oracle_id : Option String
  pub submitted_at : Option ℕ
  pub result : Option QueryResult
  pub verification : Option VerificationDetail
  pub submission_meta : Option SubmissionMeta
  pub payment_status : PaymentStatus
  pub escrow : Option EscrowInfo
  pub offers : Option (List OfferInfo)
  pub nostr_event_id : Option String
  pub blossom_keys : Option BlossomKeyMap
  pub schema_requirement : Option String
  pub quorum : Option QuorumConfig
  pub attestations : Option (List OracleAttestationRecord)

-- What the injected clock and generators deliver to one call.
pub record DomainServices : Type 0 where
  pub now : ℕ
  pub query_id : String
  pub challenge_nonce : String
