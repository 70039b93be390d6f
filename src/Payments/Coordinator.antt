-- ===== src/Payments/Coordinator.antt =====
-- The FROST coordinator, `createFrostCoordinator` of packages/sdk/src/payments/frost/frost-coordinator.ts,
-- with the records of frost-types.ts. Fresh session ids and the clock are arguments, and so are
-- `JSON.parse` on the packages of a round and the aggregation of the signer program. `tryAggregate` is
-- cut at its await. A time limit `created_at < now() - d` is written as a sum.
pub mod Evict
pub mod Signing
pub mod Dkg
use anchr.Prelude.{
  ℕ, ◌+◌, ◌*◌, String, Bool, true, false, not, ◌&&◌, ◌||◌, List, [], ◌∷◌, Option, none, some, ltb,
  leb, if◌then◌else◌, Eq-string, ◌==◌, truthy, is_some, keep,
}
use anchr.Prelude.Dict.{Dict, lookup, insert, delete, size}
use mathlib.Core.Option.{get_or}

pub record ThresholdOracleConfig : Type 0 where
  pub threshold : ℕ
  pub total_signers : ℕ
  pub signer_pubkeys : List String
  pub group_pubkey : String

pub record FrostSigningSession : Type 0 where
  pub session_id : String
  pub query_id : String
  pub config : ThresholdOracleConfig
  pub message : String
  pub nonce_commitments : Dict String String
  pub signature_shares : Dict String String
  pub group_signature : Option String
  pub finalized : Bool
  pub created_at : ℕ

pub record DkgSession : Type 0 where
  pub session_id : String
  pub threshold : ℕ
  pub total_signers : ℕ
  pub current_round : ℕ
  pub round1_packages : Dict ℕ String
  pub round1_secret_packages : Dict ℕ String
  pub round2_packages : Dict ℕ (Dict ℕ String)
  pub round2_secret_packages : Dict ℕ String
  pub key_packages : Dict ℕ String
  pub pubkey_package : Option String
  pub group_pubkey : Option String
  pub created_at : ℕ

-- The three maps of a coordinator.
pub record Coordinator : Type 0 where
  pub dkg_sessions : Dict String DkgSession
  pub signing_sessions : Dict String FrostSigningSession
  pub query_sessions : Dict String String

abbrev pub frost_session_ttl_ms : ℕ
frost_session_ttl_ms = 30 * 60 * 1000

abbrev pub frost_finalized_retention_ms : ℕ
frost_finalized_retention_ms = 60 * 1000

-- `abandoned || settled`.
unfoldable pub is_stale : ℕ → FrostSigningSession → Bool
is_stale now session =
    ltb (session.created_at + frost_session_ttl_ms) now
    || (session.finalized && ltb (session.created_at + frost_finalized_retention_ms) now)

-- The query's entry goes only if it names the session.
abbrev pub points_to : Dict String String → String → String → Bool
points_to queries query_id id = elim (lookup query_id queries) [ none ↦ false | some j ↦ j == id ]

-- The loop over the signing sessions.
unfoldable pub evict_signing :
    ℕ
    → Dict String FrostSigningSession
    → Dict String FrostSigningSession
    → Dict String String
    → Dict String FrostSigningSession × Dict String String
unfolding is_stale lookup delete
evict_signing now [] sessions queries = (sessions, queries)
evict_signing now ((id, session) ∷ rest) sessions queries =
    let gone = is_stale now session in
    let sessions' = if gone then delete id sessions else sessions in
    let queries' =
      if gone && points_to queries session.query_id id
      then delete session.query_id queries
      else queries in
    evict_signing now rest sessions' queries'

unfoldable pub evict_stale_sessions : ℕ → Coordinator → Coordinator
unfolding evict_signing keep
evict_stale_sessions now c =
    let (sessions, queries) =
      evict_signing now c.signing_sessions c.signing_sessions c.query_sessions in
    record {
      dkg_sessions =
          keep (λ entry. not (ltb (entry.1.created_at + frost_session_ttl_ms) now)) c.dkg_sessions;
      signing_sessions = sessions;
      query_sessions = queries;
    }

unfoldable pub start_signing :
    ℕ
    → String
    → String
    → String
    → ThresholdOracleConfig
    → Coordinator
    → Coordinator × FrostSigningSession
unfolding evict_stale_sessions insert
start_signing now id query_id message config c =
    let left = evict_stale_sessions now c in
    let session : FrostSigningSession = record {
      session_id = id;
      query_id = query_id;
      config = config;
      message = message;
      nonce_commitments = [];
      signature_shares = [];
      group_signature = none;
      finalized = false;
      created_at = now;
    } in
    (
      record left {
        signing_sessions = insert id session left.signing_sessions;
        query_sessions = insert query_id id left.query_sessions;
      },
      session,
    )

unfoldable pub get_signing_session : Coordinator → String → Option FrostSigningSession
unfolding lookup
get_signing_session c id = lookup id c.signing_sessions

-- The coordinator with a session written back.
abbrev pub with_session : Coordinator → String → FrostSigningSession → Coordinator
with_session c id session = record c { signing_sessions = insert id session c.signing_sessions }

unfoldable pub submit_nonce_commitment : Coordinator → String → String → String → Coordinator
unfolding get_signing_session insert
submit_nonce_commitment c id signer commitment = elim (get_signing_session c id) [
  | none ↦ c
  | some session ↦
      if session.finalized
      then c
      else with_session c id (record session {
        nonce_commitments = insert signer commitment session.nonce_commitments;
      })
]

unfoldable pub submit_signature_share : Coordinator → String → String → String → Coordinator
unfolding get_signing_session insert
submit_signature_share c id signer share = elim (get_signing_session c id) [
  | none ↦ c
  | some session ↦
      if session.finalized
      then c
      else with_session c id
          (record session { signature_shares = insert signer share session.signature_shares })
]

-- What is handed to the signer program.
pub record Aggregation : Type 0 where
  pub group_pubkey : String
  pub commitments : Dict String String
  pub message : String
  pub signature_shares : Dict String String
  pub pubkey_package : String

-- `tryAggregate` up to its await: nothing, or what to aggregate.
unfoldable pub start_aggregate : Coordinator → String → Option String → Option Aggregation
unfolding get_signing_session
start_aggregate c id pubkey_package = elim (get_signing_session c id) [
  | none ↦ none
  | some session ↦
      if session.finalized
      then none
      else if ltb (size session.signature_shares) session.config.threshold
      then none
      else some (record {
        group_pubkey = session.config.group_pubkey;
        commitments = session.nonce_commitments;
        message = session.message;
        signature_shares = session.signature_shares;
        pubkey_package = get_or pubkey_package "";
      })
]

-- The rest of `tryAggregate` on the answer of the signer program, a signature if it gave one. A
-- session that was evicted meanwhile is out of the map.
unfoldable pub finish_aggregate : Coordinator → String → Option String → Coordinator × Option String
unfolding get_signing_session insert
finish_aggregate c id none = (c, none)
finish_aggregate c id (some signature) = if not (truthy signature) then (c, none) else (
  elim (get_signing_session c id) [
    | none ↦ c
    | some session ↦
        with_session c id (record session { group_signature = some signature; finalized = true })
  ],
  some signature,
)

-- `tryAggregate` where nothing else runs during its await.
unfoldable pub try_aggregate :
    (Aggregation → Option String)
    → Coordinator
    → String
    → Option String
    → Coordinator × Option String
unfolding start_aggregate finish_aggregate
try_aggregate aggregate c id pubkey_package = elim (start_aggregate c id pubkey_package) [
  | none ↦ (c, none)
  | some request ↦ finish_aggregate c id (aggregate request)
]
