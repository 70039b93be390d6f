-- ===== src/Payments/Coordinator/Signing.antt =====
-- What signatures a coordinator gives out, and what becomes of a finalized session:
-- packages/sdk/src/payments/frost/frost-coordinator.ts.
use anchr.Prelude.{
  ◌≤◌, String, true, false, List, [], ◌∷◌, Option, none, some, if◌then◌else◌, Eq-string, ◌==◌, ◌≡◌,
  refl, ◌∙◌, arith, Option-cases, inl, inr,
}
use anchr.Prelude.Dict.{insert, size, lookup-insert, ==_refl}
use anchr.Payments.Coordinator.{
  Coordinator, FrostSigningSession, Aggregation, get_signing_session, submit_nonce_commitment,
  submit_signature_share, start_aggregate, finish_aggregate, try_aggregate, with_session,
}

get-with_session :
    (c : Coordinator) (id j : String) (s : FrostSigningSession)
    → get_signing_session (with_session c id s) j
      ≡ (if id == j then some s else get_signing_session c j)
unfolding get_signing_session
get-with_session c id j s = lookup-insert id j s c.signing_sessions

-- What a signature that is given out rests on.
pub record Threshold (aggregate : Aggregation → Option String) (c c' : Coordinator) (id : String)
    (package_text : Option String) (signature : String) : Type 0 where
  pub session : FrostSigningSession
  pub known : get_signing_session c id ≡ some session
  pub open_before : session.finalized ≡ false
  pub enough : session.config.threshold ≤ size session.signature_shares
  pub request : Aggregation
  pub about : request.message ≡ session.message
  pub over : request.signature_shares ≡ session.signature_shares
  pub answered : aggregate request ≡ some signature
  pub closed :
      get_signing_session c' id
      ≡ some (record session { group_signature = some signature; finalized = true })

start_aggregate-ready :
    (c : Coordinator) (id : String) (package_text : Option String) (request : Aggregation)
    → start_aggregate c id package_text ≡ some request
    → (s : FrostSigningSession) × (get_signing_session c id ≡ some s)
      × (s.finalized ≡ false)
      × (s.config.threshold ≤ size s.signature_shares)
      × (request.message ≡ s.message)
      × (request.signature_shares ≡ s.signature_shares)
unfolding start_aggregate
start_aggregate-ready c id package_text request e = elim (Option-cases (get_signing_session c id)) [
  | inl missing ↦ absurd (ground arith)
  | inr (s, known) ↦ (s, known, ground arith, ground arith, ground arith, ground arith)
]

finish_aggregate-closes :
    (c : Coordinator) (id : String) (answer : Option String) (signature : String)
    (s : FrostSigningSession)
    → get_signing_session c id ≡ some s
    → (finish_aggregate c id answer).1 ≡ some signature
    → (answer ≡ some signature)
      × (get_signing_session (finish_aggregate c id answer).0 id
          ≡ some (record s { group_signature = some signature; finalized = true }))
unfolding finish_aggregate
finish_aggregate-closes c id none signature s known e = absurd (ground arith)
finish_aggregate-closes c id (some given) signature s known e =
    let closed : FrostSigningSession = record s {
      group_signature = some given;
      finalized = true;
    } in
    ground (arith, get-with_session c id id closed, ==_refl id)

finish_aggregate-other :
    (c : Coordinator) (j id : String) (answer : Option String)
    → (j == id) ≡ false
    → get_signing_session (finish_aggregate c j answer).0 id ≡ get_signing_session c id
unfolding finish_aggregate
finish_aggregate-other c j id none other = refl
finish_aggregate-other c j id (some given) other = elim (Option-cases (get_signing_session c j)) [
  | inl missing ↦ ground arith
  | inr (t, there) ↦
      ground (
        arith,
        get-with_session c j id (record t { group_signature = some given; finalized = true }),
      )
]

try_aggregate-none :
    (aggregate : Aggregation → Option String) (c : Coordinator) (id : String)
    (package_text : Option String)
    → start_aggregate c id package_text ≡ none
    → try_aggregate aggregate c id package_text ≡ (c, none)
unfolding try_aggregate
try_aggregate-none aggregate c id package_text nothing = rw (nothing, try_aggregate)

try_aggregate-ready :
    (aggregate : Aggregation → Option String) (c : Coordinator) (id : String)
    (package_text : Option String) (request : Aggregation)
    → start_aggregate c id package_text ≡ some request
    → try_aggregate aggregate c id package_text ≡ finish_aggregate c id (aggregate request)
unfolding try_aggregate
try_aggregate-ready aggregate c id package_text request ready = rw (ready, try_aggregate)

-- A signature is given out only for a known session that was not finalized and has at least the
-- threshold of signature shares, as the signer program's answer about the session's message and
-- shares. The session is finalized with it. This is about a call that no other call interrupts.
pub try_aggregate-Threshold :
    (aggregate : Aggregation → Option String) (c : Coordinator) (id : String)
    (package_text : Option String) (signature : String)
    → (try_aggregate aggregate c id package_text).1 ≡ some signature
    → Threshold aggregate c (try_aggregate aggregate c id package_text).0 id package_text signature
unfolding try_aggregate finish_aggregate
try_aggregate-Threshold aggregate c id package_text signature e =
    elim (Option-cases (start_aggregate c id package_text)) [
      | inl nothing ↦ absurd (ground arith)
      | inr (request, ready) ↦
          let (s, known, fresh, enough, about, over) =
            start_aggregate-ready c id package_text request ready in
          let same = try_aggregate-ready aggregate c id package_text request ready in
          let (answered, closed) =
            finish_aggregate-closes c id (aggregate request) signature s known (rw same at e) in
          record {
            session = s;
            known = known;
            open_before = fresh;
            enough = enough;
            request = request;
            about = about;
            over = over;
            answered = answered;
            closed = rw same closed;
          }
    ]

-- A call about a session that exists.
pub data Call : Type 0 where
  commits : String → String → String → Call
  shares : String → String → String → Call
  aggregates : String → Option String → Call

module _ (aggregate : Aggregation → Option String) where
  unfoldable pub after_call : Coordinator → Call → Coordinator
  unfolding submit_nonce_commitment submit_signature_share try_aggregate
  after_call c (commits id signer text) = submit_nonce_commitment c id signer text
  after_call c (shares id signer text) = submit_signature_share c id signer text
  after_call c (aggregates id package_text) = (try_aggregate aggregate c id package_text).0

  unfoldable pub after_calls : Coordinator → List Call → Coordinator
  after_calls c [] = c
  after_calls c (call ∷ rest) = after_calls (after_call c call) rest

  after_call-finalized :
      (c : Coordinator) (call : Call) (id : String) (s : FrostSigningSession)
      → get_signing_session c id ≡ some s
      → s.finalized ≡ true
      → get_signing_session (after_call c call) id ≡ some s
  unfolding after_call submit_nonce_commitment submit_signature_share try_aggregate start_aggregate
      finish_aggregate
  after_call-finalized c (commits j signer text) id s known done =
      elim (Option-cases (get_signing_session c j)) [
        | inl missing ↦ ground arith
        | inr (t, there) ↦ ground (
          arith,
          (Eq-string.beq_iff j id).0,
          get-with_session c j id
              (record t { nonce_commitments = insert signer text t.nonce_commitments }),
        )
      ]
  after_call-finalized c (shares j signer text) id s known done =
      elim (Option-cases (get_signing_session c j)) [
        | inl missing ↦ ground arith
        | inr (t, there) ↦ ground (
          arith,
          (Eq-string.beq_iff j id).0,
          get-with_session c j id
              (record t { signature_shares = insert signer text t.signature_shares }),
        )
      ]
  after_call-finalized c (aggregates j package_text) id s known done =
      elim (Option-cases (start_aggregate c j package_text)) [
        | inl nothing ↦ rw (try_aggregate-none aggregate c j package_text nothing, after_call) known
        | inr (request, ready) ↦
            let (t, there, fresh, _, _, _) = start_aggregate-ready c j package_text request ready in
            let other : (j == id) ≡ false = ground (arith, (Eq-string.beq_iff j id).0) in
            rw (try_aggregate-ready aggregate c j package_text request ready, after_call)
              (finish_aggregate-other c j id (aggregate request) other ∙ known)
      ]

  -- A finalized session stays as it is, with its signature, whatever commitments and shares are
  -- submitted and aggregations are tried, for it or for other sessions, each call completed before the
  -- next.
  finalized_stays :
      (calls : List Call) (c : Coordinator) (id : String) (s : FrostSigningSession)
      → get_signing_session c id ≡ some s
      → s.finalized ≡ true
      → get_signing_session (after_calls c calls) id ≡ some s
  unfolding after_calls
  finalized_stays [] c id s known done = known
  finalized_stays (call ∷ rest) c id s known done =
      finalized_stays rest (after_call c call) id s (after_call-finalized c call id s known done)
        done
