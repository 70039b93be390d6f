-- ===== src/Payments/Coordinator/Evict.antt =====
-- Which signing sessions a coordinator keeps: packages/sdk/src/payments/frost/frost-coordinator.ts.
use anchr.Prelude.{
  ℕ, String, false, ◌&&◌, [], ◌∷◌, Option, none, some, if◌then◌else◌, Eq-string, ◌==◌, ◌≡◌, refl,
  ap, ◌∙◌, arith, Distinct, includes,
}
use anchr.Prelude.Dict.{Dict, lookup, delete, keys, lookup-insert, lookup-delete}
use anchr.Payments.Coordinator.{
  Coordinator, FrostSigningSession, ThresholdOracleConfig, get_signing_session, evict_signing,
  evict_stale_sessions, is_stale, start_signing, points_to,
}

missing_key :
    (j : String) (m : Dict String FrostSigningSession)
    → includes (keys m) j ≡ false
    → lookup j m ≡ none
unfolding includes lookup
missing_key j [] h = refl
missing_key j ((k, s) ∷ rest) h = ground (arith, missing_key j rest)

-- What the loop leaves under an id: the entry with that id decides.
abbrev swept :
    ℕ → Option FrostSigningSession → Option FrostSigningSession → Option FrostSigningSession
swept now none old = old
swept now (some s) old = if is_stale now s then none else old

lookup-evict_signing :
    (now : ℕ) (entries sessions : Dict String FrostSigningSession) (queries : Dict String String)
    (j : String)
    → Distinct (keys entries)
    → lookup j (evict_signing now entries sessions queries).0
      ≡ swept now (lookup j entries) (lookup j sessions)
unfolding evict_signing lookup
lookup-evict_signing now [] sessions queries j h = refl
lookup-evict_signing now ((id, s) ∷ rest) sessions queries j h =
    let gone = is_stale now s in
    let sessions' = if gone then delete id sessions else sessions in
    let queries' =
      if gone && points_to queries s.query_id id then delete s.query_id queries else queries in
    ground (
      arith,
      lookup-evict_signing now rest sessions' queries' j h.1,
      lookup-delete id j sessions,
      missing_key id rest h.0,
      (Eq-string.beq_iff id j).0,
    )

-- A session that is stale counts as none.
abbrev pub unless_stale : ℕ → Option FrostSigningSession → Option FrostSigningSession
unless_stale now none = none
unless_stale now (some s) = if is_stale now s then none else some s

get-evict_stale_sessions :
    (now : ℕ) (c : Coordinator) (j : String)
    → Distinct (keys c.signing_sessions)
    → get_signing_session (evict_stale_sessions now c) j
      ≡ unless_stale now (get_signing_session c j)
unfolding get_signing_session evict_stale_sessions
get-evict_stale_sessions now c j h =
    lookup-evict_signing now c.signing_sessions c.signing_sessions c.query_sessions j h
    ∙ settle (lookup j c.signing_sessions)
  where
    settle : (o : Option FrostSigningSession) → swept now o o ≡ unless_stale now o
    settle none = refl
    settle (some s) = ground arith

-- Starting a session removes exactly the stale ones (older than the time to live, or finalized and
-- older than the retention), and adds the new one, which is open, without commitments and shares.
start_signing-get :
    (now : ℕ) (id query_id message : String) (config : ThresholdOracleConfig) (c : Coordinator)
    (j : String)
    → Distinct (keys c.signing_sessions)
    → let (c', session) = start_signing now id query_id message config c in
      (get_signing_session c' j
        ≡ (if id == j then some session else unless_stale now (get_signing_session c j)))
      × (session.finalized ≡ false)
      × (session.signature_shares ≡ [])
      × (is_stale now session ≡ false)
unfolding start_signing is_stale get_signing_session
start_signing-get now id query_id message config c j h =
    let new = (start_signing now id query_id message config c).1 in
    (
      lookup-insert id j new (evict_stale_sessions now c).signing_sessions
          ∙ ap (λ o. if id == j then some new else o) (get-evict_stale_sessions now c j h),
      refl,
      refl,
      ground arith,
    )
