-- ===== src/Requests/EscrowFlow/Settlement.antt =====
-- What a settled escrow query delivers, and what a selection has checked:
-- packages/sdk/src/requests/application/escrow-flow-methods.ts and verification-orchestration.ts.
use anchr.Prelude.{
  or_else, ℕ, String, true, Option, none, some, if◌then◌else◌, is_some, truthy, Eq-string, ◌==◌,
  ◌≡◌, refl, inl, inr, arith, ◌≢◌, Option-cases,
}
use anchr.Requests.Types.{
  Query, QueryResult, EscrowInfo, BlossomKeyMap, provider_selected, awaiting_offers, escrow_swapped,
}
use anchr.Requests.Transitions.{is_valid_transition}
use anchr.Requests.Aggregate.{ok, select_provider, updated_escrow}
use anchr.Requests.Finalize.{ServiceDeps, EscrowProvider, AmountCheck, Finalized}
use anchr.Payments.Preimage.{PreimageStore, get_preimage, remove}
use anchr.Payments.Preimage.Laws.{get_preimage-remove}
use anchr.Requests.EscrowFlow.{
  commits, payment_hash, expected_sats, escrow_reference, amount_check, lock_check,
  selection_updates, decide_selection, unverifiable,
}
use anchr.Requests.EscrowFlow.Submit.{EscrowSubmitOutcome, deliver}

-- What the outcome of a settled query may carry.
pub record Delivery (query : Query) (final : Finalized) (outcome : EscrowSubmitOutcome)
    : Type 0 where
  pub succeeds : outcome.ok ≡ final.passed
  pub preimage_earned :
      is_some outcome.preimage ≡ true
      → (final.passed ≡ true) × (is_some (payment_hash query) ≡ true)
  pub signature_earned :
      is_some outcome.frost_signature ≡ true
      → (final.passed ≡ true) × (payment_hash query ≡ none) × (is_some query.escrow ≡ true)

-- An escrow submission succeeds exactly when the verification passed. It delivers a preimage only on
-- a passing HTLC query and a group signature only on a passing FROST query, so never both.
deliver-Delivery :
    (deps : ServiceDeps) (preimages : Option PreimageStore) (query verifying : Query)
    (normalized : QueryResult) (final : Finalized) (keys : Option BlossomKeyMap)
    → Delivery query final (deliver deps preimages query verifying normalized final keys).1
unfolding deliver
deliver-Delivery deps preimages query verifying normalized final keys = ground arith

-- A delivered preimage was stored under the query's hash. It is gone from the store afterwards, and
-- every other one is still there.
pub deliver_once :
    (deps : ServiceDeps) (entries : PreimageStore) (query verifying : Query)
    (normalized : QueryResult) (final : Finalized) (keys : Option BlossomKeyMap) (p hash : String)
    → (deliver deps (some entries) query verifying normalized final keys).1.preimage ≡ some p
    → payment_hash query ≡ some hash
    → (entries' : PreimageStore) × ((deliver deps
          (some entries)
          query
          verifying
          normalized
          final
          keys).0
        ≡ some entries')
      × (get_preimage entries hash ≡ some p)
      × ((j : String)
          → get_preimage entries' j ≡ (if hash == j then none else get_preimage entries j))
unfolding deliver
deliver_once deps entries query verifying normalized final keys p hash e h =
    (remove entries hash, ground arith, ground arith, get_preimage-remove entries hash)

-- What a committed selection has checked, with `ref` the reference of the escrow token.
pub record Checked (deps : ServiceDeps) (query : Query) (provider ref : String) : Type 0 where
  pub amount :
      (sats : ℕ)
      → expected_sats query ≡ some sats
      → sats ≢ 0
      → (port : EscrowProvider) × (deps.escrow_provider ≡ some port)
        × ((port.verify ref sats).valid ≡ true)
  pub lock :
      (hash : String)
      → payment_hash query ≡ some hash
      → truthy hash ≡ true
      → (port : EscrowProvider) × (deps.escrow_provider ≡ some port)
        × ((port.verify_lock ref hash provider).ok ≡ true)

selection_reference-Checked :
    (deps : ServiceDeps) (query : Query) (provider ref : String) (token : Option String)
    (q' : Query)
    → decide_selection deps query provider token ≡ commits q'
    → escrow_reference query token ≡ some ref
    → truthy ref ≡ true
    → Checked deps query provider ref
unfolding decide_selection amount_check lock_check
selection_reference-Checked deps query provider ref token q' e r t =
    elim (Option-cases (deps.escrow_provider)) [
      | inl missing ↦ record {
        amount = λ sats s nonzero. absurd (ground arith);
        lock = λ hash h nonempty. absurd (ground arith);
      }
      | inr (port, wired) ↦ record {
        amount = λ sats s nonzero. (port, wired, ground arith);
        lock = λ hash h nonempty. (port, wired, ground arith);
      }
    ]

pub decide_selection-selects :
    (deps : ServiceDeps) (query : Query) (provider : String) (token : Option String) (q' : Query)
    → decide_selection deps query provider token ≡ commits q'
    → select_provider query provider (
        selection_updates token
          (amount_check deps.escrow_provider (escrow_reference query token) (expected_sats query)))
      ≡ ok q'
unfolding decide_selection
decide_selection-selects deps query provider token q' h = ground arith

select_provider-binds :
    (query : Query) (provider : String) (token : Option String) (amount : Option AmountCheck)
    (q' : Query)
    → select_provider query provider (selection_updates token amount) ≡ ok q'
    → (query.status ≡ awaiting_offers)
      × (q'.status ≡ provider_selected)
      × ((e : EscrowInfo) × (q'.escrow ≡ some e) × (e.provider_pubkey ≡ some provider))
unfolding select_provider is_valid_transition
select_provider-binds query provider token amount q' h = elim (Option-cases (query.escrow)) [
  | inl free ↦ absurd (ground arith)
  | inr (e, has) ↦ (
    ground arith,
    ground arith,
    (updated_escrow e provider (selection_updates token amount), ground arith, refl),
  )
]

-- The escrow of a committed selection: bound to the provider, with the token passed where there is one.
abbrev pub Binds : Query → String → Option String → Query → Type 0
Binds query provider token q' =
    (old : EscrowInfo) × (new : EscrowInfo) × (query.escrow ≡ some old)
    × (q'.escrow ≡ some new)
    × (new.provider_pubkey ≡ some provider)
    × (new.escrow_token ≡ or_else token old.escrow_token)

token-updated_escrow :
    (e : EscrowInfo) (provider : String) (token : Option String) (amount : Option AmountCheck)
    → (updated_escrow e provider (selection_updates token amount)).escrow_token
      ≡ or_else token e.escrow_token
unfolding updated_escrow
token-updated_escrow e provider none amount = refl
token-updated_escrow e provider (some t) amount = refl

pub select_provider-Binds :
    (query : Query) (provider : String) (token : Option String) (amount : Option AmountCheck)
    (q' : Query)
    → select_provider query provider (selection_updates token amount) ≡ ok q'
    → Binds query provider token q'
unfolding select_provider
select_provider-Binds query provider token amount q' h = elim (Option-cases (query.escrow)) [
  | inl free ↦ absurd (ground arith)
  | inr (e, has) ↦ (
    e,
    updated_escrow e provider (selection_updates token amount),
    has,
    ground arith,
    refl,
    token-updated_escrow e provider token amount,
  )
]

-- The escrow provider is asked about one reference: the query's stored one, else its stored token, else
-- the token that is passed. If that reference is not empty, a selection is committed only if the
-- escrow provider confirmed for it the amount of the payment lock (unless it is zero or absent) and, for
-- an HTLC escrow with a non-empty hash, the lock to that hash and to the selected provider. The
-- committed escrow is bound to that provider and holds the token passed, where there is one, whether or
-- not the reference was that token.
pub decide_selection-Checked :
    (deps : ServiceDeps) (query : Query) (provider ref : String) (token : Option String)
    (q' : Query)
    → decide_selection deps query provider token ≡ commits q'
    → escrow_reference query token ≡ some ref
    → truthy ref ≡ true
    → Checked deps query provider ref × Binds query provider token q'
decide_selection-Checked deps query provider ref token q' e r t = (
  selection_reference-Checked deps query provider ref token q' e r t,
  select_provider-Binds query provider token _ q'
      (decide_selection-selects deps query provider token q' e),
)

-- A query with a stored escrow reference takes any token: if a selection is committed with some token,
-- it is committed with every other one too, which the escrow holds afterwards.
pub unchecked_token_committed :
    (deps : ServiceDeps) (query : Query) (provider ref : String) (escrow : EscrowInfo)
    (token : Option String) (q' : Query) (other : String)
    → query.escrow ≡ some escrow
    → escrow.escrow_ref ≡ some ref
    → decide_selection deps query provider token ≡ commits q'
    → (q'' : Query) × (decide_selection deps query provider (some other) ≡ commits q'')
      × Binds query provider (some other) q''
unfolding decide_selection unverifiable escrow_reference select_provider
unchecked_token_committed deps query provider ref escrow token q' other has stored h =
    let amount = amount_check deps.escrow_provider (some ref) (expected_sats query) in
    (
      record query {
        status = provider_selected;
        escrow = some (updated_escrow escrow provider (selection_updates (some other) amount));
        payment_status = if truthy other then escrow_swapped else query.payment_status;
      },
      ground arith,
      (escrow, _, has, refl, refl, token-updated_escrow escrow provider (some other) amount),
    )

-- A committed selection was made on a query that awaited offers, and binds its escrow to the provider.
pub decide_selection_binds :
    (deps : ServiceDeps) (query : Query) (provider : String) (token : Option String) (q' : Query)
    → decide_selection deps query provider token ≡ commits q'
    → (query.status ≡ awaiting_offers)
      × (q'.status ≡ provider_selected)
      × ((e : EscrowInfo) × (q'.escrow ≡ some e) × (e.provider_pubkey ≡ some provider))
decide_selection_binds deps query provider token q' h =
    select_provider-binds query provider token
      (amount_check deps.escrow_provider (escrow_reference query token) (expected_sats query)) q'
      (decide_selection-selects deps query provider token q' h)
