-- ===== src/Customer/Paid.antt =====
-- What a request pays for, and what it gives back.
use anchr.Prelude.{
  ℕ, ◌≤◌, Bool, true, false, List, [], Option, none, some, ◌≡◌, refl, arith, includes, Eq-string,
  leb, leb→le, ◌⊎◌, inl, inr, All,
}
use anchr.Protocol.Events.Response.{QueryResponsePayload, parse_query_response_event}
use anchr.Protocol.Nostr.{Event}
use anchr.Customer.Offers.{
  Offer, collect_offers, valid_offer_amount, LessThan, select_cheapest_offer,
}
use anchr.Customer.Cheapest.{
  Affordable, collect_offers-Affordable, select_cheapest_offer-All, picked-NoDearer, NoDearer,
}
use anchr.Customer.Request.{
  Checked, Chosen, check_request, choose, deliver_request, recovery_of, request, accepted_by,
  after_bind, bind_and_deliver, attach,
}
use anchr.Customer.Types.{
  RequestError, Flow, RequestSpec, RequestOptions, CashuToken, Recovery, RequestResult, Customer,
  Run, ◌>>=◌, demand, present, Verifier, schema_verification_error, rejected, stops, goes,
  fails_with, resolves,
}

accepts :
    (answer : Option Bool)
    → (present answer (rejected "verify") >>= λ ok. demand ok schema_verification_error) ≡ goes tt
    → answer ≡ some true
accepts none h = ground arith
accepts (some true) h = refl
accepts (some false) h = ground arith

attach-cases :
    (recovery : Recovery) (flow : Flow RequestResult)
    → ((r : RequestResult) → flow ≡ goes r → r.recovery ≡ recovery)
    → ((e : RequestError) × (attach recovery flow ≡ fails_with e recovery))
      ⊎ ((r : RequestResult) × (attach recovery flow ≡ resolves r) × (r.recovery ≡ recovery))
attach-cases recovery (stops e) keeps = inl (e, refl)
attach-cases recovery (goes r) keeps = inr (r, refl, keeps r refl)

attach-resolves :
    (recovery : Recovery) (flow : Flow RequestResult) (r : RequestResult)
    → attach recovery flow ≡ resolves r
    → flow ≡ goes r
attach-resolves recovery (stops e) r h = ground arith
attach-resolves recovery (goes result) r h = ground arith

deliver-recovery :
    (customer : Customer) (run : Run) (req : RequestOptions) (chosen : Chosen) (bound : CashuToken)
    (r : RequestResult)
    → deliver_request customer run req chosen bound ≡ goes r
    → r.recovery ≡ recovery_of bound run.identity.secret_key
unfolding deliver_request
deliver-recovery customer run req chosen bound r h = ground arith

-- Once the payment is locked, a request either fails with the recovery material of that lock, or
-- resolves with a result that carries it: it never fails without it.
pub request-recovery :
    (customer : Customer) (run : Run) (req : RequestOptions) (chosen : Chosen) (bound : CashuToken)
    → choose customer run req ≡ goes chosen
    → customer.bind_provider chosen.params ≡ some bound
    → ((e : RequestError) × (request customer run req
          ≡ fails_with e (recovery_of bound run.identity.secret_key)))
      ⊎ ((r : RequestResult) × (request customer run req ≡ resolves r)
          × (r.recovery ≡ recovery_of bound run.identity.secret_key))
unfolding request
request-recovery customer run req chosen bound picked locked = rw picked (
    rw locked (
      attach-cases _ (deliver_request customer run req chosen bound)
        (deliver-recovery customer run req chosen bound)))

check_request-Fair :
    (customer : Customer) (req : RequestOptions) (checked : Checked)
    → check_request customer req ≡ goes checked
    → (valid_offer_amount req.payment.max_amount ≡ some checked.budget)
      × (includes customer.oracles checked.oracle ≡ true)
unfolding check_request
check_request-Fair customer req checked h = (ground arith, ground arith)

-- The offers a request has collected when its window closes.
abbrev pub collected_offers : Customer → Run → RequestOptions → ℕ → List Offer
collected_offers customer run req budget =
    (collect_offers customer.tools budget req.provider run.window
      (record { offers = []; total_received = 0 })).offers

-- The lock is for an amount within the budget, which the selector picked among the collected offers,
-- and over the hash that an oracle of the whitelist gave for the query.
abbrev pub Fair : Customer → Run → RequestOptions → Chosen → Type 0
Fair customer run req chosen =
    (valid_offer_amount req.payment.max_amount ≡ some chosen.checked.budget)
    × (includes customer.oracles chosen.checked.oracle ≡ true)
    × (chosen.params.amount_sats ≤ chosen.checked.budget)
    × (customer.request_hash chosen.checked.oracle run.query_id ≡ some chosen.params.hash_hex)
    × (valid_offer_amount chosen.offer.amount_sats ≡ some chosen.params.amount_sats)
    × (customer.selector (collected_offers customer run req chosen.checked.budget)
        ≡ some chosen.offer)
    × (chosen.params.provider_pubkey ≡ chosen.offer.provider_pubkey)

choose-checked :
    (customer : Customer) (run : Run) (req : RequestOptions) (chosen : Chosen)
    → choose customer run req ≡ goes chosen
    → (check_request customer req ≡ goes chosen.checked)
      × (leb chosen.params.amount_sats chosen.checked.budget ≡ true)
      × (customer.request_hash chosen.checked.oracle run.query_id ≡ some chosen.params.hash_hex)
unfolding choose
choose-checked customer run req chosen h = (ground arith, ground arith, ground arith)

choose-offer :
    (customer : Customer) (run : Run) (req : RequestOptions) (chosen : Chosen)
    → choose customer run req ≡ goes chosen
    → (valid_offer_amount chosen.offer.amount_sats ≡ some chosen.params.amount_sats)
      × (customer.selector (collected_offers customer run req chosen.checked.budget)
          ≡ some chosen.offer)
      × (chosen.params.provider_pubkey ≡ chosen.offer.provider_pubkey)
unfolding choose
choose-offer customer run req chosen h = (ground arith, ground arith, ground arith)

choose-Fair :
    (customer : Customer) (run : Run) (req : RequestOptions) (chosen : Chosen)
    → choose customer run req ≡ goes chosen
    → Fair customer run req chosen
choose-Fair customer run req chosen h =
    let checks = choose-checked customer run req chosen h in
    let offer = choose-offer customer run req chosen h in
    let whole = check_request-Fair customer req chosen.checked checks.0 in
    (whole.0, whole.1, leb→le _ _ checks.1, checks.2, offer.0, offer.1, offer.2)

-- With the default selector, what a request locks the payment for is a cheapest of the offers collected
-- in its window, from the provider it was addressed to where there is one, and within its budget; the
-- lock is for the amount and the provider of that offer, over the hash that an oracle of the whitelist
-- gave for the query.
pub choose-Cheapest :
    (less : LessThan) (customer : Customer) (run : Run) (req : RequestOptions) (chosen : Chosen)
    → customer.selector ≡ select_cheapest_offer less
    → choose customer run req ≡ goes chosen
    → Fair customer run req chosen
      × Affordable chosen.checked.budget req.provider chosen.offer
      × NoDearer chosen.offer (collected_offers customer run req chosen.checked.budget)
choose-Cheapest less customer run req chosen default h =
    let fair = choose-Fair customer run req chosen h in
    let offers = collected_offers customer run req chosen.checked.budget in
    let all : All (Affordable chosen.checked.budget req.provider) offers =
      collect_offers-Affordable customer.tools chosen.checked.budget req.provider run.window _ tt in
    let picked : select_cheapest_offer less offers ≡ some chosen.offer =
      ground (arith, fair, default) in
    (
      fair,
      select_cheapest_offer-All (Affordable chosen.checked.budget req.provider) less offers
          chosen.offer picked all,
      picked-NoDearer _ _ less offers chosen.offer picked all,
    )

deliver-Answer :
    (customer : Customer) (run : Run) (req : RequestOptions) (chosen : Chosen) (bound : CashuToken)
    (r : RequestResult)
    → deliver_request customer run req chosen bound ≡ goes r
    → (answer : Event) × (response : QueryResponsePayload) × (customer.wait_for_result chosen.notice
          chosen.params.provider_pubkey
        ≡ some answer)
      × (parse_query_response_event customer.tools answer run.identity.secret_key
            chosen.params.provider_pubkey
          ≡ some response)
      × (accepted_by (customer.verifier req.spec.schema) req.spec response ≡ goes tt)
      × (r.proof ≡ response.proof)
      × (r.data_value ≡ response.data_value)
unfolding deliver_request
deliver-Answer customer run req chosen bound r h = ground arith

-- There is no verifier, or it has accepted the proof and the data.
abbrev pub Verified : RequestSpec → Option Verifier → QueryResponsePayload → Type 0
Verified spec verifier response =
    (verifier ≡ none)
    ⊎ ((verify : Verifier) × (verifier ≡ some verify)
        × (verify response.proof spec.predicate response.data_value ≡ some true))

accepted_by-Verified :
    (verifier : Option Verifier) (spec : RequestSpec) (response : QueryResponsePayload)
    → accepted_by verifier spec response ≡ goes tt
    → Verified spec verifier response
accepted_by-Verified none spec response h = inl refl
accepted_by-Verified (some verify) spec response h =
    inr (verify, refl, accepts (verify response.proof spec.predicate response.data_value) h)

-- What a resolved request rests on: its choice, the lock, the answer, and what was read from it.
abbrev pub Delivered : Customer → Run → RequestOptions → RequestResult → Type 0
Delivered customer run req r =
    (chosen : Chosen) × (bound : CashuToken) × (answer : Event) × (response : QueryResponsePayload)
    × (choose customer run req ≡ goes chosen)
    × (customer.bind_provider chosen.params ≡ some bound)
    × (customer.wait_for_result chosen.notice chosen.params.provider_pubkey ≡ some answer)
    × (parse_query_response_event customer.tools answer run.identity.secret_key
          chosen.params.provider_pubkey
        ≡ some response)
    × (Verified req.spec (customer.verifier req.spec.schema) response)
    × (r.proof ≡ response.proof)
    × (r.data_value ≡ response.data_value)

after_bind-Delivered :
    (customer : Customer) (run : Run) (req : RequestOptions) (chosen : Chosen)
    (locked : Option CashuToken) (r : RequestResult)
    → choose customer run req ≡ goes chosen
    → customer.bind_provider chosen.params ≡ locked
    → after_bind customer run req chosen locked ≡ resolves r
    → Delivered customer run req r
after_bind-Delivered customer run req chosen none r picked eq h = ground arith
after_bind-Delivered customer run req chosen (some bound) r picked eq h =
    let a =
      deliver-Answer customer run req chosen bound r
        (attach-resolves _ (deliver_request customer run req chosen bound) r h) in
    (chosen, bound, a.0, a.1, picked, eq, a.2, a.3, accepted_by-Verified _ _ _ a.4, a.5, a.6)

bind-Delivered :
    (customer : Customer) (run : Run) (req : RequestOptions) (flow : Flow Chosen)
    (r : RequestResult)
    → choose customer run req ≡ flow
    → bind_and_deliver customer run req flow ≡ resolves r
    → Delivered customer run req r
bind-Delivered customer run req (stops e) r eq h = ground arith
bind-Delivered customer run req (goes chosen) r eq h =
    after_bind-Delivered customer run req chosen _ r eq refl h

-- A request that resolves has locked its payment for what it chose, and returns the proof and the data
-- of the answer that it waited for from the provider it chose, parsed as that provider's, which the
-- verifier of the schema, where there is one, has accepted.
pub request-Delivered :
    (customer : Customer) (run : Run) (req : RequestOptions) (r : RequestResult)
    → request customer run req ≡ resolves r
    → Delivered customer run req r
unfolding request
request-Delivered customer run req r h = bind-Delivered customer run req _ r refl h
