-- ===== src/Customer/Cheapest.antt =====
-- The default selector picks a cheapest offer, and what is collected is affordable and signed.
use anchr.Prelude.{
  ℕ, ◌≤◌, String, true, ◌&&◌, List, [], ◌∷◌, Option, none, some, All, All-append, ltb, leb→le, ◌≡◌,
  refl, arith, ◌⊎◌, inl, inr, Bool-cases, Eq-string,
}
use anchr.Prelude.Json.{Numeral}
use anchr.Protocol.Nostr.{Tools, Event}
use anchr.Protocol.Events.Offer.{ParsedOfferFeedback, parse_offer_feedback_event}
use anchr.Customer.Offers.{
  Offer, Collected, LessThan, valid_offer_amount, cheapest_from, is_less, select_cheapest_offer,
  is_affordable, is_wanted, take_offer, collect_offers,
}

-- The offer is for a positive amount within the budget, and from the wanted provider where one is.
abbrev pub Affordable : ℕ → Option String → Offer → Type 0
Affordable budget wanted offer =
    ((n : ℕ) × (valid_offer_amount offer.amount_sats ≡ some n) × (n ≤ budget))
    × (is_wanted wanted offer.provider_pubkey ≡ true)

is_affordable-le :
    (budget : ℕ) (amount : Option ℕ)
    → is_affordable budget amount ≡ true
    → (n : ℕ) × (amount ≡ some n) × (n ≤ budget)
is_affordable-le budget none h = ground arith
is_affordable-le budget (some n) h = (n, refl, leb→le n budget h)

take_offer-Affordable :
    (budget : ℕ) (wanted : Option String) (now : ℕ) (event : Event)
    (parsed : Option ParsedOfferFeedback) (state : Collected)
    → All (Affordable budget wanted) state.offers
    → All (Affordable budget wanted) (take_offer budget wanted now event parsed state).offers
unfolding take_offer
take_offer-Affordable budget wanted now event none state h = h
take_offer-Affordable budget wanted now event (some p) state h =
    elim (Bool-cases (
      is_affordable budget (valid_offer_amount p.amount_sats)
      && is_wanted wanted p.provider_pubkey)) [
        | inr left_out ↦ rw left_out h
        | inl taken ↦ rw taken (
            All-append (Affordable budget wanted) state.offers _ h (
              (
                is_affordable-le budget (valid_offer_amount p.amount_sats) (ground arith),
                ground arith,
              ),
              tt,
            ))
      ]

-- Every offer that is collected is affordable.
pub collect_offers-Affordable :
    (tools : Tools) (budget : ℕ) (wanted : Option String) (events : List (ℕ × Event))
    (state : Collected)
    → All (Affordable budget wanted) state.offers
    → All (Affordable budget wanted) (collect_offers tools budget wanted events state).offers
unfolding collect_offers
collect_offers-Affordable tools budget wanted [] state h = h
collect_offers-Affordable tools budget wanted ((now, event) ∷ rest) state h =
    collect_offers-Affordable tools budget wanted rest _ (
      take_offer-Affordable budget wanted now event (parse_offer_feedback_event tools event) state
        h)

cheapest_from-All {ℓ} :
    (P : Offer → Type ℓ) (less : LessThan) (min : Offer) (rest : List Offer)
    → P min
    → All P rest
    → P (cheapest_from less min rest)
unfolding cheapest_from
cheapest_from-All P less min [] here all = here
cheapest_from-All P less min (q ∷ rest) here all =
    elim (Bool-cases (is_less less q.amount_sats min.amount_sats)) [
      | inl cheaper ↦ rw cheaper (cheapest_from-All P less q rest all.0 all.1)
      | inr dearer ↦ rw dearer (cheapest_from-All P less min rest here all.1)
    ]

-- What the default selector picks has every property that all offers have.
pub select_cheapest_offer-All {ℓ} :
    (P : Offer → Type ℓ) (less : LessThan) (offers : List Offer) (chosen : Offer)
    → select_cheapest_offer less offers ≡ some chosen
    → All P offers
    → P chosen
unfolding select_cheapest_offer
select_cheapest_offer-All P less [] chosen h all = ground arith
select_cheapest_offer-All P less (q ∷ rest) chosen h all =
    let picked : chosen ≡ cheapest_from less q rest = ground arith in
    rw picked (cheapest_from-All P less q rest all.0 all.1)

-- The natural number of an amount.
abbrev pub sats : Numeral → ℕ
sats (Numeral.natural n) = n
sats (Numeral.other s) = 0

-- An amount that compares as a natural number.
abbrev pub IsValid : Offer → Type 0
IsValid offer = (n : ℕ) × (valid_offer_amount offer.amount_sats ≡ some n)

is_less-sats :
    (less : LessThan) (a b : Numeral) (m n : ℕ)
    → valid_offer_amount a ≡ some m
    → valid_offer_amount b ≡ some n
    → is_less less a b ≡ ltb (sats a) (sats b)
unfolding is_less valid_offer_amount
is_less-sats less (Numeral.natural a) (Numeral.natural b) m n ha hb = refl
is_less-sats less (Numeral.natural a) (Numeral.other t) m n ha hb = ground arith
is_less-sats less (Numeral.other s) b m n ha hb = ground arith

-- The offer is no dearer than any of the list.
abbrev pub NoDearer : Offer → List Offer → Type 0
NoDearer offer offers = All (λ q. sats offer.amount_sats ≤ sats q.amount_sats) offers

cheapest_from-NoDearer :
    (less : LessThan) (min : Offer) (rest : List Offer) (chosen : Offer)
    → cheapest_from less min rest ≡ chosen
    → IsValid min
    → All IsValid rest
    → NoDearer chosen (min ∷ rest)
unfolding cheapest_from
cheapest_from-NoDearer less min [] chosen same here all = (ground arith, tt)
cheapest_from-NoDearer less min (q ∷ rest) chosen same here all =
    let compared = is_less-sats less q.amount_sats min.amount_sats _ _ all.0.1 here.1 in
    elim (Bool-cases (is_less less q.amount_sats min.amount_sats)) [
      | inl cheaper ↦
          let below =
            cheapest_from-NoDearer less q rest chosen (ground (arith, cheaper)) all.0 all.1 in
          (ground (arith, compared, cheaper, below.0), (below.0, below.1))
      | inr dearer ↦
          let below =
            cheapest_from-NoDearer less min rest chosen (ground (arith, dearer)) here all.1 in
          (below.0, (ground (arith, compared, dearer, below.0), below.1))
    ]

-- Among offers for valid amounts the default selector picks one that is no dearer than any other; it
-- picks none exactly if there is none.
pub select_cheapest_offer-NoDearer :
    (less : LessThan) (offers : List Offer)
    → All IsValid offers
    → ((offers ≡ []) × (select_cheapest_offer less offers ≡ none))
      ⊎ ((chosen : Offer) × (select_cheapest_offer less offers ≡ some chosen)
          × NoDearer chosen offers)
unfolding select_cheapest_offer
select_cheapest_offer-NoDearer less [] all = inl (refl, refl)
select_cheapest_offer-NoDearer less (q ∷ rest) all =
    inr (cheapest_from less q rest, refl, cheapest_from-NoDearer less q rest _ refl all.0 all.1)

Affordable-IsValid :
    (budget : ℕ) (wanted : Option String) (offers : List Offer)
    → All (Affordable budget wanted) offers
    → All IsValid offers
Affordable-IsValid budget wanted [] all = tt
Affordable-IsValid budget wanted (q ∷ rest) all =
    ((all.0.0.0, all.0.0.1), Affordable-IsValid budget wanted rest all.1)

-- What the default selector picks among affordable offers is no dearer than any of them.
pub picked-NoDearer :
    (budget : ℕ) (wanted : Option String) (less : LessThan) (offers : List Offer) (chosen : Offer)
    → select_cheapest_offer less offers ≡ some chosen
    → All (Affordable budget wanted) offers
    → NoDearer chosen offers
unfolding select_cheapest_offer
picked-NoDearer budget wanted less [] chosen h all = ground arith
picked-NoDearer budget wanted less (q ∷ rest) chosen h all =
    let valid = Affordable-IsValid budget wanted (q ∷ rest) all in
    cheapest_from-NoDearer less q rest chosen (ground arith) valid.0 valid.1
