-- ===== src/Customer/Offers.antt =====
-- The offers that a request collects: the handler of the subscription and the default selector, of
-- packages/sdk/src/customer.ts.
use anchr.Prelude.{
  ℕ, zero, suc, String, Bool, true, false, ◌&&◌, List, [], ◌∷◌, ◌++◌, Option, none, some, ltb, leb,
  if◌then◌else◌, ◌==◌, Eq-string,
}
use anchr.Prelude.Json.{Numeral}
use anchr.Protocol.Nostr.{Tools, Event}
use anchr.Protocol.Events.Offer.{ParsedOfferFeedback, parse_offer_feedback_event}

pub record Offer : Type 0 where
  pub provider_pubkey : String
  pub amount_sats : Numeral
  pub offer_event_id : String
  pub received_at : ℕ

-- A positive integer, or nothing.
unfoldable pub valid_offer_amount : Numeral → Option ℕ
valid_offer_amount (Numeral.natural zero) = none
valid_offer_amount (Numeral.natural (suc n)) = some (suc n)
valid_offer_amount (Numeral.other s) = none

-- `<` on numbers of which one is no natural number.
abbrev pub LessThan : Type 0
LessThan = Numeral → Numeral → Bool

-- `a < b`.
unfoldable pub is_less : LessThan → Numeral → Numeral → Bool
is_less less (Numeral.natural a) (Numeral.natural b) = ltb a b
is_less less a b = less a b

-- The reduction of `selectCheapestOffer`, from the left.
unfoldable pub cheapest_from : LessThan → Offer → List Offer → Offer
unfolding is_less
cheapest_from less min [] = min
cheapest_from less min (q ∷ rest) =
    cheapest_from less (if is_less less q.amount_sats min.amount_sats then q else min) rest

unfoldable pub select_cheapest_offer : LessThan → List Offer → Option Offer
unfolding cheapest_from
select_cheapest_offer less [] = none
select_cheapest_offer less (q ∷ rest) = some (cheapest_from less q rest)

pub record Collected : Type 0 where
  pub offers : List Offer
  pub total_received : ℕ

-- The amount is a positive integer within the budget.
abbrev pub is_affordable : ℕ → Option ℕ → Bool
is_affordable budget none = false
is_affordable budget (some n) = leb n budget

abbrev pub is_wanted : Option String → String → Bool
is_wanted none provider = true
is_wanted (some wanted) provider = provider == wanted

unfoldable pub take_offer :
    ℕ → Option String → ℕ → Event → Option ParsedOfferFeedback → Collected → Collected
take_offer budget wanted now event none state = state
take_offer budget wanted now event (some parsed) state = record {
  offers =
      if is_affordable budget (valid_offer_amount parsed.amount_sats)
        && is_wanted wanted parsed.provider_pubkey
      then state.offers
        ++ record {
          provider_pubkey = parsed.provider_pubkey;
          amount_sats = parsed.amount_sats;
          offer_event_id = event.id;
          received_at = now;
        }
          ∷ []
      else state.offers;
  total_received = suc state.total_received;
}

-- The events that arrive until the window closes, each with its time.
unfoldable pub collect_offers : Tools → ℕ → Option String → List (ℕ × Event) → Collected → Collected
collect_offers tools budget wanted [] state = state
collect_offers tools budget wanted ((now, event) ∷ rest) state =
    collect_offers tools budget wanted rest
      (take_offer budget wanted now event (parse_offer_feedback_event tools event) state)
