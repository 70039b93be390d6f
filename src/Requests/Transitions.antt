-- ===== src/Requests/Transitions.antt =====
-- The transition tables, packages/sdk/src/requests/domain/query-transitions.ts.
use anchr.Prelude.{
  Bool, true, false, if◌then◌else◌, List, [], ◌∷◌, String, Eq, ◌≡◌, ◌↔◌, arith, includes,
}
use anchr.Requests.Types.{
  QueryStatus, pending, awaiting_offers, provider_selected, processing, verifying, approved,
  rejected, expired,
}

-- The text of a status, which the messages print.
abbrev pub status_text : QueryStatus → String
status_text pending = "pending"
status_text awaiting_offers = "awaiting_offers"
status_text provider_selected = "provider_selected"
status_text processing = "processing"
status_text verifying = "verifying"
status_text approved = "approved"
status_text rejected = "rejected"
status_text expired = "expired"

abbrev pub status_eq : QueryStatus → QueryStatus → Bool
status_eq pending pending = true
status_eq awaiting_offers awaiting_offers = true
status_eq provider_selected provider_selected = true
status_eq processing processing = true
status_eq verifying verifying = true
status_eq approved approved = true
status_eq rejected rejected = true
status_eq expired expired = true
status_eq _ _ = false

pub status_eq_iff : (s t : QueryStatus) → (status_eq s t ≡ true) ↔ (s ≡ t)
status_eq_iff s t = ground arith

instance abbrev pub Eq-status : Eq QueryStatus
Eq-status = record { beq = status_eq; beq_iff = status_eq_iff }

-- The rows of the table for queries without an escrow. A missing row is empty.
unfoldable pub simple_transitions : QueryStatus → List QueryStatus
simple_transitions pending = approved ∷ rejected ∷ expired ∷ []
simple_transitions _ = []

-- The rows of the table for queries with an escrow.
unfoldable pub escrow_transitions : QueryStatus → List QueryStatus
escrow_transitions awaiting_offers = provider_selected ∷ expired ∷ []
escrow_transitions provider_selected = processing ∷ expired ∷ []
escrow_transitions processing = verifying ∷ expired ∷ []
escrow_transitions verifying = approved ∷ rejected ∷ expired ∷ []
escrow_transitions _ = []

unfoldable pub terminal_statuses : List QueryStatus
terminal_statuses = approved ∷ rejected ∷ expired ∷ []

unfoldable pub open_statuses : List QueryStatus
open_statuses = pending ∷ awaiting_offers ∷ provider_selected ∷ processing ∷ []

unfoldable pub expirable_statuses : List QueryStatus
expirable_statuses = pending ∷ awaiting_offers ∷ provider_selected ∷ processing ∷ verifying ∷ []

unfoldable pub is_valid_transition : QueryStatus → QueryStatus → Bool → Bool
unfolding includes escrow_transitions simple_transitions
is_valid_transition from to is_htlc =
    includes (if is_htlc then escrow_transitions from else simple_transitions from) to

unfoldable pub is_expirable : QueryStatus → Bool
unfolding includes expirable_statuses
is_expirable status = includes expirable_statuses status

unfoldable pub is_terminal : QueryStatus → Bool
unfolding includes terminal_statuses
is_terminal status = includes terminal_statuses status

unfoldable pub is_open_status : QueryStatus → Bool
unfolding includes open_statuses
is_open_status status = includes open_statuses status
