-- ===== src/Market/State/Graph.antt =====
-- What the transition table says of the life of a trade.
use nim_connect.Base.{
  ℕ, ◌≤◌, ◌<◌, ◌≡◌, ◌≢◌, refl, Bool, true, false, arith, List, [], ◌∷◌, exists, length,
}
use nim_connect.Market.State.{
  TradeState, reserved, awaiting_deposit, deposit_finalizing, funded, awaiting_release,
  release_confirming, awaiting_claim, claim_confirming, settlement_pending, settled,
  failed_after_release, refund_pending, refunded, manual_review, expired, canceled, state_eq,
  state_eq_iff, can_transition_to, allowed_transitions, is_reservation,
}

pub can_transition_refl : (s : TradeState) → can_transition_to s s ≡ true
unfolding can_transition_to
can_transition_refl s = ground (arith, state_eq_iff s s)

-- A trade is a reservation only at its start: no other state leads back to one.
pub reservation_source :
    (s n : TradeState)
    → can_transition_to s n ≡ true
    → is_reservation n ≡ true
    → is_reservation s ≡ true
unfolding can_transition_to state_eq allowed_transitions exists
reservation_source reserved n h r = ground arith
reservation_source awaiting_deposit n h r = ground arith
reservation_source _ n h r = ground arith

-- How many changes of state may still lie ahead.
abbrev pub steps_left : TradeState → ℕ
steps_left reserved = 11
steps_left awaiting_deposit = 10
steps_left deposit_finalizing = 9
steps_left funded = 8
steps_left awaiting_release = 7
steps_left release_confirming = 6
steps_left awaiting_claim = 5
steps_left claim_confirming = 4
steps_left settlement_pending = 3
steps_left failed_after_release = 2
steps_left refund_pending = 1
steps_left _ = 0

pub transition_progress :
    (s n : TradeState) → can_transition_to s n ≡ true → s ≢ n → steps_left n < steps_left s
unfolding can_transition_to state_eq allowed_transitions exists
transition_progress reserved n h d = ground arith
transition_progress _ n h d = ground arith

-- A history of changes of state that starts at `s` and goes through the states of the list.
abbrev pub IsWalk : TradeState → List TradeState → Type 0
IsWalk s [] = Unit
IsWalk s (n ∷ ns) = (can_transition_to s n ≡ true) × (s ≢ n) × IsWalk n ns

abbrev pub Visits : TradeState → List TradeState → Type 0
Visits s ns = exists (λ n. state_eq n s) ns ≡ true

-- Each change uses one of the steps that are left.
walk-le-steps_left :
    (s : TradeState) (ns : List TradeState) → IsWalk s ns → length ns ≤ steps_left s
walk-le-steps_left s [] w = omega arith
walk-le-steps_left s (n ∷ ns) w =
    omega (arith, transition_progress s n w.0 w.1, walk-le-steps_left n ns w.2)

steps_left-le : (s : TradeState) → steps_left s ≤ 11
steps_left-le s = ground arith

-- From any state a trade that follows the table changes its state at most eleven times.
pub walk_bounded : (s : TradeState) (ns : List TradeState) → IsWalk s ns → length ns ≤ 11
walk_bounded s ns w = omega (arith, walk-le-steps_left s ns w, steps_left-le s)

-- The states that a trade can be in before its deposit is final.
is_unfunded : TradeState → Bool
is_unfunded reserved = true
is_unfunded awaiting_deposit = true
is_unfunded deposit_finalizing = true
is_unfunded refund_pending = true
is_unfunded refunded = true
is_unfunded manual_review = true
is_unfunded expired = true
is_unfunded canceled = true
is_unfunded _ = false

unfunded_step :
    (s n : TradeState)
    → can_transition_to s n ≡ true
    → is_unfunded s ≡ true
    → state_eq n funded ≡ false
    → (is_unfunded n ≡ true) × (state_eq n settled ≡ false)
unfolding can_transition_to state_eq allowed_transitions exists is_unfunded
unfunded_step reserved n h u f = ground arith
unfunded_step _ n h u f = ground arith

unfunded_walk :
    (s : TradeState) (ns : List TradeState)
    → is_unfunded s ≡ true
    → IsWalk s ns
    → Visits settled ns
    → Visits funded ns
unfolding exists
unfunded_walk s [] u w v = cc
unfunded_walk s (n ∷ ns) u w v = ground (arith, unfunded_step s n, unfunded_walk n ns)

-- A walk along the table from RESERVED that visits SETTLED visits FUNDED.
pub no_settlement_before_funding :
    (ns : List TradeState) → IsWalk reserved ns → Visits settled ns → Visits funded ns
unfolding is_unfunded
no_settlement_before_funding ns w v = unfunded_walk reserved ns refl w v
