-- ===== src/Market/State.antt =====
-- backend/marketplace.go: the lifecycle of a trade, and the rows of the two tables. An amount is a
-- uint64, kept as a number; a time is in Unix seconds, and is not before 1970.
pub mod Graph
use nim_connect.Base.{
  ℕ, ◌*◌, ◌≡◌, ◌↔◌, Bool, true, false, ◌&&◌, ◌||◌, List, [], ◌∷◌, Text, text_eq, exists, arith,
}

pub data TradeState : Type 0 where
  reserved awaiting_deposit deposit_finalizing funded awaiting_release release_confirming
        awaiting_claim claim_confirming settlement_pending settled failed_after_release
        refund_pending refunded manual_review expired canceled :
      TradeState

TradeState-discrete : Discrete TradeState
TradeState-discrete = hlevel

-- Go's `==` on states.
unfoldable pub state_eq : TradeState → TradeState → Bool
unfolding TradeState-discrete
state_eq s t = elim (TradeState-discrete s t) [ yes _ ↦ true | no _ ↦ false ]

pub state_eq_iff : (s t : TradeState) → (state_eq s t ≡ true) ↔ (s ≡ t)
unfolding state_eq
state_eq_iff s t = ground arith

-- Seconds.
abbrev pub deposit_deadline_duration : ℕ
deposit_deadline_duration = 30 * 60

abbrev pub max_unpaid_reservations : ℕ
max_unpaid_reservations = 3

-- A state that the map does not hold has no way on.
unfoldable pub allowed_transitions : TradeState → List TradeState
allowed_transitions reserved =
    awaiting_deposit ∷ refund_pending ∷ manual_review ∷ expired ∷ canceled ∷ []
allowed_transitions awaiting_deposit =
    deposit_finalizing ∷ refund_pending ∷ manual_review ∷ expired ∷ canceled ∷ []
allowed_transitions deposit_finalizing = funded ∷ manual_review ∷ []
allowed_transitions funded = awaiting_release ∷ refund_pending ∷ manual_review ∷ []
allowed_transitions awaiting_release = release_confirming ∷ refund_pending ∷ manual_review ∷ []
allowed_transitions release_confirming = awaiting_claim ∷ failed_after_release ∷ manual_review ∷ []
allowed_transitions awaiting_claim = claim_confirming ∷ failed_after_release ∷ manual_review ∷ []
allowed_transitions claim_confirming =
    settlement_pending ∷ failed_after_release ∷ manual_review ∷ []
allowed_transitions settlement_pending = settled ∷ manual_review ∷ []
allowed_transitions failed_after_release = refund_pending ∷ manual_review ∷ []
allowed_transitions refund_pending = refunded ∷ manual_review ∷ []
allowed_transitions _ = []

unfoldable pub can_transition_to : TradeState → TradeState → Bool
unfolding state_eq allowed_transitions exists
can_transition_to s next =
    state_eq s next || exists (λ allowed. state_eq allowed next) (allowed_transitions s)

pub data ListingStatus : Type 0 where
  active reserved sold canceled : ListingStatus

abbrev pub is_active : ListingStatus → Bool
is_active ListingStatus.active = true
is_active _ = false

pub record Listing : Type 0 where
  pub handle : Text
  pub seller : Text
  pub price_luna : ℕ
  pub fee_luna : ℕ
  pub status : ListingStatus
  pub ownership_epoch_tx_hash : Text
  pub created_at : ℕ

pub record Trade : Type 0 where
  pub id : Text
  pub reference : Text
  pub handle : Text
  pub buyer : Text
  pub seller : Text
  pub price_luna : ℕ
  pub fee_luna : ℕ
  pub escrow_address : Text
  pub state : TradeState
  pub version : ℕ
  pub deposit_tx_hash : Text
  pub deposit_block_height : ℕ
  pub release_tx_hash : Text
  pub claim_tx_hash : Text
  pub payout_attempted_at : ℕ
  pub payout_tx_hash : Text
  pub refund_attempted_at : ℕ
  pub refund_tx_hash : Text
  pub deposit_deadline : ℕ
  pub created_at : ℕ
  pub updated_at : ℕ

-- `t.State == StateReserved || t.State == StateAwaitingDeposit`
abbrev pub is_reservation : TradeState → Bool
is_reservation reserved = true
is_reservation awaiting_deposit = true
is_reservation _ = false

unfoldable pub is_unpaid_reservation : Trade → Bool
unfolding text_eq
is_unpaid_reservation t = is_reservation t.state && text_eq t.deposit_tx_hash []
