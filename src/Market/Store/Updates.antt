-- ===== src/Market/Store/Updates.antt =====
-- The transactions that update a trade keep the tables consistent.
use nim_connect.Base.{
  ℕ, ◌≤◌, ◌≡◌, refl, true, false, Option, some, [], Text, text_eq, List, arith, count, exists, ok,
}
use nim_connect.Base.Counts.{find_holds}
use nim_connect.Market.State.{
  TradeState, Trade, ListingStatus, state_eq, state_eq_iff, allowed_transitions,
  is_unpaid_reservation, can_transition_to,
}
use nim_connect.Market.Tables.{Tables, find_trade, find_listing, write_trade, set_status, has_id}
use nim_connect.Market.Tables.Rows.{find_listing-set_status, find_trade-write_trade}
use nim_connect.Market.Store.{
  listing_trade_blocks_relist, is_open_for, mutated, touched, release_unpaid_reservation,
  cancel_unpaid_reservation, transition, mark_payout_attempt, mark_refund_attempt,
}
use nim_connect.Market.Store.Invariant.{IsConsistent, IsUpdate, holds, update-IsConsistent, part}

-- A trade is not reopened by a transition that the table allows.
pub open_source :
    (s n : TradeState)
    → can_transition_to s n ≡ true
    → listing_trade_blocks_relist n ≡ true
    → listing_trade_blocks_relist s ≡ true
unfolding can_transition_to state_eq allowed_transitions exists listing_trade_blocks_relist
open_source TradeState.reserved n h o = ground arith
open_source _ n h o = ground arith

-- What the closures given to `Transition` leave alone: the keys of the row, the terms of the trade
-- and the markers of an attempt. A deposit that is recorded stays recorded.
pub record IsGentle (mutate : Trade → Trade) : Type 0 where
  pub same_id : (t : Trade) → (mutate t).id ≡ t.id
  pub same_reference : (t : Trade) → (mutate t).reference ≡ t.reference
  pub same_handle : (t : Trade) → (mutate t).handle ≡ t.handle
  pub same_buyer : (t : Trade) → (mutate t).buyer ≡ t.buyer
  pub same_seller : (t : Trade) → (mutate t).seller ≡ t.seller
  pub same_price : (t : Trade) → (mutate t).price_luna ≡ t.price_luna
  pub same_fee : (t : Trade) → (mutate t).fee_luna ≡ t.fee_luna
  pub same_payout_mark : (t : Trade) → (mutate t).payout_attempted_at ≡ t.payout_attempted_at
  pub same_refund_mark : (t : Trade) → (mutate t).refund_attempted_at ≡ t.refund_attempted_at
  pub deposit_before : (t : Trade) → (mutate t).deposit_tx_hash ≡ [] → t.deposit_tx_hash ≡ []

transition-IsUpdate :
    (from to : TradeState) (mutate : Trade → Trade) (now : ℕ) (t : Trade)
    → IsGentle mutate
    → state_eq t.state from ≡ true
    → can_transition_to from to ≡ true
    → IsUpdate t (touched (mutate t) to now)
unfolding is_unpaid_reservation
transition-IsUpdate from to mutate now t k s c = record {
  same_id = k.same_id t;
  same_reference = k.same_reference t;
  same_handle = k.same_handle t;
  same_buyer = k.same_buyer t;
  open_before = λ o. ground (arith, open_source from to, state_eq_iff t.state from);
}

-- A transition that succeeds found the trade in the state `from`, and wrote its row.
pub transition_ok :
    (i : Text) (from to : TradeState) (mutate : Option (Trade → Trade)) (now : ℕ) (db db' : Tables)
    → transition i from to mutate now db ≡ ok (tt, db')
    → (t : Trade) × (find_trade i db.trades ≡ some t)
      × (state_eq t.state from ≡ true)
      × (can_transition_to from to ≡ true)
      × (db' ≡ record db { trades = write_trade (touched (mutated mutate t) to now) db.trades })
unfolding transition
transition_ok i from to mutate now db db' done = ground arith

pub transition-IsConsistent :
    (i : Text) (from to : TradeState) (mutate : Option (Trade → Trade)) (now : ℕ) (db db' : Tables)
    → IsGentle (mutated mutate)
    → IsConsistent db
    → transition i from to mutate now db ≡ ok (tt, db')
    → IsConsistent db'
transition-IsConsistent i from to mutate now db db' k v done =
    let (t, found, at, allowed, wrote) = transition_ok i from to mutate now db db' done in
    rw wrote (
      update-IsConsistent i t (touched (mutated mutate t) to now) db v found
        (transition-IsUpdate from to (mutated mutate) now t k at allowed))

pub mark_payout_ok :
    (i : Text) (at now : ℕ) (db db' : Tables) (marked : Trade)
    → mark_payout_attempt i at now db ≡ ok (marked, db')
    → (t : Trade) × (find_trade i db.trades ≡ some t)
      × (state_eq t.state TradeState.settlement_pending ≡ true)
      × (t.payout_attempted_at ≡ 0)
      × (marked ≡ touched (record t { payout_attempted_at = at }) t.state now)
      × (db' ≡ record db { trades = write_trade marked db.trades })
unfolding mark_payout_attempt
mark_payout_ok i at now db db' marked done = ground arith

pub mark_refund_ok :
    (i : Text) (at now : ℕ) (db db' : Tables) (marked : Trade)
    → mark_refund_attempt i at now db ≡ ok (marked, db')
    → (t : Trade) × (find_trade i db.trades ≡ some t)
      × (state_eq t.state TradeState.refund_pending ≡ true)
      × (t.refund_attempted_at ≡ 0)
      × (marked ≡ touched (record t { refund_attempted_at = at }) t.state now)
      × (db' ≡ record db { trades = write_trade marked db.trades })
unfolding mark_refund_attempt
mark_refund_ok i at now db db' marked done = ground arith

-- A marker changes neither the keys of a trade nor its state.
marked-IsUpdate :
    (t : Trade) (payout refund now : ℕ)
    → IsUpdate t (
        touched
          (record t { payout_attempted_at = payout; refund_attempted_at = refund })
          t.state
          now)
unfolding is_unpaid_reservation
marked-IsUpdate t payout refund now = record {
  same_id = refl;
  same_reference = refl;
  same_handle = refl;
  same_buyer = refl;
  open_before = λ o. o;
}

pub mark_payout_attempt-IsConsistent :
    (i : Text) (at now : ℕ) (db db' : Tables) (marked : Trade)
    → IsConsistent db
    → mark_payout_attempt i at now db ≡ ok (marked, db')
    → IsConsistent db'
mark_payout_attempt-IsConsistent i at now db db' marked v done =
    let (t, found, pending, first, is, wrote) = mark_payout_ok i at now db db' marked done in
    rw (wrote, is)
      (update-IsConsistent i t _ db v found (marked-IsUpdate t at t.refund_attempted_at now))

pub mark_refund_attempt-IsConsistent :
    (i : Text) (at now : ℕ) (db db' : Tables) (marked : Trade)
    → IsConsistent db
    → mark_refund_attempt i at now db ≡ ok (marked, db')
    → IsConsistent db'
mark_refund_attempt-IsConsistent i at now db db' marked v done =
    let (t, found, pending, first, is, wrote) = mark_refund_ok i at now db db' marked done in
    rw (wrote, is)
      (update-IsConsistent i t _ db v found (marked-IsUpdate t t.payout_attempted_at at now))

pub release_ok :
    (i : Text) (to : TradeState) (now : ℕ) (db db' : Tables)
    → release_unpaid_reservation i to now db ≡ ok (tt, db')
    → (t : Trade) × (find_trade i db.trades ≡ some t)
      × (is_unpaid_reservation t ≡ true)
      × (can_transition_to t.state to ≡ true)
      × (db' ≡ record db {
        listings = set_status t.handle ListingStatus.active db.listings;
        trades = write_trade (touched t to now) db.trades;
      })
unfolding release_unpaid_reservation
release_ok i to now db db' done = ground arith

released-IsUpdate :
    (t : Trade) (to : TradeState) (now : ℕ)
    → is_unpaid_reservation t ≡ true
    → can_transition_to t.state to ≡ true
    → IsUpdate t (touched t to now)
unfolding is_unpaid_reservation
released-IsUpdate t to now u c = record {
  same_id = refl;
  same_reference = refl;
  same_handle = refl;
  same_buyer = refl;
  open_before = open_source t.state to c;
}

-- After a release the handle has no open trade left.
release_open :
    (i : Text) (t : Trade) (to : TradeState) (now : ℕ) (db : Tables)
    → IsConsistent db
    → find_trade i db.trades ≡ some t
    → is_unpaid_reservation t ≡ true
    → can_transition_to t.state to ≡ true
    → listing_trade_blocks_relist to ≡ false
    → (h : Text)
    → count (is_open_for h) (write_trade (touched t to now) db.trades)
      ≤ holds (find_listing h (set_status t.handle ListingStatus.active db.listings))
unfolding is_unpaid_reservation listing_trade_blocks_relist
release_open i t to now db v found u c closed h = ground (
  arith,
  v.open_held h,
  part i t (touched t to now) db v found (released-IsUpdate t to now u c) (is_open_for h)
      (λ t c. refl),
  find_listing-set_status t.handle h ListingStatus.active db.listings,
)

pub release-IsConsistent :
    (i : Text) (to : TradeState) (now : ℕ) (db db' : Tables)
    → listing_trade_blocks_relist to ≡ false
    → IsConsistent db
    → release_unpaid_reservation i to now db ≡ ok (tt, db')
    → IsConsistent db'
release-IsConsistent i to now db db' closed v done =
    let (t, found, unpaid, allowed, wrote) = release_ok i to now db db' done in
    let w =
      update-IsConsistent i t (touched t to now) db v found
        (released-IsUpdate t to now unpaid allowed) in
    rw wrote (record {
      ids_unique = w.ids_unique;
      references_unique = w.references_unique;
      open_held = release_open i t to now db v found unpaid allowed closed;
    })

pub cancel-IsConsistent :
    (i : Text) (now : ℕ) (db db' : Tables)
    → IsConsistent db
    → cancel_unpaid_reservation i now db ≡ ok (tt, db')
    → IsConsistent db'
unfolding cancel_unpaid_reservation listing_trade_blocks_relist
cancel-IsConsistent i now db db' v done =
    release-IsConsistent i TradeState.canceled now db db' refl v done

found_row :
    (i : Text) (ts : List Trade) {t : Trade} → find_trade i ts ≡ some t → text_eq t.id i ≡ true
unfolding find_trade
found_row i ts found = find_holds (has_id i) ts found

-- The row that a marker leaves behind.
pub payout_marked :
    (i : Text) (at now : ℕ) (db db' : Tables) (marked : Trade)
    → mark_payout_attempt i at now db ≡ ok (marked, db')
    → (t : Trade) × (find_trade i db'.trades ≡ some t)
      × (t.payout_attempted_at ≡ at)
      × (state_eq t.state TradeState.settlement_pending ≡ true)
payout_marked i at now db db' marked done =
    let (t, found, pending, first, is, wrote) = mark_payout_ok i at now db db' marked done in
    (
      record marked { created_at = t.created_at },
      rw (wrote, is, find_trade-write_trade i, found_row i db.trades found, found) refl,
      rw is,
      rw is pending,
    )

pub refund_marked :
    (i : Text) (at now : ℕ) (db db' : Tables) (marked : Trade)
    → mark_refund_attempt i at now db ≡ ok (marked, db')
    → (t : Trade) × (find_trade i db'.trades ≡ some t)
      × (t.refund_attempted_at ≡ at)
      × (state_eq t.state TradeState.refund_pending ≡ true)
refund_marked i at now db db' marked done =
    let (t, found, pending, first, is, wrote) = mark_refund_ok i at now db db' marked done in
    (
      record marked { created_at = t.created_at },
      rw (wrote, is, find_trade-write_trade i, found_row i db.trades found, found) refl,
      rw is,
      rw is pending,
    )
