-- ===== src/Market/Store.antt =====
-- backend/marketplace_store.go. A method that runs one transaction is a function of the tables: it
-- returns its result with the new tables, or an error, on which the transaction is rolled back.
-- `time.Now().Unix()` is the argument `now`.
pub mod Invariant
pub mod Updates
pub mod History
use nim_connect.Base.{
  ℕ, ◌+◌, ◌%◌, ◌^◌, Bool, true, false, not, ◌&&◌, ◌||◌, Option, none, some, List, [], ◌∷◌, Text,
  text_eq, Result, ok, err, ◌>>=◌, ◌>>◌, guard, or_fail, if◌then◌else◌, find, select, exists, ltb,
  leb, ◌==◌,
}
use nim_connect.Address.{compact_address}
use nim_connect.Market.State.{
  TradeState, ListingStatus, Listing, Trade, state_eq, can_transition_to, is_active,
  is_unpaid_reservation, deposit_deadline_duration, max_unpaid_reservations,
}
use nim_connect.Market.Tables.{
  Tables, find_trade, find_listing, has_id, has_reference, write_trade, write_listing, set_status,
  unpaid_reservation_count,
}

pub data MarketError : Type 0 where
  -- what the driver, the node and the signing node report
  db_error rpc_error signer_error : MarketError
  nonce_used no_trade no_listing no_active_listing active_listing_exists listing_reserved open_trade
        id_in_use reference_in_use too_many_unpaid not_unpaid not_allowed wrong_state
        already_attempted needs_reconciliation fee_larger_than_price cannot_reach :
      MarketError

abbrev pub Tx : Type 0 → Type 0
Tx A = Tables → Result MarketError (A × Tables)

abbrev pub u64 : ℕ → ℕ
u64 n = n % 2 ^ 64

unfoldable pub consume_nonce : Text → Tx (Unit {0})
consume_nonce nonce db = do
  guard (not (exists (text_eq nonce) db.nonces)) nonce_used
  ok (tt, record db { nonces = nonce ∷ db.nonces })

unfoldable pub listing_trade_blocks_relist : TradeState → Bool
listing_trade_blocks_relist TradeState.expired = false
listing_trade_blocks_relist TradeState.canceled = false
listing_trade_blocks_relist TradeState.settled = false
listing_trade_blocks_relist TradeState.refunded = false
listing_trade_blocks_relist _ = true

-- The rows that the query of `CreateListing` for an open trade returns: which of them comes first
-- does not matter, since each blocks the listing.
abbrev pub is_open_for : Text → Trade → Bool
is_open_for handle t = text_eq t.handle handle && listing_trade_blocks_relist t.state

-- The switch of `CreateListing` on the status of the listing's row.
unfoldable pub relistable : Option Listing → Result MarketError Bool
relistable none = ok false
relistable (some l) = elim l.status [
  | ListingStatus.active ↦ err active_listing_exists
  | ListingStatus.reserved ↦ err listing_reserved
  | _ ↦ ok true
]

-- The row that `CreateListing` writes.
abbrev pub new_listing : Text → Text → ℕ → ℕ → Text → ℕ → Listing
new_listing handle seller price_luna fee_luna epoch now = record {
  handle = handle;
  seller = compact_address seller;
  price_luna = price_luna;
  fee_luna = fee_luna;
  status = ListingStatus.active;
  ownership_epoch_tx_hash = epoch;
  created_at = now;
}

-- The columns of the price and the fee are BIGINT: the write of a larger number fails.
unfoldable pub create_listing : Text → Text → ℕ → ℕ → Text → ℕ → Tx Listing
create_listing handle seller price_luna fee_luna epoch now db = do
  row_exists ← relistable (find_listing handle db.listings)
  guard (not (exists (is_open_for handle) db.trades)) open_trade
  guard (ltb price_luna (2 ^ 63) && ltb fee_luna (2 ^ 63)) db_error
  let listing = new_listing handle seller price_luna fee_luna epoch now
  ok (
    listing,
    record db {
      listings = if row_exists then write_listing listing db.listings else listing ∷ db.listings;
    },
  )

-- The row that `ReserveListing` inserts for a listing of the handle.
abbrev pub new_trade : Text → Listing → Text → Text → Text → ℕ → Trade
new_trade handle listing trade_id reference buyer now = record {
  id = trade_id;
  reference = reference;
  handle = handle;
  buyer = compact_address buyer;
  seller = compact_address listing.seller;
  price_luna = listing.price_luna;
  fee_luna = listing.fee_luna;
  escrow_address = [];
  state = TradeState.reserved;
  version = 1;
  deposit_tx_hash = [];
  deposit_block_height = 0;
  release_tx_hash = [];
  claim_tx_hash = [];
  payout_attempted_at = 0;
  payout_tx_hash = [];
  refund_attempted_at = 0;
  refund_tx_hash = [];
  deposit_deadline = now + deposit_deadline_duration;
  created_at = now;
  updated_at = now;
}

-- The transaction locks the listing's row and no other: `counted` is the trades that its count of the
-- buyer's unpaid reservations reads, in which those of transactions at the same time may be missing.
-- The tests of the id and of the reference are those of the unique indexes.
unfoldable pub reserve_listing : Text → Text → Text → Text → ℕ → List Trade → Tx Trade
reserve_listing handle trade_id reference buyer now counted db = do
  listing ← or_fail (find_listing handle db.listings) no_active_listing
  guard (is_active listing.status) no_active_listing
  guard (not (exists (has_id trade_id) db.trades)) id_in_use
  guard (not (exists (has_reference reference) db.trades)) reference_in_use
  guard (ltb (unpaid_reservation_count buyer counted) max_unpaid_reservations) too_many_unpaid
  let trade = new_trade handle listing trade_id reference buyer now
  ok (
    trade,
    record db {
      listings = set_status handle ListingStatus.reserved db.listings;
      trades = trade ∷ db.trades;
    },
  )

-- What every update of a trade does to its row.
abbrev pub touched : Trade → TradeState → ℕ → Trade
touched trade to now = record trade {
  state = to;
  version = u64 (trade.version + 1);
  updated_at = now;
}

unfoldable pub release_unpaid_reservation : Text → TradeState → ℕ → Tx (Unit {0})
release_unpaid_reservation trade_id to now db = do
  trade ← or_fail (find_trade trade_id db.trades) no_trade
  guard (is_unpaid_reservation trade) not_unpaid
  guard (can_transition_to trade.state to) not_allowed
  _ ← or_fail (find_listing trade.handle db.listings) no_listing
  ok (
    tt,
    record db {
      listings = set_status trade.handle ListingStatus.active db.listings;
      trades = write_trade (touched trade to now) db.trades;
    },
  )

unfoldable pub cancel_unpaid_reservation : Text → ℕ → Tx (Unit {0})
cancel_unpaid_reservation trade_id now = release_unpaid_reservation trade_id TradeState.canceled now

-- `if mutate != nil { mutate(&trade) }`
abbrev pub mutated : Option (Trade → Trade) → Trade → Trade
mutated none t = t
mutated (some mutate) t = mutate t

unfoldable pub transition :
    Text → TradeState → TradeState → Option (Trade → Trade) → ℕ → Tx (Unit {0})
transition trade_id from to mutate now db = do
  trade ← or_fail (find_trade trade_id db.trades) no_trade
  guard (state_eq trade.state from) wrong_state
  guard (can_transition_to from to) not_allowed
  ok (tt, record db { trades = write_trade (touched (mutated mutate trade) to now) db.trades })

unfoldable pub mark_payout_attempt : Text → ℕ → ℕ → Tx Trade
mark_payout_attempt trade_id attempted_at now db = do
  trade ← or_fail (find_trade trade_id db.trades) no_trade
  guard (state_eq trade.state TradeState.settlement_pending) wrong_state
  guard (trade.payout_attempted_at == 0) already_attempted
  let marked = touched (record trade { payout_attempted_at = attempted_at }) trade.state now
  ok (marked, record db { trades = write_trade marked db.trades })

unfoldable pub mark_refund_attempt : Text → ℕ → ℕ → Tx Trade
mark_refund_attempt trade_id attempted_at now db = do
  trade ← or_fail (find_trade trade_id db.trades) no_trade
  guard (state_eq trade.state TradeState.refund_pending) wrong_state
  guard (trade.refund_attempted_at == 0) already_attempted
  let marked = touched (record trade { refund_attempted_at = attempted_at }) trade.state now
  ok (marked, record db { trades = write_trade marked db.trades })

-- The queries that change nothing.
unfoldable pub resolve : Text → Tables → Option Trade
resolve trade_id db = find_trade trade_id db.trades

unfoldable pub find_trade_by_reference : Text → Tables → Option Trade
find_trade_by_reference reference db = find (has_reference reference) db.trades

unfoldable pub active_listings : Tables → List Listing
active_listings db = select (λ l. is_active l.status) db.listings

unfoldable pub trades_in_state : TradeState → Tables → List Trade
trades_in_state state db = select (λ t. state_eq t.state state) db.trades

unfoldable pub trades_for_wallet : Text → Tables → List Trade
trades_for_wallet address db =
    select
      (λ t.
        text_eq (compact_address t.buyer) (compact_address address)
        || text_eq (compact_address t.seller) (compact_address address))
      db.trades

-- The query of `ExpireStaleReservations`.
unfoldable pub stale_reservations : ℕ → Tables → List Trade
stale_reservations now db =
    select (λ t. is_unpaid_reservation t && ltb 0 t.deposit_deadline && leb t.deposit_deadline now)
      db.trades
