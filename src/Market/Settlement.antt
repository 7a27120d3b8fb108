-- ===== src/Market/Settlement.antt =====
-- backend/marketplace_settlement.go and backend/marketplace_ledger.go.
pub mod Silent
pub mod Payout
pub mod Refund
pub mod Once
pub mod Success
pub mod Repaid
use nim_connect.Base.{
  ℕ, suc, ◌-◌, ◌^◌, ltb, Bool, not, ◌&&◌, Option, none, some, List, [], ◌∷◌, map, Text, text_eq, ok,
  guard, or_fail, if◌then◌else◌, leb, ◌==◌,
}
use nim_connect.Base.Int.{ℤ, pos, negsuc, neg_int64, total}
use nim_connect.Address.{normalize_address}
use nim_connect.Address.Iban.{is_valid_nimiq_address}
use nim_connect.Market.State.{TradeState, Trade, state_eq}
use nim_connect.Market.Tables.{Tables, LedgerEntry, LedgerEntryType, payout, refund, fee}
use nim_connect.Market.Store.{
  no_trade, wrong_state, needs_reconciliation, fee_larger_than_price, Tx, resolve, transition,
  mark_payout_attempt, mark_refund_attempt,
}
use nim_connect.Market.World.{
  M, Payment, pure, lift, ◌>>=◌, ◌>>◌, read_clock, transact, query, send_payment,
}

unfoldable pub address_for_rpc : Text → Text
address_for_rpc addr = if is_valid_nimiq_address addr then normalize_address addr else addr

next_sequence : List LedgerEntry → ℕ
next_sequence [] = 1
next_sequence (e ∷ es) = suc e.sequence

-- The INSERT of `Append`.
unfoldable pub insert_entry : LedgerEntry → Tx LedgerEntry
unfolding next_sequence
insert_entry entry db =
    let stored = record entry { sequence = next_sequence db.ledger } in
    ok (stored, record db { ledger = stored ∷ db.ledger })

-- `Append`; the caller gives no sequence.
unfoldable pub append : Text → LedgerEntryType → ℤ → Text → ℕ → M LedgerEntry
append trade_id type amount tx_hash timestamp = do
  at ← if timestamp == 0 then read_clock else pure timestamp
  transact (
      insert_entry (record {
        sequence = 0;
        trade_id = trade_id;
        type = type;
        amount_luna = amount;
        tx_hash = tx_hash;
        timestamp = at;
      }))

-- The query's COALESCE(SUM(amount_luna), 0), which is no int64 but a numeric.
unfoldable pub ledger_sum : Tables → ℤ
unfolding total
ledger_sum db = total (map (λ (e : LedgerEntry). e.amount_luna) db.ledger)

abbrev pub fits_int64 : ℤ → Bool
fits_int64 (pos n) = ltb n (2 ^ 63)
fits_int64 (negsuc n) = ltb n (2 ^ 63)

-- Scan refuses a sum that is no int64, its error is dropped, and the answer is 0.
unfoldable pub balance : Tables → ℤ
balance db = if fits_int64 (ledger_sum db) then ledger_sum db else pos 0

-- `Resolve` says that there is no trade when the query fails.
unfoldable pub resolve_trade : Text → M Trade
resolve_trade trade_id = do found ← query (resolve trade_id) none; lift (or_fail found no_trade)

-- `Transition`, which reads the clock for `updated_at`.
unfoldable pub move : Text → TradeState → TradeState → Option (Trade → Trade) → M (Unit {0})
move trade_id from to mutate = do
  now ← read_clock
  transact (transition trade_id from to mutate now)

abbrev pub is_attempted : ℕ → Text → Bool
is_attempted attempted_at hash = not (attempted_at == 0) && text_eq hash []

-- What a payout asks the signing node for.
abbrev pub payout_of : Text → Trade → Payment
payout_of escrow_address trade = record {
  sender = address_for_rpc escrow_address;
  recipient = address_for_rpc trade.seller;
  value_luna = trade.price_luna - trade.fee_luna;
}

-- The rest of `Settle` once the attempt is marked.
unfoldable pub pay_marked : Text → Text → ℕ → Trade → M (Unit {0})
pay_marked escrow_address trade_id now trade = do
  tx_hash ← send_payment (payout_of escrow_address trade)
  append trade_id payout (neg_int64 (trade.price_luna - trade.fee_luna)) tx_hash now
  append trade_id fee (neg_int64 trade.fee_luna) [] now
  move trade_id TradeState.settlement_pending TradeState.settled
      (some (λ t. record t { payout_tx_hash = tx_hash }))

-- The rest of `Settle` after its guards.
unfoldable pub pay_out : Text → Text → M (Unit {0})
pay_out escrow_address trade_id = do
  now ← read_clock
  updated ← read_clock
  trade ← transact (mark_payout_attempt trade_id now updated)
  pay_marked escrow_address trade_id now trade

-- The guards of `Settle` on the trade that it resolved.
unfoldable pub settle_resolved : Text → Text → Trade → M (Unit {0})
settle_resolved escrow_address trade_id trade =
    if state_eq trade.state TradeState.settled then pure tt else do
      lift (guard (state_eq trade.state TradeState.settlement_pending) wrong_state)
      lift (
          guard (not (is_attempted trade.payout_attempted_at trade.payout_tx_hash))
            needs_reconciliation)
      lift (guard (leb trade.fee_luna trade.price_luna) fee_larger_than_price)
      pay_out escrow_address trade_id

unfoldable pub settle : Text → Text → M (Unit {0})
settle escrow_address trade_id = do
  trade ← resolve_trade trade_id
  settle_resolved escrow_address trade_id trade

abbrev pub refund_of : Text → Trade → Payment
refund_of escrow_address trade = record {
  sender = address_for_rpc escrow_address;
  recipient = address_for_rpc trade.buyer;
  value_luna = trade.price_luna;
}

-- The rest of `Refund` once the attempt is marked.
unfoldable pub refund_marked : Text → Text → ℕ → Trade → M (Unit {0})
refund_marked escrow_address trade_id now trade = do
  tx_hash ← send_payment (refund_of escrow_address trade)
  append trade_id refund (neg_int64 trade.price_luna) tx_hash now
  move trade_id TradeState.refund_pending TradeState.refunded
      (some (λ t. record t { refund_tx_hash = tx_hash }))

-- The rest of `Refund` after its guards.
unfoldable pub pay_back : Text → Text → M (Unit {0})
pay_back escrow_address trade_id = do
  now ← read_clock
  updated ← read_clock
  trade ← transact (mark_refund_attempt trade_id now updated)
  refund_marked escrow_address trade_id now trade

-- The guards of `Refund` on the trade that it resolved.
unfoldable pub refund_resolved : Text → Text → Trade → M (Unit {0})
refund_resolved escrow_address trade_id trade =
    if state_eq trade.state TradeState.refunded then pure tt else do
      lift (guard (state_eq trade.state TradeState.refund_pending) wrong_state)
      lift (
          guard (not (is_attempted trade.refund_attempted_at trade.refund_tx_hash))
            needs_reconciliation)
      pay_back escrow_address trade_id

unfoldable pub refund_trade : Text → Text → M (Unit {0})
refund_trade escrow_address trade_id = do
  trade ← resolve_trade trade_id
  refund_resolved escrow_address trade_id trade
