-- ===== src/Market/Settlement/Repaid.antt =====
-- What a refund leaves behind when every call succeeds.
use nim_connect.Base.{
  ℕ, ◌<◌, ◌^◌, ◌==◌, ◌≡◌, refl, true, false, some, ◌∷◌, Text, text_eq, arith, ok, exists,
}
use nim_connect.Base.Int.{ℤ, ◌+ℤ◌, neg_int64, neg_int64_parts, +ℤ_parts, eq_of_parts, pos, total}
use nim_connect.Base.Counts.{find_holds}
use nim_connect.Market.State.{
  Trade, refund_pending, refunded, state_eq, can_transition_to, allowed_transitions,
}
use nim_connect.Address.{compact_address}
use nim_connect.Market.Tables.{find_trade, has_id}
use nim_connect.Market.Tables.Rows.{find_trade-write_trade}
use nim_connect.Market.Store.{resolve, transition, mark_refund_attempt, touched}
use nim_connect.Market.World.{
  World, Payment, pure, lift, ◌>>=◌, read_clock, transact, query, send_payment, head_reply,
}
use nim_connect.Market.Settlement.{
  ledger_sum, insert_entry, append, resolve_trade, move, refund_of, refund_marked, pay_back,
  refund_resolved, refund_trade,
}
use nim_connect.Market.Settlement.Success.{calm, compact-address_for_rpc}

add_back : (price : ℕ) (b : ℤ) → price < 2 ^ 63 → neg_int64 price +ℤ b +ℤ pos price ≡ b
add_back price b small =
    let x = neg_int64 price in
    eq_of_parts (x +ℤ b +ℤ pos price) b (
      omega
        (arith, small, neg_int64_parts price small, +ℤ_parts x b, +ℤ_parts (x +ℤ b) (pos price)))

module _ (escrow i hash : Text) (w : World) (t : Trade)
    (found : find_trade i w.tables.trades ≡ some t) (pending : t.state ≡ refund_pending)
    (unmarked : t.refund_attempted_at ≡ 0) (clock : 0 < w.clock)
    (reply : head_reply w.replies ≡ some hash) where
  row : text_eq t.id i ≡ true
  unfolding find_trade
  row = find_holds (has_id i) w.tables.trades found

  started : (w.clock == 0) ≡ false
  started = ground arith

  -- The row that two changes leave: the mark of the attempt, and the refund.
  refunded_row : Trade
  refunded_row =
      let marked_at = (read_clock w).1.clock in
      let refunded_at = (read_clock (read_clock w).1).1.clock in
      let marked = touched (record t { refund_attempted_at = w.clock }) refund_pending marked_at in
      touched (record marked { refund_tx_hash = hash }) refunded refunded_at

  refund_effect :
      ((refund_trade escrow i (calm w)).0 ≡ ok tt)
      × (find_trade i (refund_trade escrow i (calm w)).1.tables.trades ≡ some refunded_row)
      × (ledger_sum (refund_trade escrow i (calm w)).1.tables
          ≡ neg_int64 t.price_luna +ℤ ledger_sum w.tables)
      × ((refund_trade escrow i (calm w)).1.sent ≡ refund_of escrow t ∷ w.sent)
  unfolding refund_trade refund_resolved pay_back refund_marked resolve_trade append move
      insert_entry ◌>>=◌ pure lift read_clock transact query send_payment resolve transition
      mark_refund_attempt can_transition_to allowed_transitions exists state_eq ledger_sum total
      refunded_row
  refund_effect =
      rw
        (
          found,
          pending,
          unmarked,
          found,
          pending,
          unmarked,
          started,
          reply,
          find_trade-write_trade i,
          row,
          found,
          find_trade-write_trade i,
          row,
          find_trade-write_trade i,
          row,
          found,
        )
        (refl, refl, refl, refl)

  -- For a trade that is pending for its refund, with no attempt marked, a price that fits an int64
  -- and a clock after 0: when every call of the database succeeds and the signing node answers with
  -- a hash, `refund_trade` succeeds and asks for one payment, of the whole price, to the buyer; the
  -- trade is refunded with that hash; and the amounts of the
  -- ledger sum up to the price less than before.
  pub refund_succeeds :
      t.price_luna < 2 ^ 63
      → ((refund_trade escrow i (calm w)).0 ≡ ok tt)
        × ((p : Payment) × ((refund_trade escrow i (calm w)).1.sent ≡ p ∷ w.sent)
            × (compact_address p.sender ≡ compact_address escrow)
            × (compact_address p.recipient ≡ compact_address t.buyer)
            × (p.value_luna ≡ t.price_luna))
        × ((u : Trade) × (find_trade i (refund_trade escrow i (calm w)).1.tables.trades ≡ some u)
            × (u.state ≡ refunded)
            × (u.refund_tx_hash ≡ hash))
        × (ledger_sum (refund_trade escrow i (calm w)).1.tables +ℤ pos t.price_luna
            ≡ ledger_sum w.tables)
  unfolding refunded_row
  refund_succeeds small =
      let (done, now, books, sent) = refund_effect in
      (
        done,
        (
          refund_of escrow t,
          sent,
          compact-address_for_rpc escrow,
          compact-address_for_rpc t.buyer,
          refl,
        ),
        (refunded_row, now, refl, refl),
        rw books (add_back t.price_luna (ledger_sum w.tables) small),
      )
