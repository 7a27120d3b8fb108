-- ===== src/Market/Settlement/Success.antt =====
-- What a payout leaves behind when every call succeeds.
use nim_connect.Base.{
  ℕ, ◌+◌, Bool-cases, inl, inr, ◌<◌, ◌≤◌, ◌^◌, ◌==◌, ◌≡◌, refl, true, false, some, [], ◌∷◌, Text,
  text_eq, arith, ok, leb, ◌-◌, exists,
}
use nim_connect.Base.Int.{ℤ, ◌+ℤ◌, neg_int64, neg_int64_parts, +ℤ_parts, eq_of_parts, pos, total}
use nim_connect.Base.Counts.{find_holds}
use nim_connect.Market.State.{
  Trade, settlement_pending, settled, state_eq, can_transition_to, allowed_transitions,
}
use nim_connect.Address.{compact_address}
use nim_connect.Address.Layout.{compact-normalize}
use nim_connect.Address.Iban.{is_valid_nimiq_address}
use nim_connect.Market.Tables.{find_trade, has_id}
use nim_connect.Market.Tables.Rows.{find_trade-write_trade}
use nim_connect.Market.Store.{resolve, transition, mark_payout_attempt, touched}
use nim_connect.Market.World.{
  World, Payment, pure, lift, ◌>>=◌, read_clock, transact, query, send_payment, head_reply,
}
use nim_connect.Market.Settlement.{
  address_for_rpc, ledger_sum, insert_entry, append, resolve_trade, move, payout_of, pay_marked,
  pay_out, settle_resolved, settle,
}

-- A world in which every call of the database passes.
abbrev pub calm : World → World
calm w = record w { outcomes = [] }

-- The spelling for the node is of the same address.
pub compact-address_for_rpc : (a : Text) → compact_address (address_for_rpc a) ≡ compact_address a
unfolding address_for_rpc
compact-address_for_rpc a = elim (Bool-cases (is_valid_nimiq_address a)) [
  | inl e ↦ rw e (compact-normalize a)
  | inr e ↦ rw e refl
]

-- The fee and the rest of the price are the price.
split_price :
    (price fee : ℕ) (b : ℤ)
    → fee ≤ price
    → price < 2 ^ 63
    → neg_int64 fee +ℤ (neg_int64 (price - fee) +ℤ b) +ℤ pos price ≡ b
split_price price fee b le small =
    let x = neg_int64 fee in
    let y = neg_int64 (price - fee) in
    eq_of_parts (x +ℤ (y +ℤ b) +ℤ pos price) b (
      omega (
        arith,
        le,
        small,
        neg_int64_parts fee (omega (arith, le, small)),
        neg_int64_parts (price - fee) (omega (arith, small)),
        +ℤ_parts y b,
        +ℤ_parts x (y +ℤ b),
        +ℤ_parts (x +ℤ (y +ℤ b)) (pos price),
      ))

module _ (escrow i hash : Text) (w : World) (t : Trade)
    (found : find_trade i w.tables.trades ≡ some t) (pending : t.state ≡ settlement_pending)
    (unmarked : t.payout_attempted_at ≡ 0) (covered : t.fee_luna ≤ t.price_luna)
    (clock : 0 < w.clock) (reply : head_reply w.replies ≡ some hash) where
  row : text_eq t.id i ≡ true
  unfolding find_trade
  row = find_holds (has_id i) w.tables.trades found

  covers : leb t.fee_luna t.price_luna ≡ true
  covers = ground arith

  started : (w.clock == 0) ≡ false
  started = ground arith

  -- The row that two changes leave: the mark of the attempt, and the settlement.
  settled_row : Trade
  settled_row =
      let marked_at = (read_clock w).1.clock in
      let settled_at = (read_clock (read_clock w).1).1.clock in
      let marked =
        touched (record t { payout_attempted_at = w.clock }) settlement_pending marked_at in
      touched (record marked { payout_tx_hash = hash }) settled settled_at

  settle_effect :
      ((settle escrow i (calm w)).0 ≡ ok tt)
      × (find_trade i (settle escrow i (calm w)).1.tables.trades ≡ some settled_row)
      × (ledger_sum (settle escrow i (calm w)).1.tables
          ≡ neg_int64 t.fee_luna +ℤ (neg_int64 (t.price_luna - t.fee_luna) +ℤ ledger_sum w.tables))
      × ((settle escrow i (calm w)).1.sent ≡ payout_of escrow t ∷ w.sent)
  unfolding settle settle_resolved pay_out pay_marked resolve_trade append move insert_entry ◌>>=◌
      pure lift read_clock transact query send_payment resolve transition mark_payout_attempt
      can_transition_to allowed_transitions exists state_eq ledger_sum total settled_row
  settle_effect =
      rw
        (
          found,
          pending,
          unmarked,
          covers,
          found,
          pending,
          unmarked,
          started,
          reply,
          find_trade-write_trade i,
          row,
          found,
          find_trade-write_trade i,
          row,
          find_trade-write_trade i,
          row,
          found,
        )
        (refl, refl, refl, refl)

  -- For a trade that is pending for its settlement, with no attempt marked and a fee of at most the
  -- price, a price that fits an int64 and a clock after 0: when every call of the database succeeds
  -- and the signing node answers with a hash, `settle` succeeds and asks for one payment, of the
  -- price less the fee, to the seller; the trade is settled with that hash; and the amounts
  -- of the ledger sum up to the price less than before.
  pub settle_succeeds :
      t.price_luna < 2 ^ 63
      → ((settle escrow i (calm w)).0 ≡ ok tt)
        × ((p : Payment) × ((settle escrow i (calm w)).1.sent ≡ p ∷ w.sent)
            × (compact_address p.sender ≡ compact_address escrow)
            × (compact_address p.recipient ≡ compact_address t.seller)
            × (p.value_luna + t.fee_luna ≡ t.price_luna))
        × ((u : Trade) × (find_trade i (settle escrow i (calm w)).1.tables.trades ≡ some u)
            × (u.state ≡ settled)
            × (u.payout_tx_hash ≡ hash))
        × (ledger_sum (settle escrow i (calm w)).1.tables +ℤ pos t.price_luna ≡ ledger_sum w.tables)
  unfolding settled_row
  settle_succeeds small =
      let (done, now, books, sent) = settle_effect in
      (
        done,
        (
          payout_of escrow t,
          sent,
          compact-address_for_rpc escrow,
          compact-address_for_rpc t.seller,
          omega (arith, covered),
        ),
        (settled_row, now, refl, refl),
        rw books (split_price t.price_luna t.fee_luna (ledger_sum w.tables) covered small),
      )
