-- ===== src/Market/Examples.antt =====
-- The marketplace on concrete tables.
use nim_connect.Base.{
  Text, ◌+◌, ◌≤◌, ◌≡◌, ◌≢◌, refl, some, List, [], ◌∷◌, codes, arith, ok, err, ◌⊎◌, length, exists,
  find, count, text_eq,
}
use nim_connect.Base.Int.{◌+ℤ◌, pos}
use nim_connect.Address.{compact_address}
use nim_connect.Market.State.{
  is_unpaid_reservation, TradeState, Trade, Listing, ListingStatus, reserved, awaiting_deposit,
  deposit_finalizing, funded, awaiting_release, release_confirming, awaiting_claim,
  claim_confirming, settlement_pending, settled, refund_pending, refunded, state_eq,
  can_transition_to, allowed_transitions,
}
use nim_connect.Market.State.Graph.{IsWalk, Visits, walk_bounded, no_settlement_before_funding}
use nim_connect.Market.Tables.{
  find_listing, set_status, is_unpaid_of, Tables, find_trade, unpaid_reservation_count,
}
use nim_connect.Market.Store.{MarketError, reserve_listing}
use nim_connect.Market.Store.Invariant.{IsConsistent}
use nim_connect.Market.Store.History.{IsLater}
use nim_connect.Market.World.{World, Payment, transact}
use nim_connect.Market.Settlement.{settle, refund_trade, ledger_sum}
use nim_connect.Market.Settlement.Success.{calm, settle_succeeds}
use nim_connect.Market.Settlement.Repaid.{refund_succeeds}
use nim_connect.Market.Settlement.Once.{settled_once, refunded_once}
use nim_connect.Market.Runs.{start, reserves, settles}
use nim_connect.Market.Runs.Laws.{Run-IsConsistent, Run-IsLater}
use nim_connect.Market.Kept.Workers.{claim_hash-IsGentle}
use nim_connect.Market.Walk.{walk_chain_to, arrived}
use nim_connect.Market.Walk.Ends.{walk_ends}
use nim_connect.Market.Watchers.{walk_rounds}

abbrev trade_in : TradeState → Trade
trade_in s = record {
  id = codes "t1";
  reference = codes "r1";
  handle = codes "alice";
  buyer = codes "BUYER";
  seller = codes "SELLER";
  price_luna = 1000;
  fee_luna = 50;
  escrow_address = codes "ESCROW";
  state = s;
  version = 7;
  deposit_tx_hash = codes "d1";
  deposit_block_height = 12;
  release_tx_hash = [];
  claim_tx_hash = [];
  payout_attempted_at = 0;
  payout_tx_hash = [];
  refund_attempted_at = 0;
  refund_tx_hash = [];
  deposit_deadline = 900;
  created_at = 100;
  updated_at = 100;
}

abbrev listing : Listing
listing = record {
  handle = codes "alice";
  seller = codes "SELLER";
  price_luna = 1000;
  fee_luna = 50;
  status = ListingStatus.active;
  ownership_epoch_tx_hash = codes "e1";
  created_at = 90;
}

abbrev tables : List Listing → List Trade → Tables
tables ls ts = record { listings = ls; trades = ts; nonces = []; ledger = [] }

-- Every call passes, and the signing node answers with one hash.
abbrev world : Tables → World
world db = record {
  tables = db;
  outcomes = [];
  clock = 200;
  delays = [];
  replies = some (codes "h1") ∷ [];
  sent = [];
}

abbrev pending : World
pending = world (tables [] (trade_in settlement_pending ∷ []))

abbrev unwinding : World
unwinding = world (tables [] (trade_in refund_pending ∷ []))

found_pending : find_trade (codes "t1") pending.tables.trades ≡ some (trade_in settlement_pending)
unfolding find_trade find text_eq
found_pending = refl

found_unwinding : find_trade (codes "t1") unwinding.tables.trades ≡ some (trade_in refund_pending)
unfolding find_trade find text_eq
found_unwinding = refl

settle_succeeds_example :
    ((settle (codes "ESCROW") (codes "t1") (calm pending)).0 ≡ ok tt)
    × ((p : Payment) × ((settle (codes "ESCROW") (codes "t1") (calm pending)).1.sent ≡ p ∷ [])
        × (compact_address p.sender ≡ compact_address (codes "ESCROW"))
        × (compact_address p.recipient ≡ compact_address (trade_in settlement_pending).seller)
        × (p.value_luna + 50 ≡ 1000))
    × ((u : Trade) × (find_trade
            (codes "t1")
            (settle (codes "ESCROW") (codes "t1") (calm pending)).1.tables.trades
          ≡ some u)
        × (u.state ≡ settled)
        × (u.payout_tx_hash ≡ codes "h1"))
    × (ledger_sum (settle (codes "ESCROW") (codes "t1") (calm pending)).1.tables +ℤ pos 1000
        ≡ ledger_sum pending.tables)
settle_succeeds_example =
    settle_succeeds (codes "ESCROW") (codes "t1") (codes "h1") pending (trade_in settlement_pending)
      found_pending refl refl (omega arith) (omega arith) refl (omega arith)

refund_succeeds_example :
    ((refund_trade (codes "ESCROW") (codes "t1") (calm unwinding)).0 ≡ ok tt)
    × ((p : Payment) × ((refund_trade (codes "ESCROW") (codes "t1") (calm unwinding)).1.sent
          ≡ p ∷ [])
        × (compact_address p.sender ≡ compact_address (codes "ESCROW"))
        × (compact_address p.recipient ≡ compact_address (trade_in refund_pending).buyer)
        × (p.value_luna ≡ 1000))
    × ((u : Trade) × (find_trade
            (codes "t1")
            (refund_trade (codes "ESCROW") (codes "t1") (calm unwinding)).1.tables.trades
          ≡ some u)
        × (u.state ≡ refunded)
        × (u.refund_tx_hash ≡ codes "h1"))
    × (ledger_sum (refund_trade (codes "ESCROW") (codes "t1") (calm unwinding)).1.tables +ℤ pos 1000
        ≡ ledger_sum unwinding.tables)
refund_succeeds_example =
    refund_succeeds (codes "ESCROW") (codes "t1") (codes "h1") unwinding (trade_in refund_pending)
      found_unwinding refl refl (omega arith) refl (omega arith)

paid : World
paid = (settle (codes "ESCROW") (codes "t1") (calm pending)).1

repaid : World
repaid = (refund_trade (codes "ESCROW") (codes "t1") (calm unwinding)).1

asked_payout : (settle (codes "ESCROW") (codes "t1") (calm pending)).1.sent ≢ []
asked_payout e =
    let (done, (p, asked, source, to, value), row, books) =
      settle_succeeds (codes "ESCROW") (codes "t1") (codes "h1") pending
        (trade_in settlement_pending) found_pending refl refl (omega arith) (omega arith) refl
        (omega arith) in
    cc (asked, e)

asked_refund : (refund_trade (codes "ESCROW") (codes "t1") (calm unwinding)).1.sent ≢ []
asked_refund e =
    let (done, (p, asked, source, to, value), row, books) =
      refund_succeeds (codes "ESCROW") (codes "t1") (codes "h1") unwinding (trade_in refund_pending)
        found_unwinding refl refl (omega arith) refl (omega arith) in
    cc (asked, e)

-- After the payout, and another run of `settle`, nothing more is asked for.
settled_once_example :
    ((settle (codes "ESCROW") (codes "t1") (settle (codes "ESCROW") (codes "t1") paid).1).1.sent
      ≡ (settle (codes "ESCROW") (codes "t1") paid).1.sent)
    × ((refund_trade
          (codes "ESCROW")
          (codes "t1")
          (settle (codes "ESCROW") (codes "t1") paid).1).1.sent
        ≡ (settle (codes "ESCROW") (codes "t1") paid).1.sent)
unfolding paid
settled_once_example =
    settled_once (codes "ESCROW") (codes "t1") (calm pending)
      (settle (codes "ESCROW") (codes "t1") paid).1 (omega arith) asked_payout
      (settles start (codes "ESCROW") (codes "t1")) (codes "ESCROW")

refunded_once_example :
    ((settle (codes "ESCROW") (codes "t1") repaid).1.sent ≡ repaid.sent)
    × ((refund_trade (codes "ESCROW") (codes "t1") repaid).1.sent ≡ repaid.sent)
unfolding repaid
refunded_once_example =
    refunded_once (codes "ESCROW") (codes "t1") (calm unwinding) repaid (omega arith) asked_refund
      start (codes "ESCROW")

listed : World
listed = world (tables (listing ∷ []) [])

listed-IsConsistent : IsConsistent listed.tables
unfolding listed count unpaid_reservation_count
listed-IsConsistent = record {
  ids_unique = λ i. omega arith;
  references_unique = λ r. omega arith;
  open_held = λ h. omega arith;
}

abbrev reservation : World → World
reservation w =
    (transact (reserve_listing (codes "alice") (codes "t1") (codes "r1") (codes "BUYER") 200 [])
      w).1

Run-IsConsistent_example : IsConsistent (reservation (reservation listed)).tables
Run-IsConsistent_example =
    Run-IsConsistent {w = listed} {v = reservation (reservation listed)}
      (reserves (reserves start (codes "alice") (codes "t1") (codes "r1") (codes "BUYER") 200 [])
        (codes "alice") (codes "t1") (codes "r1") (codes "BUYER") 200 [])
      listed-IsConsistent

Run-IsLater_example :
    (t' : Trade) × (find_trade (codes "t1") paid.tables.trades ≡ some t')
    × IsLater (trade_in settlement_pending) t'
unfolding paid
Run-IsLater_example =
    Run-IsLater {w = calm pending} {v = paid} (settles start (codes "ESCROW") (codes "t1"))
      (codes "t1") (trade_in settlement_pending) found_pending

walk_ends_example :
    ((e : MarketError) × ((walk_chain_to walk_rounds
          (codes "t1")
          settlement_pending
          (λ t. record t { claim_tx_hash = codes "c1" })
          (world (tables [] (trade_in awaiting_release ∷ [])))).0
        ≡ err e))
    ⊎ ((t : Trade) × ((walk_chain_to walk_rounds
            (codes "t1")
            settlement_pending
            (λ t. record t { claim_tx_hash = codes "c1" })
            (world (tables [] (trade_in awaiting_release ∷ [])))).0
          ≡ ok arrived)
        × (find_trade
              (codes "t1")
              (walk_chain_to walk_rounds
                (codes "t1")
                settlement_pending
                (λ t. record t { claim_tx_hash = codes "c1" })
                (world (tables [] (trade_in awaiting_release ∷ [])))).1.tables.trades
            ≡ some t)
        × (t.state ≡ settlement_pending))
walk_ends_example =
    walk_ends (codes "t1") settlement_pending (λ t. record t { claim_tx_hash = codes "c1" })
      (world (tables [] (trade_in awaiting_release ∷ []))) (claim_hash-IsGentle (codes "c1"))

-- A whole trade, from its reservation to its settlement.
abbrev whole_walk : List TradeState
whole_walk =
    awaiting_deposit ∷ deposit_finalizing ∷ funded ∷ awaiting_release ∷ release_confirming
    ∷ awaiting_claim ∷ claim_confirming ∷ settlement_pending ∷ settled ∷ []

whole_walk-IsWalk : IsWalk reserved whole_walk
unfolding can_transition_to state_eq allowed_transitions exists
whole_walk-IsWalk = ground arith

settled_walk : Visits settled whole_walk
unfolding exists state_eq
settled_walk = refl

no_settlement_before_funding_example : Visits funded whole_walk
no_settlement_before_funding_example =
    no_settlement_before_funding whole_walk whole_walk-IsWalk settled_walk

bounded_walk : length whole_walk ≤ 11
bounded_walk = walk_bounded reserved whole_walk whole_walk-IsWalk

-- Three unpaid reservations that another one does not see.
abbrev unpaid : Text → Trade
unpaid id = record (trade_in reserved) {
  id = id;
  reference = id;
  handle = id;
  deposit_tx_hash = [];
}

abbrev crowded : Tables
crowded =
    tables (listing ∷ []) (unpaid (codes "t2") ∷ unpaid (codes "t3") ∷ unpaid (codes "t4") ∷ [])

fourth_reservation :
    unpaid_reservation_count
      (codes "BUYER")
      (transact
        (reserve_listing (codes "alice") (codes "t1") (codes "r1") (codes "BUYER") 200 [])
        (world crowded)).1.tables.trades
    ≡ 4
unfolding transact reserve_listing find_listing find exists text_eq unpaid_reservation_count count
    is_unpaid_of is_unpaid_reservation compact_address set_status
fourth_reservation = refl
