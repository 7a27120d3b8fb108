-- ===== src/Market/Kept/Workers.antt =====
-- Every action of the settlement worker, and each walk of a trade along the settlement chain, keeps
-- each property that the transactions keep.
use nim_connect.Base.{
  ℕ, zero, suc, refl, Option, none, some, [], Text, ◌≢◌, Bool, true, false, arith, if◌then◌else◌,
}
use nim_connect.Base.Int.{ℤ}
use nim_connect.Chain.{RpcTx}
use nim_connect.Market.State.{TradeState, Trade, state_eq}
use nim_connect.Market.Tables.{Tables, LedgerEntryType}
use nim_connect.Market.Store.{mutated}
use nim_connect.Market.Store.Updates.{IsGentle}
use nim_connect.Market.Settlement.{
  append, resolve_trade, move, pay_marked, pay_out, settle_resolved, settle, refund_marked,
  pay_back, refund_resolved, refund_trade,
}
use nim_connect.Market.Walk.{
  arrived, walk_chain_to, walk_chain_to_failure, move_from_nothing, fail_from,
}
use nim_connect.Market.Watchers.{deposit_recorded}
use nim_connect.Market.Kept.{
  IsKept, Keeps, Keeps-pure, Keeps-lift, Keeps-if, Keeps-bind, Keeps-transact, keeps_rules,
}

pub unchanged-IsGentle : IsGentle (mutated none)
unchanged-IsGentle = record {
  same_id = λ t. refl;
  same_reference = λ t. refl;
  same_handle = λ t. refl;
  same_buyer = λ t. refl;
  same_seller = λ t. refl;
  same_price = λ t. refl;
  same_fee = λ t. refl;
  same_payout_mark = λ t. refl;
  same_refund_mark = λ t. refl;
  deposit_before = λ t h. h;
}

payout_hash-IsGentle : (h : Text) → IsGentle (λ t. record t { payout_tx_hash = h })
payout_hash-IsGentle h = record {
  same_id = λ t. refl;
  same_reference = λ t. refl;
  same_handle = λ t. refl;
  same_buyer = λ t. refl;
  same_seller = λ t. refl;
  same_price = λ t. refl;
  same_fee = λ t. refl;
  same_payout_mark = λ t. refl;
  same_refund_mark = λ t. refl;
  deposit_before = λ t e. e;
}

refund_hash-IsGentle : (h : Text) → IsGentle (λ t. record t { refund_tx_hash = h })
refund_hash-IsGentle h = record {
  same_id = λ t. refl;
  same_reference = λ t. refl;
  same_handle = λ t. refl;
  same_buyer = λ t. refl;
  same_seller = λ t. refl;
  same_price = λ t. refl;
  same_fee = λ t. refl;
  same_payout_mark = λ t. refl;
  same_refund_mark = λ t. refl;
  deposit_before = λ t e. e;
}

pub claim_hash-IsGentle : (h : Text) → IsGentle (λ t. record t { claim_tx_hash = h })
claim_hash-IsGentle h = record {
  same_id = λ t. refl;
  same_reference = λ t. refl;
  same_handle = λ t. refl;
  same_buyer = λ t. refl;
  same_seller = λ t. refl;
  same_price = λ t. refl;
  same_fee = λ t. refl;
  same_payout_mark = λ t. refl;
  same_refund_mark = λ t. refl;
  deposit_before = λ t e. e;
}

pub deposit_recorded-IsGentle : (tx : RpcTx) → tx.hash ≢ [] → IsGentle (deposit_recorded tx)
deposit_recorded-IsGentle tx p = record {
  same_id = λ t. refl;
  same_reference = λ t. refl;
  same_handle = λ t. refl;
  same_buyer = λ t. refl;
  same_seller = λ t. refl;
  same_price = λ t. refl;
  same_fee = λ t. refl;
  same_payout_mark = λ t. refl;
  same_refund_mark = λ t. refl;
  deposit_before = λ t e. absurd (p e);
}

pub chosen-IsGentle :
    (b : Bool) (mutate : Trade → Trade)
    → IsGentle mutate
    → IsGentle (mutated (if b then some mutate else none))
chosen-IsGentle true mutate g = g
chosen-IsGentle false mutate g = unchanged-IsGentle

module _ {Q : Tables → Type 0} (k : IsKept Q) where
  pub move-Keeps :
      (i : Text) (from to : TradeState) (mutate : Option (Trade → Trade))
      → IsGentle (mutated mutate)
      → Keeps Q (move i from to mutate)
  unfolding move
  move-Keeps i from to mutate g =
      search (keeps_rules, Keeps-transact, λ (now : ℕ). k.by_transition i from to mutate now g)

  append-Keeps :
      (i : Text) (type : LedgerEntryType) (amount : ℤ) (hash : Text) (at : ℕ)
      → Keeps Q (append i type amount hash at)
  unfolding append
  append-Keeps i type amount hash at = search (keeps_rules, Keeps-transact, k.by_entry)

  pub resolve-Keeps : (i : Text) → Keeps Q (resolve_trade i)
  unfolding resolve_trade
  resolve-Keeps i = search keeps_rules

  pub pay_marked-Keeps :
      (escrow i : Text) (now : ℕ) (t : Trade) → Keeps Q (pay_marked escrow i now t)
  unfolding pay_marked
  pay_marked-Keeps escrow i now t =
      search (keeps_rules, append-Keeps, move-Keeps, payout_hash-IsGentle) depth 9

  pay_out-Keeps : (escrow i : Text) → Keeps Q (pay_out escrow i)
  unfolding pay_out
  pay_out-Keeps escrow i =
      search (keeps_rules, Keeps-transact, k.by_payout_mark, pay_marked-Keeps) depth 9

  pub settle-Keeps : (escrow i : Text) → Keeps Q (settle escrow i)
  unfolding settle settle_resolved
  settle-Keeps escrow i = search (keeps_rules, resolve-Keeps, pay_out-Keeps) depth 9

  pub refund_marked-Keeps :
      (escrow i : Text) (now : ℕ) (t : Trade) → Keeps Q (refund_marked escrow i now t)
  unfolding refund_marked
  refund_marked-Keeps escrow i now t =
      search (keeps_rules, append-Keeps, move-Keeps, refund_hash-IsGentle) depth 9

  pay_back-Keeps : (escrow i : Text) → Keeps Q (pay_back escrow i)
  unfolding pay_back
  pay_back-Keeps escrow i =
      search (keeps_rules, Keeps-transact, k.by_refund_mark, refund_marked-Keeps) depth 9

  pub refund_trade-Keeps : (escrow i : Text) → Keeps Q (refund_trade escrow i)
  unfolding refund_trade refund_resolved
  refund_trade-Keeps escrow i = search (keeps_rules, resolve-Keeps, pay_back-Keeps) depth 9

  pub walk_chain_to-Keeps :
      (rounds : ℕ) (i : Text) (target : TradeState) (mutate : Trade → Trade)
      → IsGentle mutate
      → Keeps Q (walk_chain_to rounds i target mutate)
  unfolding walk_chain_to
  walk_chain_to-Keeps zero i target mutate g = search keeps_rules
  walk_chain_to-Keeps (suc rounds) i target mutate g = Keeps-bind _ _ (resolve-Keeps i) λ t.
      Keeps-if _ _ _ (Keeps-pure arrived) (
        Keeps-bind _ _ (Keeps-lift _) λ next.
          Keeps-bind _ _
            (move-Keeps i t.state next _ (chosen-IsGentle (state_eq next target) mutate g))
            (λ _. walk_chain_to-Keeps rounds i target mutate g))

  move_from_nothing-Keeps : (i : Text) → Keeps Q (move_from_nothing i)
  move_from_nothing-Keeps i = Keeps-transact _ λ db db' a h e. ground (arith)

  fail_from-Keeps : (i : Text) (t : Option Trade) → Keeps Q (fail_from i t)
  fail_from-Keeps i none = move_from_nothing-Keeps i
  fail_from-Keeps i (some t) = move-Keeps i _ _ none unchanged-IsGentle

  pub walk_chain_to_failure-Keeps : (i : Text) → Keeps Q (walk_chain_to_failure i)
  unfolding walk_chain_to_failure
  walk_chain_to_failure-Keeps i =
      search (keeps_rules, resolve-Keeps, move-Keeps, unchanged-IsGentle, fail_from-Keeps) depth 9
