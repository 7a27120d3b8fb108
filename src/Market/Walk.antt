-- ===== src/Market/Walk.antt =====
-- backend/marketplace_ownership_watcher.go: the walk of a trade along the settlement chain.
pub mod Ends
use nim_connect.Base.{
  ℕ, zero, suc, Option, none, some, List, [], ◌∷◌, Text, err, or_fail, if◌then◌else◌,
}
use nim_connect.Market.State.{TradeState, Trade, state_eq}
use nim_connect.Market.Tables.{find_trade}
use nim_connect.Market.Store.{cannot_reach, no_trade, wrong_state, resolve}
use nim_connect.Market.World.{M, pure, lift, ◌>>=◌, ◌>>◌, query, transact}
use nim_connect.Market.Settlement.{resolve_trade, move}

abbrev pub settlement_chain : List TradeState
settlement_chain =
    TradeState.awaiting_release ∷ TradeState.release_confirming ∷ TradeState.awaiting_claim
    ∷ TradeState.claim_confirming ∷ TradeState.settlement_pending ∷ []

-- `settlementChain[chainIndex(state)+1]`; none where the index is -1 or the last.
unfoldable pub next_in : TradeState → List TradeState → Option TradeState
next_in state [] = none
next_in state (s ∷ []) = none
next_in state (s ∷ n ∷ rest) =
    let later = next_in state (n ∷ rest) in if state_eq s state then some n else later

-- The rounds of the loop of `walkChainTo`: a walk that goes on for more rounds than the chain has
-- states does not occur (Walk/Ends).
pub data Walked : Type 0 where
  arrived out_of_rounds : Walked

unfoldable pub walk_chain_to : ℕ → Text → TradeState → (Trade → Trade) → M Walked
walk_chain_to zero trade_id target mutate = pure out_of_rounds
walk_chain_to (suc rounds) trade_id target mutate =
    let later = walk_chain_to rounds trade_id target mutate in
    do
      trade ← resolve_trade trade_id
      if state_eq trade.state target then pure arrived else do
        next ← lift (or_fail (next_in trade.state settlement_chain) cannot_reach)
        move trade_id trade.state next (if state_eq next target then some mutate else none)
        later

-- `Transition` from the empty state of a zero `MarketplaceTrade`: no row has that state.
abbrev pub move_from_nothing : Text → M (Unit {0})
move_from_nothing trade_id =
    transact
      λ db. elim (find_trade trade_id db.trades) [ none ↦ err no_trade | some t ↦ err wrong_state ]

-- `trade, _ = store.Resolve(tradeID)`, and the transition from the state that it gave.
abbrev pub fail_from : Text → Option Trade → M (Unit {0})
fail_from trade_id none = move_from_nothing trade_id
fail_from trade_id (some t) = move trade_id t.state TradeState.failed_after_release none

unfoldable pub walk_chain_to_failure : Text → M (Unit {0})
walk_chain_to_failure trade_id = do
  trade ← resolve_trade trade_id
  if state_eq trade.state TradeState.awaiting_release
      then (do
        move trade_id TradeState.awaiting_release TradeState.release_confirming none
        again ← query (resolve trade_id) none
        fail_from trade_id again)
      else fail_from trade_id (some trade)
