-- ===== src/Market/Watchers.antt =====
-- backend/marketplace_escrow_watcher.go and the sweep of backend/marketplace_ownership_watcher.go.
-- What the node answers, and the registry's `Resolve`, are arguments. A watcher's own clock is in
-- nanoseconds, and none before its first sweep.
use nim_connect.Base.{
  ℕ, ◌-◌, ◌*◌, ◌^◌, Bool, false, not, ◌&&◌, Option, none, some, List, [], ◌∷◌, Text, codes, text_eq,
  starts_with, drop, Result, ok, err, if◌then◌else◌, ltb, ◌==◌,
}
use nim_connect.Address.{compact_address, normalize_address}
use nim_connect.Hex.{decode_data}
use nim_connect.Chain.{RpcTx, tx_sender, tx_recipient, tx_data}
use nim_connect.Claims.{HandleClaim}
use nim_connect.Market.State.{TradeState, Trade, state_eq}
use nim_connect.Market.Store.{MarketError, find_trade_by_reference, trades_in_state}
use nim_connect.Market.World.{World, M, pure, ◌>>=◌, ◌>>◌, query}
use nim_connect.Market.Settlement.{move, settle, refund_trade}
use nim_connect.Market.Walk.{walk_chain_to, walk_chain_to_failure}

abbrev pub escrow_reference_prefix : Text
escrow_reference_prefix = codes "NME1:"

abbrev reference_in : Option (List ℕ) → Text
reference_in none = []
reference_in (some raw) = if starts_with escrow_reference_prefix raw then drop 5 raw else []

unfoldable pub parse_trade_reference : Text → Text
parse_trade_reference data_hex = reference_in (decode_data data_hex)

-- 5 seconds
abbrev pub sweep_cooldown : ℕ
sweep_cooldown = 5 * 10 ^ 9

-- `time.Since(w.lastSweep) < escrowSweepCooldown`
abbrev pub cooling_down : Option ℕ → ℕ → Bool
cooling_down none now = false
cooling_down (some last) now = ltb (now - last) sweep_cooldown

module _ {A : Type 0} where
  -- A loop that returns the first error.
  unfoldable pub for_each : (A → M (Unit {0})) → List A → M (Unit {0})
  for_each body [] = pure tt
  for_each body (x ∷ xs) = let later = for_each body xs in body x >> later

  -- `if err := m; err != nil { continue }`, and what follows it in the body.
  abbrev pub unless_failed : Result MarketError A → M (Unit {0}) → M (Unit {0})
  unless_failed (ok a) next w = next w
  unless_failed (err e) next w = (ok tt, w)

  unfoldable pub or_continue : M A → M (Unit {0}) → M (Unit {0})
  or_continue m next w = let (r, w') = m w in unless_failed r next w'

abbrev pub deposit_recorded : RpcTx → Trade → Trade
deposit_recorded tx t = record t {
  deposit_tx_hash = tx.hash;
  deposit_block_height = tx.block_number;
}

unfoldable pub deposit_matches : RpcTx → Trade → Bool
deposit_matches tx trade =
    (tx.value == trade.price_luna)
    && text_eq (compact_address (normalize_address (tx_sender tx))) (compact_address trade.buyer)

-- The first loop's body, for the trade that has the transaction's reference.
abbrev pub matched : RpcTx → Option Trade → M (Unit {0})
matched tx none = pure tt
matched tx (some trade) =
    if state_eq trade.state TradeState.awaiting_deposit && deposit_matches tx trade
    then move trade.id TradeState.awaiting_deposit TradeState.deposit_finalizing
        (some (deposit_recorded tx))
    else pure tt

unfoldable pub match_reference : RpcTx → Text → M (Unit {0})
match_reference tx reference = do
  found ← query (find_trade_by_reference reference) none
  matched tx found

unfoldable pub match_deposit : Text → RpcTx → M (Unit {0})
match_deposit escrow_address tx =
    let reference = parse_trade_reference (tx_data tx) in
    if text_eq (compact_address (tx_recipient tx)) (compact_address escrow_address)
      && not (text_eq reference [])
    then match_reference tx reference
    else pure tt

unfoldable pub finalize_deposit : ℕ → Trade → M (Unit {0})
finalize_deposit macro_height trade =
    if ltb macro_height trade.deposit_block_height
    then pure tt
    else move trade.id TradeState.deposit_finalizing TradeState.funded none

-- A failure is logged.
unfoldable pub advance_funded : Trade → M (Unit {0})
advance_funded trade =
    or_continue (move trade.id TradeState.funded TradeState.awaiting_release none) (pure tt)

-- The loops of `EscrowWatcher.Sweep`.
unfoldable pub escrow_sweep : Text → List RpcTx → ℕ → M (Unit {0})
escrow_sweep escrow_address txs macro_height = do
  for_each (match_deposit escrow_address) txs
  finalizing ← query (trades_in_state TradeState.deposit_finalizing) []
  for_each (finalize_deposit macro_height) finalizing
  funded ← query (trades_in_state TradeState.funded) []
  for_each advance_funded funded

-- `Sweep`: within the cooldown, and when the node fails, it does nothing.
unfoldable pub escrow_watch :
    Text
    → Option ℕ
    → ℕ
    → Result MarketError (List RpcTx)
    → Result MarketError ℕ
    → World
    → Result MarketError (Unit {0}) × World × Option ℕ
escrow_watch escrow_address last_sweep now (err e) macro w =
    if cooling_down last_sweep now then (ok tt, w, last_sweep) else (err e, w, last_sweep)
escrow_watch escrow_address last_sweep now (ok txs) (err e) w =
    if cooling_down last_sweep now then (ok tt, w, last_sweep) else (err e, w, last_sweep)
escrow_watch escrow_address last_sweep now (ok txs) (ok macro_height) w =
    let (r, w') = escrow_sweep escrow_address txs macro_height w in
    if cooling_down last_sweep now then (ok tt, w, last_sweep) else (r, w', some now)

-- One more round than the chain has states.
abbrev pub walk_rounds : ℕ
walk_rounds = 6

-- The buyer holds the handle.
unfoldable pub complete_trade : Text → HandleClaim → Trade → M (Unit {0})
complete_trade escrow_address claim trade =
    or_continue
      (walk_chain_to walk_rounds trade.id TradeState.settlement_pending
        (λ t. record t { claim_tx_hash = claim.tx_hash }))
      (settle escrow_address trade.id)

-- Somebody else than the buyer and the seller holds it.
unfoldable pub unwind_trade : Text → Trade → M (Unit {0})
unwind_trade escrow_address trade = or_continue (walk_chain_to_failure trade.id) (
    or_continue (move trade.id TradeState.failed_after_release TradeState.refund_pending none)
      (refund_trade escrow_address trade.id))

unfoldable pub judge_claim : Text → ℕ → HandleClaim → Trade → M (Unit {0})
judge_claim escrow_address macro_height claim trade =
    if ltb macro_height claim.block_height
    then pure tt
    else if text_eq (compact_address claim.address) (compact_address trade.buyer)
    then complete_trade escrow_address claim trade
    else if text_eq (compact_address claim.address) (compact_address trade.seller)
    then pure tt
    else unwind_trade escrow_address trade

unfoldable pub judge_trade : Text → (Text → Option HandleClaim) → ℕ → Trade → M (Unit {0})
judge_trade escrow_address resolve_handle macro_height trade = elim (resolve_handle trade.handle) [
  | none ↦ pure tt
  | some claim ↦ judge_claim escrow_address macro_height claim trade
]

-- `settlementChain[:len(settlementChain)-1]`
abbrev pub watched_states : List TradeState
watched_states =
    TradeState.awaiting_release ∷ TradeState.release_confirming ∷ TradeState.awaiting_claim
    ∷ TradeState.claim_confirming ∷ []

unfoldable pub ownership_sweep : Text → (Text → Option HandleClaim) → ℕ → M (Unit {0})
ownership_sweep escrow_address resolve_handle macro_height =
    for_each
      (λ state. do
        trades ← query (trades_in_state state) []
        for_each (judge_trade escrow_address resolve_handle macro_height) trades)
      watched_states

unfoldable pub ownership_watch :
    Text
    → (Text → Option HandleClaim)
    → Option ℕ
    → ℕ
    → Result MarketError ℕ
    → World
    → Result MarketError (Unit {0}) × World × Option ℕ
ownership_watch escrow_address resolve_handle last_sweep now (err e) w =
    if cooling_down last_sweep now then (ok tt, w, last_sweep) else (err e, w, last_sweep)
ownership_watch escrow_address resolve_handle last_sweep now (ok macro_height) w =
    let (r, w') = ownership_sweep escrow_address resolve_handle macro_height w in
    if cooling_down last_sweep now then (ok tt, w, last_sweep) else (r, w', some now)
