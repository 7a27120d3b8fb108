-- ===== src/Market/Runs.antt =====
-- How the tables come about: the operations of the marketplace, one after the other. Each of them
-- may fail at any of its calls, and leaves the world as it was when it failed.
pub mod Laws
use nim_connect.Base.{ℕ, Option, List, Text, ◌≢◌, [], ◌≡◌, false, All}
use nim_connect.Chain.{RpcTx}
use nim_connect.Claims.{HandleClaim}
use nim_connect.Market.State.{TradeState, Trade}
use nim_connect.Market.Store.{consume_nonce, create_listing, reserve_listing, mutated}
use nim_connect.Market.Store.Updates.{IsGentle}
use nim_connect.Market.World.{World, transact}
use nim_connect.Market.Settlement.{move, settle, refund_trade}
use nim_connect.Market.Expiry.{release, expire_stale_reservations}
use nim_connect.Market.Watchers.{escrow_sweep, ownership_sweep}

-- The worlds that the marketplace can come to from `w`. What the node reports and what the registry
-- resolves may differ at every sweep; each transaction that the node reports has a hash.
pub data Run (w : World) : World → Type 0 where
  start : Run w w
  spends_nonce : {v : World} → Run w v → (nonce : Text) → Run w (transact (consume_nonce nonce) v).1
  lists :
      {v : World}
      → Run w v
      → (handle seller : Text) (price fee : ℕ) (epoch : Text) (now : ℕ)
      → Run w (transact (create_listing handle seller price fee epoch now) v).1
  reserves :
      {v : World}
      → Run w v
      → (handle trade_id reference buyer : Text) (now : ℕ) (counted : List Trade)
      → Run w (transact (reserve_listing handle trade_id reference buyer now counted) v).1
  cancels :
      {v : World} → Run w v → (trade_id : Text) → Run w (release trade_id TradeState.canceled v).1
  expires : {v : World} → Run w v → (now : ℕ) → Run w (expire_stale_reservations now v).1
  moves :
      {v : World}
      → Run w v
      → (trade_id : Text) (from to : TradeState) (mutate : Option (Trade → Trade))
      → IsGentle (mutated mutate)
      → Run w (move trade_id from to mutate v).1
  settles : {v : World} → Run w v → (escrow trade_id : Text) → Run w (settle escrow trade_id v).1
  refunds :
      {v : World} → Run w v → (escrow trade_id : Text) → Run w (refund_trade escrow trade_id v).1
  sweeps_escrow :
      {v : World}
      → Run w v
      → (escrow : Text) (txs : List RpcTx) (macro_height : ℕ) → All (λ tx. tx.hash ≢ []) txs
      → Run w (escrow_sweep escrow txs macro_height v).1
  sweeps_ownership :
      {v : World}
      → Run w v
      → (escrow : Text) (resolve_handle : Text → Option HandleClaim) (macro_height : ℕ)
      → Run w (ownership_sweep escrow resolve_handle macro_height v).1
