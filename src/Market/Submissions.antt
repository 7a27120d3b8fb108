-- ===== src/Market/Submissions.antt =====
-- backend/marketplace_handlers.go and backend/marketplace_choreography.go: the release and the claim
-- of a handle that a party submits. The node's two calls are arguments.
pub mod Verified
use nim_connect.Base.{
  Bool, true, false, not, ◌&&◌, Option, none, some, [], Text, text_eq, Result, ok, err, ◌>>=◌, ◌>>◌,
  guard, if◌then◌else◌,
}
use nim_connect.Address.{compact_address, normalize_address}
use nim_connect.Chain.{RpcTx, tx_sender, tx_recipient, tx_data}
use nim_connect.Handles.{ClaimAction, parse_claim_data}
use nim_connect.Market.State.{TradeState, Trade, state_eq}
use nim_connect.Market.Store.{MarketError, rpc_error, not_allowed, resolve}
use nim_connect.Market.World.{M, pure, query}
use nim_connect.Market.Settlement.{move}
use nim_connect.Market.Handlers.{
  Response, bad_request, not_found, conflict, internal_error, answered, or_respond, demand,
}

abbrev pub is_action_on : Bool → Text → Option ClaimAction → Bool
is_action_on is_release handle none = false
is_action_on is_release handle (some action) =
    (if is_release then action.is_release else not action.is_release)
    && text_eq action.handle handle

-- The three checks that `verifyReleaseTx` and `verifyClaimTx` share, for the party they expect.
abbrev pub verify_action_tx : Bool → Text → RpcTx → Trade → Text → Result MarketError (Unit {0})
verify_action_tx is_release party tx trade registry_address =
    guard (text_eq (compact_address (normalize_address (tx_sender tx))) (compact_address party))
      not_allowed
    >> (guard (text_eq (compact_address (tx_recipient tx)) (compact_address registry_address))
          not_allowed
        >> guard (is_action_on is_release trade.handle (parse_claim_data (tx_data tx))) not_allowed)

unfoldable pub verify_release_tx : RpcTx → Trade → Text → Result MarketError (Unit {0})
verify_release_tx tx trade registry_address =
    verify_action_tx true trade.seller tx trade registry_address

unfoldable pub verify_claim_tx : RpcTx → Trade → Text → Result MarketError (Unit {0})
verify_claim_tx tx trade registry_address =
    verify_action_tx false trade.buyer tx trade registry_address

-- `hub` carries a raw transaction, and `pay` a hash; every other kind is refused.
pub data Submission : Type 0 where
  hub pay : Text → Submission
  unknown_kind : Submission

module _ (send_raw_transaction : Text → Result MarketError Text)
    (get_transaction_by_hash : Text → Result MarketError RpcTx) where
  unfoldable pub submit_hub_transaction :
      Text → (RpcTx → Result MarketError (Unit {0})) → Result MarketError Text
  submit_hub_transaction raw_hex verify = do
    hash ← send_raw_transaction raw_hex
    tx ← get_transaction_by_hash hash
    verify tx
    ok hash

  unfoldable pub submit_pay_transaction :
      Text → (RpcTx → Result MarketError (Unit {0})) → Result MarketError (Unit {0})
  submit_pay_transaction tx_hash verify = do tx ← get_transaction_by_hash tx_hash; verify tx

  -- The switch on the kind: the hash of the verified transaction.
  unfoldable pub submitted :
      Submission → (RpcTx → Result MarketError (Unit {0})) → Result MarketError Text
  submitted (hub raw_hex) verify = submit_hub_transaction raw_hex verify
  submitted (pay tx_hash) verify = submit_pay_transaction tx_hash verify >> ok tx_hash
  submitted unknown_kind verify = err not_allowed

  abbrev pub verified_hash :
      Option Submission → (RpcTx → Result MarketError (Unit {0})) → Result MarketError Text
  verified_hash none verify = err not_allowed
  verified_hash (some s) verify = submitted s verify

  abbrev pub move_submitted :
      Trade
      → TradeState
      → TradeState
      → (Text → Trade → Trade)
      → Result MarketError Text
      → M (Response (Unit {0}))
  move_submitted trade from to recorded (err e) = pure bad_request
  move_submitted trade from to recorded (ok hash) =
      or_respond (move trade.id from to (some (recorded hash))) internal_error
        (λ _. pure (answered tt))

  abbrev pub release_known : Text → Option Submission → Option Trade → M (Response (Unit {0}))
  release_known registry_address body none = pure not_found
  release_known registry_address body (some trade) =
      demand (state_eq trade.state TradeState.awaiting_release) conflict (
        move_submitted trade TradeState.awaiting_release TradeState.release_confirming
          (λ hash t. record t { release_tx_hash = hash })
          (verified_hash body (λ tx. verify_release_tx tx trade registry_address)))

  unfoldable pub release_handler : Text → Text → Option Submission → M (Response (Unit {0}))
  release_handler registry_address trade_id body =
      or_respond (query (resolve trade_id) none) internal_error
        (release_known registry_address body)

  abbrev pub claim_known : Text → Option Submission → Option Trade → M (Response (Unit {0}))
  claim_known registry_address body none = pure not_found
  claim_known registry_address body (some trade) =
      demand (state_eq trade.state TradeState.awaiting_claim) conflict (
        move_submitted trade TradeState.awaiting_claim TradeState.claim_confirming
          (λ hash t. record t { claim_tx_hash = hash })
          (verified_hash body (λ tx. verify_claim_tx tx trade registry_address)))

  unfoldable pub claim_handler : Text → Text → Option Submission → M (Response (Unit {0}))
  claim_handler registry_address trade_id body =
      or_respond (query (resolve trade_id) none) internal_error (claim_known registry_address body)
