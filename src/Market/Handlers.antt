-- ===== src/Market/Handlers.antt =====
-- backend/marketplace_handlers.go and backend/marketplace_choreography.go: what each request does
-- to the store, and how it is answered. A request is given decoded, none where its body is no JSON;
-- `bearer` is none without a bearer token, and else what `resolveScopedActor` answers. The registry's
-- `Resolve`, the signature check, the node and the two random texts of a reservation are arguments.
pub mod Guards
pub mod Kept
mod Examples
use nim_connect.Base.{
  ℕ, ◌*◌, ◌/◌, ◌%◌, ◌^◌, Bool, true, false, not, ◌&&◌, ◌||◌, Option, none, some, List, [], ◌∷◌,
  Text, codes, text_eq, Result, ok, err, ◌>>=◌, guard, or_fail, if◌then◌else◌, ltb, leb, ◌==◌,
}
use nim_connect.Base.Int.{ℤ}
use nim_connect.Address.{compact_address, normalize_address}
use nim_connect.Address.Iban.{is_valid_nimiq_address}
use nim_connect.Chain.{RpcTx, tx_sender, tx_recipient, tx_data}
use nim_connect.Claims.{HandleClaim}
use nim_connect.Handles.{ClaimAction, is_valid_handle, parse_claim_data}
use nim_connect.Market.State.{TradeState, Trade, Listing, state_eq}
use nim_connect.Market.Store.{
  MarketError, rpc_error, u64, resolve, consume_nonce, create_listing, reserve_listing,
  active_listings, trades_for_wallet,
}
use nim_connect.Market.World.{World, M, pure, read_clock, transact, query}
use nim_connect.Market.Settlement.{move}
use nim_connect.Market.Expiry.{release}
use nim_connect.Market.Intents.{
  IntentError, verify_listing_intent, verify_purchase_intent, verify_cancel_intent,
}

pub data Response (A : Type 0) : Type 0 where
  bad_request unauthorized forbidden not_found conflict internal_error : Response A
  answered : A → Response A

module _ {A B : Type 0} where
  abbrev pub settle_with : Result MarketError A → Response B → (A → M (Response B)) → M (Response B)
  settle_with (ok a) refused next w = next a w
  settle_with (err e) refused next w = (ok refused, w)

  -- `if err := m; err != nil { respond with refused; return }`
  unfoldable pub or_respond : M A → Response B → (A → M (Response B)) → M (Response B)
  or_respond m refused next w = let (r, w') = m w in settle_with r refused next w'

-- A test that is answered with `refused` where it fails.
abbrev pub demand : {B : Type 0} → Bool → Response B → M (Response B) → M (Response B)
demand test refused next = if test then next else pure refused

pub record ListingRequest : Type 0 where
  pub handle : Text
  pub seller : Text
  pub price_luna : ℕ
  pub fee_luna : ℕ
  pub ownership_epoch_tx_hash : Text
  pub nonce : Text
  pub expires_at : ℤ
  pub public_key : Text
  pub signature : Text

-- req.FeeLuna*10_000/req.PriceLuna > maxFeeBps, on uint64
unfoldable pub exceeds_fee_cap : ℕ → ℕ → ℕ → Bool
exceeds_fee_cap fee_luna price_luna max_fee_bps =
    ltb max_fee_bps (u64 (fee_luna * 10000) / price_luna)

abbrev pub is_ok : {E A : Type 0} → Result E A → Bool
is_ok (ok a) = true
is_ok (err e) = false

-- The address that acts: of the token, or of the request once its signature is checked.
abbrev pub actor_of : Option (Option Text) → Text → Result IntentError (Unit {0}) → Option Text
actor_of none claimed (ok u) = some claimed
actor_of none claimed (err e) = none
actor_of (some resolved) claimed signed = resolved

-- The signature is checked, against the clock, only where there is no token.
abbrev pub signing_time : Option (Option Text) → M ℕ
signing_time none = read_clock
signing_time (some resolved) = pure 0

-- The registry resolves the handle to the address, by the claim of the hash.
abbrev pub is_held_by : Option HandleClaim → Text → Bool
is_held_by none seller = false
is_held_by (some claim) seller = text_eq (compact_address claim.address) (compact_address seller)

abbrev pub is_epoch : Option HandleClaim → Text → Bool
is_epoch none epoch = false
is_epoch (some claim) epoch = text_eq claim.tx_hash epoch

module _ (verify_signed : Text → Text → Text → Text → Bool) where
  -- The listing handler from the point where the seller is known.
  unfoldable pub list_for :
      (Text → Option HandleClaim) → ListingRequest → Text → M (Response Listing)
  list_for resolve_handle req seller =
      demand (is_held_by (resolve_handle req.handle) seller) forbidden (
        demand (is_epoch (resolve_handle req.handle) req.ownership_epoch_tx_hash) conflict (
          or_respond (transact (consume_nonce req.nonce)) conflict λ _.
            or_respond read_clock internal_error λ now.
              or_respond
                (transact (
                  create_listing req.handle seller req.price_luna req.fee_luna
                    req.ownership_epoch_tx_hash now))
                conflict (λ listing. pure (answered listing))))

  unfoldable pub create_listing_handler :
      (Text → Option HandleClaim)
      → ℕ
      → Option (Option Text)
      → Option ListingRequest
      → M (Response Listing)
  create_listing_handler resolve_handle max_fee_bps bearer none = pure bad_request
  create_listing_handler resolve_handle max_fee_bps bearer (some req) =
      demand
        (is_valid_handle req.handle && not (req.price_luna == 0) && leb req.fee_luna req.price_luna)
        bad_request
        (demand (not (exceeds_fee_cap req.fee_luna req.price_luna max_fee_bps)) bad_request (
          or_respond (signing_time bearer) internal_error λ now.
            elim (actor_of bearer req.seller (
              verify_listing_intent verify_signed now req.handle req.seller req.price_luna
                req.fee_luna req.ownership_epoch_tx_hash req.nonce req.expires_at req.public_key
                req.signature)) [
                  | none ↦ pure unauthorized
                  | some seller ↦ list_for resolve_handle req seller
                ]))

pub record ReserveRequest : Type 0 where
  pub handle : Text
  pub buyer : Text
  pub refund_address : Text
  pub nonce : Text
  pub expires_at : ℤ
  pub public_key : Text
  pub signature : Text

-- The rest of the reserve handler, once the listing is reserved.
unfoldable pub await_deposit : Text → Trade → M (Response Trade)
await_deposit escrow_address trade =
    or_respond
      (move trade.id TradeState.reserved TradeState.awaiting_deposit
        (some (λ t. record t { escrow_address = escrow_address })))
      internal_error
      (λ _.
        or_respond (query (resolve trade.id) none) internal_error λ updated. pure (answered trade))

unfoldable pub reserve_for :
    Text → Text → Text → List Trade → ReserveRequest → Text → M (Response Trade)
reserve_for escrow_address trade_id reference counted req buyer =
    or_respond (transact (consume_nonce req.nonce)) conflict λ _.
      or_respond read_clock internal_error λ now.
        or_respond (transact (reserve_listing req.handle trade_id reference buyer now counted))
          conflict (await_deposit escrow_address)

pub record CancelRequest : Type 0 where
  pub actor : Text
  pub nonce : Text
  pub expires_at : ℤ
  pub public_key : Text
  pub signature : Text

unfoldable pub cancel_for : Text → Text → M (Response (Unit {0}))
cancel_for trade_id nonce =
    or_respond (transact (consume_nonce nonce)) conflict
      λ _. or_respond (release trade_id TradeState.canceled) conflict λ _. pure (answered tt)

-- The buyer or the seller of the trade.
abbrev pub is_party : Text → Trade → Bool
is_party actor trade =
    text_eq (compact_address actor) (compact_address trade.buyer)
    || text_eq (compact_address actor) (compact_address trade.seller)

-- The address of a token takes the place of the request's.
abbrev pub claimed_actor : Option (Option Text) → Text → Option Text
claimed_actor none actor = some actor
claimed_actor (some resolved) actor = resolved

module _ (verify_signed : Text → Text → Text → Text → Bool) where
  unfoldable pub reserve_handler :
      Text
      → Text
      → Text
      → List Trade
      → Option (Option Text)
      → Option ReserveRequest
      → M (Response Trade)
  reserve_handler escrow_address trade_id reference counted bearer none = pure bad_request
  reserve_handler escrow_address trade_id reference counted bearer (some req) =
      demand
        (is_valid_handle req.handle
          && is_valid_nimiq_address req.buyer
          && is_valid_nimiq_address req.refund_address)
        bad_request
        (or_respond (signing_time bearer) internal_error λ now.
          elim (actor_of bearer req.buyer (
            verify_purchase_intent verify_signed now req.handle req.buyer req.refund_address
              req.nonce req.expires_at req.public_key req.signature)) [
                | none ↦ pure unauthorized
                | some buyer ↦ reserve_for escrow_address trade_id reference counted req buyer
              ])

  -- The cancel handler once the trade, the request and the actor are known.
  unfoldable pub cancel_by :
      Text → Option (Option Text) → CancelRequest → Trade → Text → M (Response (Unit {0}))
  cancel_by trade_id bearer req trade actor = demand (is_valid_nimiq_address actor) bad_request (
      demand (is_party actor trade) forbidden (
        or_respond (signing_time bearer) internal_error λ now.
          elim (actor_of bearer actor (
            verify_cancel_intent verify_signed now trade_id actor req.nonce req.expires_at
              req.public_key req.signature)) [
                | none ↦ pure unauthorized
                | some _ ↦ cancel_for trade_id req.nonce
              ]))

  abbrev pub cancel_known :
      Text → Option (Option Text) → Option CancelRequest → Option Trade → M (Response (Unit {0}))
  cancel_known trade_id bearer body none = pure not_found
  cancel_known trade_id bearer none (some trade) = pure bad_request
  cancel_known trade_id bearer (some req) (some trade) = elim (claimed_actor bearer req.actor) [
    | none ↦ pure unauthorized
    | some actor ↦ cancel_by trade_id bearer req trade actor
  ]

  unfoldable pub cancel_handler :
      Text → Option (Option Text) → Option CancelRequest → M (Response (Unit {0}))
  cancel_handler trade_id bearer body =
      or_respond (query (resolve trade_id) none) internal_error (cancel_known trade_id bearer body)
