-- ===== src/Market/Handlers/Kept.antt =====
-- The handlers of listings, reservations and cancellations keep what the transactions keep.
use nim_connect.Base.{ℕ, List, Bool, Option, none, some, Text, Result, ok, err, refl}
use nim_connect.Claims.{HandleClaim}
use nim_connect.Market.State.{TradeState, Trade}
use nim_connect.Market.Tables.{Tables}
use nim_connect.Market.Store.{MarketError, listing_trade_blocks_relist}
use nim_connect.Market.Store.Updates.{IsGentle}
use nim_connect.Market.World.{M}
use nim_connect.Market.Kept.{
  IsKept, Keeps, Keeps-pure, Keeps-query, Keeps-if, Keeps-transact, Keeps-read_clock, keeps_rules,
}
use nim_connect.Market.Kept.Workers.{move-Keeps}
use nim_connect.Market.Runs.Laws.{release-Keeps}
use nim_connect.Market.Handlers.{
  Response, settle_with, or_respond, ListingRequest, ReserveRequest, CancelRequest, signing_time,
  list_for, create_listing_handler, await_deposit, reserve_for, reserve_handler, cancel_for,
  cancel_by, cancel_known, claimed_actor, cancel_handler,
}

escrow-IsGentle : (a : Text) → IsGentle (λ t. record t { escrow_address = a })
escrow-IsGentle a = record {
  same_id = λ t. refl;
  same_reference = λ t. refl;
  same_handle = λ t. refl;
  same_buyer = λ t. refl;
  same_seller = λ t. refl;
  same_price = λ t. refl;
  same_fee = λ t. refl;
  same_payout_mark = λ t. refl;
  same_refund_mark = λ t. refl;
  deposit_before = λ t h. h;
}

module _ {A B : Type 0} {Q : Tables → Type 0} where
  settle_with-Keeps :
      (r : Result MarketError A) (refused : Response B) (next : A → M (Response B))
      → ((a : A) → Keeps Q (next a))
      → Keeps Q (settle_with r refused next)
  settle_with-Keeps (ok a) refused next k = k a
  settle_with-Keeps (err e) refused next k = record { at = λ w h. h }

  or_respond-Keeps :
      (m : M A) (refused : Response B) (next : A → M (Response B))
      → Keeps Q m
      → ((a : A) → Keeps Q (next a))
      → Keeps Q (or_respond m refused next)
  unfolding or_respond
  or_respond-Keeps m refused next km kn = record {
    at = λ w h. let (r, w') = m w in (settle_with-Keeps r refused next kn).at w' (km.at w h);
  }

module _ {Q : Tables → Type 0} (k : IsKept Q) where
  signing_time-Keeps : (bearer : Option (Option Text)) → Keeps Q (signing_time bearer)
  signing_time-Keeps none = Keeps-read_clock
  signing_time-Keeps (some r) = Keeps-pure 0

  known-Keeps :
      {A : Type 0} (o : Option Text) (missing : M A) (next : Text → M A)
      → Keeps Q missing
      → ((a : Text) → Keeps Q (next a))
      → Keeps Q (elim o [ none ↦ missing | some a ↦ next a ])
  known-Keeps none missing next km kn = km
  known-Keeps (some a) missing next km kn = kn a

  module _ (verify_signed : Text → Text → Text → Text → Bool) where
    list_for-Keeps :
        (resolve_handle : Text → Option HandleClaim) (req : ListingRequest) (seller : Text)
        → Keeps Q (list_for verify_signed resolve_handle req seller)
    unfolding list_for
    list_for-Keeps resolve_handle req seller =
        search (keeps_rules, or_respond-Keeps, Keeps-transact, k.by_nonce, k.by_listing) depth 12

    pub create_listing_handler-Keeps :
        (resolve_handle : Text → Option HandleClaim) (cap : ℕ) (bearer : Option (Option Text))
        (body : Option ListingRequest)
        → Keeps Q (create_listing_handler verify_signed resolve_handle cap bearer body)
    unfolding create_listing_handler
    create_listing_handler-Keeps resolve_handle cap bearer none = Keeps-pure _
    create_listing_handler-Keeps resolve_handle cap bearer (some req) =
        Keeps-if _ _ _
          (Keeps-if _ _ _
            (or_respond-Keeps _ _ _ (signing_time-Keeps bearer)
              λ now. known-Keeps _ _ _ (Keeps-pure _) (list_for-Keeps resolve_handle req))
            (Keeps-pure _))
          (Keeps-pure _)

    reserve_for-Keeps :
        (escrow trade_id reference : Text) (counted : List Trade) (req : ReserveRequest)
        (buyer : Text)
        → Keeps Q (reserve_for escrow trade_id reference counted req buyer)
    unfolding reserve_for await_deposit
    reserve_for-Keeps escrow trade_id reference counted req buyer =
        or_respond-Keeps _ _ _ (Keeps-transact _ (k.by_nonce req.nonce)) λ _.
          or_respond-Keeps _ _ _ Keeps-read_clock λ now.
            or_respond-Keeps _ _ _
              (Keeps-transact _ (k.by_reserve req.handle trade_id reference buyer now counted))
              (λ t.
                or_respond-Keeps _ _ _ (move-Keeps k t.id _ _ _ (escrow-IsGentle escrow))
                  λ _. or_respond-Keeps _ _ _ (Keeps-query _ _) λ updated. Keeps-pure _)

    pub reserve_handler-Keeps :
        (escrow trade_id reference : Text) (counted : List Trade) (bearer : Option (Option Text))
        (body : Option ReserveRequest)
        → Keeps Q (reserve_handler verify_signed escrow trade_id reference counted bearer body)
    unfolding reserve_handler
    reserve_handler-Keeps escrow trade_id reference counted bearer none = Keeps-pure _
    reserve_handler-Keeps escrow trade_id reference counted bearer (some req) =
        Keeps-if _ _ _
          (or_respond-Keeps _ _ _ (signing_time-Keeps bearer) λ now.
            known-Keeps _ _ _ (Keeps-pure _)
              (reserve_for-Keeps escrow trade_id reference counted req))
          (Keeps-pure _)

    cancel_for-Keeps : (trade_id nonce : Text) → Keeps Q (cancel_for trade_id nonce)
    unfolding cancel_for listing_trade_blocks_relist
    cancel_for-Keeps trade_id nonce =
        or_respond-Keeps _ _ _ (Keeps-transact _ (k.by_nonce nonce)) λ _.
          or_respond-Keeps _ _ _ (release-Keeps k trade_id TradeState.canceled refl)
            λ _. Keeps-pure _

    cancel_known-Keeps :
        (trade_id : Text) (bearer : Option (Option Text)) (body : Option CancelRequest)
        (found : Option Trade)
        → Keeps Q (cancel_known verify_signed trade_id bearer body found)
    unfolding cancel_by
    cancel_known-Keeps trade_id bearer body none = Keeps-pure _
    cancel_known-Keeps trade_id bearer none (some t) = Keeps-pure _
    cancel_known-Keeps trade_id bearer (some req) (some t) =
        known-Keeps (claimed_actor bearer req.actor) _ _ (Keeps-pure _) λ actor.
          Keeps-if _ _ _
            (Keeps-if _ _ _
              (or_respond-Keeps _ _ _ (signing_time-Keeps bearer)
                λ now. known-Keeps _ _ _ (Keeps-pure _) (λ _. cancel_for-Keeps trade_id req.nonce))
              (Keeps-pure _))
            (Keeps-pure _)

    pub cancel_handler-Keeps :
        (trade_id : Text) (bearer : Option (Option Text)) (body : Option CancelRequest)
        → Keeps Q (cancel_handler verify_signed trade_id bearer body)
    unfolding cancel_handler
    cancel_handler-Keeps trade_id bearer body =
        or_respond-Keeps _ _ _ (Keeps-query _ _) (cancel_known-Keeps trade_id bearer body)
