-- ===== src/Market/Handlers/Guards.antt =====
-- What a request has to pass before it reaches the store.
use native.Mathlib.Nat.{zero-div}
use nim_connect.Base.{
  ℕ, ◌*◌, ◌/◌, ◌^◌, ◌≤◌, ◌≡◌, refl, Bool, true, false, Option, none, some, Text, text_eq,
  text_eq_iff, ok, arith, exists, Option-cases, inl, inr,
}
use nim_connect.Base.Int.{ℤ, pos, negsuc}
use nim_connect.Address.{compact_address}
use nim_connect.Claims.{HandleClaim}
use nim_connect.Market.State.{Listing}
use nim_connect.Market.Store.{u64, consume_nonce, create_listing}
use nim_connect.Market.World.{World, pure, read_clock, transact}
use nim_connect.Market.Intents.{is_expired, marketplace_listing_message, verify_listing_intent}
use nim_connect.Market.Handlers.{
  answered, or_respond, ListingRequest, exceeds_fee_cap, is_held_by, is_epoch, list_for,
  create_listing_handler,
}

module _ (verify_signed : Text → Text → Text → Text → Bool)
    (resolve_handle : Text → Option HandleClaim) where
  list_for_held :
      (req : ListingRequest) (seller : Text) (w : World) (l : Listing)
      → (list_for verify_signed resolve_handle req seller w).0 ≡ ok (answered l)
      → (is_held_by (resolve_handle req.handle) seller ≡ true)
        × (is_epoch (resolve_handle req.handle) req.ownership_epoch_tx_hash ≡ true)
        × (exists (text_eq req.nonce) w.tables.nonces ≡ false)
        × (l.handle ≡ req.handle)
        × (l.seller ≡ compact_address seller)
        × (l.price_luna ≡ req.price_luna)
        × (l.fee_luna ≡ req.fee_luna)
  unfolding list_for or_respond read_clock pure consume_nonce create_listing transact
  list_for_held req seller w l h = ground arith

  -- What the registry says of the handle that a listing is for.
  held_claim :
      (handle seller epoch : Text)
      → is_held_by (resolve_handle handle) seller ≡ true
      → is_epoch (resolve_handle handle) epoch ≡ true
      → (c : HandleClaim) × (resolve_handle handle ≡ some c)
        × (compact_address c.address ≡ compact_address seller)
        × (c.tx_hash ≡ epoch)
  held_claim handle seller epoch held same = elim (Option-cases (resolve_handle handle)) [
    | inl e ↦ cc (rw e at held)
    | inr (c, e) ↦
        let h = rw e at held in
        let s = rw e at same in
        (
          c,
          e,
          (text_eq_iff (compact_address c.address) (compact_address seller)).0 h,
          (text_eq_iff c.tx_hash epoch).0 s,
        )
  ]

  unexpired :
      (now : ℕ) (expires_at : ℤ)
      → is_expired now expires_at ≡ false
      → (n : ℕ) × (expires_at ≡ pos n) × (now ≤ n)
  unexpired now (pos n) h = (n, refl, ground (arith, h))
  unexpired now (negsuc n) h = cc

  -- What the handler has tested before it goes on as the seller.
  listing_tested :
      (req : ListingRequest) (limit : ℕ) (w : World) (l : Listing)
      → (create_listing_handler verify_signed resolve_handle limit none (some req) w).0
        ≡ ok (answered l)
      → (is_expired w.clock req.expires_at ≡ false)
        × (verify_signed req.seller req.public_key req.signature (
              marketplace_listing_message req.handle req.seller req.price_luna req.fee_luna
                req.ownership_epoch_tx_hash req.nonce req.expires_at)
            ≡ true)
        × (req.fee_luna ≤ req.price_luna)
        × (u64 (req.fee_luna * 10000) / req.price_luna ≤ limit)
        × ((list_for verify_signed resolve_handle req req.seller (read_clock w).1).0
            ≡ ok (answered l))
  unfolding create_listing_handler or_respond read_clock pure verify_listing_intent exceeds_fee_cap
  listing_tested req limit w l h = ground arith

  -- A request without a token that is answered was not expired, carries the seller's signature of the
  -- listing message of all its fields and a nonce that was not used; the registry resolves the handle to
  -- a claim of the seller by the very transaction that was signed; the fee is at most the price and
  -- passes the test of the cap; and the listing is of that handle, seller, price and fee.
  pub listing_authorized :
      (req : ListingRequest) (limit : ℕ) (w : World) (l : Listing)
      → (create_listing_handler verify_signed resolve_handle limit none (some req) w).0
        ≡ ok (answered l)
      → ((n : ℕ) × (req.expires_at ≡ pos n) × (w.clock ≤ n))
        × (verify_signed req.seller req.public_key req.signature (
              marketplace_listing_message req.handle req.seller req.price_luna req.fee_luna
                req.ownership_epoch_tx_hash req.nonce req.expires_at)
            ≡ true)
        × (exists (text_eq req.nonce) w.tables.nonces ≡ false)
        × ((c : HandleClaim) × (resolve_handle req.handle ≡ some c)
            × (compact_address c.address ≡ compact_address req.seller)
            × (c.tx_hash ≡ req.ownership_epoch_tx_hash))
        × (req.fee_luna ≤ req.price_luna)
        × (u64 (req.fee_luna * 10000) / req.price_luna ≤ limit)
        × ((l.handle ≡ req.handle)
            × (l.seller ≡ compact_address req.seller)
            × (l.price_luna ≡ req.price_luna)
            × (l.fee_luna ≡ req.fee_luna))
  unfolding read_clock
  listing_authorized req limit w l h =
      let (in_time, signed, le, capped, listed) = listing_tested req limit w l h in
      let (held, same, fresh, handle, seller, price, fee) =
        list_for_held req req.seller (read_clock w).1 l listed in
      (
        unexpired w.clock req.expires_at in_time,
        signed,
        fresh,
        held_claim req.handle req.seller req.ownership_epoch_tx_hash held same,
        le,
        capped,
        (handle, seller, price, fee),
      )

-- Where it wraps it lets fees pass: a fee of 2 ^ 60 is within every cap, whatever the price is.
pub fee_cap_overflow : (price cap : ℕ) → exceeds_fee_cap (2 ^ 60) price cap ≡ false
unfolding exceeds_fee_cap
fee_cap_overflow price cap = rw (zero-div price) (ground arith)
