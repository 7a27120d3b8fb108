-- ===== src/Market/Intents/Domains.antt =====
-- A message that is signed for one purpose is no message of another.
use nim_connect.Base.{ℕ, ◌≢◌, ap, Text, get_or, arith}
use nim_connect.Base.Int.{ℤ}
use nim_connect.Market.Intents.{
  marketplace_listing_message, marketplace_purchase_message, marketplace_trades_lookup_message,
  marketplace_cancel_message,
}

-- The letter that tells the purposes apart.
abbrev letter : Text → ℕ
letter m = get_or m 23 0

letters_differ : {a b : Text} → letter a ≢ letter b → a ≢ b
letters_differ n e = n (ap letter e)

-- A signature for a purchase or a cancellation authorizes no listing, one for a cancellation
-- authorizes no purchase, and one for a lookup of trades authorizes none of the three.
pub purposes_differ :
    (handle seller epoch nonce buyer refund_address trade_id actor address : Text) (price fee : ℕ)
    (at at' : ℤ) (nonce' : Text)
    → (marketplace_listing_message handle seller price fee epoch nonce at
        ≢ marketplace_purchase_message handle buyer refund_address nonce' at')
      × (marketplace_listing_message handle seller price fee epoch nonce at
          ≢ marketplace_cancel_message trade_id actor nonce' at')
      × (marketplace_purchase_message handle buyer refund_address nonce at
          ≢ marketplace_cancel_message trade_id actor nonce' at')
      × (marketplace_trades_lookup_message address nonce at
          ≢ marketplace_listing_message handle seller price fee epoch nonce' at')
      × (marketplace_trades_lookup_message address nonce at
          ≢ marketplace_purchase_message handle buyer refund_address nonce' at')
      × (marketplace_trades_lookup_message address nonce at
          ≢ marketplace_cancel_message trade_id actor nonce' at')
unfolding marketplace_listing_message marketplace_purchase_message marketplace_trades_lookup_message
    marketplace_cancel_message
purposes_differ handle seller epoch nonce buyer refund_address trade_id actor address price fee at
      at' nonce' =
    (
      letters_differ (λ e. omega (arith, e)),
      letters_differ (λ e. omega (arith, e)),
      letters_differ (λ e. omega (arith, e)),
      letters_differ (λ e. omega (arith, e)),
      letters_differ (λ e. omega (arith, e)),
      letters_differ (λ e. omega (arith, e)),
    )
