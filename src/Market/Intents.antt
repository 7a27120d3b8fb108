-- ===== src/Market/Intents.antt =====
-- backend/marketplace_intents.go: the messages that a wallet signs. `verify_signed` stands for
-- `verifySignedMessage`: of an address, a public key, a signature and a message.
pub mod Domains
use nim_connect.Base.{
  ℕ, zero, suc, ◌+◌, ◌/◌, ◌%◌, Bool, true, false, List, [], ◌∷◌, ◌++◌, Text, codes, Result, ok, err,
  ◌>>=◌, ◌>>◌, guard, not, ltb, if◌then◌else◌, ◌==◌,
}
use nim_connect.Base.Int.{ℤ, pos, negsuc}
use nim_connect.Address.{compact_address}

digits : ℕ → ℕ → Text → Text
digits zero n rest = rest
digits (suc fuel) n rest =
    let more = digits fuel (n / 10) ((b'0' + n % 10) ∷ rest) in
    if ltb n 10 then (b'0' + n) ∷ rest else more

-- strconv.FormatUint(n, 10); a uint64 has at most twenty digits.
unfoldable pub format_uint : ℕ → Text
unfolding digits
format_uint n = digits 20 n []

-- strconv.FormatInt(z, 10)
unfoldable pub format_int : ℤ → Text
unfolding format_uint
format_int (pos n) = format_uint n
format_int (negsuc n) = b'-' ∷ format_uint (n + 1)

-- A line of a message: its name and its value, after a line feed.
abbrev pub field : Text → Text → Text
field name value = 10 ∷ (name ++ (b'=' ∷ value))

unfoldable pub marketplace_listing_message : Text → Text → ℕ → ℕ → Text → Text → ℤ → Text
marketplace_listing_message handle seller price_luna fee_luna epoch nonce expires_at =
    codes "nimconnect:marketplace-listing:v1"
    ++ (field (codes "handle") handle
        ++ (field (codes "seller") (compact_address seller)
            ++ (field (codes "price_luna") (format_uint price_luna)
                ++ (field (codes "fee_luna") (format_uint fee_luna)
                    ++ (field (codes "ownership_epoch_tx_hash") epoch
                        ++ (field (codes "nonce") nonce
                            ++ field (codes "expires_at") (format_int expires_at)))))))

unfoldable pub marketplace_purchase_message : Text → Text → Text → Text → ℤ → Text
marketplace_purchase_message handle buyer refund_address nonce expires_at =
    codes "nimconnect:marketplace-purchase:v1"
    ++ (field (codes "handle") handle
        ++ (field (codes "buyer") (compact_address buyer)
            ++ (field (codes "refund_address") (compact_address refund_address)
                ++ (field (codes "nonce") nonce
                    ++ field (codes "expires_at") (format_int expires_at)))))

unfoldable pub marketplace_trades_lookup_message : Text → Text → ℤ → Text
marketplace_trades_lookup_message address nonce expires_at =
    codes "nimconnect:marketplace-trades-lookup:v1"
    ++ (field (codes "address") (compact_address address)
        ++ (field (codes "nonce") nonce ++ field (codes "expires_at") (format_int expires_at)))

unfoldable pub marketplace_cancel_message : Text → Text → Text → ℤ → Text
marketplace_cancel_message trade_id actor nonce expires_at =
    codes "nimconnect:marketplace-cancel:v1"
    ++ (field (codes "trade_id") trade_id
        ++ (field (codes "actor") (compact_address actor)
            ++ (field (codes "nonce") nonce ++ field (codes "expires_at") (format_int expires_at))))

-- time.Now().Unix() > expiresAt
abbrev pub is_expired : ℕ → ℤ → Bool
is_expired now (pos n) = ltb n now
is_expired now (negsuc n) = true

pub data IntentError : Type 0 where
  expired bad_signature : IntentError

module _ (verify_signed : Text → Text → Text → Text → Bool) where
  -- The check that the four `verify…Intent` share: the signer of the message, and its expiry.
  abbrev pub verify_intent : ℕ → ℤ → Text → Text → Text → Text → Result IntentError (Unit {0})
  verify_intent now expires_at signer public_key signature message =
      guard (not (is_expired now expires_at)) expired
      >> guard (verify_signed signer public_key signature message) bad_signature

  unfoldable pub verify_listing_intent :
      ℕ → Text → Text → ℕ → ℕ → Text → Text → ℤ → Text → Text → Result IntentError (Unit {0})
  verify_listing_intent now handle seller price_luna fee_luna epoch nonce expires_at public_key
        signature =
      verify_intent now expires_at seller public_key signature
        (marketplace_listing_message handle seller price_luna fee_luna epoch nonce expires_at)

  unfoldable pub verify_purchase_intent :
      ℕ → Text → Text → Text → Text → ℤ → Text → Text → Result IntentError (Unit {0})
  verify_purchase_intent now handle buyer refund_address nonce expires_at public_key signature =
      verify_intent now expires_at buyer public_key signature
        (marketplace_purchase_message handle buyer refund_address nonce expires_at)

  unfoldable pub verify_trades_lookup_intent :
      ℕ → Text → Text → ℤ → Text → Text → Result IntentError (Unit {0})
  verify_trades_lookup_intent now address nonce expires_at public_key signature =
      verify_intent now expires_at address public_key signature
        (marketplace_trades_lookup_message address nonce expires_at)

  unfoldable pub verify_cancel_intent :
      ℕ → Text → Text → Text → ℤ → Text → Text → Result IntentError (Unit {0})
  verify_cancel_intent now trade_id actor nonce expires_at public_key signature =
      verify_intent now expires_at actor public_key signature
        (marketplace_cancel_message trade_id actor nonce expires_at)
