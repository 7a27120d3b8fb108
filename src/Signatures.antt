-- ===== src/Signatures.antt =====
-- backend/auth.go: the check of a wallet's signature. The hash functions and the check of Ed25519 are
-- arguments. A message is its bytes.
use nim_connect.Base.{
  ℕ, Bool, false, ◌&&◌, Option, none, some, List, [], ◌∷◌, ◌++◌, Text, codes, text_eq, length, take,
  if◌then◌else◌, ◌==◌,
}
use nim_connect.Hex.{hex_decode, trim_prefix, trim_space}
use nim_connect.Address.{compact_address}
use nim_connect.Address.Iban.{user_friendly_address}
use nim_connect.Market.Intents.{format_uint}

-- "\x16Nimiq Signed Message:\n"
abbrev pub signed_message_prefix : Text
signed_message_prefix = 22 ∷ (codes "Nimiq Signed Message:" ++ (10 ∷ []))

unfoldable pub decode_hex_key_material : Text → Option (List ℕ)
decode_hex_key_material value = hex_decode (trim_prefix (codes "0x") (trim_space value))

module _ (blake2b sha256 : List ℕ → List ℕ) (ed25519_verify : List ℕ → List ℕ → List ℕ → Bool) where
  unfoldable pub nimiq_signed_message_hash : Text → List ℕ
  nimiq_signed_message_hash message =
      sha256 (signed_message_prefix ++ (format_uint (length message) ++ message))

  unfoldable pub address_from_public_key : List ℕ → Option Text
  address_from_public_key pub_key =
      if length pub_key == 32 then user_friendly_address (take 20 (blake2b pub_key)) else none

  abbrev pub is_address_of : Option Text → Text → Bool
  is_address_of none claimed = false
  is_address_of (some derived) claimed = text_eq (compact_address derived) (compact_address claimed)

  unfoldable pub verify_decoded : Text → Option (List ℕ) → Option (List ℕ) → Text → Bool
  verify_decoded claimed (some pub_key) (some signature) message =
      (length pub_key == 32)
      && ((length signature == 64)
          && (is_address_of (address_from_public_key pub_key) claimed
              && ed25519_verify pub_key (nimiq_signed_message_hash message) signature))
  verify_decoded claimed _ _ message = false

  -- False is each of the errors of `verifySignedMessage`.
  unfoldable pub verify_signed_message : Text → Text → Text → Text → Bool
  verify_signed_message claimed public_key signature message =
      verify_decoded claimed (decode_hex_key_material public_key)
        (decode_hex_key_material signature) message
