-- ===== src/Market/Handlers/Examples.antt =====
-- The requests of the marketplace on concrete inputs.
use nim_connect.Base.{
  ℕ, ◌/◌, ◌*◌, ◌^◌, ◌≤◌, ◌≡◌, ◌≢◌, refl, Bool, true, false, Option, some, none, [], Text, codes, ok,
  err, Result, text_eq, every, find, exists,
}
use nim_connect.Base.Int.{pos, negsuc}
use nim_connect.Address.{compact_address, normalize_address}
use nim_connect.Address.Layout.{normalize-normalize}
use nim_connect.Claims.{HandleClaim}
use nim_connect.Chain.{RpcTx, tx_sender, tx_recipient, tx_data}
use nim_connect.Hex.{hex_encode}
use nim_connect.Handles.{
  is_valid_handle, parse_claim_data, parse_claim_data_from_raw, parse_claim_payload, named_action,
  make_release_payload, make_claim_payload,
}
use nim_connect.Market.State.{Trade, TradeState}
use nim_connect.Market.Tables.{find_listing}
use nim_connect.Market.Store.{
  MarketError, rpc_error, consume_nonce, create_listing, relistable, new_listing,
}
use nim_connect.Market.World.{World, transact, read_clock, pure}
use nim_connect.Market.Intents.{
  verify_listing_intent, marketplace_listing_message, marketplace_purchase_message,
  marketplace_cancel_message, marketplace_trades_lookup_message,
}
use nim_connect.Market.Intents.Domains.{purposes_differ}
use nim_connect.Market.Store.{u64}
use nim_connect.Market.Handlers.{
  ListingRequest, answered, exceeds_fee_cap, create_listing_handler, list_for, or_respond,
}
use nim_connect.Market.Handlers.Guards.{listing_authorized, fee_cap_overflow}
use nim_connect.Market.Submissions.{
  pay, submitted, verify_release_tx, verify_claim_tx, submit_pay_transaction,
}
use nim_connect.Market.Submissions.Verified.{IsActionTx, release_verified, claim_verified}

abbrev signed : Text → Text → Text → Text → Bool
signed address public_key signature message = true

abbrev claim : HandleClaim
claim = record {
  handle = codes "alice";
  address = codes "NQ11";
  tx_hash = codes "e1";
  block_height = 10;
  tx_index = 0;
  claimed_at = 5;
}

abbrev registry : Text → Option HandleClaim
registry h = some claim

abbrev request : ListingRequest
request = record {
  handle = codes "alice";
  seller = codes "NQ11";
  price_luna = 1000;
  fee_luna = 50;
  ownership_epoch_tx_hash = codes "e1";
  nonce = codes "n1";
  expires_at = pos 300;
  public_key = [];
  signature = [];
}

abbrev empty : World
empty = record {
  tables = record { listings = []; trades = []; nonces = []; ledger = [] };
  outcomes = [];
  clock = 200;
  delays = [];
  replies = [];
  sent = [];
}

listed :
    (create_listing_handler signed registry 500 none (some request) empty).0
    ≡ ok (answered (new_listing (codes "alice") (codes "NQ11") 1000 50 (codes "e1") 200))
unfolding create_listing_handler list_for or_respond pure transact read_clock consume_nonce
    create_listing exceeds_fee_cap text_eq compact_address is_valid_handle every find exists
    find_listing relistable verify_listing_intent
listed = refl

listing_authorized_example :
    ((n : ℕ) × (pos 300 ≡ pos n) × (200 ≤ n))
    × (signed (codes "NQ11") [] [] (
          marketplace_listing_message
            (codes "alice")
            (codes "NQ11")
            1000
            50
            (codes "e1")
            (codes "n1")
            (pos 300))
        ≡ true)
    × (exists (text_eq (codes "n1")) [] ≡ false)
    × ((c : HandleClaim) × (registry (codes "alice") ≡ some c)
        × (compact_address c.address ≡ compact_address (codes "NQ11"))
        × (c.tx_hash ≡ codes "e1"))
    × (50 ≤ 1000)
    × (u64 (50 * 10000) / 1000 ≤ 500)
    × ((codes "alice" ≡ codes "alice")
        × (compact_address (codes "NQ11") ≡ compact_address (codes "NQ11"))
        × (request.price_luna ≡ 1000)
        × (request.fee_luna ≡ 50))
listing_authorized_example =
    listing_authorized signed registry request 500 empty
      (new_listing (codes "alice") (codes "NQ11") 1000 50 (codes "e1") 200) listed

fee_cap_overflow_example : exceeds_fee_cap (2 ^ 60) (2 ^ 60) 0 ≡ false
fee_cap_overflow_example = fee_cap_overflow (2 ^ 60) 0

purposes_differ_example :
    (marketplace_listing_message
        (codes "alice")
        (codes "NQ11")
        1000
        50
        (codes "e1")
        (codes "n1")
        (pos 300)
      ≢ marketplace_purchase_message
          (codes "alice")
          (codes "NQ22")
          (codes "NQ22")
          (codes "n2")
          (negsuc 0))
    × (marketplace_listing_message
          (codes "alice")
          (codes "NQ11")
          1000
          50
          (codes "e1")
          (codes "n1")
          (pos 300)
        ≢ marketplace_cancel_message (codes "t1") (codes "NQ11") (codes "n2") (negsuc 0))
    × (marketplace_purchase_message
          (codes "alice")
          (codes "NQ22")
          (codes "NQ22")
          (codes "n1")
          (pos 300)
        ≢ marketplace_cancel_message (codes "t1") (codes "NQ11") (codes "n2") (negsuc 0))
    × (marketplace_trades_lookup_message (codes "NQ11") (codes "n1") (pos 300)
        ≢ marketplace_listing_message
            (codes "alice")
            (codes "NQ11")
            1000
            50
            (codes "e1")
            (codes "n2")
            (negsuc 0))
    × (marketplace_trades_lookup_message (codes "NQ11") (codes "n1") (pos 300)
        ≢ marketplace_purchase_message
            (codes "alice")
            (codes "NQ22")
            (codes "NQ22")
            (codes "n2")
            (negsuc 0))
    × (marketplace_trades_lookup_message (codes "NQ11") (codes "n1") (pos 300)
        ≢ marketplace_cancel_message (codes "t1") (codes "NQ11") (codes "n2") (negsuc 0))
purposes_differ_example =
    purposes_differ (codes "alice") (codes "NQ11") (codes "e1") (codes "n1") (codes "NQ22")
      (codes "NQ22") (codes "t1") (codes "NQ11") (codes "NQ11") 1000 50 (pos 300) (negsuc 0)
      (codes "n2")

abbrev tx_of : Text → Text → RpcTx
tx_of sender payload = record {
  hash = codes "h1";
  sender = sender;
  from = [];
  recipient = codes "REGISTRY";
  to = [];
  data_field = hex_encode payload;
  recipient_data = [];
  value = 1;
  block_number = 20;
  transaction_index = some 0;
  timestamp = 5;
  from_type = 0;
  to_type = 0;
}

abbrev release_tx : RpcTx
release_tx = tx_of (codes "NQ11") (make_release_payload (codes "alice"))

abbrev claim_tx : RpcTx
claim_tx = tx_of (codes "NQ22") (make_claim_payload (codes "alice"))

abbrev trade : Trade
trade = record {
  id = codes "t1";
  reference = codes "r1";
  handle = codes "alice";
  buyer = codes "NQ22";
  seller = codes "NQ11";
  price_luna = 1000;
  fee_luna = 50;
  escrow_address = codes "ESCROW";
  state = TradeState.awaiting_release;
  version = 4;
  deposit_tx_hash = codes "d1";
  deposit_block_height = 12;
  release_tx_hash = [];
  claim_tx_hash = [];
  payout_attempted_at = 0;
  payout_tx_hash = [];
  refund_attempted_at = 0;
  refund_tx_hash = [];
  deposit_deadline = 900;
  created_at = 100;
  updated_at = 100;
}

abbrev no_send : Text → Result MarketError Text
no_send raw_hex = err rpc_error

abbrev found : RpcTx → Text → Result MarketError RpcTx
found tx hash = ok tx

released :
    submitted no_send
      (found release_tx)
      (pay (codes "h1"))
      (λ tx. verify_release_tx tx trade (codes "REGISTRY"))
    ≡ ok (codes "h1")
unfolding submitted submit_pay_transaction verify_release_tx tx_sender tx_recipient tx_data
    compact_address normalize_address text_eq parse_claim_data hex_encode make_release_payload
    parse_claim_data_from_raw parse_claim_payload named_action is_valid_handle
released = refl

claimed :
    submitted no_send
      (found claim_tx)
      (pay (codes "h1"))
      (λ tx. verify_claim_tx tx trade (codes "REGISTRY"))
    ≡ ok (codes "h1")
unfolding submitted submit_pay_transaction verify_claim_tx tx_sender tx_recipient tx_data
    compact_address normalize_address text_eq parse_claim_data hex_encode make_claim_payload
    parse_claim_data_from_raw parse_claim_payload named_action is_valid_handle
claimed = refl

release_verified_example :
    (tx : RpcTx) × (found release_tx (codes "h1") ≡ ok tx)
    × IsActionTx true (codes "NQ11") tx trade (codes "REGISTRY")
release_verified_example =
    release_verified no_send (found release_tx) (pay (codes "h1")) trade (codes "REGISTRY")
      (codes "h1") released

claim_verified_example :
    (tx : RpcTx) × (found claim_tx (codes "h1") ≡ ok tx)
    × IsActionTx false (codes "NQ22") tx trade (codes "REGISTRY")
claim_verified_example =
    claim_verified no_send (found claim_tx) (pay (codes "h1")) trade (codes "REGISTRY") (codes "h1")
      claimed

normalized_twice :
    normalize_address (normalize_address (codes "nq07 0000"))
    ≡ normalize_address (codes "nq07 0000")
normalized_twice = normalize-normalize (codes "nq07 0000")
