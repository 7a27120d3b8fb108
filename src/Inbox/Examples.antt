-- ===== src/Inbox/Examples.antt =====
-- A message on its way.
use nim_connect.Base.{
  ◌≡◌, refl, Bool, true, false, List, [], ◌∷◌, Text, codes, ok, text_eq, every, exists, find, count,
  arith,
}
use nim_connect.Base.Int.{pos}
use nim_connect.Base.Rows.{In}
use nim_connect.Address.Iban.{is_valid_nimiq_address}
use nim_connect.Address.{compact_address}
use nim_connect.Inbox.{
  InboxMessage, InboxSendRequest, InboxAuth, is_inbox_nonce, is_well_formed, admit,
  find_by_sender_nonce, new_message, insert_message, deliver, put, list_inbox,
}
use nim_connect.Inbox.Limits.{IsInbox, InboxCall, run_calls, run_calls-IsInbox}
use nim_connect.Inbox.Delivery.{put_again, put_then_list}

abbrev same : Text → Text
same t = t

abbrev accepts : Text → Text → Text → Text → Bool
accepts address public_key signature message = true

abbrev wallet : Text
wallet = codes "NQ07 0000 0000 0000 0000 0000 0000 0000 0000"

abbrev request : InboxSendRequest
request = record {
  version = pos 1;
  kind = codes "payment-request";
  object_id = codes "o1";
  nonce = codes "0123456789abcdef0123456789abcdef";
  sender = wallet;
  recipient = wallet;
  payload = codes "p";
  sent_at = pos 1000;
  public_key = codes "pk";
  signature = codes "sig";
}

abbrev auth : InboxAuth
auth = InboxAuth.wallet_signature

admitted : admit same accepts auth 1500 request ≡ ok tt
unfolding admit is_well_formed is_inbox_nonce is_valid_nimiq_address text_eq every
admitted = refl

abbrev stored_messages : List InboxMessage
stored_messages = new_message auth (codes "m1") 1500 request ∷ []

put_first :
    put same accepts auth 1500 (codes "m1") request [] ≡ ok ((codes "m1", false), stored_messages)
unfolding put find_by_sender_nonce deliver insert_message find exists count
put_first = rw admitted refl

put_again_example :
    put same accepts auth 1500 (codes "m2") request stored_messages
    ≡ ok ((codes "m1", true), stored_messages)
put_again_example =
    put_again same accepts auth auth 1500 1500 (codes "m1") (codes "m2") (codes "m1") request
      request [] stored_messages false put_first refl refl admitted

put_then_list_example :
    (out kept : List InboxMessage) × (list_inbox wallet 90000 stored_messages ≡ ok (out, kept))
    × ((x : InboxMessage) × In x out
        × (x.id ≡ codes "m1")
        × (x.received_at ≡ 1500)
        × (compact_address x.sender ≡ compact_address wallet)
        × (compact_address x.recipient ≡ compact_address wallet)
        × (x.version ≡ pos 1)
        × (x.kind ≡ codes "payment-request")
        × (x.object_id ≡ codes "o1")
        × (x.nonce ≡ codes "0123456789abcdef0123456789abcdef")
        × (x.payload ≡ codes "p")
        × (x.sent_at ≡ pos 1000)
        × (x.public_key ≡ codes "pk")
        × (x.signature ≡ codes "sig"))
put_then_list_example =
    put_then_list same accepts auth 1500 90000 (codes "m1") (codes "m1") request [] stored_messages
      put_first (omega arith)

run_calls-IsInbox_example :
    IsInbox (run_calls same accepts (InboxCall.puts auth 1500 (codes "m1") request ∷ []))
run_calls-IsInbox_example =
    run_calls-IsInbox same accepts (InboxCall.puts auth 1500 (codes "m1") request ∷ [])
