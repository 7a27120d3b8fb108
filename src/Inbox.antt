-- ===== src/Inbox.antt =====
-- backend/inbox_store.go, and the limits and texts of inbox.go. The table `inbox_messages` is the list
-- of its rows; clocks are readings in milliseconds since 1970. The calls of one mailbox come one after
-- another, as its lock has it. `sha256_hex` and `verify_signed` are arguments, and so is what the
-- process draws at random for an id.
pub mod Limits
pub mod Delivery
pub mod Handlers
mod Examples
use nim_connect.Base.{
  ℕ, ◌+◌, ◌-◌, ◌*◌, Bool, true, false, not, ◌&&◌, ◌||◌, Option, none, some, List, [], ◌∷◌, ◌++◌,
  map, Text, codes, text_eq, length, Result, ok, err, ◌>>=◌, ◌>>◌, guard, if◌then◌else◌, find,
  select, exists, every, count, ltb, leb, ◌==◌,
}
use nim_connect.Base.Int.{ℤ, pos, negsuc}
use nim_connect.Address.{compact_address, normalize_address}
use nim_connect.Address.Iban.{is_valid_nimiq_address}
use nim_connect.Market.Intents.{format_int, field}

abbrev pub inbox_max_payload_bytes : ℕ
inbox_max_payload_bytes = 2048

abbrev pub inbox_max_mailbox : ℕ
inbox_max_mailbox = 100

abbrev pub inbox_max_per_sender : ℕ
inbox_max_per_sender = 10

abbrev pub inbox_send_window : ℕ
inbox_send_window = 10 * 60 * 1000

abbrev pub inbox_read_max_age : ℕ
inbox_read_max_age = 14 * 24 * 60 * 60 * 1000

abbrev pub inbox_retention : ℕ
inbox_retention = 60 * 24 * 60 * 60 * 1000

-- A row, whose two addresses are in the compact spelling.
pub record InboxMessage : Type 0 where
  pub id : Text
  pub version : ℤ
  pub kind : Text
  pub object_id : Text
  pub nonce : Text
  pub sender : Text
  pub recipient : Text
  pub payload : Text
  pub sent_at : ℤ
  pub received_at : ℕ
  pub public_key : Text
  pub signature : Text
  pub auth_mode : Text
  pub auth_session_id : Text
  pub auth_audience : Text

pub record InboxSendRequest : Type 0 where
  pub version : ℤ
  pub kind : Text
  pub object_id : Text
  pub nonce : Text
  pub sender : Text
  pub recipient : Text
  pub payload : Text
  pub sent_at : ℤ
  pub public_key : Text
  pub signature : Text

-- How a message is authorized; the signature is checked in the first way only.
pub data InboxAuth : Type 0 where
  wallet_signature : InboxAuth
  scoped_session : Text → Text → InboxAuth

pub data InboxError : Type 0 where
  bad_request unauthorized conflict too_many not_found unavailable : InboxError

unfoldable pub inbox_send_message : Text → Text → ℤ → Text → Text → Text → Text
inbox_send_message sender recipient sent_at nonce_text object_id payload_hash =
    codes "nimconnect:inbox:send:v1"
    ++ (field (codes "sender") (compact_address sender)
        ++ (field (codes "recipient") (compact_address recipient)
            ++ (field (codes "sentAt") (format_int sent_at)
                ++ (field (codes "nonce") nonce_text
                    ++ (field (codes "objectId") object_id
                        ++ field (codes "payloadHash") payload_hash)))))

unfoldable pub inbox_read_message : Text → ℤ → Text
inbox_read_message address issued_at =
    codes "nimconnect:inbox:read:v1"
    ++ (field (codes "address") (compact_address address)
        ++ field (codes "issuedAt") (format_int issued_at))

abbrev pub is_hex_char : ℕ → Bool
is_hex_char c = (leb b'0' c && leb c b'9') || (leb b'a' c && leb c b'f')

-- ^[0-9a-f]{32}$
unfoldable pub is_inbox_nonce : Text → Bool
is_inbox_nonce s = (length s == 32) && every is_hex_char s

-- The characters of a message id at the indices from i on.
unfoldable pub is_id_from : ℕ → Text → Bool
is_id_from i [] = true
is_id_from i (c ∷ cs) =
    let rest = is_id_from (i + 1) cs in
    (if i == 8 || (i == 13 || (i == 18 || i == 23)) then c == b'-' else is_hex_char c) && rest

unfoldable pub is_message_id : Text → Bool
is_message_id s = (length s == 36) && is_id_from 0 s

abbrev pub is_one : ℤ → Bool
is_one (pos n) = n == 1
is_one (negsuc n) = false

abbrev pub is_positive : ℤ → Bool
is_positive (pos n) = ltb 0 n
is_positive (negsuc n) = false

abbrev pub checks_signature : InboxAuth → Bool
checks_signature InboxAuth.wallet_signature = true
checks_signature (InboxAuth.scoped_session id audience) = false

-- The first tests of `put`, which all fail alike.
unfoldable pub is_well_formed : InboxAuth → InboxSendRequest → Bool
is_well_formed auth req =
    (is_one req.version && text_eq req.kind (codes "payment-request"))
    && ((not (text_eq req.object_id []) && leb (length req.object_id) 128)
        && (is_inbox_nonce req.nonce
            && ((not (text_eq req.payload []) && leb (length req.payload) inbox_max_payload_bytes)
                && ((is_valid_nimiq_address req.sender && is_valid_nimiq_address req.recipient)
                    && (is_positive req.sent_at
                        && not (
                            checks_signature auth
                            && (text_eq req.public_key [] || text_eq req.signature [])))))))

-- Neither `drift > windowMs` nor `drift < -windowMs`, of a time above 0.
abbrev pub is_in_window : ℕ → ℤ → Bool
is_in_window now (pos t) = leb now (t + inbox_send_window) && leb t (now + inbox_send_window)
is_in_window now (negsuc t) = leb (now + t + 1) inbox_send_window

module _ (sha256_hex : Text → Text) (verify_signed : Text → Text → Text → Text → Bool) where
  abbrev pub is_authentic : InboxAuth → InboxSendRequest → Bool
  is_authentic (InboxAuth.scoped_session id audience) req = true
  is_authentic InboxAuth.wallet_signature req =
      verify_signed req.sender req.public_key req.signature (
        inbox_send_message req.sender req.recipient req.sent_at req.nonce req.object_id
          (sha256_hex req.payload))

  -- What `put` asks of a request before it takes the mailbox's lock.
  unfoldable pub admit : InboxAuth → ℕ → InboxSendRequest → Result InboxError (Unit {0})
  admit auth now req = do
    guard (is_well_formed auth req) InboxError.bad_request
    guard (is_authentic auth req) InboxError.unauthorized
    guard (is_in_window now req.sent_at) InboxError.conflict

abbrev pub has_sender_nonce : Text → Text → InboxMessage → Bool
has_sender_nonce sender nonce_text m = text_eq m.sender sender && text_eq m.nonce nonce_text

abbrev pub has_message_id : Text → InboxMessage → Bool
has_message_id id m = text_eq m.id id

abbrev pub is_to : Text → InboxMessage → Bool
is_to recipient m = text_eq m.recipient recipient

abbrev pub is_to_from : Text → Text → InboxMessage → Bool
is_to_from recipient sender m = is_to recipient m && text_eq m.sender sender

unfoldable pub find_by_sender_nonce : Text → Text → List InboxMessage → Option InboxMessage
find_by_sender_nonce sender nonce_text ms = find (has_sender_nonce sender nonce_text) ms

abbrev pub mode_name : InboxAuth → Text
mode_name InboxAuth.wallet_signature = codes "wallet_signature"
mode_name (InboxAuth.scoped_session id audience) = codes "scoped_session"

abbrev pub session_id : InboxAuth → Text
session_id InboxAuth.wallet_signature = []
session_id (InboxAuth.scoped_session id audience) = id

abbrev pub session_audience : InboxAuth → Text
session_audience InboxAuth.wallet_signature = []
session_audience (InboxAuth.scoped_session id audience) = audience

abbrev pub new_message : InboxAuth → Text → ℕ → InboxSendRequest → InboxMessage
new_message auth id now req = record {
  id = id;
  version = req.version;
  kind = req.kind;
  object_id = req.object_id;
  nonce = req.nonce;
  sender = compact_address req.sender;
  recipient = compact_address req.recipient;
  payload = req.payload;
  sent_at = req.sent_at;
  received_at = now;
  public_key = req.public_key;
  signature = req.signature;
  auth_mode = mode_name auth;
  auth_session_id = session_id auth;
  auth_audience = session_audience auth;
}

abbrev pub InboxTx : Type 0 → Type 0
InboxTx A = List InboxMessage → Result InboxError (A × List InboxMessage)

-- The answer is the id, and whether it is an earlier message's.
abbrev pub earlier_id :
    Option InboxMessage → List InboxMessage → Result InboxError ((Text × Bool) × List InboxMessage)
earlier_id none ms = err InboxError.not_found
earlier_id (some m) ms = ok ((m.id, true), ms)

-- The id and the pair of sender and nonce are unique.
abbrev pub breaks_unique : InboxMessage → List InboxMessage → Bool
breaks_unique m ms =
    exists (has_message_id m.id) ms || exists (has_sender_nonce m.sender m.nonce) ms

unfoldable pub insert_message : InboxMessage → InboxTx (Text × Bool)
insert_message m ms =
    if breaks_unique m ms
    then earlier_id (find_by_sender_nonce m.sender m.nonce ms) ms
    else ok ((m.id, false), m ∷ ms)

unfoldable pub deliver : Option InboxMessage → InboxMessage → InboxTx (Text × Bool)
deliver (some earlier) m ms = ok ((earlier.id, true), ms)
deliver none m ms =
    if leb inbox_max_mailbox (count (is_to m.recipient) ms)
      || leb inbox_max_per_sender (count (is_to_from m.recipient m.sender) ms)
    then err InboxError.too_many
    else insert_message m ms

module _ (sha256_hex : Text → Text) (verify_signed : Text → Text → Text → Text → Bool) where
  unfoldable pub put : InboxAuth → ℕ → Text → InboxSendRequest → InboxTx (Text × Bool)
  put auth now new_id req ms =
      let m = new_message auth new_id now req in
      do
        admit sha256_hex verify_signed auth now req
        deliver (find_by_sender_nonce m.sender m.nonce ms) m ms

  abbrev pub put_signed : ℕ → Text → InboxSendRequest → InboxTx (Text × Bool)
  put_signed now new_id req ms = put InboxAuth.wallet_signature now new_id req ms

  -- The sender is the actor, whatever the request says.
  abbrev pub put_authorized :
      Text → Text → Text → ℕ → Text → InboxSendRequest → InboxTx (Text × Bool)
  put_authorized actor grant_id audience now new_id req ms =
      put (InboxAuth.scoped_session grant_id audience) now new_id (record req { sender = actor }) ms

abbrev pub is_fresh_or_other : Text → ℕ → InboxMessage → Bool
is_fresh_or_other recipient now m =
    not (is_to recipient m && ltb (m.received_at + inbox_retention) now)

-- A message as it is read, with its addresses spaced.
abbrev pub shown : InboxMessage → InboxMessage
shown m = record m {
  sender = normalize_address m.sender;
  recipient = normalize_address m.recipient;
}

unfoldable pub insert_by_time : InboxMessage → List InboxMessage → List InboxMessage
insert_by_time m [] = m ∷ []
insert_by_time m (x ∷ xs) =
    let rest = insert_by_time m xs in
    if leb m.received_at x.received_at then m ∷ x ∷ xs else x ∷ rest

-- ORDER BY received_at; equal times stay in the order of the rows, one of those that it allows.
unfoldable pub by_time : List InboxMessage → List InboxMessage
by_time [] = []
by_time (m ∷ ms) = insert_by_time m (by_time ms)

unfoldable pub list_inbox : Text → ℕ → InboxTx (List InboxMessage)
list_inbox address now ms =
    let kept = select (is_fresh_or_other (compact_address address) now) ms in
    do
      guard (is_valid_nimiq_address address) InboxError.bad_request
      ok (map shown (by_time (select (is_to (compact_address address)) kept)), kept)

abbrev pub is_message_of : Text → Text → InboxMessage → Bool
is_message_of recipient id m = is_to recipient m && has_message_id id m

unfoldable pub delete_message : Text → Text → InboxTx (Unit {0})
delete_message address id ms =
    let is_it = is_message_of (compact_address address) id in
    do
      guard (is_valid_nimiq_address address && is_message_id id) InboxError.bad_request
      guard (exists is_it ms) InboxError.not_found
      ok (tt, select (λ m. not (is_it m)) ms)
