-- ===== src/Inbox/Handlers.antt =====
-- backend/inbox_handlers.go. A body is none where it is no JSON. `bearer` is none without a bearer token,
-- and else what `resolveScopedActor` answers. The X-Inbox headers come parsed: the time is none where it
-- is no int64, which lies between -2^63 and 2^63.
use nim_connect.Base.{
  ℕ, ◌+◌, ◌^◌, ◌≤◌, ◌≡◌, ◌↔◌, ◌⊎◌, Bool, true, false, not, ◌&&◌, ◌||◌, Option, none, some, List,
  Text, text_eq, Result, ok, err, if◌then◌else◌, ltb, arith,
}
use nim_connect.Base.Int.{ℤ, pos, negsuc}
use nim_connect.Address.{compact_address}
use nim_connect.Address.Iban.{is_valid_nimiq_address}
use nim_connect.Auth.Handlers.{AuthActor}
use nim_connect.Inbox.{
  InboxMessage, InboxSendRequest, InboxAuth, InboxError, inbox_send_window, inbox_read_max_age,
  inbox_read_message, put, list_inbox, delete_message,
}

pub data InboxReply (A : Type 0) : Type 0 where
  bad_request unauthorized conflict too_many_requests not_found unavailable : InboxReply A
  answered : A → InboxReply A

module _ {A : Type 0} where
  abbrev pub post_reply :
      Result InboxError (A × List InboxMessage)
      → List InboxMessage
      → InboxReply A × List InboxMessage
  post_reply (ok (a, ms')) ms = (InboxReply.answered a, ms')
  post_reply (err InboxError.bad_request) ms = (InboxReply.bad_request, ms)
  post_reply (err InboxError.unauthorized) ms = (InboxReply.unauthorized, ms)
  post_reply (err InboxError.conflict) ms = (InboxReply.conflict, ms)
  post_reply (err InboxError.too_many) ms = (InboxReply.too_many_requests, ms)
  post_reply (err _) ms = (InboxReply.unavailable, ms)

  abbrev pub list_reply :
      Result InboxError (A × List InboxMessage)
      → List InboxMessage
      → InboxReply A × List InboxMessage
  list_reply (ok (a, ms')) ms = (InboxReply.answered a, ms')
  list_reply (err e) ms = (InboxReply.unavailable, ms)

  abbrev pub delete_reply :
      Result InboxError (A × List InboxMessage)
      → List InboxMessage
      → InboxReply A × List InboxMessage
  delete_reply (ok (a, ms')) ms = (InboxReply.answered a, ms')
  delete_reply (err InboxError.bad_request) ms = (InboxReply.bad_request, ms)
  delete_reply (err InboxError.not_found) ms = (InboxReply.not_found, ms)
  delete_reply (err _) ms = (InboxReply.unavailable, ms)

-- now.UnixMilli()-issuedAt > maxAgeMs, on int64, where the difference wraps
abbrev pub is_too_old : ℕ → ℤ → Bool
is_too_old now (pos t) = ltb (t + inbox_read_max_age) now
is_too_old now (negsuc t) =
    let age = now + t + 1 in if ltb age (2 ^ 63) then ltb inbox_read_max_age age else false

-- issued.After(now.Add(inboxSendWindow))
abbrev pub is_too_new : ℕ → ℤ → Bool
is_too_new now (pos t) = ltb (now + inbox_send_window) t
is_too_new now (negsuc t) = false

unfoldable pub is_current : ℕ → ℤ → Bool
is_current now issued_at = not (is_too_old now issued_at || is_too_new now issued_at)

pub record ReadHeaders : Type 0 where
  pub issued_at : Option ℤ
  pub public_key : Text
  pub signature : Text

module _ (sha256_hex : Text → Text) (verify_signed : Text → Text → Text → Text → Bool) where
  abbrev pub is_signed_read : Text → ReadHeaders → ℕ → Option ℤ → Bool
  is_signed_read address h now none = false
  is_signed_read address h now (some issued_at) =
      is_current now issued_at
      && verify_signed address h.public_key h.signature (inbox_read_message address issued_at)

  -- False is the error.
  unfoldable pub inbox_read_auth : Text → ReadHeaders → ℕ → Bool
  inbox_read_auth address h now = is_signed_read address h now h.issued_at

  abbrev pub may_read : Option (Option AuthActor) → Text → ReadHeaders → ℕ → Bool
  may_read none address h now = inbox_read_auth address h now
  may_read (some none) address h now = false
  may_read (some (some actor)) address h now =
      text_eq (compact_address actor.address) (compact_address address)

  unfoldable pub inbox_post_handler :
      Option (Option AuthActor)
      → ℕ
      → Text
      → Option InboxSendRequest
      → List InboxMessage
      → InboxReply (Text × Bool) × List InboxMessage
  inbox_post_handler bearer now new_id none ms = (InboxReply.bad_request, ms)
  inbox_post_handler none now new_id (some req) ms =
      post_reply (put sha256_hex verify_signed InboxAuth.wallet_signature now new_id req ms) ms
  inbox_post_handler (some none) now new_id (some req) ms = (InboxReply.unauthorized, ms)
  inbox_post_handler (some (some actor)) now new_id (some req) ms =
      post_reply
        (put sha256_hex verify_signed (InboxAuth.scoped_session actor.session_id actor.audience) now
          new_id (record req { sender = actor.address }) ms)
        ms

  -- The two readings of the clock are the handler's and the store's.
  unfoldable pub inbox_list_handler :
      Option (Option AuthActor)
      → ReadHeaders
      → ℕ
      → ℕ
      → Text
      → List InboxMessage
      → InboxReply (List InboxMessage) × List InboxMessage
  inbox_list_handler bearer h now listed address ms =
      if not (is_valid_nimiq_address address)
      then (InboxReply.bad_request, ms)
      else if not (may_read bearer address h now)
      then (InboxReply.unauthorized, ms)
      else list_reply (list_inbox address listed ms) ms

  unfoldable pub inbox_delete_handler :
      Option (Option AuthActor)
      → ReadHeaders
      → ℕ
      → Text
      → Text
      → List InboxMessage
      → InboxReply (Unit {0}) × List InboxMessage
  inbox_delete_handler bearer h now address id ms =
      if not (is_valid_nimiq_address address)
      then (InboxReply.bad_request, ms)
      else if not (may_read bearer address h now)
      then (InboxReply.unauthorized, ms)
      else delete_reply (delete_message address id ms) ms

-- A permission to read that was signed for a time t after 1970 holds exactly from ten minutes before
-- that time to 14 days after it; one for a time t + 1 milliseconds before 1970 holds exactly while it is
-- no older than 14 days, and from the time on when its age is 2^63 milliseconds, which no int64 holds.
pub is_current_iff :
    (now t : ℕ)
    → ((is_current now (pos t) ≡ true)
        ↔ ((now ≤ t + inbox_read_max_age) × (t ≤ now + inbox_send_window)))
      × ((is_current now (negsuc t) ≡ true)
          ↔ ((now + t + 1 ≤ inbox_read_max_age) ⊎ (2 ^ 63 ≤ now + t + 1)))
unfolding is_current
is_current_iff now t = (ground arith, ground arith)
