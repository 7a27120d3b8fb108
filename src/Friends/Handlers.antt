-- ===== src/Friends/Handlers.antt =====
-- backend/friends_handlers.go: the six routes. `actor` is the address that `requireUserSessionScope`
-- answers, none where it refuses; a body is none where it is no JSON. What the registry's `Resolve` and
-- `ResolveAddress` and the profiles' display name give are arguments, as is what the clocks, the random
-- ids and the database give to a call.
use nim_connect.Base.{
  ℕ, Bool, true, false, not, Option, none, some, List, [], map, Text, codes, text_eq, Result, ok,
  err, if◌then◌else◌,
}
use nim_connect.Hex.{trim_space, trim_prefix}
use nim_connect.Address.{compact_address}
use nim_connect.Address.Iban.{is_valid_nimiq_address}
use nim_connect.Claims.{HandleClaim}
use nim_connect.Handles.{is_valid_handle}
use nim_connect.Friends.{
  Friendship, FriendError, is_pending, send_request, accept, decline, remove_friend, list_friends,
  list_requests,
}
use nim_connect.Friends.Limiter.{Limiter, allow}

pub data FriendReply (A : Type 0) : Type 0 where
  unauthorized bad_request not_found too_many_requests conflict unavailable : FriendReply A
  answered : A → FriendReply A

pub record FriendEntry : Type 0 where
  pub address : Text
  pub handle : Option Text
  pub display_name : Text
  pub status : Text
  pub friendship_id : Text

-- The table, and the limiter of each address.
pub record FriendDesk : Type 0 where
  pub rows : List Friendship
  pub limiters : Text → Limiter

-- How a commit ends: a `lost` one takes effect, and its error is that of the connection.
pub data Commit : Type 0 where
  done refused lost : Commit

-- What a call meets outside: the limiter's clock, the store's clock, its random id, the database.
pub record FriendCircumstances : Type 0 where
  pub limiter_now : ℕ
  pub now : ℕ
  pub new_id : Option Text
  pub commits : Commit

abbrev pub claim_address : Option HandleClaim → Result FriendError Text
claim_address none = err FriendError.not_found
claim_address (some claim) = ok claim.address

abbrev pub claim_handle : Option HandleClaim → Option Text
claim_handle none = none
claim_handle (some claim) = some claim.handle

unfoldable pub resolve_friend_target : (Text → Option HandleClaim) → Text → Result FriendError Text
unfolding trim_space trim_prefix
resolve_friend_target resolve to =
    let target = trim_prefix (codes "@") (trim_space to) in
    if text_eq target []
    then err FriendError.bad_request
    else if is_valid_handle target
    then claim_address (resolve target)
    else if is_valid_nimiq_address target
    then ok target
    else err FriendError.bad_request

abbrev pub other_side : Text → Friendship → Text
other_side actor f =
    if text_eq (compact_address f.requester) (compact_address actor)
    then compact_address f.recipient
    else compact_address f.requester

abbrev pub entry_status : Text → Friendship → Text
entry_status actor f =
    if is_pending f.status
    then if text_eq (compact_address f.requester) (compact_address actor)
      then codes "pending_out"
      else codes "pending_in"
    else codes "accepted"

abbrev pub enrich_friend_entry :
    (Text → Option HandleClaim) → (Text → Text) → Text → Friendship → FriendEntry
enrich_friend_entry resolve_address display_name actor f = record {
  address = other_side actor f;
  handle = claim_handle (resolve_address (other_side actor f));
  display_name = display_name (other_side actor f);
  status = entry_status actor f;
  friendship_id = f.id;
}

abbrev pub use_limiter : Text → Limiter → FriendDesk → FriendDesk
use_limiter key l d = record d { limiters = λ k. if text_eq k key then l else d.limiters k }

module _ (resolve resolve_address : Text → Option HandleClaim) (display_name : Text → Text) where
  abbrev pub friend_entries : Text → List Friendship → List FriendEntry
  friend_entries actor fs = map (enrich_friend_entry resolve_address display_name actor) fs

  -- `queried` is false where the query fails.
  abbrev pub friends_list_handler :
      Bool → Option Text → List Friendship → FriendReply (List FriendEntry)
  friends_list_handler queried none fs = FriendReply.unauthorized
  friends_list_handler true (some actor) fs =
      FriendReply.answered (friend_entries actor (list_friends actor fs))
  friends_list_handler false (some actor) fs = FriendReply.unavailable

  abbrev pub friends_requests_handler :
      Bool → Option Text → List Friendship → FriendReply (List FriendEntry)
  friends_requests_handler queried none fs = FriendReply.unauthorized
  friends_requests_handler true (some actor) fs =
      FriendReply.answered (friend_entries actor (list_requests actor fs))
  friends_requests_handler false (some actor) fs = FriendReply.unavailable

  -- `SendRequest`'s answer, where a commit that fails, or whose answer is lost, is an error like another.
  abbrev pub sent_reply :
      Commit
      → Text
      → Result FriendError (Friendship × List Friendship)
      → FriendDesk
      → FriendReply FriendEntry × FriendDesk
  sent_reply commits actor (err FriendError.bad_request) d = (FriendReply.bad_request, d)
  sent_reply commits actor (err FriendError.conflict) d = (FriendReply.conflict, d)
  sent_reply commits actor (err _) d = (FriendReply.unavailable, d)
  sent_reply Commit.done actor (ok (f, fs)) d = (
    FriendReply.answered (enrich_friend_entry resolve_address display_name actor f),
    record d { rows = fs },
  )
  sent_reply Commit.refused actor (ok (f, fs)) d = (FriendReply.unavailable, d)
  sent_reply Commit.lost actor (ok (f, fs)) d = (FriendReply.unavailable, record d { rows = fs })

  -- From the rate limit on.
  unfoldable pub send_limited :
      FriendCircumstances → Text → Text → FriendDesk → FriendReply FriendEntry × FriendDesk
  send_limited at actor to d =
      let key = compact_address actor in
      let (passes, l) = allow at.limiter_now (d.limiters key) in
      let d' = use_limiter key l d in
      if passes
      then sent_reply at.commits actor (send_request at.new_id actor to at.now d.rows) d'
      else (FriendReply.too_many_requests, d')

  abbrev pub send_target :
      FriendCircumstances
      → Text
      → Result FriendError Text
      → FriendDesk
      → FriendReply FriendEntry × FriendDesk
  send_target at actor (err FriendError.not_found) d = (FriendReply.not_found, d)
  send_target at actor (err _) d = (FriendReply.bad_request, d)
  send_target at actor (ok to) d = send_limited at actor to d

  unfoldable pub friends_send_request_handler :
      FriendCircumstances
      → Option Text
      → Option Text
      → FriendDesk
      → FriendReply FriendEntry × FriendDesk
  friends_send_request_handler at none body d = (FriendReply.unauthorized, d)
  friends_send_request_handler at (some actor) none d = (FriendReply.bad_request, d)
  friends_send_request_handler at (some actor) (some to) d =
      send_target at actor (resolve_friend_target resolve to) d

abbrev pub status_reply :
    Commit
    → Result FriendError (Friendship × List Friendship)
    → FriendDesk
    → FriendReply (Unit {0}) × FriendDesk
status_reply commits (err FriendError.unauthorized) d = (FriendReply.unauthorized, d)
status_reply commits (err FriendError.not_found) d = (FriendReply.not_found, d)
status_reply commits (err _) d = (FriendReply.unavailable, d)
status_reply Commit.done (ok (f, fs)) d = (FriendReply.answered tt, record d { rows = fs })
status_reply Commit.refused (ok (f, fs)) d = (FriendReply.unavailable, d)
status_reply Commit.lost (ok (f, fs)) d = (FriendReply.unavailable, record d { rows = fs })

-- `friendsStatusHandler`, with `store.Accept` or `store.Decline`.
unfoldable pub friends_status_handler :
    Bool
    → FriendCircumstances
    → Option Text
    → Text
    → FriendDesk
    → FriendReply (Unit {0}) × FriendDesk
friends_status_handler accepts at none id d = (FriendReply.unauthorized, d)
friends_status_handler accepts at (some actor) id d =
    if text_eq id []
    then (FriendReply.bad_request, d)
    else status_reply at.commits
        (if accepts then accept id actor at.now d.rows else decline id actor at.now d.rows) d

abbrev pub remove_reply :
    Commit
    → Result FriendError (Unit {0} × List Friendship)
    → FriendDesk
    → FriendReply (Unit {0}) × FriendDesk
remove_reply commits (err FriendError.not_found) d = (FriendReply.not_found, d)
remove_reply commits (err _) d = (FriendReply.unavailable, d)
remove_reply Commit.done (ok (u, fs)) d = (FriendReply.answered tt, record d { rows = fs })
remove_reply Commit.refused (ok (u, fs)) d = (FriendReply.unavailable, d)
remove_reply Commit.lost (ok (u, fs)) d = (FriendReply.unavailable, record d { rows = fs })

unfoldable pub friends_remove_handler :
    FriendCircumstances → Option Text → Text → FriendDesk → FriendReply (Unit {0}) × FriendDesk
friends_remove_handler at none other d = (FriendReply.unauthorized, d)
friends_remove_handler at (some actor) other d =
    if not (is_valid_nimiq_address other)
    then (FriendReply.bad_request, d)
    else remove_reply at.commits (remove_friend actor other d.rows) d
