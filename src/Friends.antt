-- ===== src/Friends.antt =====
-- backend/friends_store.go: the rows of `friendships`, newest first, and the store's transactions. A
-- method takes the readings of the clock and the random id that it makes; an error rolls back.
pub mod Limiter
pub mod Pairs
pub mod Invariant
pub mod Requests
pub mod Outcomes
pub mod Handlers
mod Examples
use nim_connect.Base.{
  ℕ, Bool, true, false, not, ◌&&◌, ◌||◌, Option, none, some, List, [], ◌∷◌, Text, text_eq, Result,
  ok, err, ◌>>=◌, ◌>>◌, guard, or_fail, if◌then◌else◌, find, select, exists, ltb, ◌==◌,
}
use nim_connect.Base.Rows.{update_where}
use nim_connect.Address.{compact_address}

pub data FriendshipStatus : Type 0 where
  pending accepted declined : FriendshipStatus

pub record Friendship : Type 0 where
  pub id : Text
  pub requester : Text
  pub recipient : Text
  pub status : FriendshipStatus
  pub created_at : ℕ
  pub updated_at : ℕ

pub data FriendError : Type 0 where
  bad_request conflict not_found unauthorized unavailable : FriendError

abbrev pub FriendTx : Type 0 → Type 0
FriendTx A = List Friendship → Result FriendError (A × List Friendship)

abbrev pub has_row_id : Text → Friendship → Bool
has_row_id id f = text_eq f.id id

-- LEAST and GREATEST of the two columns are those of the two addresses.
abbrev pub is_pair : Text → Text → Friendship → Bool
is_pair a b f =
    (text_eq f.requester a && text_eq f.recipient b)
    || (text_eq f.requester b && text_eq f.recipient a)

-- The CASE of `findPair`'s ORDER BY.
abbrev pub rank : FriendshipStatus → ℕ
rank FriendshipStatus.pending = 0
rank FriendshipStatus.accepted = 1
rank FriendshipStatus.declined = 2

-- The row comes before the other one in `findPair`'s order.
abbrev pub is_sooner : Friendship → Friendship → Bool
is_sooner f g =
    ltb (rank f.status) (rank g.status)
    || ((rank f.status == rank g.status) && ltb g.updated_at f.updated_at)

abbrev pub sooner : Friendship → Option Friendship → Option Friendship
sooner f none = some f
sooner f (some g) = if is_sooner g f then some g else some f

-- The row that `findPair` returns, the first of equals; it is none for `errNotFound`.
unfoldable pub find_pair : Text → Text → List Friendship → Option Friendship
find_pair a b [] = none
find_pair a b (f ∷ fs) =
    let rest = find_pair a b fs in if is_pair a b f then sooner f rest else rest

abbrev pub is_active : FriendshipStatus → Bool
is_active FriendshipStatus.declined = false
is_active _ = true

-- The rows that the unique index `friendships_pair_active` counts for a pair.
abbrev pub is_active_pair : Text → Text → Friendship → Bool
is_active_pair a b f = is_active f.status && is_pair a b f

-- The index refuses a second active row of a pair.
abbrev pub breaks_index : Text → Text → Text → List Friendship → Bool
breaks_index id a b fs = exists (λ f. not (has_row_id id f) && is_active_pair a b f) fs

abbrev pub new_friendship : Text → Text → Text → ℕ → Friendship
new_friendship id from to now = record {
  id = id;
  requester = from;
  recipient = to;
  status = FriendshipStatus.pending;
  created_at = now;
  updated_at = now;
}

abbrev pub asked_again : Text → Text → ℕ → Friendship → Friendship
asked_again from to now f = record f {
  requester = from;
  recipient = to;
  status = FriendshipStatus.pending;
  updated_at = now;
}

unfoldable pub insert_request : Option Text → Text → Text → ℕ → FriendTx Friendship
insert_request new_id from to now fs = do
  id ← or_fail new_id unavailable
  guard (not (exists (has_row_id id) fs)) conflict
  guard (not (exists (is_active_pair from to) fs)) conflict
  ok (new_friendship id from to now, new_friendship id from to now ∷ fs)

unfoldable pub renew_request : Friendship → Text → Text → ℕ → FriendTx Friendship
renew_request existing from to now fs = do
  guard (not (breaks_index existing.id from to fs)) unavailable
  ok (
    asked_again from to now existing,
    update_where (has_row_id existing.id) (asked_again from to now) fs,
  )

-- The switch of `SendRequest` on the pair's row.
unfoldable pub request_between :
    Option Friendship → Option Text → Text → Text → ℕ → FriendTx Friendship
request_between none new_id from to now fs = insert_request new_id from to now fs
request_between (some existing) new_id from to now fs = elim existing.status [
  | FriendshipStatus.declined ↦ renew_request existing from to now fs
  | _ ↦ err conflict
]

unfoldable pub send_request : Option Text → Text → Text → ℕ → FriendTx Friendship
send_request new_id from to now fs =
    let a = compact_address from in
    let b = compact_address to in
    do
      guard (not (text_eq a [] || text_eq b [])) bad_request
      guard (not (text_eq a b)) bad_request
      request_between (find_pair a b fs) new_id a b now fs

abbrev pub is_pending : FriendshipStatus → Bool
is_pending FriendshipStatus.pending = true
is_pending _ = false

abbrev pub decided : FriendshipStatus → ℕ → Friendship → Friendship
decided status now f = record f { status = status; updated_at = now }

-- The index can be broken only by an acceptance.
unfoldable pub set_pending_status : Text → Text → FriendshipStatus → ℕ → FriendTx Friendship
set_pending_status id actor status now fs = do
  f ← or_fail (find (has_row_id id) fs) not_found
  guard (is_pending f.status) not_found
  guard (text_eq (compact_address f.recipient) (compact_address actor)) unauthorized
  guard (not (is_active status && breaks_index id f.requester f.recipient fs)) conflict
  ok (decided status now f, update_where (has_row_id id) (decided status now) fs)

abbrev pub accept : Text → Text → ℕ → FriendTx Friendship
accept id actor now = set_pending_status id actor FriendshipStatus.accepted now

abbrev pub decline : Text → Text → ℕ → FriendTx Friendship
decline id actor now = set_pending_status id actor FriendshipStatus.declined now

abbrev pub is_accepted : FriendshipStatus → Bool
is_accepted FriendshipStatus.accepted = true
is_accepted _ = false

-- The friendship that `Remove` deletes.
abbrev pub accepted_pair : Option Friendship → Option Friendship
accepted_pair none = none
accepted_pair (some f) = if is_accepted f.status then some f else none

unfoldable pub remove_friend : Text → Text → FriendTx (Unit {0})
remove_friend actor other fs =
    let a = compact_address actor in
    let b = compact_address other in
    do
      f ← or_fail (accepted_pair (find_pair a b fs)) not_found
      guard (text_eq (compact_address f.requester) a || text_eq (compact_address f.recipient) a)
          unauthorized
      ok (tt, select (λ g. not (has_row_id f.id g)) fs)

-- The rows of `listByStatus`; their order does not matter to what is shown here.
abbrev pub involves : Text → Friendship → Bool
involves actor f = text_eq f.requester actor || text_eq f.recipient actor

unfoldable pub list_friends : Text → List Friendship → List Friendship
list_friends actor fs = select (λ f. is_accepted f.status && involves (compact_address actor) f) fs

unfoldable pub list_requests : Text → List Friendship → List Friendship
list_requests actor fs = select (λ f. is_pending f.status && involves (compact_address actor) f) fs
