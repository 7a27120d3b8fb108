-- ===== src/Friends/Outcomes.antt =====
-- What becomes of a friend request that was sent.
use nim_connect.Base.{
  ℕ, ◌≡◌, refl, true, false, ◌&&◌, Option, none, some, List, Text, text_eq, text_eq_iff,
  text_eq_refl, arith, inl, find, ok,
}
use nim_connect.Base.Rows.{In, update_where, find_of_In, In-update_where, In-select, no_other}
use nim_connect.Address.{compact_address}
use nim_connect.Address.Layout.{compact_address_idem}
use nim_connect.Friends.{
  Friendship, FriendshipStatus, has_row_id, is_accepted, is_active_pair, find_pair, breaks_index,
  asked_again, request_between, send_request, decided, set_pending_status, accept, involves,
  list_friends,
}
use nim_connect.Friends.Invariant.{
  IsFriends, insert_ok, request_some, renew_ok, send_request-IsFriends,
}
use nim_connect.Friends.Pairs.{find_pair_holds}

-- The row of a request that was sent.
record IsRequest (from to : Text) (fs : List Friendship) (g : Friendship) : Type 0 where
  stored : In g fs
  pending : g.status ≡ FriendshipStatus.pending
  asks : g.requester ≡ compact_address from
  asked : g.recipient ≡ compact_address to

between-IsRequest :
    (o : Option Friendship) (new_id : Option Text) (from to : Text) (now : ℕ)
    (fs fs' : List Friendship) (g : Friendship)
    → ((f : Friendship) → o ≡ some f → In f fs)
    → request_between o new_id (compact_address from) (compact_address to) now fs ≡ ok (g, fs')
    → IsRequest from to fs' g
unfolding request_between
between-IsRequest none new_id from to now fs fs' g m h =
    let (id, is, fresh, free, new, wrote) =
      insert_ok new_id (compact_address from) (compact_address to) now fs fs' g h in
    rw (new, wrote) (record { stored = inl refl; pending = refl; asks = refl; asked = refl })
between-IsRequest (some f) new_id from to now fs fs' g m h =
    let (declined, renewed) =
      request_some f new_id (compact_address from) (compact_address to) now fs fs' g h in
    let (free, new, wrote) =
      renew_ok f (compact_address from) (compact_address to) now fs fs' g renewed in
    rw (new, wrote)
      (record {
        stored =
            In-update_where (has_row_id f.id)
              (asked_again (compact_address from) (compact_address to) now) fs f (m f refl)
              (text_eq_refl f.id);
        pending = refl;
        asks = refl;
        asked = refl;
      })

send_request-IsRequest :
    (new_id : Option Text) (from to : Text) (now : ℕ) (fs fs' : List Friendship) (g : Friendship)
    → send_request new_id from to now fs ≡ ok (g, fs')
    → IsRequest from to fs' g
unfolding send_request
send_request-IsRequest new_id from to now fs fs' g h =
    between-IsRequest (find_pair (compact_address from) (compact_address to) fs) new_id from to now
      fs fs' g (λ f e. (find_pair_holds (compact_address from) (compact_address to) fs f e).0)
      (ground arith)

-- The recipient can accept a pending row.
accept_ok :
    (from to : Text) (now : ℕ) (fs : List Friendship) (g : Friendship)
    → IsFriends fs
    → IsRequest from to fs g
    → accept g.id to now fs
      ≡ ok (
        decided FriendshipStatus.accepted now g,
        update_where (has_row_id g.id) (decided FriendshipStatus.accepted now) fs,
      )
unfolding set_pending_status
accept_ok from to now fs g v r =
    let found : find (has_row_id g.id) fs ≡ some g =
      find_of_In (has_row_id g.id) fs g r.stored (text_eq_refl g.id) (v.ids g.id) in
    let active : is_active_pair g.requester g.recipient g ≡ true =
      rw r.pending (ground (arith, text_eq_refl g.requester, text_eq_refl g.recipient)) in
    let free : breaks_index g.id g.requester g.recipient fs ≡ false =
      no_other (has_row_id g.id) (is_active_pair g.requester g.recipient) fs g r.stored
        (text_eq_refl g.id) active (v.one_active g.requester g.recipient) in
    let own : text_eq (compact_address g.recipient) (compact_address to) ≡ true =
      rw (r.asked, compact_address_idem to) (text_eq_refl (compact_address to)) in
    rw (found, r.pending, own, free) refl

listed :
    (actor : Text) (fs : List Friendship) (g : Friendship)
    → In g fs
    → is_accepted g.status ≡ true
    → involves (compact_address actor) g ≡ true
    → In g (list_friends actor fs)
unfolding list_friends
listed actor fs g m a i =
    In-select (λ f. is_accepted f.status && involves (compact_address actor) f) fs g m
      (rw (a, i) refl)

-- In a table with the rows' invariant, the recipient of a request that was just sent can accept it, at
-- any time: the acceptance succeeds, and afterwards the row is, accepted, in the friend lists of both.
pub request_can_be_accepted :
    (new_id : Option Text) (from to : Text) (now later : ℕ) (fs fs' : List Friendship)
    (g : Friendship)
    → IsFriends fs
    → send_request new_id from to now fs ≡ ok (g, fs')
    → (fs'' : List Friendship) × (accept g.id to later fs'
        ≡ ok (decided FriendshipStatus.accepted later g, fs''))
      × In (decided FriendshipStatus.accepted later g) (list_friends from fs'')
      × In (decided FriendshipStatus.accepted later g) (list_friends to fs'')
request_can_be_accepted new_id from to now later fs fs' g v h =
    let v' = send_request-IsFriends new_id from to now fs fs' g v h in
    let r = send_request-IsRequest new_id from to now fs fs' g h in
    let change = decided FriendshipStatus.accepted later in
    let fs'' = update_where (has_row_id g.id) change fs' in
    let m : In (change g) fs'' =
      In-update_where (has_row_id g.id) change fs' g r.stored (text_eq_refl g.id) in
    (
      fs'',
      accept_ok from to later fs' g v' r,
      listed from fs'' (change g) m refl
          (ground (arith, r.asks, text_eq_iff g.requester (compact_address from))),
      listed to fs'' (change g) m refl
          (ground (arith, r.asked, text_eq_iff g.recipient (compact_address to))),
    )
