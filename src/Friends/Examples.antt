-- ===== src/Friends/Examples.antt =====
-- Friends on concrete people.
use nim_connect.Base.{
  ℕ, ◌≤◌, ◌≡◌, refl, true, some, List, [], ◌∷◌, codes, ok, arith, inl, exists, count, select,
  text_eq, find,
}
use nim_connect.Base.Rows.{In, update_where}
use nim_connect.Address.{compact_address}
use nim_connect.Friends.{
  Friendship, FriendshipStatus, send_request, accept, decided, list_friends, find_pair,
  request_between, insert_request, set_pending_status,
}
use nim_connect.Friends.Limiter.{is_recent, allow_all, allow, allow-le-limit}
use nim_connect.Friends.Invariant.{IsFriends}
use nim_connect.Friends.Requests.{
  FriendCall, run_calls, run_calls-IsFriends, is_asking, is_accepting, friendship_needs_both,
}
use nim_connect.Friends.Outcomes.{request_can_be_accepted}

-- Two a minute: the third request of these is refused.
abbrev hours : List ℕ
hours = 10 ∷ 20 ∷ 30 ∷ 80 ∷ []

two_pass : (allow_all hours (record { window = 60; limit = 2; hits = [] }) []).0 ≡ 80 ∷ 20 ∷ 10 ∷ []
unfolding allow_all allow select
two_pass = refl

allow-le-limit_example :
    count (is_recent 60 85) (allow_all hours (record { window = 60; limit = 2; hits = [] }) []).0
    ≤ 2
allow-le-limit_example =
    allow-le-limit 60 2 hours 85 (omega arith)
      (omega arith, (omega arith, (omega arith, (omega arith, tt))))
      (omega arith, (omega arith, (omega arith, (omega arith, tt))))

abbrev alice_asks : FriendCall
alice_asks = FriendCall.send true (some (codes "01")) (codes "nq aa") (codes "NQ BB") 5

abbrev bob_accepts : FriendCall
bob_accepts = FriendCall.answer true (codes "01") (codes "NQBB") true 6

abbrev both : List FriendCall
both = bob_accepts ∷ alice_asks ∷ []

abbrev request_row : Friendship
request_row = record {
  id = codes "01";
  requester = codes "NQAA";
  recipient = codes "NQBB";
  status = FriendshipStatus.pending;
  created_at = 5;
  updated_at = 5;
}

abbrev friends_row : Friendship
friends_row = decided FriendshipStatus.accepted 6 request_row

both_are_friends : run_calls both ≡ friends_row ∷ []
unfolding run_calls send_request find_pair request_between insert_request exists text_eq
    set_pending_status compact_address find update_where
both_are_friends = refl

run_calls-IsFriends_example : IsFriends (run_calls both)
run_calls-IsFriends_example = run_calls-IsFriends both

friendship_needs_both_example :
    (exists (is_asking (codes "NQAA") (codes "NQBB")) both ≡ true)
    × (exists (is_accepting (codes "01") (codes "NQBB")) both ≡ true)
friendship_needs_both_example =
    friendship_needs_both both friends_row (rw both_are_friends (inl refl)) refl

asked :
    send_request (some (codes "01")) (codes "nq aa") (codes "NQ BB") 5 []
    ≡ ok (request_row, request_row ∷ [])
unfolding send_request find_pair request_between insert_request exists text_eq compact_address
asked = refl

request_can_be_accepted_example :
    (fs : List Friendship) × (accept (codes "01") (codes "NQ BB") 6 (request_row ∷ [])
      ≡ ok (friends_row, fs))
    × In friends_row (list_friends (codes "nq aa") fs)
    × In friends_row (list_friends (codes "NQ BB") fs)
unfolding run_calls
request_can_be_accepted_example =
    request_can_be_accepted (some (codes "01")) (codes "nq aa") (codes "NQ BB") 5 6 []
      (request_row ∷ []) request_row (run_calls-IsFriends []) asked
