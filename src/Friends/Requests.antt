-- ===== src/Friends/Requests.antt =====
-- Runs of the friend store's calls: what its rows always satisfy, and whose doing a friendship is.
use nim_connect.Base.{
  ℕ, ◌≡◌, refl, Bool, true, false, not, ◌&&◌, ◌||◌, Option, none, some, List, [], ◌∷◌, Text,
  text_eq, text_eq_iff, text_eq_refl, arith, count, exists, All, ok,
}
use nim_connect.Base.Storage.{after, after_kept}
use nim_connect.Base.Rows.{In, find_of_In, All_of_In, All-update_where, All-select, All_mono}
use nim_connect.Address.{compact_address}
use nim_connect.Friends.{
  Friendship, FriendshipStatus, has_row_id, is_accepted, find_pair, new_friendship, asked_again,
  request_between, send_request, decided, set_pending_status, remove_friend,
}
use nim_connect.Friends.Invariant.{
  IsFriends, insert_ok, request_some, renew_ok, send_request-IsFriends, set_pending_status_ok,
  set_pending_status-IsFriends, remove_friend_ok, remove_friend-IsFriends,
}

-- A call of the store. Its first part says that the database commits it.
pub data FriendCall : Type 0 where
  send : Bool → Option Text → Text → Text → ℕ → FriendCall
  answer : Bool → Text → Text → Bool → ℕ → FriendCall
  remove : Bool → Text → Text → FriendCall

abbrev pub answer_status : Bool → FriendshipStatus
answer_status true = FriendshipStatus.accepted
answer_status false = FriendshipStatus.declined

abbrev pub perform : FriendCall → List Friendship → List Friendship
perform (FriendCall.send commits new_id from to now) fs =
    after commits (send_request new_id from to now fs) fs
perform (FriendCall.answer commits id actor accepts now) fs =
    after commits (set_pending_status id actor (answer_status accepts) now fs) fs
perform (FriendCall.remove commits actor other) fs = after commits (remove_friend actor other fs) fs

-- The rows after calls on an empty table, the last call first.
unfoldable pub run_calls : List FriendCall → List Friendship
run_calls [] = []
run_calls (c ∷ cs) = perform c (run_calls cs)

empty-IsFriends : IsFriends []
unfolding count
empty-IsFriends = record { ids = λ i. omega arith; one_active = λ a b. omega arith; between = tt }

perform-IsFriends :
    (c : FriendCall) (fs : List Friendship) → IsFriends fs → IsFriends (perform c fs)
perform-IsFriends (FriendCall.send b new_id from to now) fs v =
    after_kept IsFriends b (send_request new_id from to now fs) fs v
      λ g fs' e. send_request-IsFriends new_id from to now fs fs' g v e
perform-IsFriends (FriendCall.answer b id actor accepts now) fs v =
    after_kept IsFriends b (set_pending_status id actor (answer_status accepts) now fs) fs v
      λ g fs' e. set_pending_status-IsFriends id actor (answer_status accepts) now fs fs' g v e
perform-IsFriends (FriendCall.remove b actor other) fs v =
    after_kept IsFriends b (remove_friend actor other fs) fs v
      λ u fs' e. remove_friend-IsFriends actor other fs fs' u v e

-- Whatever is called, in whatever order, and whether or not the database commits it: the ids of the
-- rows are different, two people have at most one pending or accepted row, whichever of them asked,
-- and each row is of two different addresses in the compact spelling.
pub run_calls-IsFriends : (cs : List FriendCall) → IsFriends (run_calls cs)
unfolding run_calls
run_calls-IsFriends [] = empty-IsFriends
run_calls-IsFriends (c ∷ cs) = perform-IsFriends c (run_calls cs) (run_calls-IsFriends cs)

-- The call is a committed request of `a` to `b`, in the compact spelling.
abbrev pub is_asking : Text → Text → FriendCall → Bool
is_asking a b (FriendCall.send commits new_id from to now) =
    commits && (text_eq (compact_address from) a && text_eq (compact_address to) b)
is_asking a b _ = false

-- The call is `b`'s committed acceptance of the row.
abbrev pub is_accepting : Text → Text → FriendCall → Bool
is_accepting id b (FriendCall.answer commits row actor accepts now) =
    commits && (accepts && (text_eq row id && text_eq (compact_address actor) (compact_address b)))
is_accepting id b _ = false

abbrev IsAgreed : List FriendCall → Friendship → Type 0
IsAgreed cs f =
    (exists (is_asking f.requester f.recipient) cs ≡ true)
    × ((not (is_accepted f.status) || exists (is_accepting f.id f.recipient) cs) ≡ true)

earlier-IsAgreed :
    (c : FriendCall) (cs : List FriendCall) (f : Friendship) → IsAgreed cs f → IsAgreed (c ∷ cs) f
unfolding exists
earlier-IsAgreed c cs f (asked, agreed) = (ground (arith, asked), ground (arith, agreed))

earlier :
    (c : FriendCall) (cs : List FriendCall) (fs : List Friendship)
    → All (IsAgreed cs) fs
    → All (IsAgreed (c ∷ cs)) fs
earlier c cs fs a = All_mono (IsAgreed cs) (IsAgreed (c ∷ cs)) fs (earlier-IsAgreed c cs) a

asked-IsAgreed :
    (new_id : Option Text) (from to : Text) (now : ℕ) (cs : List FriendCall) (f : Friendship)
    → f.requester ≡ compact_address from
    → f.recipient ≡ compact_address to
    → is_accepted f.status ≡ false
    → IsAgreed (FriendCall.send true new_id from to now ∷ cs) f
unfolding exists
asked-IsAgreed new_id from to now cs f r c s =
    rw (r, c, s)
      (ground (arith, text_eq_refl (compact_address from), text_eq_refl (compact_address to)), refl)

module _ (new_id : Option Text) (from to : Text) (now : ℕ) (cs : List FriendCall)
    (fs : List Friendship)
    (a : All (IsAgreed (FriendCall.send true new_id from to now ∷ cs)) fs) where
  request-AllAgreed :
      (o : Option Friendship) (fs' : List Friendship) (g : Friendship)
      → request_between o new_id (compact_address from) (compact_address to) now fs ≡ ok (g, fs')
      → All (IsAgreed (FriendCall.send true new_id from to now ∷ cs)) fs'
  unfolding request_between
  request-AllAgreed none fs' g h =
      let (id, is, fresh, free, new, wrote) =
        insert_ok new_id (compact_address from) (compact_address to) now fs fs' g h in
      rw wrote (
        asked-IsAgreed new_id from to now cs
            (new_friendship id (compact_address from) (compact_address to) now) refl refl refl,
        a,
      )
  request-AllAgreed (some f) fs' g h =
      let (declined, renewed) =
        request_some f new_id (compact_address from) (compact_address to) now fs fs' g h in
      let (free, new, wrote) =
        renew_ok f (compact_address from) (compact_address to) now fs fs' g renewed in
      rw wrote (
        All-update_where (IsAgreed (FriendCall.send true new_id from to now ∷ cs)) (has_row_id f.id)
          (asked_again (compact_address from) (compact_address to) now) fs
          (λ x k m.
            asked-IsAgreed new_id from to now cs
              (asked_again (compact_address from) (compact_address to) now x) refl refl refl)
          a)

  send-AllAgreed :
      All
        (IsAgreed (FriendCall.send true new_id from to now ∷ cs))
        (after true (send_request new_id from to now fs) fs)
  unfolding send_request
  send-AllAgreed =
      after_kept (All (IsAgreed (FriendCall.send true new_id from to now ∷ cs))) true
        (send_request new_id from to now fs) fs a
        λ g fs' h.
          request-AllAgreed (find_pair (compact_address from) (compact_address to) fs) fs' g
            (ground arith)

answer-AllAgreed :
    (id actor : Text) (accepts : Bool) (now : ℕ) (cs : List FriendCall) (fs : List Friendship)
    → IsFriends fs
    → All (IsAgreed cs) fs
    → All
        (IsAgreed (FriendCall.answer true id actor accepts now ∷ cs))
        (after true (set_pending_status id actor (answer_status accepts) now fs) fs)
unfolding exists
answer-AllAgreed id actor accepts now cs fs v a =
    let c = FriendCall.answer true id actor accepts now in
    after_kept (All (IsAgreed (c ∷ cs))) true
      (set_pending_status id actor (answer_status accepts) now fs) fs (earlier c cs fs a)
      λ g fs' h.
        let (f, found, pending, own, new, wrote) =
          set_pending_status_ok id actor (answer_status accepts) now fs fs' g h in
        rw wrote (
          All-update_where (IsAgreed (c ∷ cs)) (has_row_id id) (decided (answer_status accepts) now)
            fs
            (λ x k m.
              let same : f ≡ x = cc (found, find_of_In (has_row_id id) fs x m k (v.ids id)) in
              let mine : compact_address x.recipient ≡ compact_address actor = rw (← same) own in
              let row : x.id ≡ id = (text_eq_iff x.id id).0 k in
              let (asked, agreed) = All_of_In (IsAgreed cs) fs x a m in
              (
                ground (arith, asked),
                elim accepts
                    as (λ b.
                      (not (is_accepted (answer_status b))
                        || (true
                              && (b
                                  && (text_eq id x.id
                                      && text_eq (compact_address actor)
                                          (compact_address x.recipient)))
                            || exists (is_accepting x.id x.recipient) cs))
                      ≡ true) [
                        | true ↦
                            rw (row, mine, text_eq_refl id, text_eq_refl (compact_address actor))
                              refl
                        | false ↦ refl
                      ],
              ))
            (earlier c cs fs a))

calls-AllAgreed : (cs : List FriendCall) → All (IsAgreed cs) (run_calls cs)
unfolding run_calls
calls-AllAgreed [] = tt
calls-AllAgreed (FriendCall.send true new_id from to now ∷ cs) =
    send-AllAgreed new_id from to now cs (run_calls cs)
      (earlier _ cs (run_calls cs) (calls-AllAgreed cs))
calls-AllAgreed (FriendCall.send false new_id from to now ∷ cs) =
    earlier _ cs (run_calls cs) (calls-AllAgreed cs)
calls-AllAgreed (FriendCall.answer true id actor accepts now ∷ cs) =
    answer-AllAgreed id actor accepts now cs (run_calls cs) (run_calls-IsFriends cs)
      (calls-AllAgreed cs)
calls-AllAgreed (FriendCall.answer false id actor accepts now ∷ cs) =
    earlier _ cs (run_calls cs) (calls-AllAgreed cs)
calls-AllAgreed (FriendCall.remove b actor other ∷ cs) =
    let c = FriendCall.remove b actor other in
    after_kept (All (IsAgreed (c ∷ cs))) b (remove_friend actor other (run_calls cs)) (run_calls cs)
      (earlier c cs (run_calls cs) (calls-AllAgreed cs))
      λ u fs' h.
        let (f, found, accepted, wrote) = remove_friend_ok actor other (run_calls cs) fs' u h in
        rw wrote (
          All-select (IsAgreed (c ∷ cs)) (λ g. not (has_row_id f.id g)) (run_calls cs)
            (earlier c cs (run_calls cs) (calls-AllAgreed cs)))

-- An accepted row that calls on an empty table leave behind has both sides' consent: among the
-- committed calls there is a request of its requester to its recipient, and an acceptance of this row
-- by its recipient.
pub friendship_needs_both :
    (cs : List FriendCall) (f : Friendship)
    → In f (run_calls cs)
    → is_accepted f.status ≡ true
    → (exists (is_asking f.requester f.recipient) cs ≡ true)
      × (exists (is_accepting f.id f.recipient) cs ≡ true)
friendship_needs_both cs f m accepted =
    let (asked, agreed) = All_of_In (IsAgreed cs) (run_calls cs) f (calls-AllAgreed cs) m in
    (asked, rw accepted at agreed)
