-- ===== src/Friends/Invariant.antt =====
-- What every call of the friend store keeps true of its rows.
use mathlib.Core.Path.{subst}
use nim_connect.Base.{
  ℕ, ◌+◌, ◌≤◌, ◌≡◌, refl, ◌∙◌, Bool, true, false, not, ◌&&◌, Option, none, some, List, ◌∷◌, Text,
  text_eq, text_eq_iff, text_eq_refl, arith, Bool-cases, Option-cases, inl, inr, find, count,
  exists, select, All, ok,
}
use nim_connect.Base.Counts.{bit, count_of_exists}
use nim_connect.Base.Rows.{
  In, update_where, count_ext, count_le, count-select-le, find_of_In, count-update_where,
  In_of_find, All_of_In, All-update_where, All-select,
}
use nim_connect.Address.{compact_address}
use nim_connect.Address.Layout.{compact_address_idem}
use nim_connect.Friends.{
  Friendship, FriendshipStatus, has_row_id, is_pair, is_active_pair, is_active, is_pending,
  find_pair, breaks_index, new_friendship, asked_again, insert_request, renew_request,
  request_between, send_request, decided, set_pending_status, remove_friend,
}
use nim_connect.Friends.Pairs.{find_pair_holds, same_pair}

-- Two people in the compact spelling.
abbrev pub IsBetween : Friendship → Type 0
IsBetween f =
    (text_eq f.requester f.recipient ≡ false)
    × (compact_address f.requester ≡ f.requester)
    × (compact_address f.recipient ≡ f.recipient)

-- Ids are unique; two people have at most one pending or accepted row, whichever of them asked; and
-- nobody is a friend of himself.
pub record IsFriends (fs : List Friendship) : Type 0 where
  pub ids : (i : Text) → count (has_row_id i) fs ≤ 1
  pub one_active : (a b : Text) → count (is_active_pair a b) fs ≤ 1
  pub between : All IsBetween fs

-- A row of a pair counts for that pair alone.
active_pair_ext :
    (a b c d : Text) (f : Friendship) (fs : List Friendship)
    → is_pair a b f ≡ true
    → is_pair c d f ≡ true
    → count (is_active_pair a b) fs ≡ count (is_active_pair c d) fs
active_pair_ext a b c d f fs h k =
    count_ext (is_active_pair a b) (is_active_pair c d) fs
      (λ g. rw (same_pair a b c d f g h k) refl)

new_pair : (id from to : Text) (now : ℕ) → is_pair from to (new_friendship id from to now) ≡ true
new_pair id from to now = ground (arith, text_eq_iff from from, text_eq_iff to to)

module _ (id from to : Text) (now : ℕ) (fs : List Friendship) (v : IsFriends fs)
    (fresh : exists (has_row_id id) fs ≡ false)
    (none_active : exists (is_active_pair from to) fs ≡ false)
    (people : IsBetween (new_friendship id from to now)) where
  inserted_active :
      (a b : Text) → count (is_active_pair a b) (new_friendship id from to now ∷ fs) ≤ 1
  unfolding count
  inserted_active a b = elim (Bool-cases (is_pair a b (new_friendship id from to now))) [
    | inl e ↦
        let zero =
          active_pair_ext a b from to (new_friendship id from to now) fs e (new_pair id from to now)
          ∙ count_of_exists (is_active_pair from to) fs none_active in
        ground (arith, zero)
    | inr e ↦ rw e (v.one_active a b)
  ]

  inserted-IsFriends : IsFriends (new_friendship id from to now ∷ fs)
  unfolding count
  inserted-IsFriends = record {
    ids = λ i. ground (arith, v.ids i, count_of_exists (has_row_id id) fs fresh, text_eq_iff id i);
    one_active = inserted_active;
    between = (people, v.between);
  }

-- An UPDATE of the row of an id that keeps the id.
module _ (id : Text) (change : Friendship → Friendship) (fs : List Friendship) (v : IsFriends fs)
    (f : Friendship) (found : find (has_row_id id) fs ≡ some f)
    (same_id : (g : Friendship) → (change g).id ≡ g.id) (people : IsBetween (change f)) where
  counted :
      (p : Friendship → Bool)
      → count p (update_where (has_row_id id) change fs) + bit (p f)
        ≡ count p fs + bit (p (change f))
  counted p = count-update_where p (has_row_id id) change fs {x = f} found (v.ids id)

  changed-IsBetween : (g : Friendship) → has_row_id id g ≡ true → In g fs → IsBetween (change g)
  changed-IsBetween g k m =
      let same : find (has_row_id id) fs ≡ some g =
        find_of_In (has_row_id id) fs g m k (v.ids id) in
      let e : f ≡ g = cc (found, same) in subst (λ x. IsBetween (change x)) e people

  updated-IsFriends :
      ((a b : Text) → count (is_active_pair a b) (update_where (has_row_id id) change fs) ≤ 1)
      → IsFriends (update_where (has_row_id id) change fs)
  updated-IsFriends active = record {
    ids = λ i. ground (arith, counted (has_row_id i), v.ids i, same_id f);
    one_active = active;
    between = All-update_where IsBetween (has_row_id id) change fs changed-IsBetween v.between;
  }

module _ (existing : Friendship) (from to : Text) (now : ℕ) (fs : List Friendship)
    (v : IsFriends fs) (found : find (has_row_id existing.id) fs ≡ some existing)
    (declined : is_active existing.status ≡ false)
    (free : breaks_index existing.id from to fs ≡ false)
    (people : IsBetween (asked_again from to now existing)) where
  others_active :
      (g : Friendship)
      → In g fs
      → is_active_pair from to g ≡ true
      → (not (has_row_id existing.id g) && is_active_pair from to g) ≡ true
  others_active g m h = elim (Bool-cases (has_row_id existing.id g)) [
    | inl e ↦
        let same : find (has_row_id existing.id) fs ≡ some g =
          find_of_In (has_row_id existing.id) fs g m e (v.ids existing.id) in
        let is : existing ≡ g = cc (found, same) in
        let status : is_active g.status ≡ false = rw (← is) declined in cc (rw status at h)
    | inr e ↦ rw (e, h) refl
  ]

  renewed_active :
      (a b : Text)
      → count
          (is_active_pair a b)
          (update_where (has_row_id existing.id) (asked_again from to now) fs)
        ≤ 1
  renewed_active a b =
      let parts =
        counted existing.id (asked_again from to now) fs v existing found (λ g. refl) people
          (is_active_pair a b) in
      elim (Bool-cases (is_pair a b (asked_again from to now existing))) [
        | inl e ↦
            let none_left =
              count_le (is_active_pair from to)
                (λ g. not (has_row_id existing.id g) && is_active_pair from to g) fs
                others_active in
            let zero =
              count_of_exists (λ g. not (has_row_id existing.id g) && is_active_pair from to g) fs
                free in
            let same =
              active_pair_ext a b from to (asked_again from to now existing) fs e
                (new_pair existing.id from to now) in
            ground (arith, parts, none_left, zero, same)
        | inr e ↦ ground (arith, parts, e, v.one_active a b)
      ]

  renewed-IsFriends : IsFriends (update_where (has_row_id existing.id) (asked_again from to now) fs)
  renewed-IsFriends =
      updated-IsFriends existing.id (asked_again from to now) fs v existing found (λ g. refl) people
        renewed_active

module _ (id : Text) (status : FriendshipStatus) (now : ℕ) (fs : List Friendship) (v : IsFriends fs)
    (f : Friendship) (found : find (has_row_id id) fs ≡ some f)
    (pending : is_pending f.status ≡ true) where
  decided-IsFriends : IsFriends (update_where (has_row_id id) (decided status now) fs)
  decided-IsFriends =
      let people : IsBetween f =
        All_of_In IsBetween fs f v.between (In_of_find (has_row_id id) fs f found) in
      updated-IsFriends id (decided status now) fs v f found (λ g. refl) people
        λ a b. ground (
          arith,
          counted id (decided status now) fs v f found (λ g. refl) people (is_active_pair a b),
          v.one_active a b,
        )

removed-IsFriends :
    (q : Friendship → Bool) (fs : List Friendship) → IsFriends fs → IsFriends (select q fs)
removed-IsFriends q fs v = record {
  ids = λ i. omega (arith, v.ids i, count-select-le (has_row_id i) q fs);
  one_active = λ a b. omega (arith, v.one_active a b, count-select-le (is_active_pair a b) q fs);
  between = All-select IsBetween q fs v.between;
}

pub insert_ok :
    (new_id : Option Text) (from to : Text) (now : ℕ) (fs fs' : List Friendship) (g : Friendship)
    → insert_request new_id from to now fs ≡ ok (g, fs')
    → (id : Text) × (new_id ≡ some id)
      × (exists (has_row_id id) fs ≡ false)
      × (exists (is_active_pair from to) fs ≡ false)
      × (g ≡ new_friendship id from to now)
      × (fs' ≡ new_friendship id from to now ∷ fs)
unfolding insert_request
insert_ok none from to now fs fs' g h = cc
insert_ok (some id) from to now fs fs' g h =
    (id, refl, ground arith, ground arith, ground arith, ground arith)

pub renew_ok :
    (existing : Friendship) (from to : Text) (now : ℕ) (fs fs' : List Friendship) (g : Friendship)
    → renew_request existing from to now fs ≡ ok (g, fs')
    → (breaks_index existing.id from to fs ≡ false)
      × (g ≡ asked_again from to now existing)
      × (fs' ≡ update_where (has_row_id existing.id) (asked_again from to now) fs)
unfolding renew_request
renew_ok existing from to now fs fs' g h = (ground arith, ground arith, ground arith)

pub request_some :
    (existing : Friendship) (new_id : Option Text) (from to : Text) (now : ℕ)
    (fs fs' : List Friendship) (g : Friendship)
    → request_between (some existing) new_id from to now fs ≡ ok (g, fs')
    → (is_active existing.status ≡ false) × (renew_request existing from to now fs ≡ ok (g, fs'))
unfolding request_between
request_some existing new_id from to now fs fs' g h = ground arith

request-IsFriends :
    (o : Option Friendship) (new_id : Option Text) (a b : Text) (now : ℕ) (fs fs' : List Friendship)
    (g : Friendship)
    → IsFriends fs
    → ((f : Friendship) → o ≡ some f → In f fs)
    → (text_eq a b ≡ false) × (compact_address a ≡ a) × (compact_address b ≡ b)
    → request_between o new_id a b now fs ≡ ok (g, fs')
    → IsFriends fs'
unfolding request_between
request-IsFriends none new_id a b now fs fs' g v m people h =
    let (id, is, fresh, free, new, wrote) = insert_ok new_id a b now fs fs' g h in
    rw wrote (inserted-IsFriends id a b now fs v fresh free people)
request-IsFriends (some f) new_id a b now fs fs' g v m people h =
    let (declined, renewed) = request_some f new_id a b now fs fs' g h in
    let (free, new, wrote) = renew_ok f a b now fs fs' g renewed in
    let found = find_of_In (has_row_id f.id) fs f (m f refl) (text_eq_refl f.id) (v.ids f.id) in
    rw wrote (renewed-IsFriends f a b now fs v found declined free people)

pub send_request-IsFriends :
    (new_id : Option Text) (from to : Text) (now : ℕ) (fs fs' : List Friendship) (g : Friendship)
    → IsFriends fs
    → send_request new_id from to now fs ≡ ok (g, fs')
    → IsFriends fs'
unfolding send_request
send_request-IsFriends new_id from to now fs fs' g v h =
    let a = compact_address from in
    let b = compact_address to in
    let people : (text_eq a b ≡ false) × (compact_address a ≡ a) × (compact_address b ≡ b) =
      (ground arith, compact_address_idem from, compact_address_idem to) in
    request-IsFriends (find_pair a b fs) new_id a b now fs fs' g v
      (λ f e. (find_pair_holds a b fs f e).0) people (ground arith)

-- What an answered request went through.
pub set_pending_status_ok :
    (id actor : Text) (status : FriendshipStatus) (now : ℕ) (fs fs' : List Friendship)
    (g : Friendship)
    → set_pending_status id actor status now fs ≡ ok (g, fs')
    → (f : Friendship) × (find (has_row_id id) fs ≡ some f)
      × (is_pending f.status ≡ true)
      × (compact_address f.recipient ≡ compact_address actor)
      × (g ≡ decided status now f)
      × (fs' ≡ update_where (has_row_id id) (decided status now) fs)
unfolding set_pending_status
set_pending_status_ok id actor status now fs fs' g h =
    elim (Option-cases (find (has_row_id id) fs)) [
      | inl e ↦ cc (rw e at h)
      | inr (f, e) ↦
          let h' = rw e at h in
          let same = text_eq_iff (compact_address f.recipient) (compact_address actor) in
          (
            f,
            e,
            ground (arith, h'),
            ground (arith, h', same),
            ground (arith, h'),
            ground (arith, h'),
          )
    ]

pub set_pending_status-IsFriends :
    (id actor : Text) (status : FriendshipStatus) (now : ℕ) (fs fs' : List Friendship)
    (g : Friendship)
    → IsFriends fs
    → set_pending_status id actor status now fs ≡ ok (g, fs')
    → IsFriends fs'
set_pending_status-IsFriends id actor status now fs fs' g v h =
    let (f, found, pending, own, new, wrote) =
      set_pending_status_ok id actor status now fs fs' g h in
    rw wrote (decided-IsFriends id status now fs v f found pending)

pub remove_friend_ok :
    (actor other : Text) (fs fs' : List Friendship) (u : Unit {0})
    → remove_friend actor other fs ≡ ok (u, fs')
    → (f : Friendship) × (find_pair (compact_address actor) (compact_address other) fs ≡ some f)
      × (f.status ≡ FriendshipStatus.accepted)
      × (fs' ≡ select (λ g. not (has_row_id f.id g)) fs)
unfolding remove_friend
remove_friend_ok actor other fs fs' u h =
    elim (Option-cases (find_pair (compact_address actor) (compact_address other) fs)) [
      | inl e ↦ cc (rw e at h)
      | inr (f, e) ↦ let h' = rw e at h in (f, e, ground (arith, h'), ground (arith, h'))
    ]

pub remove_friend-IsFriends :
    (actor other : Text) (fs fs' : List Friendship) (u : Unit {0})
    → IsFriends fs
    → remove_friend actor other fs ≡ ok (u, fs')
    → IsFriends fs'
remove_friend-IsFriends actor other fs fs' u v h =
    let (f, found, accepted, wrote) = remove_friend_ok actor other fs fs' u h in
    rw wrote (removed-IsFriends (λ g. not (has_row_id f.id g)) fs v)
