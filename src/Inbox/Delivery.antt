-- ===== src/Inbox/Delivery.antt =====
-- What becomes of a message that was put.
use nim_connect.Base.{
  ℕ, ◌∙◌, ◌+◌, ◌≤◌, ◌≡◌, refl, Bool, true, false, Option, none, some, List, [], ◌∷◌, map, Text,
  text_eq_refl, ok, find, select, leb, arith, Bool-cases, inl, inr,
}
use nim_connect.Base.Rows.{In, In-select}
use nim_connect.Address.{compact_address, normalize_address}
use nim_connect.Address.Layout.{compact-normalize, compact_address_idem}
use nim_connect.Address.Iban.{is_valid_nimiq_address}
use nim_connect.Inbox.{
  InboxMessage, InboxSendRequest, InboxAuth, inbox_retention, is_to, is_fresh_or_other,
  find_by_sender_nonce, new_message, is_well_formed, admit, insert_message, deliver, put, shown,
  insert_by_time, by_time, list_inbox,
}

delivered_again :
    (o : Option InboxMessage) (m : InboxMessage) (ms ms' : List InboxMessage) (i : Text) (b : Bool)
    → o ≡ find_by_sender_nonce m.sender m.nonce ms
    → deliver o m ms ≡ ok ((i, b), ms')
    → (x : InboxMessage) × (find_by_sender_nonce m.sender m.nonce ms' ≡ some x) × (x.id ≡ i)
unfolding deliver insert_message find_by_sender_nonce find
delivered_again (some x) m ms ms' i b e h =
    let wrote : ms' ≡ ms = ground (arith, h) in (x, rw (wrote, ← e) refl, ground (arith, h))
delivered_again none m ms ms' i b e h =
    let wrote : ms' ≡ m ∷ ms = ground (arith, h, e) in
    (
      m,
      rw wrote (ground (arith, text_eq_refl m.sender, text_eq_refl m.nonce)),
      ground (arith, h, e),
    )

module _ (sha256_hex : Text → Text) (verify_signed : Text → Text → Text → Text → Bool) where
  put_ok :
      (auth : InboxAuth) (now : ℕ) (new_id : Text) (req : InboxSendRequest)
      (ms ms' : List InboxMessage) (a : Text × Bool)
      → put sha256_hex verify_signed auth now new_id req ms ≡ ok (a, ms')
      → (admit sha256_hex verify_signed auth now req ≡ ok tt)
        × (deliver
              (find_by_sender_nonce (compact_address req.sender) req.nonce ms)
              (new_message auth new_id now req)
              ms
            ≡ ok (a, ms'))
  unfolding put
  put_ok auth now new_id req ms ms' a h = (ground (arith, h), ground (arith, h))

  -- A message that was put, or found to be put before, is not stored again: a later request with the same
  -- sender and nonce that is admitted is answered with the same id, marked as a replay, and changes
  -- nothing, whatever else it says.
  pub put_again :
      (auth auth' : InboxAuth) (now now' : ℕ) (new_id new_id' i : Text)
      (req req' : InboxSendRequest) (ms ms' : List InboxMessage) (replay : Bool)
      → put sha256_hex verify_signed auth now new_id req ms ≡ ok ((i, replay), ms')
      → compact_address req'.sender ≡ compact_address req.sender
      → req'.nonce ≡ req.nonce
      → admit sha256_hex verify_signed auth' now' req' ≡ ok tt
      → put sha256_hex verify_signed auth' now' new_id' req' ms' ≡ ok ((i, true), ms')
  unfolding put deliver
  put_again auth auth' now now' new_id new_id' i req req' ms ms' replay h sender nonce_same
        admitted =
      let (first, d) = put_ok auth now new_id req ms ms' (i, replay) h in
      let (x, found, is) =
        delivered_again (find_by_sender_nonce (compact_address req.sender) req.nonce ms)
          (new_message auth new_id now req) ms ms' i replay refl d in
      rw (put, admitted, sender, nonce_same, found, is) refl

In-insert_by_time :
    (x m : InboxMessage) (ms : List InboxMessage) → (x ≡ m) → In x (insert_by_time m ms)
unfolding insert_by_time
In-insert_by_time x m [] e = inl e
In-insert_by_time x m (y ∷ ms) e = elim (Bool-cases (leb m.received_at y.received_at)) [
  | inl c ↦ rw c (inl e)
  | inr c ↦ rw c (inr (In-insert_by_time x m ms e))
]

In-insert_other :
    (x m : InboxMessage) (ms : List InboxMessage) → In x ms → In x (insert_by_time m ms)
unfolding insert_by_time
In-insert_other x m [] h = elim h [ ]
In-insert_other x m (y ∷ ms) h = elim (Bool-cases (leb m.received_at y.received_at)) [
  | inl c ↦ rw c (inr h)
  | inr c ↦ rw c (elim h [ inl e ↦ inl e | inr i ↦ inr (In-insert_other x m ms i) ])
]

In-by_time : (x : InboxMessage) (ms : List InboxMessage) → In x ms → In x (by_time ms)
unfolding by_time
In-by_time x [] h = elim h [ ]
In-by_time x (m ∷ ms) (inl e) = In-insert_by_time x m (by_time ms) e
In-by_time x (m ∷ ms) (inr i) = In-insert_other x m (by_time ms) (In-by_time x ms i)

In-map : {A B : Type 0} (f : A → B) (x : A) (xs : List A) → In x xs → In (f x) (map f xs)
In-map f x [] h = elim h [ ]
In-map f x (y ∷ ys) (inl e) = inl (rw e refl)
In-map f x (y ∷ ys) (inr i) = inr (In-map f x ys i)

inserted :
    (o : Option InboxMessage) (m : InboxMessage) (ms ms' : List InboxMessage) (i : Text)
    → deliver o m ms ≡ ok ((i, false), ms')
    → (m.id ≡ i) × (ms' ≡ m ∷ ms)
unfolding deliver insert_message
inserted none m ms ms' i h = (ground (arith, h), ground (arith, h))
inserted (some x) m ms ms' i h = cc

admitted_valid :
    (sha256_hex : Text → Text) (verify_signed : Text → Text → Text → Text → Bool) (auth : InboxAuth)
    (now : ℕ) (req : InboxSendRequest)
    → admit sha256_hex verify_signed auth now req ≡ ok tt
    → is_valid_nimiq_address req.recipient ≡ true
unfolding admit is_well_formed
admitted_valid sha256_hex verify_signed auth now req h = ground (arith, h)

-- A stored address is shown as another spelling of the one that was sent.
shown_address :
    (a : Text) → compact_address (normalize_address (compact_address a)) ≡ compact_address a
shown_address a = compact-normalize (compact_address a) ∙ compact_address_idem a

-- A message that is stored is delivered: a listing of the recipient's mailbox within 60 days shows it,
-- under the id that was answered and at the time of the request, with the two addresses that were sent
-- and with each other field as it was sent.
pub put_then_list :
    (sha256_hex : Text → Text) (verify_signed : Text → Text → Text → Text → Bool) (auth : InboxAuth)
    (now later : ℕ) (i new_id : Text) (req : InboxSendRequest) (ms ms' : List InboxMessage)
    → put sha256_hex verify_signed auth now new_id req ms ≡ ok ((i, false), ms')
    → later ≤ now + inbox_retention
    → (out kept : List InboxMessage) × (list_inbox req.recipient later ms' ≡ ok (out, kept))
      × ((x : InboxMessage) × In x out
          × (x.id ≡ i)
          × (x.received_at ≡ now)
          × (compact_address x.sender ≡ compact_address req.sender)
          × (compact_address x.recipient ≡ compact_address req.recipient)
          × (x.version ≡ req.version)
          × (x.kind ≡ req.kind)
          × (x.object_id ≡ req.object_id)
          × (x.nonce ≡ req.nonce)
          × (x.payload ≡ req.payload)
          × (x.sent_at ≡ req.sent_at)
          × (x.public_key ≡ req.public_key)
          × (x.signature ≡ req.signature))
unfolding list_inbox
put_then_list sha256_hex verify_signed auth now later i new_id req ms ms' h le =
    let (admitted, d) = put_ok sha256_hex verify_signed auth now new_id req ms ms' (i, false) h in
    let (is, wrote) =
      inserted (find_by_sender_nonce (compact_address req.sender) req.nonce ms)
        (new_message auth new_id now req) ms ms' i d in
    let to = compact_address req.recipient in
    let m = new_message auth i now req in
    let kept = select (is_fresh_or_other to later) ms' in
    let valid = admitted_valid sha256_hex verify_signed auth now req admitted in
    let here : In m ms' = rw wrote (inl (rw is refl)) in
    let fresh : In m kept =
      In-select (is_fresh_or_other to later) ms' m here (ground (arith, le, text_eq_refl to)) in
    let mine : In m (select (is_to to) kept) =
      In-select (is_to to) kept m fresh (text_eq_refl to) in
    (
      map shown (by_time (select (is_to to) kept)),
      kept,
      rw valid refl,
      (
        shown m,
        In-map shown m (by_time (select (is_to to) kept))
            (In-by_time m (select (is_to to) kept) mine),
        refl,
        refl,
        shown_address req.sender,
        shown_address req.recipient,
        refl,
        refl,
        refl,
        refl,
        refl,
        refl,
        refl,
        refl,
      ),
    )
