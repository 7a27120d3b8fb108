-- ===== src/Inbox/Limits.antt =====
-- What every call keeps true of the mailboxes.
use nim_connect.Base.{
  ℕ, ◌≤◌, ◌<◌, ◌≡◌, Bool, true, false, not, Option, none, some, List, [], ◌∷◌, Text, text_eq_iff,
  ok, select, count, arith, Bool-cases, inl, inr, ◌⊎◌,
}
use nim_connect.Base.Counts.{count_of_exists}
use nim_connect.Base.Storage.{after, after_kept}
use nim_connect.Base.Rows.{count-select-le}
use nim_connect.Address.{compact_address}
use nim_connect.Inbox.{
  InboxMessage, InboxSendRequest, InboxAuth, has_message_id, has_sender_nonce, is_to, is_to_from,
  find_by_sender_nonce, new_message, breaks_unique, insert_message, deliver, put, is_fresh_or_other,
  list_inbox, is_message_of, delete_message,
}

-- Ids are unique, a sender uses a nonce once, no mailbox holds more than 100 messages, and none more
-- than 10 of one sender.
pub record IsInbox (ms : List InboxMessage) : Type 0 where
  pub ids : (i : Text) → count (has_message_id i) ms ≤ 1
  pub nonces : (s n : Text) → count (has_sender_nonce s n) ms ≤ 1
  pub mailbox : (r : Text) → count (is_to r) ms ≤ 100
  pub per_sender : (r s : Text) → count (is_to_from r s) ms ≤ 10

-- What became of a message.
pub delivered :
    (o : Option InboxMessage) (m : InboxMessage) (ms ms' : List InboxMessage) (a : Text × Bool)
    → deliver o m ms ≡ ok (a, ms')
    → (ms' ≡ ms)
      ⊎ ((ms' ≡ m ∷ ms)
          × (a ≡ (m.id, false))
          × (breaks_unique m ms ≡ false)
          × (count (is_to m.recipient) ms < 100)
          × (count (is_to_from m.recipient m.sender) ms < 10))
unfolding deliver insert_message
delivered (some x) m ms ms' a h = inl (ground (arith, h))
delivered none m ms ms' a h = elim (Bool-cases (breaks_unique m ms)) [
  | inl e ↦ inl (ground (arith, h, e))
  | inr e ↦
      inr
        (ground (arith, h, e), ground (arith, h, e), e, ground (arith, h, e), ground (arith, h, e))
]

added-IsInbox :
    (m : InboxMessage) (ms : List InboxMessage)
    → breaks_unique m ms ≡ false
    → count (is_to m.recipient) ms < 100
    → count (is_to_from m.recipient m.sender) ms < 10
    → IsInbox ms
    → IsInbox (m ∷ ms)
unfolding count
added-IsInbox m ms free total from v =
    let no_id = count_of_exists (has_message_id m.id) ms (ground (arith, free)) in
    let no_nonce = count_of_exists (has_sender_nonce m.sender m.nonce) ms (ground (arith, free)) in
    record {
      ids = λ i. ground (arith, v.ids i, no_id, text_eq_iff m.id i);
      nonces = λ s n.
          ground (arith, v.nonces s n, no_nonce, text_eq_iff m.sender s, text_eq_iff m.nonce n);
      mailbox = λ r. ground (arith, v.mailbox r, total, text_eq_iff m.recipient r);
      per_sender = λ r s.
          ground (arith, v.per_sender r s, from, text_eq_iff m.recipient r, text_eq_iff m.sender s);
    }

selected-IsInbox :
    (q : InboxMessage → Bool) (ms : List InboxMessage) → IsInbox ms → IsInbox (select q ms)
selected-IsInbox q ms v = record {
  ids = λ i. omega (arith, v.ids i, count-select-le (has_message_id i) q ms);
  nonces = λ s n. omega (arith, v.nonces s n, count-select-le (has_sender_nonce s n) q ms);
  mailbox = λ r. omega (arith, v.mailbox r, count-select-le (is_to r) q ms);
  per_sender = λ r s. omega (arith, v.per_sender r s, count-select-le (is_to_from r s) q ms);
}

pub data InboxCall : Type 0 where
  puts : InboxAuth → ℕ → Text → InboxSendRequest → InboxCall
  lists : Text → ℕ → InboxCall
  deletes : Text → Text → InboxCall

module _ (sha256_hex : Text → Text) (verify_signed : Text → Text → Text → Text → Bool) where
  abbrev pub perform : InboxCall → List InboxMessage → List InboxMessage
  perform (InboxCall.puts auth now new_id req) ms =
      after true (put sha256_hex verify_signed auth now new_id req ms) ms
  perform (InboxCall.lists address now) ms = after true (list_inbox address now ms) ms
  perform (InboxCall.deletes address id) ms = after true (delete_message address id ms) ms

  -- The messages after calls on an empty table, the last call first.
  unfoldable pub run_calls : List InboxCall → List InboxMessage
  run_calls [] = []
  run_calls (c ∷ cs) = perform c (run_calls cs)

  put-IsInbox :
      (auth : InboxAuth) (now : ℕ) (new_id : Text) (req : InboxSendRequest)
      (ms ms' : List InboxMessage) (a : Text × Bool)
      → IsInbox ms
      → put sha256_hex verify_signed auth now new_id req ms ≡ ok (a, ms')
      → IsInbox ms'
  unfolding put
  put-IsInbox auth now new_id req ms ms' a v h =
      let m = new_message auth new_id now req in
      let d : deliver (find_by_sender_nonce m.sender m.nonce ms) m ms ≡ ok (a, ms') =
        ground (arith, h) in
      elim (delivered (find_by_sender_nonce m.sender m.nonce ms) m ms ms' a d) [
        | inl same ↦ rw same v
        | inr (wrote, is, free, total, from) ↦ rw wrote (added-IsInbox m ms free total from v)
      ]

  list_wrote :
      (address : Text) (now : ℕ) (ms ms' : List InboxMessage) (shown : List InboxMessage)
      → list_inbox address now ms ≡ ok (shown, ms')
      → ms' ≡ select (is_fresh_or_other (compact_address address) now) ms
  unfolding list_inbox
  list_wrote address now ms ms' shown h = ground (arith, h)

  delete_wrote :
      (address id : Text) (ms ms' : List InboxMessage) (u : Unit {0})
      → delete_message address id ms ≡ ok (u, ms')
      → ms' ≡ select (λ m. not (is_message_of (compact_address address) id m)) ms
  unfolding delete_message
  delete_wrote address id ms ms' u h = ground (arith, h)

  perform-IsInbox : (c : InboxCall) (ms : List InboxMessage) → IsInbox ms → IsInbox (perform c ms)
  perform-IsInbox (InboxCall.puts auth now new_id req) ms v =
      after_kept IsInbox true (put sha256_hex verify_signed auth now new_id req ms) ms v
        λ a ms' e. put-IsInbox auth now new_id req ms ms' a v e
  perform-IsInbox (InboxCall.lists address now) ms v =
      after_kept IsInbox true (list_inbox address now ms) ms v λ shown ms' e.
        rw (list_wrote address now ms ms' shown e)
          (selected-IsInbox (is_fresh_or_other (compact_address address) now) ms v)
  perform-IsInbox (InboxCall.deletes address id) ms v =
      after_kept IsInbox true (delete_message address id ms) ms v λ u ms' e.
        rw (delete_wrote address id ms ms' u e)
          (selected-IsInbox (λ m. not (is_message_of (compact_address address) id m)) ms v)

  -- Whatever is sent, listed and deleted, one call after another: the messages' ids are different, no
  -- sender's nonce is stored twice, no mailbox holds more than 100 messages, and none holds more than 10
  -- of one sender.
  pub run_calls-IsInbox : (cs : List InboxCall) → IsInbox (run_calls cs)
  unfolding run_calls count
  run_calls-IsInbox [] = record {
    ids = λ i. omega arith;
    nonces = λ s n. omega arith;
    mailbox = λ r. omega arith;
    per_sender = λ r s. omega arith;
  }
  run_calls-IsInbox (c ∷ cs) = perform-IsInbox c (run_calls cs) (run_calls-IsInbox cs)
