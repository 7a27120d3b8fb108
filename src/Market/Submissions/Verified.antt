-- ===== src/Market/Submissions/Verified.antt =====
-- What a submitted transaction has to be before it moves a trade.
use nim_connect.Base.{
  ◌≡◌, refl, true, false, Option, some, none, Text, text_eq, ok, arith, Bool, Result, err, ◌>>=◌,
  ◌>>◌, text_eq_iff,
}
use nim_connect.Address.{compact_address, normalize_address}
use nim_connect.Chain.{RpcTx, tx_sender, tx_recipient, tx_data}
use nim_connect.Handles.{ClaimAction, parse_claim_data}
use nim_connect.Market.State.{Trade}
use nim_connect.Market.Store.{MarketError}
use nim_connect.Market.Submissions.{
  Submission, hub, pay, unknown_kind, is_action_on, verify_action_tx, verify_release_tx,
  verify_claim_tx, submit_hub_transaction, submit_pay_transaction, submitted,
}

-- The transaction is one of the party's to the registry, and releases or claims the handle.
abbrev pub IsActionTx : Bool → Text → RpcTx → Trade → Text → Type 0
IsActionTx is_release party tx trade registry =
    (text_eq (compact_address (normalize_address (tx_sender tx))) (compact_address party) ≡ true)
    × (text_eq (compact_address (tx_recipient tx)) (compact_address registry) ≡ true)
    × ((a : ClaimAction) × (parse_claim_data (tx_data tx) ≡ some a)
        × (a.is_release ≡ is_release)
        × (a.handle ≡ trade.handle))

action_read :
    (r : Bool) (handle : Text) (o : Option ClaimAction)
    → is_action_on r handle o ≡ true
    → (a : ClaimAction) × (o ≡ some a) × (a.is_release ≡ r) × (a.handle ≡ handle)
action_read r handle none h = cc
action_read true handle (some a) h =
    (a, refl, ground (arith, h), ground (arith, text_eq_iff a.handle handle))
action_read false handle (some a) h =
    (a, refl, ground (arith, h), ground (arith, text_eq_iff a.handle handle))

verified_action :
    (r : Bool) (party registry : Text) (tx : RpcTx) (trade : Trade)
    → verify_action_tx r party tx trade registry ≡ ok tt
    → IsActionTx r party tx trade registry
verified_action r party registry tx trade h = (
  ground arith,
  ground arith,
  action_read r trade.handle (parse_claim_data (tx_data tx)) (ground arith),
)

looked_up :
    (r : Result MarketError RpcTx) (verify : RpcTx → Result MarketError (Unit {0}))
    (reported hash : Text)
    → r >>= (λ tx. verify tx >> ok reported) ≡ ok hash
    → (reported ≡ hash) × ((tx : RpcTx) × (r ≡ ok tx) × (verify tx ≡ ok tt))
looked_up (err e) verify reported hash h = cc
looked_up (ok tx) verify reported hash h = (ground (arith, h), (tx, refl, ground (arith, h)))

module _ (send_raw_transaction : Text → Result MarketError Text)
    (get_transaction_by_hash : Text → Result MarketError RpcTx) where
  sent_verified :
      (sent : Result MarketError Text) (verify : RpcTx → Result MarketError (Unit {0}))
      (hash : Text)
      → sent >>= (λ h. get_transaction_by_hash h >>= (λ tx. verify tx >> ok h)) ≡ ok hash
      → (tx : RpcTx) × (get_transaction_by_hash hash ≡ ok tx) × (verify tx ≡ ok tt)
  sent_verified (err e) verify hash h = cc
  sent_verified (ok reported) verify hash h =
      let (same, (tx, known, v)) =
        looked_up (get_transaction_by_hash reported) verify reported hash h in
      (tx, rw (← same) known, v)

  -- The two orders of the calls come to the same.
  seen_verified :
      (r : Result MarketError RpcTx) (verify : RpcTx → Result MarketError (Unit {0}))
      (reported hash : Text)
      → (r >>= (λ tx. verify tx)) >> ok reported ≡ ok hash
      → r >>= (λ tx. verify tx >> ok reported) ≡ ok hash
  seen_verified (err e) verify reported hash h = cc
  seen_verified (ok tx) verify reported hash h = h

  submitted_verified :
      (s : Submission) (verify : RpcTx → Result MarketError (Unit {0})) (hash : Text)
      → submitted send_raw_transaction get_transaction_by_hash s verify ≡ ok hash
      → (tx : RpcTx) × (get_transaction_by_hash hash ≡ ok tx) × (verify tx ≡ ok tt)
  unfolding submitted submit_hub_transaction submit_pay_transaction
  submitted_verified (hub raw_hex) verify hash h =
      sent_verified (send_raw_transaction raw_hex) verify hash h
  submitted_verified (pay tx_hash) verify hash h =
      let (same, (tx, known, v)) =
        looked_up (get_transaction_by_hash tx_hash) verify tx_hash hash
          (seen_verified (get_transaction_by_hash tx_hash) verify tx_hash hash h) in
      (tx, rw (← same) known, v)
  submitted_verified unknown_kind verify hash h = cc

  -- Whether it is submitted from Hub or from Nimiq Pay: a release that is accepted gives the hash of
  -- a transaction, as the node records it, that the trade's seller has sent to the registry to
  -- release the trade's handle.
  pub release_verified :
      (s : Submission) (trade : Trade) (registry hash : Text)
      → submitted send_raw_transaction get_transaction_by_hash s
          (λ tx. verify_release_tx tx trade registry)
        ≡ ok hash
      → (tx : RpcTx) × (get_transaction_by_hash hash ≡ ok tx)
        × IsActionTx true trade.seller tx trade registry
  unfolding verify_release_tx
  release_verified s trade registry hash h =
      let (tx, known, v) =
        submitted_verified s (λ tx. verify_release_tx tx trade registry) hash h in
      (tx, known, verified_action true trade.seller registry tx trade v)

  -- Whether it is submitted from Hub or from Nimiq Pay: a claim that is accepted gives the hash of a
  -- transaction, as the node records it, that the trade's buyer has sent to the registry to claim
  -- the trade's handle.
  pub claim_verified :
      (s : Submission) (trade : Trade) (registry hash : Text)
      → submitted send_raw_transaction get_transaction_by_hash s
          (λ tx. verify_claim_tx tx trade registry)
        ≡ ok hash
      → (tx : RpcTx) × (get_transaction_by_hash hash ≡ ok tx)
        × IsActionTx false trade.buyer tx trade registry
  unfolding verify_claim_tx
  claim_verified s trade registry hash h =
      let (tx, known, v) = submitted_verified s (λ tx. verify_claim_tx tx trade registry) hash h in
      (tx, known, verified_action false trade.buyer registry tx trade v)
