-- ===== src/Handles/Registry/Ownership.antt =====
-- Who owns a handle: the map that `Rebuild` computes, against the history of one handle alone.
use nim_connect.Base.{
  ℕ, count, ◌≡◌, refl, ◌∙◌, inl, inr, Bool, true, false, not, ◌&&◌, Option, none, some, List, [],
  ◌∷◌, Text, text_eq, text_eq_iff, text_eq_refl, arith, Bool-cases, All, if◌then◌else◌, find,
  select, ltb,
}
use nim_connect.Address.{compact_address}
use nim_connect.Chain.{RpcTx, tx_data}
use nim_connect.Claims.{HandleClaim}
use nim_connect.Handles.{ClaimAction, parse_claim_data}
use nim_connect.Handles.Registry.Order.{IsChronological, ordered-IsChronological, count-ordered}
use nim_connect.Handles.Registry.{
  HandleRegistry, claims_handle, resolve, claim_of, remove, apply_action, signer_of, apply_tx,
  apply_txs, ordered, persist, rebuild,
}

-- What an action on the handle does to its owner: the first to claim a free handle owns it, and only
-- its owner's release frees it, from the activation height on.
abbrev pub owner_after : ℕ → RpcTx → Text → ClaimAction → Option HandleClaim → Option HandleClaim
owner_after activation tx signer action none =
    if action.is_release then none else some (claim_of action.handle signer tx)
owner_after activation tx signer action (some owner) =
    if action.is_release
      && (not (ltb tx.block_number activation)
          && text_eq (compact_address owner.address) (compact_address signer))
    then none
    else some owner

-- A transaction on which the handle `h` is not named leaves its owner.
abbrev pub owner_step : HandleRegistry → Text → RpcTx → Option HandleClaim → Option HandleClaim
owner_step r h tx owner = elim (parse_claim_data (tx_data tx)) [
  | none ↦ owner
  | some action ↦
      if text_eq action.handle h
      then owner_after r.release_activation_height tx (signer_of r.htlc_creator tx) action owner
      else owner
]

abbrev pub owner_steps :
    HandleRegistry → Text → List RpcTx → Option HandleClaim → Option HandleClaim
owner_steps r h [] owner = owner
owner_steps r h (tx ∷ txs) owner = owner_steps r h txs (owner_step r h tx owner)

find-remove :
    (h j : Text) (cs : List HandleClaim)
    → find (claims_handle j) (remove h cs)
      ≡ (if text_eq h j then none else find (claims_handle j) cs)
unfolding find remove select
find-remove h j [] = ground arith
find-remove h j (c ∷ cs) =
    ground
      (arith, find-remove h j cs, text_eq_iff c.handle h, text_eq_iff c.handle j, text_eq_iff h j)

find-apply_action :
    (activation : ℕ) (tx : RpcTx) (signer : Text) (action : ClaimAction) (h : Text)
    (cs : List HandleClaim)
    → find (claims_handle h) (apply_action activation tx signer action cs) ≡ (
        if text_eq action.handle h
        then owner_after activation tx signer action (find (claims_handle h) cs)
        else find (claims_handle h) cs)
unfolding apply_action find
find-apply_action activation tx signer action h cs = elim (Bool-cases (text_eq action.handle h)) [
  | inl e ↦
      rw (← (text_eq_iff action.handle h).0 e, text_eq_refl action.handle)
        (ground (arith, find-remove action.handle action.handle cs, text_eq_refl action.handle))
  | inr e ↦ ground (arith, find-remove action.handle h cs)
]

find-apply_tx :
    (r : HandleRegistry) (h : Text) (tx : RpcTx) (cs : List HandleClaim)
    → find (claims_handle h) (apply_tx r tx cs) ≡ owner_step r h tx (find (claims_handle h) cs)
unfolding apply_tx
find-apply_tx r h tx cs =
    elim (parse_claim_data (tx_data tx))
      as (λ o.
        find (claims_handle h) (elim o [
          | none ↦ cs
          | some action ↦
              apply_action r.release_activation_height tx (signer_of r.htlc_creator tx) action cs
        ])
        ≡ (elim o [
          | none ↦ find (claims_handle h) cs
          | some action ↦
              if text_eq action.handle h
              then owner_after r.release_activation_height tx (signer_of r.htlc_creator tx) action
                  (find (claims_handle h) cs)
              else find (claims_handle h) cs
        ])) [
          | none ↦ refl
          | some action ↦
              find-apply_action r.release_activation_height tx (signer_of r.htlc_creator tx) action
                h cs
        ]

find-apply_txs :
    (r : HandleRegistry) (h : Text) (txs : List RpcTx) (cs : List HandleClaim)
    → find (claims_handle h) (apply_txs r txs cs) ≡ owner_steps r h txs (find (claims_handle h) cs)
unfolding apply_txs
find-apply_txs r h [] cs = refl
find-apply_txs r h (tx ∷ txs) cs =
    find-apply_txs r h txs (apply_tx r tx cs) ∙ rw (find-apply_tx r h tx cs) refl

pub handles-persist :
    (b : Bool) (cs : List HandleClaim) (r : HandleRegistry) → (persist b cs r).1.handles ≡ r.handles
unfolding persist
handles-persist true cs r = refl
handles-persist false cs r = refl

-- After a rebuild a handle resolves to what its own history gives: there is a list of the same
-- transactions, as often as they were given, by block and in a block by index, on which each action on
-- the handle is taken in turn, and the other handles play no part. It holds whether or not the table
-- could be written.
pub resolve-rebuild :
    (r : HandleRegistry) (h : Text) (txs : List RpcTx) (persists : Bool)
    → (chain : List RpcTx) × ((p : RpcTx → Bool) → count p chain ≡ count p txs)
      × IsChronological chain
      × (resolve h (rebuild persists txs r).1 ≡ owner_steps r h chain none)
unfolding resolve rebuild find
resolve-rebuild r h txs persists = (
  ordered txs,
  count-ordered txs,
  ordered-IsChronological txs,
  rw (handles-persist persists _ (record r { handles = apply_txs r (ordered txs) [] }))
      (find-apply_txs r h (ordered txs) []),
)

owner_step_kept :
    (r : HandleRegistry) (h : Text) (tx : RpcTx) (c : HandleClaim)
    → text_eq (compact_address c.address) (compact_address (signer_of r.htlc_creator tx)) ≡ false
    → owner_step r h tx (some c) ≡ some c
owner_step_kept r h tx c other =
    elim (parse_claim_data (tx_data tx))
      as (λ o.
        elim o [
          | none ↦ some c
          | some action ↦
              if text_eq action.handle h
              then owner_after r.release_activation_height tx (signer_of r.htlc_creator tx) action
                  (some c)
              else some c
        ]
        ≡ some c) [ none ↦ refl | some action ↦ ground (arith, other) ]

owner_steps_kept :
    (r : HandleRegistry) (h : Text) (c : HandleClaim) (txs : List RpcTx)
    → All
        (λ tx.
          text_eq (compact_address c.address) (compact_address (signer_of r.htlc_creator tx))
          ≡ false)
        txs
    → owner_steps r h txs (some c) ≡ some c
owner_steps_kept r h c [] a = refl
owner_steps_kept r h c (tx ∷ txs) a =
    rw (owner_step_kept r h tx c a.0) (owner_steps_kept r h c txs a.1)

-- Nobody but its owner can take a handle away: while the transactions that follow are signed by
-- others, it keeps resolving to the same claim.
pub only_owner_releases :
    (r : HandleRegistry) (h : Text) (c : HandleClaim) (txs : List RpcTx) (cs : List HandleClaim)
    → find (claims_handle h) cs ≡ some c
    → All
        (λ tx.
          text_eq (compact_address c.address) (compact_address (signer_of r.htlc_creator tx))
          ≡ false)
        txs
    → find (claims_handle h) (apply_txs r txs cs) ≡ some c
only_owner_releases r h c txs cs owned others =
    find-apply_txs r h txs cs ∙ rw owned (owner_steps_kept r h c txs others)
