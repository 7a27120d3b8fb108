-- ===== src/Handles/Registry/Entries.antt =====
-- The entries of the map that `Rebuild` computes.
use nim_connect.Base.{
  ℕ, ◌≤◌, ◌≡◌, refl, Bool, true, false, not, ◌&&◌, List, [], ◌∷◌, Text, text_eq_iff, arith,
  Bool-cases, Option-cases, inl, inr, All, find, select, count, ltb,
}
use nim_connect.Address.{normalize_address}
use nim_connect.Address.Layout.{normalize-normalize}
use nim_connect.Chain.{RpcTx, tx_data}
use nim_connect.Claims.{HandleClaim}
use nim_connect.Handles.{ClaimAction, parse_claim_data, claimant_address, is_valid_handle}
use nim_connect.Handles.Payloads.{parsed_valid}
use nim_connect.Handles.Registry.Ownership.{handles-persist}
use nim_connect.Handles.Registry.{
  HandleRegistry, claims_handle, claim_of, remove, owned_by, is_taken, apply_action, signer_of,
  apply_tx, apply_txs, ordered, rebuild,
}

-- A claim of a valid handle, in the normal spelling of its address.
abbrev pub IsEntry : HandleClaim → Type 0
IsEntry c = (is_valid_handle c.handle ≡ true) × (normalize_address c.address ≡ c.address)

-- Each handle has one entry at most.
pub record IsMap (cs : List HandleClaim) : Type 0 where
  pub unique : (h : Text) → count (claims_handle h) cs ≤ 1
  pub entries : All IsEntry cs

count-remove :
    (h j : Text) (cs : List HandleClaim)
    → count (claims_handle j) (remove h cs) ≤ count (claims_handle j) cs
unfolding remove select count
count-remove h j [] = omega arith
count-remove h j (c ∷ cs) = ground (arith, count-remove h j cs)

remove-All : (h : Text) (cs : List HandleClaim) → All IsEntry cs → All IsEntry (remove h cs)
unfolding remove select
remove-All h [] a = tt
remove-All h (c ∷ cs) a = elim (Bool-cases (claims_handle h c)) [
  | inl e ↦ rw e (remove-All h cs a.1)
  | inr e ↦ rw e (a.0, remove-All h cs a.1)
]

free_count :
    (h : Text) (cs : List HandleClaim)
    → is_taken (find (claims_handle h) cs) ≡ false
    → count (claims_handle h) cs ≡ 0
unfolding find count
free_count h [] e = refl
free_count h (c ∷ cs) e = ground (arith, free_count h cs)

claimed-IsMap :
    (tx : RpcTx) (h signer : Text) (cs : List HandleClaim)
    → is_valid_handle h ≡ true
    → normalize_address signer ≡ signer
    → is_taken (find (claims_handle h) cs) ≡ false
    → IsMap cs
    → IsMap (claim_of h signer tx ∷ cs)
unfolding count
claimed-IsMap tx h signer cs v n e m = record {
  unique = λ j. ground (arith, m.unique j, free_count h cs, text_eq_iff h j);
  entries = ((v, n), m.entries);
}

removed-IsMap : (h : Text) (cs : List HandleClaim) → IsMap cs → IsMap (remove h cs)
removed-IsMap h cs m = record {
  unique = λ j. omega (arith, count-remove h j cs, m.unique j);
  entries = remove-All h cs m.entries;
}

apply_action-IsMap :
    (activation : ℕ) (tx : RpcTx) (signer : Text) (action : ClaimAction) (cs : List HandleClaim)
    → is_valid_handle action.handle ≡ true
    → normalize_address signer ≡ signer
    → IsMap cs
    → IsMap (apply_action activation tx signer action cs)
unfolding apply_action
apply_action-IsMap activation tx signer action cs v n m = elim (Bool-cases action.is_release) [
  | inl e ↦
      elim (Bool-cases (
        not (ltb tx.block_number activation)
        && owned_by signer (find (claims_handle action.handle) cs))) [
          | inl o ↦ rw (e, o) (removed-IsMap action.handle cs m)
          | inr o ↦ rw (e, o) m
        ]
  | inr e ↦ elim (Bool-cases (is_taken (find (claims_handle action.handle) cs))) [
    | inl o ↦ rw (e, o) m
    | inr o ↦ rw (e, o) (claimed-IsMap tx action.handle signer cs v n o m)
  ]
]

apply_tx-IsMap :
    (r : HandleRegistry) (tx : RpcTx) (cs : List HandleClaim) → IsMap cs → IsMap (apply_tx r tx cs)
unfolding apply_tx
apply_tx-IsMap r tx cs m = elim (Option-cases (parse_claim_data (tx_data tx))) [
  | inl e ↦ rw (apply_tx, e) m
  | inr (action, e) ↦
      rw (apply_tx, e)
        (apply_action-IsMap r.release_activation_height tx (signer_of r.htlc_creator tx) action cs
          (parsed_valid (tx_data tx) action e)
          (normalize-normalize (claimant_address tx r.htlc_creator)) m)
]

apply_txs-IsMap :
    (r : HandleRegistry) (txs : List RpcTx) (cs : List HandleClaim)
    → IsMap cs
    → IsMap (apply_txs r txs cs)
unfolding apply_txs
apply_txs-IsMap r [] cs m = m
apply_txs-IsMap r (tx ∷ txs) cs m =
    apply_txs-IsMap r txs (apply_tx r tx cs) (apply_tx-IsMap r tx cs m)

-- Whatever the transactions are, a rebuilt registry has at most one claim for a handle, each claim
-- is of a valid handle, and its address is in its normal spelling.
pub rebuild-IsMap :
    (r : HandleRegistry) (txs : List RpcTx) (persists : Bool)
    → IsMap (rebuild persists txs r).1.handles
unfolding rebuild count
rebuild-IsMap r txs persists =
    rw (handles-persist persists _ (record r { handles = apply_txs r (ordered txs) [] }))
      (apply_txs-IsMap r (ordered txs) [] (record { unique = λ h. omega arith; entries = tt }))
