-- ===== src/Handles/Registry/Restart.antt =====
-- What a restart finds in the table.
use nim_connect.Base.{
  ◌<◌, ◌^◌, ◌≡◌, refl, ◌∙◌, true, List, [], ◌∷◌, map, All, Text, Bool, false, if◌then◌else◌,
  Bool-cases, Option-cases, inl, inr, select,
}
use nim_connect.Base.Int.{uint64_of-int64_of}
use nim_connect.Address.{compact_address, normalize_address}
use nim_connect.Address.Layout.{compact_address_idem, normalize_eq_of_compact}
use nim_connect.Chain.{RpcTx, tx_index_or_zero, tx_data}
use nim_connect.Claims.{HandleClaim}
use nim_connect.Handles.{parse_claim_data}
use nim_connect.Handles.Registry.{
  HandleRegistry, loaded, stored, load_from_db, persist, rebuild, apply_txs, ordered, insert_tx,
  is_before, remove, claims_handle, apply_tx, apply_action, claim_of, signer_of,
}
use nim_connect.Handles.Registry.Entries.{IsEntry, rebuild-IsMap}

-- The numbers of the claim are uint64.
abbrev pub IsSized : HandleClaim → Type 0
IsSized c = (c.block_height < 2 ^ 64) × (c.tx_index < 2 ^ 64)

loaded-stored : (c : HandleClaim) → IsEntry c → IsSized c → loaded (stored c) ≡ c
loaded-stored c e s =
    let address : normalize_address (compact_address c.address) ≡ c.address =
      normalize_eq_of_compact (compact_address c.address) c.address (compact_address_idem c.address)
      ∙ e.1 in
    rw (address, uint64_of-int64_of c.block_height s.0, uint64_of-int64_of c.tx_index s.1) refl

loaded-All :
    (cs : List HandleClaim) → All IsEntry cs → All IsSized cs → map loaded (map stored cs) ≡ cs
loaded-All [] e s = refl
loaded-All (c ∷ cs) e s = rw (loaded-stored c e.0 s.0, loaded-All cs e.1 s.1) refl

-- So are those of the transaction.
abbrev pub IsSizedTx : RpcTx → Type 0
IsSizedTx tx = (tx.block_number < 2 ^ 64) × (tx_index_or_zero tx < 2 ^ 64)

insert-All :
    (t : RpcTx) (ts : List RpcTx) → IsSizedTx t → All IsSizedTx ts → All IsSizedTx (insert_tx t ts)
unfolding insert_tx
insert-All t [] h a = (h, tt)
insert-All t (u ∷ us) h a = elim (Bool-cases (is_before u t)) [
  | inl e ↦ rw e (a.0, insert-All t us h a.1)
  | inr e ↦ rw e (h, a)
]

ordered-All : (ts : List RpcTx) → All IsSizedTx ts → All IsSizedTx (ordered ts)
unfolding ordered
ordered-All [] a = tt
ordered-All (t ∷ ts) a = insert-All t (ordered ts) a.0 (ordered-All ts a.1)

remove-IsSized : (h : Text) (cs : List HandleClaim) → All IsSized cs → All IsSized (remove h cs)
unfolding remove select
remove-IsSized h [] a = tt
remove-IsSized h (c ∷ cs) a = elim (Bool-cases (claims_handle h c)) [
  | inl e ↦ rw e (remove-IsSized h cs a.1)
  | inr e ↦ rw e (a.0, remove-IsSized h cs a.1)
]

either-IsSized :
    (b : Bool) (xs ys : List HandleClaim)
    → All IsSized xs
    → All IsSized ys
    → All IsSized (if b then xs else ys)
either-IsSized true xs ys a c = a
either-IsSized false xs ys a c = c

apply_tx-IsSized :
    (r : HandleRegistry) (tx : RpcTx) (cs : List HandleClaim)
    → IsSizedTx tx
    → All IsSized cs
    → All IsSized (apply_tx r tx cs)
unfolding apply_tx apply_action
apply_tx-IsSized r tx cs h a = elim (Option-cases (parse_claim_data (tx_data tx))) [
  | inl e ↦ rw (apply_tx, e) a
  | inr (action, e) ↦
      rw (apply_tx, e)
        (either-IsSized action.is_release _ _
          (either-IsSized _ _ _ (remove-IsSized action.handle cs a) a)
          (either-IsSized _ cs (claim_of action.handle (signer_of r.htlc_creator tx) tx ∷ cs) a
            (h, a)))
]

apply_txs-IsSized :
    (r : HandleRegistry) (txs : List RpcTx) (cs : List HandleClaim)
    → All IsSizedTx txs
    → All IsSized cs
    → All IsSized (apply_txs r txs cs)
unfolding apply_txs
apply_txs-IsSized r [] cs h a = a
apply_txs-IsSized r (tx ∷ txs) cs h a =
    apply_txs-IsSized r txs (apply_tx r tx cs) h.1 (apply_tx-IsSized r tx cs h.0 a)

-- After a rebuild that could write the table, a restart finds the very map that was rebuilt; the
-- block numbers and indices of the transactions are below 2 ^ 64.
pub load-rebuild :
    (r : HandleRegistry) (txs : List RpcTx)
    → All IsSizedTx txs
    → (load_from_db (rebuild true txs r).1).handles ≡ (rebuild true txs r).1.handles
unfolding load_from_db rebuild persist
load-rebuild r txs sized =
    loaded-All _ (rebuild-IsMap r txs true).entries
      (apply_txs-IsSized r (ordered txs) [] (ordered-All txs sized) tt)
