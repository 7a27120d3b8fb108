-- ===== src/Handles/Registry/Order.antt =====
-- The sort of `Rebuild` in backend/handles_registry.go, against the order of the chain.
use nim_connect.Base.{
  ◌<◌, ◌≤◌, ◌≡◌, refl, ◌⊎◌, inl, inr, Bool, List, [], ◌∷◌, arith, Bool-cases, All, count,
}
use nim_connect.Chain.{RpcTx, tx_index_or_zero}
use nim_connect.Handles.Registry.{is_before, insert_tx, ordered}

-- The chain's order: by block, and in a block by index, where a missing index is 0.
abbrev Precedes : RpcTx → RpcTx → Type 0
Precedes a b =
    (a.block_number < b.block_number)
    ⊎ ((a.block_number ≡ b.block_number) × (tx_index_or_zero a ≤ tx_index_or_zero b))

-- A list of transactions in which each precedes all that follow it.
abbrev pub IsChronological : List RpcTx → Type 0
IsChronological [] = Unit {0}
IsChronological (t ∷ ts) = All (Precedes t) ts × IsChronological ts

All-Precedes :
    (a b : RpcTx) (ts : List RpcTx) → Precedes a b → All (Precedes b) ts → All (Precedes a) ts
All-Precedes a b [] p h = tt
All-Precedes a b (t ∷ ts) p h = (ground (arith, p, h.0), All-Precedes a b ts p h.1)

All-insert_tx :
    (Q : RpcTx → Type 0) (tx : RpcTx) (ts : List RpcTx) → Q tx → All Q ts → All Q (insert_tx tx ts)
unfolding insert_tx
All-insert_tx Q tx [] q h = (q, tt)
All-insert_tx Q tx (t ∷ ts) q h = elim (Bool-cases (is_before t tx)) [
  | inl e ↦ rw e (h.0, All-insert_tx Q tx ts q h.1)
  | inr e ↦ rw e (q, h)
]

insert_tx-IsChronological :
    (tx : RpcTx) (ts : List RpcTx) → IsChronological ts → IsChronological (insert_tx tx ts)
unfolding insert_tx
insert_tx-IsChronological tx [] h = (tt, tt)
insert_tx-IsChronological tx (t ∷ ts) h = elim (Bool-cases (is_before t tx)) [
  | inl e ↦ rw e (
    All-insert_tx (Precedes t) tx ts (ground (arith, e)) h.0,
    insert_tx-IsChronological tx ts h.1,
  )
  | inr e ↦
      let first : Precedes tx t = ground (arith, e) in
      rw e ((first, All-Precedes tx t ts first h.0), h)
]

pub ordered-IsChronological : (ts : List RpcTx) → IsChronological (ordered ts)
unfolding ordered
ordered-IsChronological [] = tt
ordered-IsChronological (t ∷ ts) =
    insert_tx-IsChronological t (ordered ts) (ordered-IsChronological ts)

count-insert_tx :
    (p : RpcTx → Bool) (tx : RpcTx) (ts : List RpcTx)
    → count p (insert_tx tx ts) ≡ count p (tx ∷ ts)
unfolding insert_tx count
count-insert_tx p tx [] = refl
count-insert_tx p tx (t ∷ ts) = ground (arith, count-insert_tx p tx ts)

pub count-ordered : (ts : List RpcTx) → (p : RpcTx → Bool) → count p (ordered ts) ≡ count p ts
unfolding ordered count
count-ordered [] p = refl
count-ordered (t ∷ ts) p = ground (arith, count-insert_tx p t (ordered ts), count-ordered ts p)
