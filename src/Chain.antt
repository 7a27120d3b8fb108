-- ===== src/Chain.antt =====
-- backend/nimiq_rpc.go: a transaction as the node reports it. The RPC transport is not modelled.
use nim_connect.Base.{ℕ, Option, none, some, [], ◌∷◌, Text}

pub record RpcTx : Type 0 where
  pub hash : Text
  pub sender : Text
  pub from : Text
  pub recipient : Text
  pub to : Text
  pub data_field : Text
  pub recipient_data : Text
  pub value : ℕ
  pub block_number : ℕ
  pub transaction_index : Option ℕ
  pub timestamp : ℕ
  pub from_type : ℕ
  pub to_type : ℕ

-- `if a != "" { return a }; return b`
abbrev first_set : Text → Text → Text
first_set [] b = b
first_set (c ∷ cs) b = c ∷ cs

-- `txIndexOrZero`, `sender`, `recipient` and `data`
abbrev index_or_zero : Option ℕ → ℕ
index_or_zero none = 0
index_or_zero (some i) = i

unfoldable pub tx_index_or_zero : RpcTx → ℕ
tx_index_or_zero t = index_or_zero t.transaction_index

unfoldable pub tx_sender : RpcTx → Text
tx_sender t = first_set t.sender t.from

unfoldable pub tx_recipient : RpcTx → Text
tx_recipient t = first_set t.recipient t.to

unfoldable pub tx_data : RpcTx → Text
tx_data t = first_set t.data_field t.recipient_data
