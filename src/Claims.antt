-- ===== src/Claims.antt =====
-- backend/handles_registry.go: the claim of a handle as the registry resolves it.
use nim_connect.Base.{ℕ, Text}

pub record HandleClaim : Type 0 where
  pub handle : Text
  pub address : Text
  pub tx_hash : Text
  pub block_height : ℕ
  pub tx_index : ℕ
  pub claimed_at : ℕ
