-- ===== src/Handles/Registry.antt =====
-- backend/handles_registry.go. The map of a registry is the list of its claims, one for each handle;
-- so is the table `handle_claims`, whose key is the handle. The order of a map's entries, which Go
-- leaves open, is the list's. `Claims` and `Stats`, which only read the map, are not modelled.
pub mod Order
pub mod Ownership
pub mod Entries
pub mod Restart
pub mod Wallets
use nim_connect.Base.{
  ℕ, ◌<◌, Bool, true, false, not, ◌&&◌, ◌||◌, Option, none, some, List, [], ◌∷◌, map, Text, text_eq,
  Result, ok, err, if◌then◌else◌, find, select, exists, ltb, ◌==◌,
}
use nim_connect.Base.Int.{ℤ, int64_of, uint64_of}
use nim_connect.Address.{compact_address, normalize_address}
use nim_connect.Chain.{RpcTx, tx_index_or_zero, tx_data}
use nim_connect.Claims.{HandleClaim}
use nim_connect.Handles.{ClaimAction, is_valid_handle, parse_claim_data, claimant_address}

-- A row of `handle_claims`, where numbers are bigint.
pub record ClaimRow : Type 0 where
  pub handle : Text
  pub address : Text
  pub tx_hash : Text
  pub block_height : ℤ
  pub tx_index : ℤ
  pub claimed_at : ℕ

pub record HandleRegistry : Type 0 where
  pub rows : List ClaimRow
  pub reserved : List Text
  pub htlc_creator : Text → Text
  pub release_activation_height : ℕ
  pub handles : List HandleClaim

abbrev pub claims_handle : Text → HandleClaim → Bool
claims_handle h c = text_eq c.handle h

unfoldable pub resolve : Text → HandleRegistry → Option HandleClaim
resolve h r = find (claims_handle h) r.handles

-- The body of `loadFromDB`'s loop.
abbrev pub loaded : ClaimRow → HandleClaim
loaded row = record {
  handle = row.handle;
  address = normalize_address row.address;
  tx_hash = row.tx_hash;
  block_height = uint64_of row.block_height;
  tx_index = uint64_of row.tx_index;
  claimed_at = row.claimed_at;
}

-- `loadFromDB` where the query succeeds.
unfoldable pub load_from_db : HandleRegistry → HandleRegistry
load_from_db r = record r { handles = map loaded r.rows }

-- The order of `Rebuild`'s sort.
abbrev pub is_before : RpcTx → RpcTx → Bool
is_before a b =
    if a.block_number == b.block_number
    then ltb (tx_index_or_zero a) (tx_index_or_zero b)
    else ltb a.block_number b.block_number

unfoldable pub insert_tx : RpcTx → List RpcTx → List RpcTx
insert_tx tx [] = tx ∷ []
insert_tx tx (t ∷ ts) =
    let rest = insert_tx tx ts in if is_before t tx then t ∷ rest else tx ∷ t ∷ ts

-- sort.Slice; transactions that agree on block and index stay in the order in which the node gave
-- them, which is one of the orders that it allows.
unfoldable pub ordered : List RpcTx → List RpcTx
ordered [] = []
ordered (t ∷ ts) = insert_tx t (ordered ts)

abbrev pub claim_of : Text → Text → RpcTx → HandleClaim
claim_of h signer tx = record {
  handle = h;
  address = signer;
  tx_hash = tx.hash;
  block_height = tx.block_number;
  tx_index = tx_index_or_zero tx;
  claimed_at = tx.timestamp;
}

-- `delete(next, handle)`
unfoldable pub remove : Text → List HandleClaim → List HandleClaim
remove h next = select (λ c. not (claims_handle h c)) next

abbrev pub owned_by : Text → Option HandleClaim → Bool
owned_by signer none = false
owned_by signer (some owner) = text_eq (compact_address owner.address) (compact_address signer)

abbrev pub is_taken : Option HandleClaim → Bool
is_taken none = false
is_taken (some c) = true

-- The body of `Rebuild`'s loop, for a transaction that carries the action.
unfoldable pub apply_action : ℕ → RpcTx → Text → ClaimAction → List HandleClaim → List HandleClaim
apply_action activation tx signer action next =
    if action.is_release
    then if not (ltb tx.block_number activation)
        && owned_by signer (find (claims_handle action.handle) next)
      then remove action.handle next
      else next
    else if is_taken (find (claims_handle action.handle) next)
    then next
    else claim_of action.handle signer tx ∷ next

abbrev pub signer_of : (Text → Text) → RpcTx → Text
signer_of htlc_creator tx = normalize_address (claimant_address tx htlc_creator)

unfoldable pub apply_tx : HandleRegistry → RpcTx → List HandleClaim → List HandleClaim
apply_tx r tx next = elim (parse_claim_data (tx_data tx)) [
  | none ↦ next
  | some action ↦
      apply_action r.release_activation_height tx (signer_of r.htlc_creator tx) action next
]

unfoldable pub apply_txs : HandleRegistry → List RpcTx → List HandleClaim → List HandleClaim
apply_txs r [] next = next
apply_txs r (tx ∷ txs) next = apply_txs r txs (apply_tx r tx next)

-- The row that `persist` inserts.
abbrev pub stored : HandleClaim → ClaimRow
stored claim = record {
  handle = claim.handle;
  address = compact_address claim.address;
  tx_hash = claim.tx_hash;
  block_height = int64_of claim.block_height;
  tx_index = int64_of claim.tx_index;
  claimed_at = claim.claimed_at;
}

-- One transaction, which `persists` or is rolled back.
unfoldable pub persist : Bool → List HandleClaim → HandleRegistry → Bool × HandleRegistry
persist true handles r = (true, record r { rows = map stored handles })
persist false handles r = (false, r)

-- The map is replaced whether or not the table can be written.
unfoldable pub rebuild : Bool → List RpcTx → HandleRegistry → Bool × HandleRegistry
rebuild persists txs r =
    let next = apply_txs r (ordered txs) [] in persist persists next (record r { handles = next })

-- `PurgeHandles`, whose statement may fail.
unfoldable pub purge_handles : Bool → HandleRegistry → Bool × HandleRegistry
purge_handles true r = (true, record r { rows = []; handles = [] })
purge_handles false r = (false, r)

pub data Availability : Type 0 where
  free invalid reserved taken : Availability

unfoldable pub available : Text → HandleRegistry → Availability
available h r =
    if not (is_valid_handle h)
    then invalid
    else if exists (text_eq h) r.reserved
    then reserved
    else if is_taken (resolve h r)
    then taken
    else free

-- A claim that comes before another on the chain.
abbrev pub is_earlier : HandleClaim → HandleClaim → Bool
is_earlier a b =
    ltb a.block_height b.block_height
    || ((a.block_height == b.block_height) && ltb a.tx_index b.tx_index)

-- The loop of `ResolveAddress`; `best` is none until `found`.
abbrev pub better : HandleClaim → Option HandleClaim → Option HandleClaim
better claim none = some claim
better claim (some best) = if is_earlier claim best then some claim else some best

unfoldable pub best_claim : Text → Option HandleClaim → List HandleClaim → Option HandleClaim
best_claim compact best [] = best
best_claim compact best (c ∷ cs) =
    best_claim compact (if text_eq (compact_address c.address) compact then better c best else best)
      cs

unfoldable pub resolve_address : Text → HandleRegistry → Option HandleClaim
resolve_address address r = best_claim (compact_address address) none r.handles
