-- ===== src/Handles/Sync.antt =====
-- backend/handles_sync.go, GetAllTransactionsByAddress of backend/nimiq_rpc.go, and the routes of
-- backend/handles_handlers.go that sweep. The node's answers to the pages of a sweep are a function of
-- the cursor, none for an error; clocks are readings in nanoseconds. The cache of the creators of
-- contracts is a function that the registry takes.
pub mod Pages
pub mod Payments
use nim_connect.Base.{
  ℕ, zero, suc, ◌+◌, ◌*◌, Bool, true, false, not, ◌&&◌, ◌||◌, Option, none, some, List, [], ◌∷◌,
  ◌++◌, Text, text_eq, length, Result, ok, err, if◌then◌else◌, select, exists, count, ltb, leb,
  ◌==◌,
}
use nim_connect.Address.{compact_address}
use nim_connect.Chain.{RpcTx, tx_recipient, tx_data}
use nim_connect.Claims.{HandleClaim}
use nim_connect.Handles.{ClaimAction, is_valid_handle, parse_claim_data}
use nim_connect.Handles.Registry.{HandleRegistry, resolve, rebuild, purge_handles}

abbrev pub sweep_cooldown : ℕ
sweep_cooldown = 5 * 1000000000

abbrev pub sweep_tx_page_size : ℕ
sweep_tx_page_size = 500

abbrev pub sweep_tx_max_pages : ℕ
sweep_tx_max_pages = 100

pub record TxHistory : Type 0 where
  pub txs : List RpcTx
  pub complete : Bool

abbrev pub prepend : List RpcTx → Option TxHistory → Option TxHistory
prepend txs none = none
prepend txs (some h) = some (record h { txs = txs ++ h.txs })

-- startAt = txs[len(txs)-1].Hash, of a page that is full, and so not empty.
abbrev pub last_cursor : List RpcTx → Option Text
last_cursor [] = none
last_cursor (t ∷ []) = some t.hash
last_cursor (t ∷ u ∷ ts) = last_cursor (u ∷ ts)

-- The loop over the pages that are left, from a cursor on. `page` is what the node answers to a
-- cursor, none for an error.
unfoldable pub all_pages :
    (Option Text → Option (List RpcTx)) → ℕ → ℕ → Option Text → Option TxHistory
all_pages page page_size zero start_at = some (record { txs = []; complete = false })
all_pages page page_size (suc pages) start_at = elim (page start_at) [
  | none ↦ none
  | some txs ↦
      if ltb (length txs) page_size
      then some (record { txs = txs; complete = true })
      else prepend txs (all_pages page page_size pages (last_cursor txs))
]

abbrev pub is_action : Option ClaimAction → Bool
is_action none = false
is_action (some a) = true

abbrev pub is_claim_tx : RpcTx → Bool
is_claim_tx tx = is_action (parse_claim_data (tx_data tx))

abbrev pub has_no_index : Option ℕ → Bool
has_no_index none = true
has_no_index (some i) = false

abbrev pub is_in_block : ℕ → RpcTx → Bool
is_in_block block tx = tx.block_number == block

-- A group of a block holds the claims of this block; one of two or more has no index.
unfoldable pub registry_ordering_ambiguous : List RpcTx → Bool
registry_ordering_ambiguous txs =
    let claims = select is_claim_tx txs in
    exists
      (λ tx.
        leb 2 (count (is_in_block tx.block_number) claims) && has_no_index tx.transaction_index)
      claims

pub record HandleSyncer : Type 0 where
  pub registry : HandleRegistry
  pub registry_address : Text
  pub last_sweep : Option ℕ
  pub complete : Bool

unfoldable pub new_handle_syncer : HandleRegistry → Text → HandleSyncer
new_handle_syncer registry registry_address = record {
  registry = registry;
  registry_address = registry_address;
  last_sweep = none;
  complete = false;
}

abbrev pub is_inbound : Text → RpcTx → Bool
is_inbound address tx = text_eq (compact_address (tx_recipient tx)) (compact_address address)

abbrev pub is_cooling : ℕ → Option ℕ → Bool
is_cooling now none = false
is_cooling now (some last) = ltb now (last + sweep_cooldown)

-- What a sweep meets: the clock at its start and its end, the node's answers, the database.
pub record SweepCircumstances : Type 0 where
  pub started : ℕ
  pub ended : ℕ
  pub pages : Option Text → Option (List RpcTx)
  pub persists : Bool

abbrev pub failed : HandleSyncer → Bool × HandleSyncer
failed s = (false, record s { complete = false })

-- What `Rebuild` answers, true where it succeeds.
abbrev pub rebuilt : ℕ → Bool × HandleRegistry → HandleSyncer → Bool × HandleSyncer
rebuilt now (false, r) s = (false, record s { registry = r; complete = false })
rebuilt now (true, r) s = (true, record s { registry = r; complete = true; last_sweep = some now })

abbrev pub inbound_of : HandleSyncer → List RpcTx → List RpcTx
inbound_of s txs = select (is_inbound s.registry_address) txs

-- From the node's answer on. True is the success of the sweep.
unfoldable pub sweep_history : ℕ → Bool → Option TxHistory → HandleSyncer → Bool × HandleSyncer
sweep_history now persists none s = failed s
sweep_history now persists (some h) s =
    if not h.complete
    then failed s
    else if registry_ordering_ambiguous (inbound_of s h.txs)
    then failed s
    else rebuilt now (rebuild persists (inbound_of s h.txs) s.registry) s

unfoldable pub sweep_registry : Bool → SweepCircumstances → HandleSyncer → Bool × HandleSyncer
sweep_registry force at s =
    if not force && is_cooling at.started s.last_sweep
    then (true, s)
    else sweep_history at.ended at.persists
        (all_pages at.pages sweep_tx_page_size sweep_tx_max_pages none) s

pub data HandleReply (A : Type 0) : Type 0 where
  unauthorized bad_request not_found unavailable internal_error : HandleReply A
  answered : A → HandleReply A

abbrev pub claim_reply : Option HandleClaim → HandleReply HandleClaim
claim_reply none = HandleReply.not_found
claim_reply (some c) = HandleReply.answered c

abbrev pub resolve_handler : Text → HandleRegistry → HandleReply HandleClaim
resolve_handler handle r =
    if not (is_valid_handle handle) then HandleReply.bad_request else claim_reply (resolve handle r)

abbrev pub payment_reply : Text → Bool × HandleSyncer → HandleReply HandleClaim × HandleSyncer
payment_reply handle (false, s) = (HandleReply.unavailable, s)
payment_reply handle (true, s) = (
  (if not s.complete then HandleReply.unavailable else claim_reply (resolve handle s.registry)),
  s,
)

unfoldable pub payment_resolve_handler :
    SweepCircumstances → Text → HandleSyncer → HandleReply HandleClaim × HandleSyncer
payment_resolve_handler at handle s =
    if not (is_valid_handle handle)
    then (HandleReply.bad_request, s)
    else payment_reply handle (sweep_registry false at s)

abbrev pub resync_reply : Bool × HandleSyncer → HandleReply (Unit {0}) × HandleSyncer
resync_reply (true, s) = (HandleReply.answered tt, s)
resync_reply (false, s) = (HandleReply.internal_error, s)

abbrev pub resync_purged :
    SweepCircumstances
    → Bool × HandleRegistry
    → HandleSyncer
    → HandleReply (Unit {0}) × HandleSyncer
resync_purged at (false, r) s = (HandleReply.internal_error, s)
resync_purged at (true, r) s = resync_reply (sweep_registry true at (record s { registry = r }))

-- `admitted` is what `Valid` says of the administrator's token.
unfoldable pub admin_handles_resync_handler :
    Bool → Bool → SweepCircumstances → HandleSyncer → HandleReply (Unit {0}) × HandleSyncer
admin_handles_resync_handler admitted purges at s =
    if not admitted
    then (HandleReply.unauthorized, s)
    else resync_purged at (purge_handles purges s.registry) s
