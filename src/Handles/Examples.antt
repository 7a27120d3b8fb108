-- ===== src/Handles/Examples.antt =====
-- The registry of handles on concrete transactions.
use mathlib.Core.List.{Mem}
use nim_connect.Base.{
  take, inr, Bool, List, ℕ, ◌≡◌, refl, true, false, none, some, [], ◌∷◌, Text, codes, All, arith,
  ◌⊎◌, find, text_eq, every, select, exists, count,
}
use nim_connect.Hex.{hex_encode}
use nim_connect.Address.{compact_address, normalize_address}
use nim_connect.Chain.{RpcTx, tx_index_or_zero, tx_sender, tx_recipient, tx_data}
use nim_connect.Claims.{HandleClaim}
use nim_connect.Handles.{
  ClaimAction, is_valid_handle, make_claim_payload, make_release_payload, parse_claim_data,
  claimant_address,
}
use nim_connect.Handles.Payloads.{payload_roundtrip, parsed_valid}
use nim_connect.Handles.Registry.{
  HandleRegistry, resolve, rebuild, apply_txs, ordered, claims_handle, load_from_db, signer_of,
  resolve_address, persist, insert_tx, apply_tx, apply_action,
}
use nim_connect.Handles.Sync.{
  HandleReply, HandleSyncer, SweepCircumstances, all_pages, registry_ordering_ambiguous,
  new_handle_syncer, sweep_history, sweep_registry, payment_resolve_handler,
}
use nim_connect.Handles.Sync.Pages.{rest_after, Serves}
use nim_connect.Handles.Sync.Payments.{IsProof, run_calls, payment_rests_on_proof}
use nim_connect.Handles.Registry.Order.{IsChronological}
use nim_connect.Handles.Registry.Ownership.{owner_steps, resolve-rebuild, only_owner_releases}
use nim_connect.Handles.Registry.Entries.{IsMap, rebuild-IsMap}
use nim_connect.Handles.Registry.Restart.{IsSizedTx, load-rebuild}
use nim_connect.Handles.Registry.Wallets.{is_owner, IsFirst, resolve_address-IsFirst}

alice_valid : is_valid_handle (codes "alice") ≡ true
unfolding is_valid_handle every
alice_valid = refl

payload_roundtrip_example :
    (parse_claim_data (hex_encode (make_claim_payload (codes "alice")))
      ≡ some (record { handle = codes "alice"; is_release = false }))
    × (parse_claim_data (hex_encode (make_release_payload (codes "alice")))
        ≡ some (record { handle = codes "alice"; is_release = true }))
payload_roundtrip_example = payload_roundtrip (codes "alice") alice_valid

abbrev claim_action : ClaimAction
claim_action = record { handle = codes "alice"; is_release = false }

parsed : parse_claim_data (hex_encode (make_claim_payload (codes "alice"))) ≡ some claim_action
parsed = (payload_roundtrip (codes "alice") alice_valid).0

parsed_valid_example : is_valid_handle (codes "alice") ≡ true
parsed_valid_example =
    parsed_valid (hex_encode (make_claim_payload (codes "alice"))) claim_action parsed

abbrev tx_by : Text → Text → ℕ → RpcTx
tx_by sender payload height = record {
  hash = codes "h";
  sender = sender;
  from = [];
  recipient = codes "REGISTRY";
  to = [];
  data_field = hex_encode payload;
  recipient_data = [];
  value = 1;
  block_number = height;
  transaction_index = some 0;
  timestamp = 5;
  from_type = 0;
  to_type = 0;
}

abbrev claimed : RpcTx
claimed = tx_by (codes "NQ11") (make_claim_payload (codes "alice")) 10

abbrev other_release : RpcTx
other_release = tx_by (codes "NQ22") (make_release_payload (codes "alice")) 20

abbrev registry : HandleRegistry
registry = record {
  rows = [];
  reserved = [];
  htlc_creator = λ a. [];
  release_activation_height = 15;
  handles = [];
}

resolve-rebuild_example :
    (chain : List RpcTx) × ((p : RpcTx → Bool)
      → count p chain ≡ count p (other_release ∷ claimed ∷ []))
    × IsChronological chain
    × (resolve (codes "alice") (rebuild true (other_release ∷ claimed ∷ []) registry).1
        ≡ owner_steps registry (codes "alice") chain none)
resolve-rebuild_example =
    resolve-rebuild registry (codes "alice") (other_release ∷ claimed ∷ []) true

abbrev owner : HandleClaim
owner = record {
  handle = codes "alice";
  address = codes "NQ11";
  tx_hash = codes "h";
  block_height = 10;
  tx_index = 0;
  claimed_at = 5;
}

owned : find (claims_handle (codes "alice")) (owner ∷ []) ≡ some owner
unfolding find text_eq
owned = refl

stranger :
    text_eq
      (compact_address owner.address)
      (compact_address (signer_of registry.htlc_creator other_release))
    ≡ false
unfolding text_eq compact_address claimant_address tx_sender normalize_address
stranger = ground arith

only_owner_releases_example :
    find (claims_handle (codes "alice")) (apply_txs registry (other_release ∷ []) (owner ∷ []))
    ≡ some owner
only_owner_releases_example =
    only_owner_releases registry (codes "alice") owner (other_release ∷ []) (owner ∷ []) owned
      (stranger, tt)

rebuild-IsMap_example : IsMap (rebuild false (other_release ∷ claimed ∷ []) registry).1.handles
rebuild-IsMap_example = rebuild-IsMap registry (other_release ∷ claimed ∷ []) false

claimed_sized : IsSizedTx claimed
unfolding tx_index_or_zero
claimed_sized = (omega arith, omega arith)

load-rebuild_example :
    (load_from_db (rebuild true (claimed ∷ []) registry).1).handles
    ≡ (rebuild true (claimed ∷ []) registry).1.handles
load-rebuild_example = load-rebuild registry (claimed ∷ []) (claimed_sized, tt)

resolve_address-IsFirst_example :
    ((resolve_address (codes "NQ11") (record registry { handles = owner ∷ [] }) ≡ none)
      × All (λ c. is_owner (compact_address (codes "NQ11")) c ≡ false) (owner ∷ []))
    ⊎ ((c : HandleClaim) × (resolve_address
            (codes "NQ11")
            (record registry { handles = owner ∷ [] })
          ≡ some c)
        × Mem c (owner ∷ [])
        × (is_owner (compact_address (codes "NQ11")) c ≡ true)
        × IsFirst (compact_address (codes "NQ11")) c (owner ∷ []))
resolve_address-IsFirst_example =
    resolve_address-IsFirst (codes "NQ11") (record registry { handles = owner ∷ [] })

abbrev one_page : SweepCircumstances
one_page = record {
  started = 1;
  ended = 2;
  pages = λ cursor. some (take 500 (rest_after cursor (claimed ∷ [])));
  persists = true;
}

-- The node's history at each sweep.
abbrev one_claim : SweepCircumstances → List RpcTx
one_claim at = claimed ∷ []

one_page_served : Serves 500 (claimed ∷ []) one_page.pages
unfolding count
one_page_served = record { unique = λ h. ground arith; answers = λ cursor. inr refl }

abbrev synced : HandleSyncer
synced = record {
  registry = (rebuild true (claimed ∷ []) registry).1;
  registry_address = codes "REGISTRY";
  last_sweep = some 2;
  complete = true;
}

parsed_claim : parse_claim_data (tx_data claimed) ≡ some claim_action
unfolding tx_data hex_encode make_claim_payload
parsed_claim = parsed

to_registry :
    text_eq (compact_address (tx_recipient claimed)) (compact_address (codes "REGISTRY")) ≡ true
unfolding tx_recipient text_eq compact_address
to_registry = refl

new_owner : signer_of registry.htlc_creator claimed ≡ codes "NQ11"
unfolding compact_address claimant_address tx_sender normalize_address
new_owner = refl

claim_applied :
    apply_action 15 claimed (signer_of registry.htlc_creator claimed) claim_action [] ≡ owner ∷ []
unfolding apply_action find tx_index_or_zero
claim_applied = rw new_owner refl

first_claim : apply_tx registry claimed [] ≡ owner ∷ []
unfolding apply_tx
first_claim = rw (apply_tx, parsed_claim) claim_applied

alice_resolved : resolve (codes "alice") (rebuild true (claimed ∷ []) registry).1 ≡ some owner
unfolding rebuild persist ordered insert_tx apply_txs resolve find text_eq
alice_resolved = rw first_claim refl

alice_paid :
    payment_resolve_handler one_page
      (codes "alice")
      (run_calls [] (new_handle_syncer registry (codes "REGISTRY")))
    ≡ (HandleReply.answered owner, synced)
unfolding payment_resolve_handler sweep_registry sweep_history all_pages registry_ordering_ambiguous
    run_calls new_handle_syncer select exists count rebuild persist
alice_paid = rw (alice_valid, to_registry, parsed_claim, alice_resolved) refl

payment_rests_on_proof_example :
    (p : IsProof (one_page ∷ []) synced) × (p.history.txs ≡ claimed ∷ [])
    × (resolve (codes "alice") synced.registry ≡ some owner)
payment_rests_on_proof_example =
    payment_rests_on_proof [] registry (codes "REGISTRY") (codes "alice") one_page owner synced
      one_claim (one_page_served, tt) alice_paid
