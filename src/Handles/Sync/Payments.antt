-- ===== src/Handles/Sync/Payments.antt =====
-- What a payment's recipient rests on.
use nim_connect.Base.{
  ◌≡◌, refl, Bool, true, false, not, ◌&&◌, none, some, List, [], ◌∷◌, map, Text, arith, Bool-cases,
  Option-cases, inl, inr, ◌⊎◌, All,
}
use nim_connect.Base.Rows.{In, All_of_In}
use nim_connect.Chain.{RpcTx}
use nim_connect.Claims.{HandleClaim}
use nim_connect.Handles.{is_valid_handle}
use nim_connect.Handles.Registry.{HandleRegistry, resolve, persist, rebuild, purge_handles}
use nim_connect.Handles.Sync.{
  HandleReply, TxHistory, HandleSyncer, SweepCircumstances, sweep_tx_page_size, sweep_tx_max_pages,
  all_pages, registry_ordering_ambiguous, inbound_of, is_cooling, rebuilt, new_handle_syncer,
  sweep_history, sweep_registry, payment_reply, payment_resolve_handler, resync_reply,
  admin_handles_resync_handler,
}
use nim_connect.Handles.Sync.Pages.{Serves, all_pages_whole}

-- The registry is what one of the sweeps has built: from the node's pages, read to a short page, with
-- the claims of each block in a known order.
pub record IsProof (ats : List SweepCircumstances) (s : HandleSyncer) : Type 0 where
  pub at : SweepCircumstances
  pub among : In at ats
  pub history : TxHistory
  pub walked : all_pages at.pages sweep_tx_page_size sweep_tx_max_pages none ≡ some history
  pub whole : history.complete ≡ true
  pub ordered : registry_ordering_ambiguous (inbound_of s history.txs) ≡ false
  pub before : HandleRegistry
  pub built : s.registry ≡ (rebuild true (inbound_of s history.txs) before).1

abbrev IsSynced : List SweepCircumstances → HandleSyncer → Type 0
IsSynced ats s = (s.complete ≡ false) ⊎ IsProof ats s

later-IsSynced :
    (at : SweepCircumstances) (ats : List SweepCircumstances) (s : HandleSyncer)
    → IsSynced ats s
    → IsSynced (at ∷ ats) s
later-IsSynced at ats s (inl e) = inl e
later-IsSynced at ats s (inr p) = inr (record {
  at = p.at;
  among = inr p.among;
  history = p.history;
  walked = p.walked;
  whole = p.whole;
  ordered = p.ordered;
  before = p.before;
  built = p.built;
})

built-IsSynced :
    (at : SweepCircumstances) (ats : List SweepCircumstances) (h : TxHistory) (persists : Bool)
    (s : HandleSyncer)
    → all_pages at.pages sweep_tx_page_size sweep_tx_max_pages none ≡ some h
    → h.complete ≡ true
    → registry_ordering_ambiguous (inbound_of s h.txs) ≡ false
    → IsSynced (at ∷ ats) (rebuilt at.ended (rebuild persists (inbound_of s h.txs) s.registry) s).1
unfolding rebuild persist
built-IsSynced at ats h false s w c o = inl refl
built-IsSynced at ats h true s w c o = inr (record {
  at = at;
  among = inl refl;
  history = h;
  walked = w;
  whole = c;
  ordered = o;
  before = s.registry;
  built = refl;
})

swept-IsSynced :
    (force : Bool) (at : SweepCircumstances) (ats : List SweepCircumstances) (s : HandleSyncer)
    → IsSynced ats s
    → IsSynced (at ∷ ats) (sweep_registry force at s).1
unfolding sweep_registry sweep_history
swept-IsSynced force at ats s p =
    elim (Bool-cases (not force && is_cooling at.started s.last_sweep)) [
      | inl e ↦ rw e (later-IsSynced at ats s p)
      | inr e ↦
          elim (Option-cases (all_pages at.pages sweep_tx_page_size sweep_tx_max_pages none)) [
            | inl w ↦ rw (e, w) (inl refl)
            | inr (h, w) ↦ elim (Bool-cases h.complete) [
              | inr c ↦ rw (e, w, c) (inl refl)
              | inl c ↦ elim (Bool-cases (registry_ordering_ambiguous (inbound_of s h.txs))) [
                | inl o ↦ rw (e, w, c, o) (inl refl)
                | inr o ↦ rw (e, w, c, o) (built-IsSynced at ats h at.persists s w c o)
              ]
            ]
          ]
    ]

-- After a purge a sweep is forced, whatever the registry was.
forced-IsSynced :
    (at : SweepCircumstances) (ats : List SweepCircumstances) (s : HandleSyncer)
    → IsSynced (at ∷ ats) (sweep_registry true at s).1
unfolding sweep_registry sweep_history
forced-IsSynced at ats s =
    elim (Option-cases (all_pages at.pages sweep_tx_page_size sweep_tx_max_pages none)) [
      | inl w ↦ rw w (inl refl)
      | inr (h, w) ↦ elim (Bool-cases h.complete) [
        | inr c ↦ rw (w, c) (inl refl)
        | inl c ↦ elim (Bool-cases (registry_ordering_ambiguous (inbound_of s h.txs))) [
          | inl o ↦ rw (w, c, o) (inl refl)
          | inr o ↦ rw (w, c, o) (built-IsSynced at ats h at.persists s w c o)
        ]
      ]
    ]

-- A sweep, by the timer, a claim or by force; a payment's resolution; a resync by an administrator.
pub data SyncCall : Type 0 where
  sweeps : Bool → SweepCircumstances → SyncCall
  pays : Text → SweepCircumstances → SyncCall
  resyncs : Bool → Bool → SweepCircumstances → SyncCall

abbrev pub met : SyncCall → SweepCircumstances
met (SyncCall.sweeps force at) = at
met (SyncCall.pays handle at) = at
met (SyncCall.resyncs admitted purges at) = at

abbrev pub perform : SyncCall → HandleSyncer → HandleSyncer
perform (SyncCall.sweeps force at) s = (sweep_registry force at s).1
perform (SyncCall.pays handle at) s = (payment_resolve_handler at handle s).1
perform (SyncCall.resyncs admitted purges at) s =
    (admin_handles_resync_handler admitted purges at s).1

-- The syncer after calls, the last call first.
unfoldable pub run_calls : List SyncCall → HandleSyncer → HandleSyncer
run_calls [] s = s
run_calls (c ∷ cs) s = perform c (run_calls cs s)

paid_state :
    (at : SweepCircumstances) (handle : Text) (s : HandleSyncer)
    → is_valid_handle handle ≡ true
    → (payment_resolve_handler at handle s).1 ≡ (sweep_registry false at s).1
unfolding payment_resolve_handler
paid_state at handle s v = rw v (ground arith)

resynced :
    (at : SweepCircumstances) (s : HandleSyncer)
    → (resync_reply (sweep_registry true at s)).1 ≡ (sweep_registry true at s).1
resynced at s = ground arith

perform-IsSynced :
    (c : SyncCall) (ats : List SweepCircumstances) (s : HandleSyncer)
    → IsSynced ats s
    → IsSynced (met c ∷ ats) (perform c s)
unfolding payment_resolve_handler admin_handles_resync_handler purge_handles
perform-IsSynced (SyncCall.sweeps force at) ats s p = swept-IsSynced force at ats s p
perform-IsSynced (SyncCall.pays handle at) ats s p = elim (Bool-cases (is_valid_handle handle)) [
  | inl v ↦ rw (perform, paid_state at handle s v) (swept-IsSynced false at ats s p)
  | inr v ↦ rw (perform, v) (later-IsSynced at ats s p)
]
perform-IsSynced (SyncCall.resyncs false purges at) ats s p = later-IsSynced at ats s p
perform-IsSynced (SyncCall.resyncs true false at) ats s p = later-IsSynced at ats s p
perform-IsSynced (SyncCall.resyncs true true at) ats s p =
    let purged : HandleSyncer = record s {
      registry = record s.registry { rows = []; handles = [] };
    } in
    rw (perform, resynced at purged) (forced-IsSynced at ats purged)

run_calls-IsSynced :
    (cs : List SyncCall) (r : HandleRegistry) (address : Text)
    → IsSynced (map met cs) (run_calls cs (new_handle_syncer r address))
unfolding run_calls new_handle_syncer
run_calls-IsSynced [] r address = inl refl
run_calls-IsSynced (c ∷ cs) r address =
    perform-IsSynced c (map met cs) (run_calls cs (new_handle_syncer r address))
      (run_calls-IsSynced cs r address)

paid :
    (handle : Text) (ats : List SweepCircumstances) (swept : Bool × HandleSyncer)
    (s' : HandleSyncer) (c : HandleClaim)
    → IsSynced ats swept.1
    → payment_reply handle swept ≡ (HandleReply.answered c, s')
    → IsProof ats s' × (resolve handle s'.registry ≡ some c)
paid handle ats (false, s) s' c p h = cc
paid handle ats (true, s) s' c (inl e) h = cc (rw e at h)
paid handle ats (true, s) s' c (inr p) h =
    let same : s' ≡ s = ground (arith, h) in (rw same p, rw same (ground (arith, h)))

-- Whatever sweeps, payments and resyncs come before: a payment is answered with a claim only if the
-- registry has been built, by that request's sweep or an earlier one, from transactions that are, where
-- the node answers each cursor of a sweep with an error or with the page of its history that follows it,
-- the whole history that it had at that sweep, in which no two claims of a block lack an index; and the
-- claim is what this registry has for the handle.
pub payment_rests_on_proof :
    (cs : List SyncCall) (r : HandleRegistry) (address handle : Text) (at : SweepCircumstances)
    (c : HandleClaim) (s' : HandleSyncer) (node : SweepCircumstances → List RpcTx)
    → All (λ x. Serves sweep_tx_page_size (node x) x.pages) (at ∷ map met cs)
    → payment_resolve_handler at handle (run_calls cs (new_handle_syncer r address))
      ≡ (HandleReply.answered c, s')
    → (p : IsProof (at ∷ map met cs) s') × (p.history.txs ≡ node p.at)
      × (resolve handle s'.registry ≡ some c)
unfolding payment_resolve_handler
payment_rests_on_proof cs r address handle at c s' node served h =
    let s = run_calls cs (new_handle_syncer r address) in
    let valid : is_valid_handle handle ≡ true = ground (arith, h) in
    let (p, claim) =
      paid handle (at ∷ map met cs) (sweep_registry false at s) s' c
        (swept-IsSynced false at (map met cs) s (run_calls-IsSynced cs r address))
        (rw valid at h) in
    let serves =
      All_of_In (λ x. Serves sweep_tx_page_size (node x) x.pages) (at ∷ map met cs) p.at served
        p.among in
    (
      p,
      all_pages_whole 499 sweep_tx_max_pages (node p.at) p.at.pages none p.history serves p.walked
          p.whole,
      claim,
    )
