-- ===== src/Market/Kept/Watchers.antt =====
-- The sweeps of the two watchers keep each property that the transactions keep.
use nim_connect.Base.{ℕ, Option, none, some, List, [], ◌∷◌, Text, Result, ok, err, ◌≢◌, All}
use nim_connect.Chain.{RpcTx}
use nim_connect.Claims.{HandleClaim}
use nim_connect.Market.State.{TradeState, Trade}
use nim_connect.Market.Tables.{Tables}
use nim_connect.Market.Store.{MarketError}
use nim_connect.Market.World.{M, pure}
use nim_connect.Market.Watchers.{
  for_each, unless_failed, or_continue, matched, match_reference, match_deposit, finalize_deposit,
  advance_funded, escrow_sweep, complete_trade, unwind_trade, judge_claim, judge_trade,
  ownership_sweep,
}
use nim_connect.Market.Kept.Workers.{
  unchanged-IsGentle, claim_hash-IsGentle, deposit_recorded-IsGentle, move-Keeps,
  walk_chain_to-Keeps, walk_chain_to_failure-Keeps, settle-Keeps, refund_trade-Keeps,
}
use nim_connect.Market.Kept.{
  IsKept, Keeps, Keeps-pure, Keeps-query, Keeps-if, Keeps-bind, keeps_rules,
}

module _ {Q : Tables → Type 0} (k : IsKept Q) where
  unless_failed-Keeps :
      {A : Type 0} (r : Result MarketError A) (next : M (Unit {0}))
      → Keeps Q next
      → Keeps Q (unless_failed r next)
  unless_failed-Keeps (ok a) next kn = kn
  unless_failed-Keeps (err e) next kn = record { at = λ w h. h }

  or_continue-Keeps :
      {A : Type 0} (m : M A) (next : M (Unit {0}))
      → Keeps Q m
      → Keeps Q next
      → Keeps Q (or_continue m next)
  unfolding or_continue
  or_continue-Keeps m next km kn = record {
    at = λ w h. let (r, w') = m w in (unless_failed-Keeps r next kn).at w' (km.at w h);
  }

  for_each-Keeps :
      {A : Type 0} (body : A → M (Unit {0})) (xs : List A)
      → ((x : A) → Keeps Q (body x))
      → Keeps Q (for_each body xs)
  unfolding for_each
  for_each-Keeps body [] kb = Keeps-pure tt
  for_each-Keeps body (x ∷ xs) kb = Keeps-bind _ _ (kb x) (λ _. for_each-Keeps body xs kb)

  complete_trade-Keeps :
      (escrow : Text) (claim : HandleClaim) (t : Trade) → Keeps Q (complete_trade escrow claim t)
  unfolding complete_trade
  complete_trade-Keeps escrow claim t =
      or_continue-Keeps _ _
        (walk_chain_to-Keeps k 6 t.id TradeState.settlement_pending _
          (claim_hash-IsGentle claim.tx_hash))
        (settle-Keeps k escrow t.id)

  unwind_trade-Keeps : (escrow : Text) (t : Trade) → Keeps Q (unwind_trade escrow t)
  unfolding unwind_trade
  unwind_trade-Keeps escrow t = or_continue-Keeps _ _ (walk_chain_to_failure-Keeps k t.id) (
      or_continue-Keeps _ _ (move-Keeps k t.id _ _ none unchanged-IsGentle)
        (refund_trade-Keeps k escrow t.id))

  judge_trade-Keeps :
      (escrow : Text) (resolve_handle : Text → Option HandleClaim) (macro_height : ℕ) (t : Trade)
      → Keeps Q (judge_trade escrow resolve_handle macro_height t)
  unfolding judge_trade judge_claim
  judge_trade-Keeps escrow resolve_handle macro_height t =
      elim (resolve_handle t.handle)
        as (λ c.
          Keeps Q
            (elim c [ none ↦ pure tt | some claim ↦ judge_claim escrow macro_height claim t ])) [
              | none ↦ Keeps-pure tt
              | some claim ↦ search (keeps_rules, complete_trade-Keeps, unwind_trade-Keeps)
            ]

  -- Also with whatever the registry resolves, and whatever height the node reports.
  pub ownership_sweep-Keeps :
      (escrow : Text) (resolve_handle : Text → Option HandleClaim) (macro_height : ℕ)
      → Keeps Q (ownership_sweep escrow resolve_handle macro_height)
  unfolding ownership_sweep
  ownership_sweep-Keeps escrow resolve_handle macro_height = for_each-Keeps _ _ λ state.
      Keeps-bind _ _ (Keeps-query _ _)
        λ trades. for_each-Keeps _ trades (judge_trade-Keeps escrow resolve_handle macro_height)

  found-Keeps : (tx : RpcTx) (found : Option Trade) → tx.hash ≢ [] → Keeps Q (matched tx found)
  found-Keeps tx none h = Keeps-pure tt
  found-Keeps tx (some t) h =
      Keeps-if _ _ _ (move-Keeps k t.id _ _ _ (deposit_recorded-IsGentle tx h)) (Keeps-pure tt)

  match_deposit-Keeps :
      (escrow : Text) (tx : RpcTx) → tx.hash ≢ [] → Keeps Q (match_deposit escrow tx)
  unfolding match_deposit match_reference
  match_deposit-Keeps escrow tx h =
      Keeps-if _ _ _ (Keeps-bind _ _ (Keeps-query _ _) (λ found. found-Keeps tx found h))
        (Keeps-pure tt)

  deposits-Keeps :
      (escrow : Text) (txs : List RpcTx)
      → All (λ tx. tx.hash ≢ []) txs
      → Keeps Q (for_each (match_deposit escrow) txs)
  unfolding for_each
  deposits-Keeps escrow [] h = Keeps-pure tt
  deposits-Keeps escrow (tx ∷ txs) h =
      Keeps-bind _ _ (match_deposit-Keeps escrow tx h.0) (λ _. deposits-Keeps escrow txs h.1)

  -- Every transaction that the node reports has a hash.
  pub escrow_sweep-Keeps :
      (escrow : Text) (txs : List RpcTx) (macro_height : ℕ)
      → All (λ tx. tx.hash ≢ []) txs
      → Keeps Q (escrow_sweep escrow txs macro_height)
  unfolding escrow_sweep finalize_deposit advance_funded
  escrow_sweep-Keeps escrow txs macro_height h = Keeps-bind _ _ (deposits-Keeps escrow txs h) λ _.
      Keeps-bind _ _ (Keeps-query _ _) λ finalizing.
        Keeps-bind _ _
          (for_each-Keeps _ finalizing
            (λ t. Keeps-if _ _ _ (Keeps-pure tt) (move-Keeps k t.id _ _ none unchanged-IsGentle)))
          λ _. Keeps-bind _ _ (Keeps-query _ _) λ funded. for_each-Keeps _ funded (λ t.
            or_continue-Keeps _ _ (move-Keeps k t.id _ _ none unchanged-IsGentle) (Keeps-pure tt))
