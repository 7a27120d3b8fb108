-- ===== src/Market/Settlement/Payout.antt =====
-- What a run of `settle` asks of the signing node.
use mathlib.Core.Path.{subst}
use nim_connect.Base.{
  sym, not, leb, List, ◌≤◌, leb→le, ℕ, ◌<◌, refl, ◌≡◌, ◌≢◌, ◌∙◌, ◌⊎◌, inl, inr, true, some, ◌∷◌,
  Text, ok, arith, guard,
}
use nim_connect.Market.State.{TradeState, Trade, state_eq, state_eq_iff}
use nim_connect.Market.Tables.{Tables, find_trade}
use nim_connect.Market.Store.{
  wrong_state, needs_reconciliation, fee_larger_than_price, mark_payout_attempt,
}
use nim_connect.Market.Store.Updates.{mark_payout_ok, payout_marked}
use nim_connect.Market.Kept.Instances.{Evolves-IsKept}
use nim_connect.Market.Kept.Workers.{pay_marked-Keeps}
use nim_connect.Market.Store.History.{Evolves-refl, Reaches}
use nim_connect.Market.World.{
  World, Outcome, M, lift, ◌>>=◌, ◌>>◌, read_clock, transact, send_payment, hash_of, head_reply,
  rest_of, transact_cases, bind_err, bind_ok,
}
use nim_connect.Market.Settlement.{
  is_attempted, payout_of, resolve_trade, pay_marked, pay_out, settle_resolved, settle,
}
use nim_connect.Market.Settlement.Silent.{
  IsSilent-transact, continue_silent, silent_rules, append-IsSilent, move-IsSilent,
  resolve_trade-IsSilent, resolve_cases, guarded, unless,
}

-- `pay_marked` asks for exactly one payment, the price less the fee to the seller.
pay_marked_sent :
    (escrow i : Text) (now : ℕ) (t : Trade) (w : World)
    → (pay_marked escrow i now t w).1.sent ≡ payout_of escrow t ∷ w.sent
unfolding pay_marked send_payment ◌>>=◌
pay_marked_sent escrow i now t w =
    continue_silent (hash_of (head_reply w.replies)) _
      (record w { replies = rest_of w.replies; sent = payout_of escrow t ∷ w.sent })
      (λ h. search (silent_rules, append-IsSilent, move-IsSilent) depth 9)

-- A payout for the trade was asked for: what was so before, and what is so after.
pub record PaysOut (escrow i : Text) (w w' : World) : Type 0 where
  pub trade : Trade
  pub found : find_trade i w.tables.trades ≡ some trade
  pub pending : state_eq trade.state TradeState.settlement_pending ≡ true
  pub unmarked : trade.payout_attempted_at ≡ 0
  pub asked : w'.sent ≡ payout_of escrow trade ∷ w.sent
  pub later : Trade
  pub later_found : find_trade i w'.tables.trades ≡ some later
  pub marked : 0 < w.clock → later.payout_attempted_at ≢ 0
  pub after : Reaches TradeState.settlement_pending later.state

module _ (escrow i : Text) (w : World) where
  clocked : World
  clocked = (read_clock (read_clock w).1).1

  updated : ℕ
  updated = (read_clock w).1.clock

  pay_marked_PaysOut :
      (marked : Trade) (db : Tables) (v : World)
      → mark_payout_attempt i w.clock updated w.tables ≡ ok (marked, db)
      → v.tables ≡ db
      → v.sent ≡ w.sent
      → PaysOut escrow i w (pay_marked escrow i w.clock marked v).1
  pay_marked_PaysOut marked db v done tables sent =
      let (t, found, pending, first, is, wrote) =
        mark_payout_ok i w.clock updated w.tables db marked done in
      let (u, row, at, still) = payout_marked i w.clock updated w.tables db marked done in
      let kept =
        (pay_marked-Keeps (Evolves-IsKept db) escrow i w.clock marked).at v
          (rw tables (Evolves-refl db)) in
      let (x, last, l) = kept.trade i u row in
      record {
        trade = t;
        found = found;
        pending = pending;
        unmarked = first;
        asked = pay_marked_sent escrow i w.clock marked v ∙ rw (is, sent) refl;
        later = x;
        later_found = last;
        marked = λ h e. omega (arith, at, e, l.payout_kept (λ z. omega (arith, at, z)));
        after = rw (← (state_eq_iff u.state TradeState.settlement_pending).0 still) l.along;
      }

  pay_out_cases : ((pay_out escrow i w).1.sent ≡ w.sent) ⊎ PaysOut escrow i w (pay_out escrow i w).1
  unfolding pay_out ◌>>=◌ read_clock clocked updated
  pay_out_cases =
      let body = mark_payout_attempt i w.clock updated in
      let rest = λ (t : Trade). pay_marked escrow i w.clock t in
      elim (transact_cases body clocked) [
        | inl (e, h) ↦ inl (
            subst (λ r. r.1.sent ≡ w.sent) (sym (bind_err (transact body) rest clocked h))
              ((IsSilent-transact body).at clocked))
        | inr (marked, db, d, t) ↦ inr (
            subst (λ r. PaysOut escrow i w r.1) (sym (bind_ok (transact body) rest t))
              (pay_marked_PaysOut marked db _ d refl refl))
      ]

-- `PaysOut` looks at the tables, the clock and the payments alone.
PaysOut_from :
    (escrow i : Text) (w w' : World) (outcomes : List Outcome)
    → PaysOut escrow i (record w { outcomes = outcomes }) w'
    → PaysOut escrow i w w'
PaysOut_from escrow i w w' outcomes p = record {
  trade = p.trade;
  found = p.found;
  pending = p.pending;
  unmarked = p.unmarked;
  asked = p.asked;
  later = p.later;
  later_found = p.later_found;
  marked = p.marked;
  after = p.after;
}

-- A payout for which the price covers the fee.
abbrev pub SettlePays : Text → Text → World → World → Type 0
SettlePays escrow i w w' = (p : PaysOut escrow i w w') × (p.trade.fee_luna ≤ p.trade.price_luna)

module _ (escrow i : Text) (w : World) where
  abbrev Outcomes : World → Type 0
  Outcomes w' = (w'.sent ≡ w.sent) ⊎ SettlePays escrow i w w'

  paid :
      (t : Trade) (w' : World)
      → find_trade i w.tables.trades ≡ some t
      → t.fee_luna ≤ t.price_luna
      → PaysOut escrow i (record w { outcomes = rest_of w.outcomes }) w'
      → SettlePays escrow i w w'
  unfolding PaysOut_from
  paid t w' found le p =
      let same : p.trade ≡ t = cc (found, p.found) in
      (
        PaysOut_from escrow i w w' (rest_of w.outcomes) p,
        subst (λ (x : Trade). x.fee_luna ≤ x.price_luna) (sym same) le,
      )

  resolved_cases :
      (t : Trade)
      → find_trade i w.tables.trades ≡ some t
      → Outcomes (settle_resolved escrow i t (record w { outcomes = rest_of w.outcomes })).1
  unfolding settle_resolved
  resolved_cases t found =
      let v : World = record w { outcomes = rest_of w.outcomes } in
      let is_pending = state_eq t.state TradeState.settlement_pending in
      let is_clean = not (is_attempted t.payout_attempted_at t.payout_tx_hash) in
      let covers = leb t.fee_luna t.price_luna in
      let priced : M (Unit {0}) = lift (guard covers fee_larger_than_price) >> pay_out escrow i in
      let clean : M (Unit {0}) = lift (guard is_clean needs_reconciliation) >> priced in
      let started : M (Unit {0}) = lift (guard is_pending wrong_state) >> clean in
      unless Outcomes v (inl refl) (state_eq t.state TradeState.settled) tt started λ _.
        guarded Outcomes v (inl refl) is_pending wrong_state clean λ _.
          guarded Outcomes v (inl refl) is_clean needs_reconciliation priced λ _.
            guarded Outcomes v (inl refl) covers fee_larger_than_price (pay_out escrow i) λ le.
              elim (pay_out_cases escrow i v) [
                | inl s ↦ inl s
                | inr p ↦ inr (paid t _ found (leb→le _ _ le) p)
              ]

  -- A run of `settle` either asks for nothing, or for exactly one payment: the price less the fee,
  -- to the seller, for a trade that is pending and was never attempted before.
  pub settle_cases :
      ((settle escrow i w).1.sent ≡ w.sent) ⊎ SettlePays escrow i w (settle escrow i w).1
  unfolding settle
  settle_cases = elim (resolve_cases i w) [
    | inl (e, h) ↦ inl (
        subst (λ r. r.1.sent ≡ w.sent)
          (sym (bind_err (resolve_trade i) (settle_resolved escrow i) w h))
          ((resolve_trade-IsSilent i).at w))
    | inr (t, found, h) ↦
        subst (λ r. Outcomes r.1) (sym (bind_ok (resolve_trade i) (settle_resolved escrow i) h))
          (resolved_cases t found)
  ]
