-- ===== src/Market/Settlement/Refund.antt =====
-- What a run of `refund_trade` asks of the signing node.
use mathlib.Core.Path.{subst}
use nim_connect.Base.{
  sym, not, List, ℕ, ◌<◌, refl, ◌≡◌, ◌≢◌, ◌∙◌, ◌⊎◌, inl, inr, true, some, ◌∷◌, Text, ok, arith,
  guard,
}
use nim_connect.Market.State.{TradeState, Trade, state_eq, state_eq_iff}
use nim_connect.Market.Tables.{Tables, find_trade}
use nim_connect.Market.Store.{wrong_state, needs_reconciliation, mark_refund_attempt}
use nim_connect.Market.Store.Updates.{mark_refund_ok, refund_marked as refund_row}
use nim_connect.Market.Kept.Instances.{Evolves-IsKept}
use nim_connect.Market.Kept.Workers.{refund_marked-Keeps}
use nim_connect.Market.Store.History.{Evolves-refl, Reaches}
use nim_connect.Market.World.{
  World, Outcome, M, lift, ◌>>=◌, ◌>>◌, read_clock, transact, send_payment, hash_of, head_reply,
  rest_of, transact_cases, bind_err, bind_ok,
}
use nim_connect.Market.Settlement.{
  is_attempted, refund_of, resolve_trade, refund_marked, pay_back, refund_resolved, refund_trade,
}
use nim_connect.Market.Settlement.Silent.{
  IsSilent-transact, continue_silent, silent_rules, append-IsSilent, move-IsSilent,
  resolve_trade-IsSilent, resolve_cases, guarded, unless,
}

-- `refund_marked` asks for exactly one payment, the price to the buyer.
refund_marked_sent :
    (escrow i : Text) (now : ℕ) (t : Trade) (w : World)
    → (refund_marked escrow i now t w).1.sent ≡ refund_of escrow t ∷ w.sent
unfolding refund_marked send_payment ◌>>=◌
refund_marked_sent escrow i now t w =
    continue_silent (hash_of (head_reply w.replies)) _
      (record w { replies = rest_of w.replies; sent = refund_of escrow t ∷ w.sent })
      (λ h. search (silent_rules, append-IsSilent, move-IsSilent) depth 9)

-- A refund for the trade was asked for: what was so before, and what is so after.
pub record PaysBack (escrow i : Text) (w w' : World) : Type 0 where
  pub trade : Trade
  pub found : find_trade i w.tables.trades ≡ some trade
  pub pending : state_eq trade.state TradeState.refund_pending ≡ true
  pub unmarked : trade.refund_attempted_at ≡ 0
  pub asked : w'.sent ≡ refund_of escrow trade ∷ w.sent
  pub later : Trade
  pub later_found : find_trade i w'.tables.trades ≡ some later
  pub marked : 0 < w.clock → later.refund_attempted_at ≢ 0
  pub after : Reaches TradeState.refund_pending later.state

module _ (escrow i : Text) (w : World) where
  clocked : World
  clocked = (read_clock (read_clock w).1).1

  updated : ℕ
  updated = (read_clock w).1.clock

  refund_marked-PaysBack :
      (marked : Trade) (db : Tables) (v : World)
      → mark_refund_attempt i w.clock updated w.tables ≡ ok (marked, db)
      → v.tables ≡ db
      → v.sent ≡ w.sent
      → PaysBack escrow i w (refund_marked escrow i w.clock marked v).1
  refund_marked-PaysBack marked db v done tables sent =
      let (t, found, pending, first, is, wrote) =
        mark_refund_ok i w.clock updated w.tables db marked done in
      let (u, row, at, still) = refund_row i w.clock updated w.tables db marked done in
      let kept =
        (refund_marked-Keeps (Evolves-IsKept db) escrow i w.clock marked).at v
          (rw tables (Evolves-refl db)) in
      let (x, last, l) = kept.trade i u row in
      record {
        trade = t;
        found = found;
        pending = pending;
        unmarked = first;
        asked = refund_marked_sent escrow i w.clock marked v ∙ rw (is, sent) refl;
        later = x;
        later_found = last;
        marked = λ h e. omega (arith, at, e, l.refund_kept (λ z. omega (arith, at, z)));
        after = rw (← (state_eq_iff u.state TradeState.refund_pending).0 still) l.along;
      }

  pay_back_cases :
      ((pay_back escrow i w).1.sent ≡ w.sent) ⊎ PaysBack escrow i w (pay_back escrow i w).1
  unfolding pay_back ◌>>=◌ read_clock clocked updated
  pay_back_cases =
      let body = mark_refund_attempt i w.clock updated in
      let rest = λ (t : Trade). refund_marked escrow i w.clock t in
      elim (transact_cases body clocked) [
        | inl (e, h) ↦ inl (
            subst (λ r. r.1.sent ≡ w.sent) (sym (bind_err (transact body) rest clocked h))
              ((IsSilent-transact body).at clocked))
        | inr (marked, db, d, t) ↦ inr (
            subst (λ r. PaysBack escrow i w r.1) (sym (bind_ok (transact body) rest t))
              (refund_marked-PaysBack marked db _ d refl refl))
      ]

-- `PaysBack` looks at the tables, the clock and the payments alone.
PaysBack-from :
    (escrow i : Text) (w w' : World) (outcomes : List Outcome)
    → PaysBack escrow i (record w { outcomes = outcomes }) w'
    → PaysBack escrow i w w'
PaysBack-from escrow i w w' outcomes p = record {
  trade = p.trade;
  found = p.found;
  pending = p.pending;
  unmarked = p.unmarked;
  asked = p.asked;
  later = p.later;
  later_found = p.later_found;
  marked = p.marked;
  after = p.after;
}

module _ (escrow i : Text) (w : World) where
  abbrev Outcomes : World → Type 0
  Outcomes w' = (w'.sent ≡ w.sent) ⊎ PaysBack escrow i w w'

  resolved_cases :
      (t : Trade)
      → find_trade i w.tables.trades ≡ some t
      → Outcomes (refund_resolved escrow i t (record w { outcomes = rest_of w.outcomes })).1
  unfolding refund_resolved
  resolved_cases t found =
      let v : World = record w { outcomes = rest_of w.outcomes } in
      let is_pending = state_eq t.state TradeState.refund_pending in
      let is_clean = not (is_attempted t.refund_attempted_at t.refund_tx_hash) in
      let clean : M (Unit {0}) = lift (guard is_clean needs_reconciliation) >> pay_back escrow i in
      let started : M (Unit {0}) = lift (guard is_pending wrong_state) >> clean in
      unless Outcomes v (inl refl) (state_eq t.state TradeState.refunded) tt started λ _.
        guarded Outcomes v (inl refl) is_pending wrong_state clean λ _.
          guarded Outcomes v (inl refl) is_clean needs_reconciliation (pay_back escrow i) λ _.
            elim (pay_back_cases escrow i v) [
              | inl s ↦ inl s
              | inr p ↦ inr (PaysBack-from escrow i w _ (rest_of w.outcomes) p)
            ]

  -- A run of `refund_trade` either asks for nothing, or for exactly one payment: the whole price,
  -- to the buyer, for a trade that is pending and was never attempted before.
  pub refund_cases :
      ((refund_trade escrow i w).1.sent ≡ w.sent) ⊎ PaysBack escrow i w (refund_trade escrow i w).1
  unfolding refund_trade
  refund_cases = elim (resolve_cases i w) [
    | inl (e, h) ↦ inl (
        subst (λ r. r.1.sent ≡ w.sent)
          (sym (bind_err (resolve_trade i) (refund_resolved escrow i) w h))
          ((resolve_trade-IsSilent i).at w))
    | inr (t, found, h) ↦
        subst (λ r. Outcomes r.1) (sym (bind_ok (resolve_trade i) (refund_resolved escrow i) h))
          (resolved_cases t found)
  ]
