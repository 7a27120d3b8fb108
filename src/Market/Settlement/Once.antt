-- ===== src/Market/Settlement/Once.antt =====
-- A trade is paid for once: after one payment was asked for it, no run asks for another.
use nim_connect.Base.{
  ◌<◌, ◌≢◌, ◌≡◌, refl, true, false, Text, arith, ◌⊎◌, inl, inr, exists, some, sym, ◌∙◌,
}
use nim_connect.Market.State.{
  TradeState, Trade, settlement_pending, refund_pending, settled, refunded, manual_review, state_eq,
  can_transition_to, allowed_transitions,
}
use nim_connect.Market.Tables.{find_trade}
use nim_connect.Market.Store.History.{Reaches, Reaches-trans, here, next}
use nim_connect.Market.World.{World}
use nim_connect.Market.Runs.{Run}
use nim_connect.Market.Runs.Laws.{Run-IsLater}
use nim_connect.Market.Settlement.{settle, refund_trade}
use nim_connect.Market.Settlement.Payout.{settle_cases}
use nim_connect.Market.Settlement.Refund.{refund_cases}

-- No trade is pending for a refund once it was pending for its settlement, and the other way round.
past_settlement :
    (s n : TradeState)
    → can_transition_to s n ≡ true
    → (s ≡ settlement_pending) ⊎ ((s ≡ settled) ⊎ (s ≡ manual_review))
    → (n ≡ settlement_pending) ⊎ ((n ≡ settled) ⊎ (n ≡ manual_review))
unfolding can_transition_to state_eq allowed_transitions exists
past_settlement settlement_pending n h p = ground arith
past_settlement settled n h p = ground arith
past_settlement manual_review n h p = ground arith
past_settlement _ n h p = ground arith

past_refund :
    (s n : TradeState)
    → can_transition_to s n ≡ true
    → (s ≡ refund_pending) ⊎ ((s ≡ refunded) ⊎ (s ≡ manual_review))
    → (n ≡ refund_pending) ⊎ ((n ≡ refunded) ⊎ (n ≡ manual_review))
unfolding can_transition_to state_eq allowed_transitions exists
past_refund refund_pending n h p = ground arith
past_refund refunded n h p = ground arith
past_refund manual_review n h p = ground arith
past_refund _ n h p = ground arith

after_settlement :
    {s : TradeState}
    → Reaches settlement_pending s
    → (s ≡ settlement_pending) ⊎ ((s ≡ settled) ⊎ (s ≡ manual_review))
after_settlement here = inl refl
after_settlement (next {t} {u} r h) = past_settlement t u h (after_settlement r)

after_refund :
    {s : TradeState}
    → Reaches refund_pending s
    → (s ≡ refund_pending) ⊎ ((s ≡ refunded) ⊎ (s ≡ manual_review))
after_refund here = inl refl
after_refund (next {t} {u} r h) = past_refund t u h (after_refund r)

module _ (e i : Text) (v : World) (t : Trade) (found : find_trade i v.tables.trades ≡ some t) where
  -- A trade with an attempt on its payout is not paid out again.
  no_payout_again :
      (t.payout_attempted_at ≢ 0) ⊎ (state_eq t.state settlement_pending ≡ false)
      → (settle e i v).1.sent ≡ v.sent
  no_payout_again marked = elim (settle_cases e i v) [
    | inl s ↦ s
    | inr (p, covers) ↦
        let same : p.trade ≡ t = cc (found, p.found) in
        elim marked [
          | inl m ↦ absurd (m (rw (← same) p.unmarked))
          | inr m ↦ cc (same, m, p.pending)
        ]
  ]

  no_refund_again :
      (t.refund_attempted_at ≢ 0) ⊎ (state_eq t.state refund_pending ≡ false)
      → (refund_trade e i v).1.sent ≡ v.sent
  no_refund_again marked = elim (refund_cases e i v) [
    | inl s ↦ s
    | inr p ↦
        let same : p.trade ≡ t = cc (found, p.found) in
        elim marked [
          | inl m ↦ absurd (m (rw (← same) p.unmarked))
          | inr m ↦ cc (same, m, p.pending)
        ]
  ]

not_pending :
    {s p a b : TradeState}
    → (s ≡ p) ⊎ ((s ≡ a) ⊎ (s ≡ b))
    → (q : TradeState) → state_eq p q ≡ false
    → state_eq a q ≡ false
    → state_eq b q ≡ false
    → state_eq s q ≡ false
not_pending c q p a b = ground arith

-- Once `settle`, at a clock after 0, has asked the signing node for a payment of the trade, neither
-- `settle` nor `refund_trade` asks for another in any world that a run of the marketplace leads to.
pub settled_once :
    (escrow i : Text) (w v : World)
    → 0 < w.clock
    → (settle escrow i w).1.sent ≢ w.sent
    → Run (settle escrow i w).1 v
    → (e : Text) → ((settle e i v).1.sent ≡ v.sent) × ((refund_trade e i v).1.sent ≡ v.sent)
unfolding state_eq
settled_once escrow i w v clock paid run e = elim (settle_cases escrow i w) [
  | inl s ↦ absurd (paid s)
  | inr (p, covers) ↦
      let (t, found, l) = Run-IsLater run i p.later p.later_found in
      let states = after_settlement (Reaches-trans p.after l.along) in
      (
        no_payout_again e i v t found
            (inl (λ z. p.marked clock (sym (l.payout_kept (p.marked clock)) ∙ z))),
        no_refund_again e i v t found (inr (not_pending states refund_pending refl refl refl)),
      )
]

-- Once `refund_trade`, at a clock after 0, has asked the signing node for a payment of the trade,
-- neither `settle` nor `refund_trade` asks for another in any world that a run of the marketplace
-- leads to.
pub refunded_once :
    (escrow i : Text) (w v : World)
    → 0 < w.clock
    → (refund_trade escrow i w).1.sent ≢ w.sent
    → Run (refund_trade escrow i w).1 v
    → (e : Text) → ((settle e i v).1.sent ≡ v.sent) × ((refund_trade e i v).1.sent ≡ v.sent)
unfolding state_eq
refunded_once escrow i w v clock paid run e = elim (refund_cases escrow i w) [
  | inl s ↦ absurd (paid s)
  | inr p ↦
      let (t, found, l) = Run-IsLater run i p.later p.later_found in
      let states = after_refund (Reaches-trans p.after l.along) in
      (
        no_payout_again e i v t found (inr (not_pending states settlement_pending refl refl refl)),
        no_refund_again e i v t found
            (inl (λ z. p.marked clock (sym (l.refund_kept (p.marked clock)) ∙ z))),
      )
]
