-- ===== src/Market/Walk/Ends.antt =====
-- How the walk along the settlement chain ends.
use mathlib.Core.Path.{subst}
use nim_connect.Base.{
  ℕ, zero, suc, ◌≤◌, ◌≡◌, refl, sym, true, Option, none, some, Text, text_eq, arith, Bool-cases,
  ◌⊎◌, inl, inr, ok, err, Result, if◌then◌else◌, or_fail,
}
use nim_connect.Base.Counts.{find_holds}
use nim_connect.Market.State.{
  TradeState, Trade, awaiting_release, release_confirming, awaiting_claim, claim_confirming,
  settlement_pending, state_eq, state_eq_iff,
}
use nim_connect.Market.Tables.{find_trade, has_id}
use nim_connect.Market.Tables.Rows.{find_trade-write_trade}
use nim_connect.Market.Store.{MarketError, cannot_reach, transition, mutated, touched}
use nim_connect.Market.Store.Updates.{IsGentle, transition_ok}
use nim_connect.Market.World.{
  World, M, pure, lift, ◌>>=◌, ◌>>◌, read_clock, rest_of, transact_cases, bind_err, bind_ok,
}
use nim_connect.Market.Settlement.{resolve_trade, move}
use nim_connect.Market.Settlement.Silent.{resolve_cases}
use nim_connect.Market.Kept.Workers.{chosen-IsGentle}
use nim_connect.Market.Watchers.{walk_rounds}
use nim_connect.Market.Walk.{Walked, arrived, settlement_chain, next_in, walk_chain_to}

-- `Transition` fails, or leaves the trade in the state it was asked for.
pub move_cases :
    (i : Text) (from to : TradeState) (mutate : Option (Trade → Trade)) (w : World)
    → IsGentle (mutated mutate)
    → ((e : MarketError) × ((move i from to mutate w).0 ≡ err e))
      ⊎ ((t : Trade) × (w' : World) × (move i from to mutate w ≡ (ok tt, w'))
          × (find_trade i w'.tables.trades ≡ some t)
          × (t.state ≡ to))
unfolding move ◌>>=◌ read_clock find_trade
move_cases i from to mutate w g =
    elim (transact_cases (transition i from to mutate w.clock) (read_clock w).1) [
      | inl (e, h) ↦ inl (e, h)
      | inr (u, db, d, h) ↦
          let (t, found, at, allowed, wrote) =
            transition_ok i from to mutate w.clock w.tables db d in
          let same : text_eq (mutated mutate t).id i ≡ true =
            rw (g.same_id t) (find_holds (has_id i) w.tables.trades found) in
          inr (
            record (touched (mutated mutate t) to w.clock) { created_at = t.created_at },
            _,
            h,
            rw (wrote, find_trade-write_trade i, same, found) refl,
            refl,
          )
    ]

-- How far the end of the chain is.
left : TradeState → ℕ
left awaiting_release = 4
left release_confirming = 3
left awaiting_claim = 2
left claim_confirming = 1
left _ = 0

next_left :
    (s : TradeState)
    → (next_in s settlement_chain ≡ none)
      ⊎ ((n : TradeState) × (next_in s settlement_chain ≡ some n) × (left s ≡ suc (left n)))
unfolding next_in state_eq left
next_left awaiting_release = inr (release_confirming, refl, refl)
next_left release_confirming = inr (awaiting_claim, refl, refl)
next_left awaiting_claim = inr (claim_confirming, refl, refl)
next_left claim_confirming = inr (settlement_pending, refl, refl)
next_left _ = inl refl

left-le : (s : TradeState) → left s ≤ 4
unfolding left
left-le s = ground arith

module _ (i : Text) (target : TradeState) (mutate : Trade → Trade) (g : IsGentle mutate) where
  -- The walk fails, it arrives at its target, or it ran out of rounds.
  abbrev Ends : ℕ → World → (Result MarketError Walked × World) → Type 0
  Ends rounds w r =
      ((e : MarketError) × (r.0 ≡ err e))
      ⊎ (((t : Trade) × (r.0 ≡ ok arrived)
            × (find_trade i r.1.tables.trades ≡ some t)
            × (t.state ≡ target))
          ⊎ ((rounds ≡ 0)
              ⊎ ((t : Trade) × (find_trade i w.tables.trades ≡ some t) × (rounds ≤ left t.state))))

  -- The rest of a round, after the trade was resolved.
  abbrev round : ℕ → Trade → M Walked
  round rounds t = if state_eq t.state target then pure arrived else do
    next ← lift (or_fail (next_in t.state settlement_chain) cannot_reach)
    move i t.state next (if state_eq next target then some mutate else none)
    walk_chain_to rounds i target mutate

  moved_cases :
      (rounds : ℕ) (t : Trade) (n : TradeState) (w : World)
      → find_trade i w.tables.trades ≡ some t
      → left t.state ≡ suc (left n)
      → ((v : World) → Ends rounds v (walk_chain_to rounds i target mutate v))
      → Ends (suc rounds) w (
          (move i t.state n (if state_eq n target then some mutate else none)
              >> walk_chain_to rounds i target mutate)
            w)
  moved_cases rounds t n w found nearer ends =
      let change = if state_eq n target then some mutate else none in
      let m = move i t.state n change in
      let later = walk_chain_to rounds i target mutate in
      elim (move_cases i t.state n change w (chosen-IsGentle (state_eq n target) mutate g)) [
        | inl (e, h) ↦ inl (e, rw (bind_err m (λ _. later) w h) refl)
        | inr (u, v, h, row, at) ↦
            subst (Ends (suc rounds) w) (sym (bind_ok m (λ _. later) h)) (elim (ends v) [
              | inl a ↦ inl a
              | inr (inl a) ↦ inr (inl a)
              | inr (inr (inl z)) ↦ inr (inr (inr (t, found, omega (arith, z, nearer))))
              | inr (inr (inr (x, f, le))) ↦
                  let same : x ≡ u = cc (f, row) in
                  let lefts : left x.state ≡ left n = rw (same, at) refl in
                  inr (inr (inr (t, found, omega (arith, le, nearer, lefts))))
            ])
      ]

  round_cases :
      (rounds : ℕ) (t : Trade) (w : World)
      → find_trade i w.tables.trades ≡ some t
      → ((v : World) → Ends rounds v (walk_chain_to rounds i target mutate v))
      → Ends (suc rounds) w (round rounds t w)
  unfolding pure lift ◌>>=◌
  round_cases rounds t w found ends = elim (Bool-cases (state_eq t.state target)) [
    | inl e ↦ rw e (inr (inl (t, refl, found, (state_eq_iff t.state target).0 e)))
    | inr e ↦ elim (next_left t.state) [
      | inl h ↦ rw (e, h) (inl (cannot_reach, refl))
      | inr (n, h, nearer) ↦ rw (e, h) (moved_cases rounds t n w found nearer ends)
    ]
  ]

  walk_cases : (rounds : ℕ) (w : World) → Ends rounds w (walk_chain_to rounds i target mutate w)
  unfolding walk_chain_to pure
  walk_cases zero w = inr (inr (inl refl))
  walk_cases (suc rounds) w = elim (resolve_cases i w) [
    | inl (e, h) ↦ inl (e, rw (bind_err (resolve_trade i) (round rounds) w h) refl)
    | inr (t, found, h) ↦
        subst (Ends (suc rounds) w) (sym (bind_ok (resolve_trade i) (round rounds) h)) (
          round_cases rounds t (record w { outcomes = rest_of w.outcomes }) found
            (walk_cases rounds))
  ]

-- `walkChainTo` ends, for each closure that leaves the trade's keys and terms alone: within the six
-- rounds that it is given it returns an error, or returns with the trade in the state that was asked
-- for.
pub walk_ends :
    (i : Text) (target : TradeState) (mutate : Trade → Trade) (w : World)
    → IsGentle mutate
    → ((e : MarketError) × ((walk_chain_to walk_rounds i target mutate w).0 ≡ err e))
      ⊎ ((t : Trade) × ((walk_chain_to walk_rounds i target mutate w).0 ≡ ok arrived)
          × (find_trade i (walk_chain_to walk_rounds i target mutate w).1.tables.trades ≡ some t)
          × (t.state ≡ target))
walk_ends i target mutate w g = elim (walk_cases i target mutate g walk_rounds w) [
  | inl a ↦ inl a
  | inr (inl a) ↦ inr a
  | inr (inr (inl z)) ↦ cc z
  | inr (inr (inr (t, found, le))) ↦ absurd (omega (arith, le, left-le t.state))
]
