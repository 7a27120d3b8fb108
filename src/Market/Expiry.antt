-- ===== src/Market/Expiry.antt =====
-- backend/marketplace_store.go: `CancelUnpaidReservation` and `ExpireStaleReservations` as actions.
use nim_connect.Base.{ℕ, ◌+◌, List, [], ◌∷◌, Text, Result, ok, err}
use nim_connect.Market.State.{TradeState, Trade}
use nim_connect.Market.Store.{MarketError, release_unpaid_reservation, stale_reservations}
use nim_connect.Market.World.{M, pure, ◌>>=◌, read_clock, transact}

unfoldable pub release : Text → TradeState → M (Unit {0})
release trade_id to = do now ← read_clock; transact (release_unpaid_reservation trade_id to now)

-- 1 for an attempt that succeeds; an error is logged and counts 0.
abbrev pub tally : Result MarketError (Unit {0}) → ℕ
tally (ok u) = 1
tally (err e) = 0

unfoldable pub counted : M (Unit {0}) → M ℕ
counted m w = let (r, w') = m w in (ok (tally r), w')

unfoldable pub expire_each : List Trade → M ℕ
expire_each [] = pure 0
expire_each (t ∷ ts) =
    let rest = expire_each ts in
    do one ← counted (release t.id TradeState.expired); others ← rest; pure (one + others)

-- Its result is the number of reservations that have expired; only its query can fail.
unfoldable pub expire_stale_reservations : ℕ → M ℕ
expire_stale_reservations now = do
  stale ← transact (λ db. ok (stale_reservations now db, db))
  expire_each stale
