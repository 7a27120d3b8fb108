-- ===== src/Market/Runs/Laws.antt =====
-- What holds of the tables after any run of the marketplace.
use nim_connect.Base.{ℕ, List, [], ◌∷◌, Text, refl, ◌≡◌, false, some, arith, ok, Result}
use nim_connect.Market.State.{TradeState, Trade}
use nim_connect.Market.Tables.{Tables, find_trade}
use nim_connect.Market.Store.{MarketError, listing_trade_blocks_relist}
use nim_connect.Market.Store.Invariant.{IsConsistent}
use nim_connect.Market.Store.History.{Evolves, Evolves-refl, IsLater}
use nim_connect.Market.World.{World, M}
use nim_connect.Market.Expiry.{release, counted, expire_each, expire_stale_reservations}
use nim_connect.Market.Runs.{
  Run, start, spends_nonce, lists, reserves, cancels, expires, moves, settles, refunds,
  sweeps_escrow, sweeps_ownership,
}
use nim_connect.Market.Kept.{
  IsKept, Keeps, Keeps-pure, Keeps-bind, Keeps-transact, Keeps-read_clock,
}
use nim_connect.Market.Kept.Workers.{move-Keeps, settle-Keeps, refund_trade-Keeps}
use nim_connect.Market.Kept.Watchers.{escrow_sweep-Keeps, ownership_sweep-Keeps}
use nim_connect.Market.Kept.Instances.{IsConsistent-IsKept, Evolves-IsKept}

module _ {Q : Tables → Type 0} (k : IsKept Q) where
  pub release-Keeps :
      (i : Text) (to : TradeState) → listing_trade_blocks_relist to ≡ false → Keeps Q (release i to)
  unfolding release
  release-Keeps i to c =
      Keeps-bind _ _ Keeps-read_clock λ now. Keeps-transact _ (k.by_release i to now c)

  counted-Keeps : (m : M (Unit {0})) → Keeps Q m → Keeps Q (counted m)
  unfolding counted
  counted-Keeps m km = record { at = λ w h. km.at w h }

  expire_each-Keeps : (ts : List Trade) → Keeps Q (expire_each ts)
  unfolding expire_each listing_trade_blocks_relist
  expire_each-Keeps [] = Keeps-pure 0
  expire_each-Keeps (t ∷ ts) =
      Keeps-bind _ _ (counted-Keeps _ (release-Keeps t.id TradeState.expired refl))
        λ one. Keeps-bind _ _ (expire_each-Keeps ts) λ others. Keeps-pure _

  abbrev query_result : List Trade → Tables → Result MarketError (List Trade × Tables)
  query_result ts db = ok (ts, db)

  -- A query leaves the tables as they are.
  read_only :
      {ts stale : List Trade} {db db' : Tables}
      → query_result ts db ≡ ok (stale, db')
      → Q db
      → Q db'
  read_only e h = ground arith

  expire-Keeps : (now : ℕ) → Keeps Q (expire_stale_reservations now)
  unfolding expire_stale_reservations
  expire-Keeps now =
      Keeps-bind _ _ (Keeps-transact _ (λ db db' a h e. read_only e h)) λ ts. expire_each-Keeps ts

  pub run_kept : {w v : World} → Run w v → Q w.tables → Q v.tables
  unfolding listing_trade_blocks_relist
  run_kept start h = h
  run_kept (spends_nonce r n) h = (Keeps-transact _ (k.by_nonce n)).at _ (run_kept r h)
  run_kept (lists r a s p f e now) h =
      (Keeps-transact _ (k.by_listing a s p f e now)).at _ (run_kept r h)
  run_kept (reserves r a i c b now counted) h =
      (Keeps-transact _ (k.by_reserve a i c b now counted)).at _ (run_kept r h)
  run_kept (cancels r i) h = (release-Keeps i TradeState.canceled refl).at _ (run_kept r h)
  run_kept (expires r now) h = (expire-Keeps now).at _ (run_kept r h)
  run_kept (moves r i from to m g) h = (move-Keeps k i from to m g).at _ (run_kept r h)
  run_kept (settles r e i) h = (settle-Keeps k e i).at _ (run_kept r h)
  run_kept (refunds r e i) h = (refund_trade-Keeps k e i).at _ (run_kept r h)
  run_kept (sweeps_escrow r e txs m a) h = (escrow_sweep-Keeps k e txs m a).at _ (run_kept r h)
  run_kept (sweeps_ownership r e c m) h = (ownership_sweep-Keeps k e c m).at _ (run_kept r h)

-- Whatever the operations of a run are, in whichever order they come and wherever their calls of
-- the database and the signing node fail: consistent tables stay consistent.
pub Run-IsConsistent : {w v : World} → Run w v → IsConsistent w.tables → IsConsistent v.tables
Run-IsConsistent r h = run_kept IsConsistent-IsKept r h

pub Run-Evolves : {w v : World} → Run w v → Evolves w.tables v.tables
Run-Evolves {w} r = run_kept (Evolves-IsKept w.tables) r (Evolves-refl w.tables)

-- A trade that a run begins with is there when it ends: on the same terms, in a state that the
-- transition table leads to, and with each marker of an attempt that was set.
pub Run-IsLater :
    {w v : World}
    → Run w v
    → (i : Text) (t : Trade) → find_trade i w.tables.trades ≡ some t
    → (t' : Trade) × (find_trade i v.tables.trades ≡ some t') × IsLater t t'
Run-IsLater r i t found = (Run-Evolves r).trade i t found
