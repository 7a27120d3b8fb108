-- ===== src/Market/Kept.antt =====
-- Properties of the tables that every action of the marketplace keeps, whether it succeeds or
-- fails, and whatever the database, the clock and the signing node answer: what has to be shown of
-- each transaction, and a rule for each way to build an action.
pub mod Workers
pub mod Watchers
pub mod Instances
use nim_connect.Base.{
  ℕ, ◌≡◌, refl, Bool, true, false, Option, Text, List, Result, ok, err, if◌then◌else◌,
}
use nim_connect.Market.State.{TradeState, Trade, Listing}
use nim_connect.Market.Tables.{Tables, LedgerEntry}
use nim_connect.Market.Store.{
  MarketError, Tx, mutated, listing_trade_blocks_relist, consume_nonce, create_listing,
  reserve_listing, release_unpaid_reservation, transition, mark_payout_attempt, mark_refund_attempt,
}
use nim_connect.Market.Store.Updates.{IsGentle}
use nim_connect.Market.World.{
  World, M, Outcome, passes, fails, lost, head_outcome, Payment, pure, lift, ◌>>=◌, continue,
  read_clock, committed, transact, query, send_payment,
}
use nim_connect.Market.Settlement.{insert_entry}

-- A transaction that commits takes tables with the property to tables with the property.
abbrev pub Preserves : {A : Type 0} → (Tables → Type 0) → Tx A → Type 0
Preserves {A} Q body = (db db' : Tables) (a : A) → Q db → body db ≡ ok (a, db') → Q db'

-- What each transaction owes to a property that all actions are to keep.
pub record IsKept (Q : Tables → Type 0) : Type 0 where
  pub by_nonce : (nonce : Text) → Preserves Q (consume_nonce nonce)
  pub by_listing :
      (handle seller : Text) (price fee : ℕ) (epoch : Text) (now : ℕ)
      → Preserves Q (create_listing handle seller price fee epoch now)
  pub by_reserve :
      (handle trade_id reference buyer : Text) (now : ℕ) (counted : List Trade)
      → Preserves Q (reserve_listing handle trade_id reference buyer now counted)
  pub by_release :
      (trade_id : Text) (to : TradeState) (now : ℕ)
      → listing_trade_blocks_relist to ≡ false
      → Preserves Q (release_unpaid_reservation trade_id to now)
  pub by_transition :
      (trade_id : Text) (from to : TradeState) (mutate : Option (Trade → Trade)) (now : ℕ)
      → IsGentle (mutated mutate)
      → Preserves Q (transition trade_id from to mutate now)
  pub by_payout_mark :
      (trade_id : Text) (at now : ℕ) → Preserves Q (mark_payout_attempt trade_id at now)
  pub by_refund_mark :
      (trade_id : Text) (at now : ℕ) → Preserves Q (mark_refund_attempt trade_id at now)
  pub by_entry : (entry : LedgerEntry) → Preserves Q (insert_entry entry)

pub record Keeps {A : Type 0} (Q : Tables → Type 0) (m : M A) : Type 0 where
  pub at : (w : World) → Q w.tables → Q (m w).1.tables

module _ {A : Type 0} {Q : Tables → Type 0} where
  pub Keeps-pure : (a : A) → Keeps Q (pure a)
  unfolding pure
  Keeps-pure a = record { at = λ w h. h }

  pub Keeps-lift : (r : Result MarketError A) → Keeps Q (lift r)
  unfolding lift
  Keeps-lift r = record { at = λ w h. h }

  pub Keeps-query : (ask : Tables → A) (missing : A) → Keeps Q (query ask missing)
  unfolding query
  Keeps-query ask missing = record { at = λ w h. h }

  committed_keeps :
      (o : Outcome) (r : Result MarketError (A × Tables)) (db : Tables)
      → Q db
      → ((a : A) (db' : Tables) → r ≡ ok (a, db') → Q db')
      → Q (committed o r db).1
  committed_keeps fails r db h k = h
  committed_keeps passes (err e) db h k = h
  committed_keeps passes (ok (a, db')) db h k = k a db' refl
  committed_keeps lost (err e) db h k = h
  committed_keeps lost (ok (a, db')) db h k = k a db' refl

  pub Keeps-transact : (body : Tx A) → Preserves Q body → Keeps Q (transact body)
  unfolding transact
  Keeps-transact body k = record {
    at = λ w h.
        committed_keeps (head_outcome w.outcomes) (body w.tables) w.tables h
          (λ a db' e. k w.tables db' a h e);
  }

  pub Keeps-if : (b : Bool) (m n : M A) → Keeps Q m → Keeps Q n → Keeps Q (if b then m else n)
  Keeps-if true m n km kn = km
  Keeps-if false m n km kn = kn

pub Keeps-read_clock : {Q : Tables → Type 0} → Keeps Q read_clock
unfolding read_clock
Keeps-read_clock = record { at = λ w h. h }

pub Keeps-send_payment : {Q : Tables → Type 0} (p : Payment) → Keeps Q (send_payment p)
unfolding send_payment
Keeps-send_payment p = record { at = λ w h. h }

module _ {A B : Type 0} {Q : Tables → Type 0} where
  continue_keeps :
      (r : Result MarketError A) (f : A → M B) (w : World)
      → Q w.tables
      → ((a : A) → Keeps Q (f a))
      → Q (continue r f w).1.tables
  continue_keeps (ok a) f w h k = (k a).at w h
  continue_keeps (err e) f w h k = h

  pub Keeps-bind :
      (m : M A) (f : A → M B) → Keeps Q m → ((a : A) → Keeps Q (f a)) → Keeps Q (m >>= f)
  unfolding ◌>>=◌
  Keeps-bind m f km kf = record {
    at = λ w h. let (r, w') = m w in continue_keeps r f w' (km.at w h) kf;
  }

pub ruleset keeps_rules = (
  Keeps-pure, Keeps-lift, Keeps-query, Keeps-if, Keeps-read_clock, Keeps-send_payment, Keeps-bind,
)
