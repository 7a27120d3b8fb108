-- ===== src/Market/Kept/Instances.antt =====
-- Two properties that all transactions keep: that the tables are consistent, and that they have
-- evolved from tables that were seen before.
use nim_connect.Base.{ℕ, ◌≡◌, Text, ok, arith}
use nim_connect.Market.State.{Listing}
use nim_connect.Market.Tables.{Tables, LedgerEntry}
use nim_connect.Market.Store.{consume_nonce, create_listing}
use nim_connect.Market.Store.Invariant.{
  IsConsistent, reserve_listing-IsConsistent, create_listing-IsConsistent,
}
use nim_connect.Market.Store.Updates.{
  transition-IsConsistent, release-IsConsistent, mark_payout_attempt-IsConsistent,
  mark_refund_attempt-IsConsistent,
}
use nim_connect.Market.Store.History.{
  Evolves, Evolves-trans, transition-Evolves, mark_payout_attempt-Evolves,
  mark_refund_attempt-Evolves, release-Evolves, reserve_listing-Evolves, same_trades-Evolves,
}
use nim_connect.Market.Settlement.{insert_entry}
use nim_connect.Market.Kept.{IsKept}

same_rows-IsConsistent :
    (db db' : Tables)
    → db'.trades ≡ db.trades
    → db'.listings ≡ db.listings
    → IsConsistent db
    → IsConsistent db'
same_rows-IsConsistent db db' t l v = record {
  ids_unique = rw t v.ids_unique;
  references_unique = rw t v.references_unique;
  open_held = rw (t, l) v.open_held;
}

nonce_rows :
    (nonce : Text) (db db' : Tables) (a : Unit {0})
    → consume_nonce nonce db ≡ ok (a, db')
    → (db'.trades ≡ db.trades) × (db'.listings ≡ db.listings)
unfolding consume_nonce
nonce_rows nonce db db' a done = ground arith

listing_trades :
    (handle seller : Text) (price fee : ℕ) (epoch : Text) (now : ℕ) (db db' : Tables) (l : Listing)
    → create_listing handle seller price fee epoch now db ≡ ok (l, db')
    → db'.trades ≡ db.trades
unfolding create_listing
listing_trades handle seller price fee epoch now db db' l done = ground arith

entry_rows :
    (entry : LedgerEntry) (db db' : Tables) (e : LedgerEntry)
    → insert_entry entry db ≡ ok (e, db')
    → (db'.trades ≡ db.trades) × (db'.listings ≡ db.listings)
unfolding insert_entry
entry_rows entry db db' e done = ground arith

-- Every transaction keeps the tables consistent.
pub IsConsistent-IsKept : IsKept IsConsistent
IsConsistent-IsKept = record {
  by_nonce =
      λ n db db' a v d. let (t, l) = nonce_rows n db db' a d in same_rows-IsConsistent db db' t l v;
  by_listing = λ h s p f e now db db' l v d. create_listing-IsConsistent h s p f e now db db' l v d;
  by_reserve =
      λ h i r b now c db db' t v d. reserve_listing-IsConsistent h i r b now c db db' t v d;
  by_release = λ i to now c db db' u v d. release-IsConsistent i to now db db' c v d;
  by_transition =
      λ i from to m now g db db' u v d. transition-IsConsistent i from to m now db db' g v d;
  by_payout_mark = λ i at now db db' t v d. mark_payout_attempt-IsConsistent i at now db db' t v d;
  by_refund_mark = λ i at now db db' t v d. mark_refund_attempt-IsConsistent i at now db db' t v d;
  by_entry =
      λ e db db' s v d. let (t, l) = entry_rows e db db' s d in same_rows-IsConsistent db db' t l v;
}

-- Every transaction keeps each trade and moves it on at most.
pub Evolves-IsKept : (start : Tables) → IsKept (Evolves start)
Evolves-IsKept start = record {
  by_nonce =
      λ n db db' a v d. Evolves-trans v (same_trades-Evolves db db' (nonce_rows n db db' a d).0);
  by_listing = λ h s p f e now db db' l v d.
      Evolves-trans v (same_trades-Evolves db db' (listing_trades h s p f e now db db' l d));
  by_reserve = λ h i r b now c db db' t v d.
      Evolves-trans v (reserve_listing-Evolves h i r b now c db db' t d);
  by_release = λ i to now c db db' u v d. Evolves-trans v (release-Evolves i to now db db' d);
  by_transition = λ i from to m now g db db' u v d.
      Evolves-trans v (transition-Evolves i from to m now db db' g d);
  by_payout_mark =
      λ i at now db db' t v d. Evolves-trans v (mark_payout_attempt-Evolves i at now db db' t d);
  by_refund_mark =
      λ i at now db db' t v d. Evolves-trans v (mark_refund_attempt-Evolves i at now db db' t d);
  by_entry =
      λ e db db' s v d. Evolves-trans v (same_trades-Evolves db db' (entry_rows e db db' s d).0);
}
