-- ===== src/Market/Store/Invariant.antt =====
-- What every transaction of the marketplace keeps true of the tables.
use nim_connect.Base.{
  ℕ, ◌+◌, ◌≤◌, ◌≡◌, refl, ◌∙◌, Bool, true, false, Option, none, some, List, Text, text_eq,
  text_eq_iff, arith, find, count, exists, ok,
}
use nim_connect.Base.Counts.{bit, count_of_exists, find_holds}
use nim_connect.Market.State.{Trade, Listing, ListingStatus}
use nim_connect.Market.Tables.{Tables, has_id, has_reference, find_trade, find_listing, write_trade}
use nim_connect.Market.Tables.Rows.{
  find_listing-set_status, find_listing-write_listing, count-write_trade,
}
use nim_connect.Market.Store.{
  is_open_for, listing_trade_blocks_relist, relistable, new_listing, create_listing,
  reserve_listing,
}

abbrev pub is_reserved : ListingStatus → Bool
is_reserved ListingStatus.reserved = true
is_reserved _ = false

-- 1 if the listing of the handle is reserved, and 0 if it is not or if there is none.
abbrev pub holds : Option Listing → ℕ
holds none = 0
holds (some l) = bit (is_reserved l.status)

-- No two trades share an id or a reference, and a handle has at most one open trade, and while it
-- has one its listing is reserved.
pub record IsConsistent (db : Tables) : Type 0 where
  pub ids_unique : (i : Text) → count (has_id i) db.trades ≤ 1
  pub references_unique : (r : Text) → count (has_reference r) db.trades ≤ 1
  pub open_held : (h : Text) → count (is_open_for h) db.trades ≤ holds (find_listing h db.listings)

module _ (handle trade_id reference buyer : Text) (now : ℕ) (counted : List Trade) (db db' : Tables)
    (trade : Trade) (v : IsConsistent db)
    (done : reserve_listing handle trade_id reference buyer now counted db ≡ ok (trade, db')) where
  reserve_ids : (i : Text) → count (has_id i) db'.trades ≤ 1
  unfolding reserve_listing count
  reserve_ids i =
      ground
        (arith, v.ids_unique i, count_of_exists (has_id trade_id) db.trades, text_eq_iff trade_id i)

  reserve_references : (r : Text) → count (has_reference r) db'.trades ≤ 1
  unfolding reserve_listing count
  reserve_references r = ground (
    arith,
    v.references_unique r,
    count_of_exists (has_reference reference) db.trades,
    text_eq_iff reference r,
  )

  reserve_open : (h : Text) → count (is_open_for h) db'.trades ≤ holds (find_listing h db'.listings)
  unfolding reserve_listing count listing_trade_blocks_relist
  reserve_open h = ground (
    arith,
    v.open_held h,
    find_listing-set_status handle h ListingStatus.reserved db.listings,
    text_eq_iff handle h,
  )

pub reserve_listing-IsConsistent :
    (handle trade_id reference buyer : Text) (now : ℕ) (counted : List Trade) (db db' : Tables)
    (trade : Trade)
    → IsConsistent db
    → reserve_listing handle trade_id reference buyer now counted db ≡ ok (trade, db')
    → IsConsistent db'
reserve_listing-IsConsistent handle i r b now counted db db' trade v done = record {
  ids_unique = reserve_ids handle i r b now counted db db' trade v done;
  references_unique = reserve_references handle i r b now counted db db' trade v done;
  open_held = reserve_open handle i r b now counted db db' trade v done;
}

closed_handle :
    (handle h : Text) (ts : List Trade)
    → text_eq handle h ≡ true
    → exists (is_open_for handle) ts ≡ false
    → count (is_open_for h) ts ≡ 0
closed_handle handle h ts e c =
    rw (← (text_eq_iff handle h).0 e) (count_of_exists (is_open_for handle) ts c)

create_open :
    (handle seller : Text) (price fee : ℕ) (epoch : Text) (now : ℕ) (db db' : Tables) (l : Listing)
    → IsConsistent db
    → create_listing handle seller price fee epoch now db ≡ ok (l, db')
    → (h : Text) → count (is_open_for h) db'.trades ≤ holds (find_listing h db'.listings)
unfolding create_listing relistable find_listing find
create_open handle seller price fee epoch now db db' l v done h = ground (
  arith,
  v.open_held h,
  closed_handle handle h db.trades,
  find_listing-write_listing h (new_listing handle seller price fee epoch now) db.listings,
)

pub create_listing-IsConsistent :
    (handle seller : Text) (price fee : ℕ) (epoch : Text) (now : ℕ) (db db' : Tables) (l : Listing)
    → IsConsistent db
    → create_listing handle seller price fee epoch now db ≡ ok (l, db')
    → IsConsistent db'
unfolding create_listing
create_listing-IsConsistent handle seller price fee epoch now db db' l v done = record {
  ids_unique = λ i. ground (arith, v.ids_unique i);
  references_unique = λ r. ground (arith, v.references_unique r);
  open_held = create_open handle seller price fee epoch now db db' l v done;
}

-- What an UPDATE of a trade may change: not its keys, and it does not reopen a trade.
pub record IsUpdate (old new : Trade) : Type 0 where
  pub same_id : new.id ≡ old.id
  pub same_reference : new.reference ≡ old.reference
  pub same_handle : new.handle ≡ old.handle
  pub same_buyer : new.buyer ≡ old.buyer
  pub open_before :
      listing_trade_blocks_relist new.state ≡ true → listing_trade_blocks_relist old.state ≡ true

module _ (i : Text) (old new : Trade) (db : Tables) (v : IsConsistent db)
    (found : find_trade i db.trades ≡ some old) (u : IsUpdate old new) where
  found_id : old.id ≡ i
  unfolding find_trade
  found_id = (text_eq_iff old.id i).0 (find_holds (has_id i) db.trades found)

  -- How a count changes.
  pub part :
      (p : Trade → Bool)
      → ((t : Trade) (c : ℕ) → p (record t { created_at = c }) ≡ p t)
      → count p (write_trade new db.trades) + bit (p old) ≡ count p db.trades + bit (p new)
  part p blind =
      count-write_trade p new db.trades blind (v.ids_unique new.id)
        (rw (u.same_id ∙ found_id) found)

  pub update-IsConsistent : IsConsistent (record db { trades = write_trade new db.trades })
  update-IsConsistent = record {
    ids_unique = λ j. ground (arith, v.ids_unique j, part (has_id j) (λ t c. refl));
    references_unique =
        λ r. ground (arith, v.references_unique r, part (has_reference r) (λ t c. refl));
    open_held =
        λ h. ground (arith, v.open_held h, part (is_open_for h) (λ t c. refl), u.open_before);
  }
