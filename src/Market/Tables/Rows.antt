-- ===== src/Market/Tables/Rows.antt =====
-- What the UPDATE statements do to the rows that are found and counted afterwards.
use mathlib.Core.Option
use nim_connect.Base.{
  ℕ, ◌+◌, ◌≤◌, ◌≡◌, refl, Bool, some, List, [], ◌∷◌, Text, text_eq, text_eq_iff, arith, find, count,
  if◌then◌else◌,
}
use nim_connect.Base.Counts.{bit}
use nim_connect.Market.State.{Trade, Listing, ListingStatus}
use nim_connect.Market.Tables.{
  has_id, find_trade, find_listing, write_trade, set_status, write_listing,
}

pub find_trade-write_trade :
    (i : Text) (new : Trade) (ts : List Trade)
    → find_trade i (write_trade new ts) ≡ (
        if text_eq new.id i
        then Option.map (λ t. record new { created_at = t.created_at }) (find_trade i ts)
        else find_trade i ts)
unfolding find_trade find write_trade
find_trade-write_trade i new [] = ground arith
find_trade-write_trade i new (t ∷ ts) = ground (
  arith,
  find_trade-write_trade i new ts,
  text_eq_iff new.id i,
  text_eq_iff t.id new.id,
  text_eq_iff t.id i,
)

pub find_listing-set_status :
    (h j : Text) (s : ListingStatus) (ls : List Listing)
    → find_listing j (set_status h s ls) ≡ (
        if text_eq h j
        then Option.map {A = Listing} (λ l. record l { status = s }) (find_listing j ls)
        else find_listing j ls)
unfolding find_listing find set_status
find_listing-set_status h j s [] = ground arith
find_listing-set_status h j s (l ∷ ls) = ground (
  arith,
  find_listing-set_status h j s ls,
  text_eq_iff h j,
  text_eq_iff l.handle h,
  text_eq_iff l.handle j,
)

pub find_listing-write_listing :
    (j : Text) (new : Listing) (ls : List Listing)
    → find_listing j (write_listing new ls) ≡ (
        if text_eq new.handle j
        then Option.map (λ _. new) (find_listing j ls)
        else find_listing j ls)
unfolding find_listing find write_listing
find_listing-write_listing j new [] = ground arith
find_listing-write_listing j new (l ∷ ls) = ground (
  arith,
  find_listing-write_listing j new ls,
  text_eq_iff new.handle j,
  text_eq_iff l.handle new.handle,
  text_eq_iff l.handle j,
)

pub write_trade_absent :
    (new : Trade) (ts : List Trade) → count (has_id new.id) ts ≡ 0 → write_trade new ts ≡ ts
unfolding write_trade count
write_trade_absent new [] h = refl
write_trade_absent new (t ∷ ts) h = ground (arith, write_trade_absent new ts)

-- An UPDATE of one row changes a count by that row's part. (No test looks at `created_at`.)
pub count-write_trade :
    (p : Trade → Bool) (new : Trade) (ts : List Trade) {old : Trade}
    → ((t : Trade) (c : ℕ) → p (record t { created_at = c }) ≡ p t)
    → count (has_id new.id) ts ≤ 1
    → find_trade new.id ts ≡ some old
    → count p (write_trade new ts) + bit (p old) ≡ count p ts + bit (p new)
unfolding find_trade find write_trade count
count-write_trade p new [] blind once h = cc
count-write_trade p new (t ∷ ts) {old} blind once h = ground (
  arith,
  count-write_trade p new ts {old = old} blind,
  write_trade_absent new ts,
  blind new t.created_at,
)
