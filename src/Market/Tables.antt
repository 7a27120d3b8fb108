-- ===== src/Market/Tables.antt =====
-- The tables of backend/migrations/001_app_state.sql that the marketplace keeps, and the SQL
-- statements of backend/marketplace_store.go and backend/marketplace_ledger.go on them. Rows have
-- no order that the program relies on: a new row goes to the front.
pub mod Rows
use nim_connect.Base.{
  ℕ, Bool, ◌&&◌, Option, List, [], ◌∷◌, Text, text_eq, if◌then◌else◌, find, count,
}
use nim_connect.Base.Int.{ℤ}
use nim_connect.Address.{compact_address}
use nim_connect.Market.State.{ListingStatus, Listing, Trade, is_unpaid_reservation}

pub data LedgerEntryType : Type 0 where
  deposit payout refund fee network_fee : LedgerEntryType

pub record LedgerEntry : Type 0 where
  pub sequence : ℕ
  pub trade_id : Text
  pub type : LedgerEntryType
  pub amount_luna : ℤ
  pub tx_hash : Text
  pub timestamp : ℕ

pub record Tables : Type 0 where
  pub listings : List Listing
  pub trades : List Trade
  pub nonces : List Text
  pub ledger : List LedgerEntry

-- WHERE id = $1
abbrev pub has_id : Text → Trade → Bool
has_id i t = text_eq t.id i

abbrev pub has_reference : Text → Trade → Bool
has_reference r t = text_eq t.reference r

abbrev pub has_handle : Text → Listing → Bool
has_handle h l = text_eq l.handle h

unfoldable pub find_trade : Text → List Trade → Option Trade
find_trade i trades = find (has_id i) trades

unfoldable pub find_listing : Text → List Listing → Option Listing
find_listing h listings = find (has_handle h) listings

-- The columns that `writeTradeTx` sets are all but `id` and `created_at`.
unfoldable pub write_trade : Trade → List Trade → List Trade
write_trade trade [] = []
write_trade trade (t ∷ ts) =
    (if has_id trade.id t then record trade { created_at = t.created_at } else t)
    ∷ write_trade trade ts

-- UPDATE marketplace_listings SET status = $2 WHERE handle = $1
unfoldable pub set_status : Text → ListingStatus → List Listing → List Listing
set_status h s [] = []
set_status h s (l ∷ ls) =
    (if has_handle h l then record l { status = s } else l) ∷ set_status h s ls

-- The UPDATE of `CreateListing` sets every column but the key.
unfoldable pub write_listing : Listing → List Listing → List Listing
write_listing listing [] = []
write_listing listing (l ∷ ls) =
    (if has_handle listing.handle l then listing else l) ∷ write_listing listing ls

-- `unpaidReservationCountTx`
unfoldable pub is_unpaid_of : Text → Trade → Bool
is_unpaid_of compact t = text_eq (compact_address t.buyer) compact && is_unpaid_reservation t

unfoldable pub unpaid_reservation_count : Text → List Trade → ℕ
unpaid_reservation_count buyer trades = count (is_unpaid_of (compact_address buyer)) trades
